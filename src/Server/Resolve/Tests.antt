-- ===== src/Server/Resolve/Tests.antt =====
-- Requests to a form and for a page's data.
use sveltego.Kit.PageOptions.{default_page_options, always}
use sveltego.Router.Segment.{Segment, Route, static}
use sveltego.Router.Tree.{node, nil, cons, absent, root_label}
use sveltego.Router.Table.{Tree}
use sveltego.Base.Map.{lookup}
use sveltego.Kit.Cookies.{get}
use sveltego.Router.Match.{match_node}
use sveltego.Router.Split.{split_and_decode, split_relative, path_unescape}
use sveltego.Router.Resolve.{Params}
use sveltego.Server.Csrf.{Event}
use sveltego.Server.Slash.{Url}
use sveltego.Server.Slash.{trailing_slash_redirect, canonical_redirect}
use sveltego.Server.Actions.{ActionResult, action_data, redirect_response}
use sveltego.Server.Resolve.{Incoming, respond, is_data_path}
use sveltego.Server.Resolve.{path_to_match, find_route, resolve}
use sveltego.Server.Resolve.Guarded.{Guarded, resolve-Guarded}
use sveltego.Server.Resolve.Data.{resolve-data_always}
use sveltego.Base.{◌≡◌, refl, ◌≢◌, true, false, none, some, List, [], ◌∷◌, ◌++◌, Str, str, String}

abbrev contact : Route
contact = record {
  id = [];
  pattern = str "/a";
  segments = [];
  page = true;
  server = [];
  load = false;
  actions = true;
  options = default_page_options;
}

abbrev slashed : Route
slashed = record contact { options = record default_page_options { trailing_slash = always } }

abbrev a_label : Segment
a_label = record { kind = static; name = []; value = str "a"; matcher = [] }

abbrev tree_with : Route → Tree
tree_with r = record {
  root =
      node (cons (node nil nil absent absent a_label (some r) none) nil) nil absent absent
        root_label none none;
  routes = [];
  matchers = none;
}

abbrev names : Route → List Str
names r = str "send" ∷ str "default" ∷ []

abbrev run : Event → Str → ActionResult Str
run ev name = action_data 0 name

abbrev event : Event
event = record {
  cookies = record { inbox = (str "_csrf", str "t1") ∷ []; out = []; https = true };
  token = none;
}

abbrev at_path : String → String → Url
at_path path query = record {
  path = str path;
  raw_query = str query;
  force_query = false;
  scheme = [];
  host = [];
}

abbrev sent : Incoming
sent = record {
  request = record { method = str "POST"; form = (str "_csrf_token", str "t1") ∷ []; headers = [] };
  url = at_path "/a" "x=1&/send";
  rewritten = [];
}

abbrev fetched : Incoming
fetched = record {
  request = record { method = str "GET"; form = []; headers = [] };
  url = at_path "/a/__data.json" "";
  rewritten = [];
}

sent_ran : (resolve (tree_with contact) [] names run sent event).ran ≡ str "send" ∷ []
unfolding resolve split_and_decode split_relative path_unescape match_node get lookup
sent_ran = refl

resolve-Guarded_example :
    (r : Route) × (ps : Params) × (find_route (tree_with contact) (path_to_match [] sent.url)
      ≡ some (r, ps))
    × Guarded names sent event r (resolve (tree_with contact) [] names run sent event).ran
    × (trailing_slash_redirect (some sent.url) r.options.trailing_slash ≡ [])
    × (r.server ≡ [])
resolve-Guarded_example = resolve-Guarded (tree_with contact) [] names run sent event called
  where
    called : (resolve (tree_with contact) [] names run sent event).ran ≢ []
    called e = cc (sent_ran, e)

resolve-data_always_example :
    ((resolve (tree_with slashed) [] names run fetched event).outcome
      ≡ respond
          (redirect_response 308 (canonical_redirect fetched.url (fetched.url.path ++ str "/"))))
    × (is_data_path (fetched.url.path ++ str "/") ≡ false)
unfolding find_route path_to_match split_and_decode split_relative path_unescape match_node
resolve-data_always_example =
    resolve-data_always (tree_with slashed) [] names run fetched event slashed [] refl refl refl
