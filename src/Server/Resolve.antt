-- ===== src/Server/Resolve.antt =====
-- server/pipeline.go, `resolve`: what becomes of a request. What the routes' code does is a
-- parameter, and which renderer is called is the outcome. The URL of the event is the request's.
mod Guarded
mod Data
mod Tests
use sveltego.Kit.PageOptions.{PageOptions, default}
unfoldable use sveltego.Kit.PageOptions.{equal}
use sveltego.Router.Segment.{Route}
use sveltego.Router.Table.{Tree}
use sveltego.Router.Resolve.{Params}
unfoldable use sveltego.Router.Resolve.{match}
use sveltego.Server.Csrf.{Request, Event, Response, text_or_empty, is_empty}
unfoldable use sveltego.Server.Csrf.{apply_csrf}
use sveltego.Server.Actions.{
  ActionResult, FormData, Envelope, Dispatched, answered, fell_through, unknown_result,
  redirect_response, enhance_forbidden, is_nil,
}
unfoldable use sveltego.Server.Actions.{
  is_listed, dispatch_action, enhance_response, enhance_form, is_enhance_request,
}
use sveltego.Server.Slash.{Url}
unfoldable use sveltego.Server.Slash.{toggle_path_slash, trailing_slash_redirect}
use sveltego.Base.{
  ◌-◌, Bool, true, false, ◌&&◌, not, Option, none, some, List, [], if◌then◌else◌, length, take, Str,
  str,
}
unfoldable use sveltego.Base.{str_eq, has_suffix}

-- How `resolve` returns: the error of status 404, `errUnknownActionResult`, a response of its own,
-- an envelope, `errServerRouteWrote` behind a handler or behind `methodNotAllowed`, and the calls
-- of `renderDataJSON`, `renderSvelteShell`, `renderEmptyShell` and `renderPage`.
pub data Outcome (D : Type 0) : Type 0 where
  not_found : Outcome D
  unknown_action_result : Outcome D
  respond : Response → Outcome D
  enveloped : Envelope D → Outcome D
  server_handler : Str → Outcome D
  server_not_allowed : List Str → Outcome D
  data_json : Outcome D
  svelte_shell : Option (FormData D) → Outcome D
  empty_shell : Outcome D
  page : Option (FormData D) → Outcome D

-- The outcome, the event as it is left, and the actions that were called.
pub record Resolved (D : Type 0) : Type 0 where
  pub outcome : Outcome D
  pub event : Event
  pub ran : List Str

abbrev pub data_suffix : Str
data_suffix = str "/__data.json"

abbrev pub is_data_path : Str → Bool
is_data_path path = has_suffix path data_suffix

-- What is matched: the rewritten path or the URL's, without the suffix of a data request.
unfoldable pub path_to_match : Str → Url → Str
unfolding has_suffix
path_to_match rewritten u =
    let p = if is_empty rewritten then u.path else rewritten in
    let cut = if is_data_path p then take (length p - length data_suffix) p else p in
    if is_data_path u.path then if is_empty cut then str "/" else cut else p

-- The match, with the second try at the path with its slash toggled.
unfoldable pub find_route : Tree → Str → Option (Route × Params)
unfolding match toggle_path_slash str_eq
find_route t p = elim (match t p) [
  | some found ↦ some found
  | none ↦
      let alt = toggle_path_slash p in elim (str_eq alt p) [ true ↦ none | false ↦ match t alt ]
]

-- The zero value of kit.PageOptions.
abbrev pub zero_options : PageOptions
zero_options = record {
  prerender = false;
  prerender_auto = false;
  prerender_protected = false;
  ssr = false;
  csr = false;
  ssr_only = false;
  csrf = false;
  trailing_slash = default;
  image_widths = [];
  templates = [];
}

-- `optionsAllowSSR`
unfoldable pub options_allow_ssr : PageOptions → Bool
unfolding equal
options_allow_ssr o = if equal o zero_options then true else o.ssr

abbrev pub is_svelte : Route → Bool
is_svelte r = str_eq r.options.templates (str "svelte")

-- A request as `resolve` reads it; `rewritten` is `MatchPath`.
pub record Incoming : Type 0 where
  pub request : Request
  pub url : Url
  pub rewritten : Str

-- `fresh` is the token that `applyCSRF` may draw, `names` and `run` the actions of a route.
module _ {D : Type 0} (tree : Tree) (fresh : Str) (names : Route → List Str)
    (run : Event → Str → ActionResult D) where
  -- From `optionsAllowSSR` on.
  unfoldable pub render : Route → Option (FormData D) → Outcome D
  unfolding options_allow_ssr str_eq
  render r form =
      if not (options_allow_ssr r.options)
      then (if is_svelte r then svelte_shell form else empty_shell)
      else if is_svelte r && not r.page
      then svelte_shell form
      else page form

  -- The branch of POST, behind the check, and what follows it.
  unfoldable pub after_dispatch : Request → Route → Dispatched D → Outcome D
  unfolding render enhance_response enhance_form is_enhance_request
  after_dispatch q r unknown_result = unknown_action_result
  after_dispatch q r (answered p) =
      if is_enhance_request q then enveloped (enhance_response p) else respond p
  after_dispatch q r (fell_through form) =
      if is_enhance_request q then enveloped (enhance_form form) else render r form

  unfoldable pub after_csrf : Incoming → Route → Event → Resolved D
  unfolding after_dispatch dispatch_action str_eq
  after_csrf i r ev =
      if str_eq i.request.method (str "POST")
      then (let d = dispatch_action (names r) (run ev) i.url.raw_query r in
          record { outcome = after_dispatch i.request r d.0; event = ev; ran = d.1 })
      else record { outcome = render r none; event = ev; ran = [] }

  -- From the second test for a data request on.
  unfoldable pub serve_page : Incoming → Route → Event → Resolved D
  unfolding apply_csrf after_csrf has_suffix is_enhance_request
  serve_page i r ev =
      let checked = apply_csrf fresh i.request ev (some r) in
      if is_data_path i.url.path
      then (if r.options.ssr_only
          then record { outcome = not_found; event = ev; ran = [] }
          else record { outcome = data_json; event = checked.0; ran = [] })
      else elim checked.1 [
        | some rejected ↦ record {
          outcome =
              if is_enhance_request i.request
              then enveloped enhance_forbidden
              else respond rejected;
          event = checked.0;
          ran = [];
        }
        | none ↦ after_csrf i r checked.0
      ]

  -- `len(route.Server) > 0`: the handler of the method, if there is one.
  unfoldable pub serve_methods : Incoming → Route → Outcome D
  unfolding is_listed
  serve_methods i r =
      if is_listed i.request.method r.server
      then server_handler i.request.method
      else server_not_allowed r.server

  unfoldable pub serve_route : Incoming → Route → Event → Resolved D
  unfolding trailing_slash_redirect serve_methods serve_page str_eq
  serve_route i r ev =
      let location = trailing_slash_redirect (some i.url) r.options.trailing_slash in
      if not (is_empty location)
      then record { outcome = respond (redirect_response 308 location); event = ev; ran = [] }
      else if not (is_nil r.server)
      then record { outcome = serve_methods i r; event = ev; ran = [] }
      else if not (is_svelte r) && not r.page
      then record { outcome = not_found; event = ev; ran = [] }
      else serve_page i r ev

  unfoldable pub resolve : Incoming → Event → Resolved D
  unfolding find_route path_to_match serve_route
  resolve i ev = elim (find_route tree (path_to_match i.rewritten i.url)) [
    | none ↦ record { outcome = not_found; event = ev; ran = [] }
    | some found ↦ serve_route i found.0 ev
  ]
