-- ===== src/Router/Tests.antt =====
-- Runs of the router on small tables, and the theorems at inputs that meet their hypotheses.
use sveltego.Router.Segment.{Segment, SegmentKind, static, param, optional, rest, Route}
use sveltego.Router.Tree.{Node, node, nil, cons, absent, root_label, leaf, Error}
use sveltego.Router.Table.{Matchers}
use sveltego.Router.State.{push, truncate}
use sveltego.Kit.PageOptions.{default_page_options}
use sveltego.Router.Tree.{
  insert, insert_at, child_for, set_route, insert_all, duplicate_pattern, Error,
}
use sveltego.Router.Spec.{
  propagate_spec, sort_all, best_nodes, best_of, static_before, param_before, sort_nodes,
  route_spec,
}
use sveltego.Router.Table.{Tree, tag, route_id, new_tree, with_matchers}
use sveltego.Router.State.{at}
use sveltego.Router.Match.{match_node, accepts}
use sveltego.Router.Split.{
  split_and_decode, split_relative, path_unescape, split_and_decode-decode_all, decode_all,
  pieces_or_none, relative,
}
use sveltego.Router.Resolve.{Params, match}
use sveltego.Router.Resolve.Sound.{
  Resolves, match_sound, match_complete, first_match, match-first_match,
}
use sveltego.Router.Paths.{literal, done}
use sveltego.Base.Map.{lookup, insert as insert_key}
use sveltego.Router.Replaced.{new_tree-replaces, single_optional}
use sveltego.Base.{
  ◌>>=◌, Result, ok, err, ℕ, String, ◌≡◌, refl, ◌≢◌, inl, Bool, true, false, ◌&&◌, Option, none,
  some, List, [], ◌∷◌, leb, Str, str, str_eq, str_lt,
}

router : Unit {0}
unfolding match new_tree insert insert_at child_for set_route insert_all propagate_spec sort_all
    best_nodes best_of static_before param_before sort_nodes route_spec match_node accepts
    split_and_decode split_relative path_unescape lookup insert_key push truncate at route_id str_eq
    str_lt with_matchers
router = tt

abbrev literal_segment : String → Segment
literal_segment v = record { kind = static; name = []; value = str v; matcher = [] }

abbrev named_segment : SegmentKind → String → String → Segment
named_segment k n m = record { kind = k; name = str n; value = []; matcher = str m }

abbrev page : String → List Segment → Route
page pattern segments = record {
  id = [];
  pattern = str pattern;
  segments = segments;
  page = true;
  server = [];
  load = false;
  actions = false;
  options = default_page_options;
}

abbrev post : Route
post = page "/post/[id=int]" (literal_segment "post" ∷ named_segment param "id" "int" ∷ [])

abbrev latest : Route
latest = page "/post/latest" (literal_segment "post" ∷ literal_segment "latest" ∷ [])

abbrev files : Route
files =
    page "/[[lang]]/files/[...path]" (
      named_segment optional "lang" ""
      ∷ literal_segment "files"
      ∷ named_segment rest "path" ""
      ∷ [])

abbrev table : List Route
table = post ∷ latest ∷ files ∷ []

abbrev is_digit : ℕ → Bool
is_digit c = leb b'0' c && leb c b'9'

abbrev all_digits : Str → Bool
all_digits [] = true
all_digits (c ∷ s) = is_digit c && all_digits s

abbrev ints : Matchers
ints = (str "int", all_digits) ∷ []

abbrev ask : List Route → String → Result Error (Option (Str × Params))
ask routes path = do
  t ← new_tree routes
  t' ← with_matchers t ints
  ok (elim (match t' (str path)) [ none ↦ none | some (r, ps) ↦ some (r.pattern, ps) ])

match_tests :
    (ask table "/post/latest" ≡ ok (some (latest.pattern, [])))
    × (ask table "/post/42" ≡ ok (some (post.pattern, (str "id", str "42") ∷ [])))
    × (ask table "/post/x" ≡ ok none)
    × (ask table "/en/files/a%2Fb/c"
        ≡ ok (some (files.pattern, (str "lang", str "en") ∷ (str "path", str "a/b/c") ∷ [])))
    × (ask table "/files" ≡ ok (some (files.pattern, (str "lang", []) ∷ (str "path", []) ∷ [])))
    × (ask table "/post/%4" ≡ ok none)
unfolding router
match_tests = (refl, refl, refl, refl, refl, refl)

route_id_test : route_id (str "/") ≡ str "2a0c975e"
unfolding router
route_id_test = refl

-- A second route at one node is refused.
duplicate_test : ask (post ∷ post ∷ []) "/" ≡ err (duplicate_pattern post.pattern)
unfolding router
duplicate_test = refl

abbrev tree_of : Result Error Tree → Tree
tree_of (ok t) = t
tree_of (err _) = record { root = leaf root_label; routes = []; matchers = none }

abbrev built : Tree
unfolding router
built = tree_of (new_tree table)

abbrev found : Params
found = (str "id", str "42") ∷ []

match_sound_example :
    Resolves table (record built { matchers = some ints }) (str "/post/42") (tag post) found
unfolding router
match_sound_example =
    match_sound table built (some ints) (str "/post/42") (tag post) found refl refl

abbrev one : Node
one =
    node (cons (node nil nil absent absent (literal_segment "a") (some post) none) nil) nil absent
      absent root_label none none

abbrev small : Tree
small = record { root = one; routes = []; matchers = none }

match_complete_example : match small (str "/a") ≢ none
unfolding split_and_decode split_relative path_unescape
match_complete_example =
    match_complete small (str "/a") (str "a" ∷ []) (literal_segment "a" ∷ []) post refl
      (_, inl refl, refl, refl) (literal refl refl done)

match-first_match_example : match small (str "/a") ≡ first_match small (split_and_decode (str "/a"))
match-first_match_example = match-first_match small (str "/a")

split_and_decode-decode_all_example :
    split_and_decode (str "/a%20b/c") ≡ decode_all (pieces_or_none (relative (str "/a%20b/c")))
split_and_decode-decode_all_example = split_and_decode-decode_all (str "/a%20b/c")

-- `/[[lang]]/about`, lost to `/[[locale]]/home`
abbrev about : Route
about = page "/[[lang]]/about" (named_segment optional "lang" "" ∷ literal_segment "about" ∷ [])

abbrev home : Route
home = page "/[[locale]]/home" (named_segment optional "locale" "" ∷ literal_segment "home" ∷ [])

abbrev built_of : Result Error Tree → Tree
built_of (ok t) = t
built_of (err _) = record { root = leaf root_label; routes = []; matchers = none }

about_and_home : new_tree (about ∷ home ∷ []) ≡ ok (built_of (new_tree (about ∷ home ∷ [])))
unfolding router
about_and_home = refl

new_tree-replaces_example :
    (u : Tree) × (new_tree (home ∷ []) ≡ ok u)
    × ((matchers : Option Matchers) (path : Str)
        → match (record (built_of (new_tree (about ∷ home ∷ []))) { matchers = matchers }) path
          ≡ match (record u { matchers = matchers }) path)
new_tree-replaces_example =
    new_tree-replaces optional (named_segment optional "lang" "")
      (named_segment optional "locale" "") (literal_segment "about" ∷ [])
      (literal_segment "home" ∷ []) about home [] (built_of (new_tree (about ∷ home ∷ [])))
      (record {
        single = single_optional;
        first_kind = refl;
        second_kind = refl;
        differ = inl names_differ;
      })
      refl refl about_and_home
  where
    names_differ : str "lang" ≢ str "locale"
    names_differ e = cc
