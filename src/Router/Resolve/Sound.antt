-- ===== src/Router/Resolve/Sound.antt =====
-- `Match` against its specification, for the trees that `NewTree` builds.
use mathlib.Core.List.{Memᴰ}
use sveltego.Router.Segment.{Segment, Route}
use sveltego.Router.Table.{Matchers}
use sveltego.Router.State.{Capture, captures}
use sveltego.Router.State.{zero_state, zero_state-IsValid}
use sveltego.Router.Table.{Tree, tag, new_tree}
use sveltego.Router.Table.Build.{new_tree-Leads, Fits-labels}
use sveltego.Router.Match.{Outcome, match_node}
use sveltego.Router.Match.Search.{Hit, hits}
use sveltego.Router.Match.Agree.{Agrees, match_node-Agrees}
use sveltego.Router.Match.Sound.{hits_sound}
use sveltego.Router.Match.Complete.{NonEmpty, hits_complete}
use sveltego.Router.Split.{split_and_decode}
use sveltego.Router.Resolve.{Params, result_of, match}
use sveltego.Router.Resolve.Bindings.{bindings, params_from-bindings}
use sveltego.Router.Paths.{Leads, Fits}
use mathlib.Core.Option.{some-injective}
use sveltego.Base.{
  ok, ◌≡◌, refl, sym, ap, ◌∙◌, ◌≢◌, inl, inr, Option, none, some, List, [], ◌∷◌, map, Option-cases,
  Str,
}

-- What `Match` returns for a list of hits: the first one, its captures as a map.
abbrev pub first_result : List Hit → Option (Route × Params)
first_result [] = none
first_result ((r, cs) ∷ _) = some (r, bindings cs)

result_of-Agrees : (m : Outcome) (hs : List Hit) → Agrees [] m hs → result_of m ≡ first_result hs
unfolding result_of
result_of-Agrees (none, st) [] a = refl
result_of-Agrees (some r, st) [] (e, held, v) = cc
result_of-Agrees (none, st) (h ∷ hs) (e, held, v) = cc
result_of-Agrees (some r, st) ((q, cs) ∷ hs) (e, held, v) =
    ap some (λ i. (some-injective r q e i, (params_from-bindings st v ∙ ap bindings held) i))

abbrev pub first_match : Tree → Option (List Str) → Option (Route × Params)
first_match t none = none
first_match t (some vs) = first_result (hits t.matchers t.root vs)

-- `Match` is a search with no mutable state: it splits and decodes the path, and returns the
-- first of the hits in resolution order, with its captures as the parameters.
pub match-first_match :
    (t : Tree) (path : Str) → match t path ≡ first_match t (split_and_decode path)
unfolding match captures
match-first_match t path = go (split_and_decode path)
  where
    go :
        (o : Option (List Str))
        → elim o [
          | none ↦ none
          | some segs ↦ result_of (match_node t.matchers t.root segs zero_state)
        ]
          ≡ first_match t o
    go none = refl
    go (some vs) =
        result_of-Agrees (match_node t.matchers t.root vs zero_state) (hits t.matchers t.root vs)
          (match_node-Agrees t.matchers t.root vs [] zero_state refl zero_state-IsValid)

-- A route of the table whose pattern fits the decoded path, with the parameters that it binds.
pub record Resolves (routes : List Route) (t : Tree) (path : Str) (r : Route) (ps : Params)
    : Type 0 where
  pub listed : Memᴰ r (map tag routes)
  pub segments : List Str
  pub decoded : split_and_decode path ≡ some segments
  pub bound : List Capture
  pub fits : Fits t.matchers r.segments segments bound
  pub params : ps ≡ bindings bound

first_hit :
    (hs : List Hit) {r : Route} {ps : Params}
    → first_result hs ≡ some (r, ps)
    → (cs : List Capture) × Memᴰ (r, cs) hs × (ps ≡ bindings cs)
first_hit [] e = cc
first_hit ((q, cs) ∷ hs) e =
    let same = some-injective _ _ e in
    (cs, Memᴰ.head (λ i. (sym (ap (λ p. p.0) same) i, cs)), sym (ap (λ p. p.1) same))

-- Whatever `Match` returns on a tree that `NewTree` built, with any matchers installed, is a
-- listed route whose pattern fits the decoded path, with the parameters that this binds.
pub match_sound :
    (routes : List Route) (t : Tree) (matchers : Option Matchers) (path : Str) (r : Route)
    (ps : Params)
    → new_tree routes ≡ ok t
    → match (record t { matchers = matchers }) path ≡ some (r, ps)
    → Resolves routes (record t { matchers = matchers }) path r ps
match_sound routes t matchers path r ps built found =
    let t' = record t { matchers = matchers } in
    let e = sym (match-first_match t' path) ∙ found in
    elim (Option-cases (split_and_decode path)) [
      | inl bad ↦ cc (rw bad at e)
      | inr (vs, good) ↦
          let (cs, mem, params) = first_hit (hits matchers t.root vs) (rw good at e) in
          let (labels, leads, fits) = hits_sound matchers t.root vs (r, cs) mem in
          let (listed, same) = new_tree-Leads routes labels r built leads in
          record {
            listed = listed;
            segments = vs;
            decoded = good;
            bound = cs;
            fits = Fits-labels matchers r.segments same fits;
            params = params;
          }
    ]

first_result-ne-none : (hs : List Hit) → NonEmpty hs → first_result hs ≢ none
first_result-ne-none [] h = absurd h
first_result-ne-none (x ∷ hs) h = cc

-- Backtracking loses nothing: if the labels on some path of the tree fit the decoded path, then
-- `Match` returns a route.
pub match_complete :
    (t : Tree) (path : Str) (vs : List Str) (labels : List Segment) (q : Route) {cs : List Capture}
    → split_and_decode path ≡ some vs
    → Leads t.root labels q
    → Fits t.matchers labels vs cs
    → match t path ≢ none
match_complete t path vs labels q decoded leads fits missed =
    first_result-ne-none (hits t.matchers t.root vs) (hits_complete t.matchers t.root q fits leads)
      (sym (rw decoded at (match-first_match t path)) ∙ missed)
