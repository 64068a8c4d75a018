-- ===== src/Router/Match.antt =====
-- runtime/router/match.go: resolving a path against the tree.
pub mod Search
pub mod Agree
pub mod Sound
pub mod Complete
use sveltego.Base.Map.{lookup}
use sveltego.Router.Segment.{Segment, Route, is_empty}
use sveltego.Router.Tree.{Node, node, Nodes, nil, cons, MaybeNode, absent, present, label}
use sveltego.Router.Table.{Matchers}
use sveltego.Router.State.{Capture, MatchState, push, truncate}
use sveltego.Base.{
  ℕ, Bool, true, false, Option, none, some, List, [], ◌∷◌, ◌++◌, if◌then◌else◌, Str, str_eq,
}

abbrev pub Outcome : Type 0
Outcome = Option Route × MatchState

-- `if r := …; r != nil { return r }`, and what follows it
abbrev pub or_else : Outcome → (MatchState → Outcome) → Outcome
or_else (some r, st) k = (some r, st)
or_else (none, st) k = k st

-- `if r := …; r != nil { return r }; st.truncate(before)`
abbrev pub restore : ℕ → Outcome → Outcome
restore before (some r, st) = (some r, st)
restore before (none, st) = (none, truncate st before)

abbrev pub capture : Node → Str → Capture
capture c v = record { name = (label c).name; value = v }

-- the test on a matcher: none named, or one that is found and accepts
unfoldable pub accepts : Option Matchers → Str → Str → Bool
accepts matchers [] v = true
accepts none (_ ∷ _) v = false
accepts (some m) (c ∷ name) v = elim (lookup (c ∷ name) m) [ none ↦ false | some f ↦ f v ]

-- `joinSegs`
unfoldable pub join_segs : List Str → Str
join_segs [] = []
join_segs (s ∷ []) = s
join_segs (s ∷ t ∷ rest) = s ++ (b'/' ∷ join_segs (t ∷ rest))

-- the rest child at the end of the path; its matcher is not asked
unfoldable pub match_rest_end : MaybeNode → MatchState → Outcome
match_rest_end absent st = (none, st)
match_rest_end (present (node _ _ _ _ l none _)) st = (none, st)
match_rest_end (present (node _ _ _ _ l (some r) _)) st =
    (some r, push st (record { name = l.name; value = [] }))

module _ (matchers : Option Matchers) where
  -- the rest child when segments are left
  unfoldable pub match_rest : MaybeNode → List Str → MatchState → Outcome
  unfolding join_segs accepts
  match_rest absent segs st = (none, st)
  match_rest (present (node _ _ _ _ l none _)) segs st = (none, st)
  match_rest (present (node _ _ _ _ l (some r) _)) segs st =
      let joined = join_segs segs in
      if accepts matchers l.matcher joined
      then (some r, push st (record { name = l.name; value = joined }))
      else (none, st)

  unfoldable mutual
    unfolding accepts match_rest match_rest_end

    pub match_node : Node → List Str → MatchState → Outcome
    match_node (node ss ps o r l (some q) b) [] st = (some q, st)
    match_node (node ss ps o r l none b) [] st =
        or_else (match_optional_end o st) (match_rest_end r)
    match_node (node ss ps o r l rt b) (seg ∷ segs) st =
        or_else (match_statics ss seg segs st) (λ st.
          or_else (match_params ps seg segs st)
            (λ st. or_else (match_optional o seg segs st) (match_rest r (seg ∷ segs))))

    pub match_optional_end : MaybeNode → MatchState → Outcome
    match_optional_end absent st = (none, st)
    match_optional_end (present c) st = restore st.n (match_node c [] (push st (capture c [])))

    pub match_statics : Nodes → Str → List Str → MatchState → Outcome
    match_statics nil seg segs st = (none, st)
    match_statics (cons c cs) seg segs st = elim (str_eq (label c).value seg) [
      | true ↦ or_else (match_node c segs st) (match_statics cs seg segs)
      | false ↦ match_statics cs seg segs st
    ]

    pub match_params : Nodes → Str → List Str → MatchState → Outcome
    match_params nil seg segs st = (none, st)
    match_params (cons c cs) seg segs st = elim (accepts matchers (label c).matcher seg) [
      | true ↦
          or_else (restore st.n (match_node c segs (push st (capture c seg))))
            (match_params cs seg segs)
      | false ↦ match_params cs seg segs st
    ]

    pub match_optional : MaybeNode → Str → List Str → MatchState → Outcome
    match_optional absent seg segs st = (none, st)
    match_optional (present c) seg segs st =
        or_else
          (elim (accepts matchers (label c).matcher seg) [
            | true ↦ restore st.n (match_node c segs (push st (capture c seg)))
            | false ↦ (none, st)
          ])
          (λ st. restore st.n (match_node c (seg ∷ segs) (push st (capture c []))))
