-- ===== src/Router/Spec.antt =====
-- runtime/router/tree.go: specificity vectors and the order of the children.
pub mod Reshape
use sveltego.Router.Segment.{Segment, SegmentKind, static, param, optional, rest, Route, is_empty}
use sveltego.Router.Tree.{
  Node, node, Nodes, nil, cons, MaybeNode, absent, present, label, best_spec,
}
use sveltego.Base.{
  ℕ, Bool, true, false, ◌&&◌, ◌||◌, not, Option, none, some, List, [], ◌∷◌, map, ltb, if◌then◌else◌,
  str_lt,
}

-- A comparison's result: -1, 0 or +1.
pub data Sign : Type 0 where
  less same greater : Sign

unfoldable pub score_in : SegmentKind → Segment → ℕ
score_in static s = 4
score_in param s = if not (is_empty s.matcher) then 3 else 2
score_in optional s = 1
score_in rest s = 0

unfoldable pub segment_score : Segment → ℕ
unfolding score_in
segment_score s = score_in s.kind s

unfoldable pub route_spec : Route → List ℕ
unfolding segment_score
route_spec r = map segment_score r.segments

-- the loop over the common prefix, then the comparison of the lengths
unfoldable pub compare_vectors : List ℕ → List ℕ → Sign
compare_vectors [] [] = same
compare_vectors [] (_ ∷ _) = less
compare_vectors (_ ∷ _) [] = greater
compare_vectors (a ∷ as') (b ∷ bs) =
    let later = compare_vectors as' bs in
    if ltb a b then less else if ltb b a then greater else later

-- nil is `none`
unfoldable pub spec_compare : Option (List ℕ) → Option (List ℕ) → Sign
unfolding compare_vectors
spec_compare none none = same
spec_compare none (some _) = less
spec_compare (some _) none = greater
spec_compare (some a) (some b) = compare_vectors a b

abbrev pub at_least : Sign → Bool
at_least less = false
at_least _ = true

unfoldable pub best_of : Option (List ℕ) → Option (List ℕ) → Option (List ℕ)
unfolding spec_compare
best_of a b = if at_least (spec_compare a b) then a else b

abbrev spec_of_route : Option Route → Option (List ℕ)
spec_of_route none = none
spec_of_route (some r) = best_of none (some (route_spec r))

-- the loops of `propagateSpec` over the children
unfoldable pub best_nodes : Option (List ℕ) → Nodes → Option (List ℕ)
best_nodes best nil = best
best_nodes best (cons c cs) = best_nodes (best_of best (best_spec c)) cs

abbrev pub best_maybe : Option (List ℕ) → MaybeNode → Option (List ℕ)
best_maybe best absent = best
best_maybe best (present c) = best_of best (best_spec c)

-- Each node is returned with its `bestSpec`; the best of a list of children folds into `best`.
unfoldable mutual
  pub propagate_spec : Node → Node
  propagate_spec (node ss ps o r l rt _) =
      let ss' = propagate_nodes ss in
      let ps' = propagate_nodes ps in
      let o' = propagate_maybe o in
      let r' = propagate_maybe r in
      node ss' ps' o' r' l rt
        (best_maybe (best_maybe (best_nodes (best_nodes (spec_of_route rt) ss') ps') o') r')

  pub propagate_nodes : Nodes → Nodes
  propagate_nodes nil = nil
  propagate_nodes (cons c cs) = cons (propagate_spec c) (propagate_nodes cs)

  pub propagate_maybe : MaybeNode → MaybeNode
  propagate_maybe absent = absent
  propagate_maybe (present c) = present (propagate_spec c)

-- the comparator of the static children: `less(i, j)`
unfoldable pub static_before : Node → Node → Bool
static_before a b = elim (spec_compare (best_spec a) (best_spec b)) [
  | greater ↦ true
  | less ↦ false
  | same ↦ str_lt (label a).value (label b).value
]

-- the comparator of the param children
unfoldable pub param_before : Node → Node → Bool
param_before a b = elim (spec_compare (best_spec a) (best_spec b)) [
  | greater ↦ true
  | less ↦ false
  | same ↦
      let ma = not (is_empty (label a).matcher) in
      let mb = not (is_empty (label b).matcher) in
      if (ma && not mb) || (not ma && mb) then ma else str_lt (label a).name (label b).name
]

-- `sort.SliceStable`: equal elements keep their order
unfoldable pub place : (Node → Node → Bool) → Node → Nodes → Nodes
place before x nil = cons x nil
place before x (cons y ys) = if before y x then cons y (place before x ys) else cons x (cons y ys)

unfoldable pub sort_nodes : (Node → Node → Bool) → Nodes → Nodes
unfolding place
sort_nodes before nil = nil
sort_nodes before (cons x xs) = place before x (sort_nodes before xs)

-- The comparators read labels and vectors only, which sorting the children does not change, so
-- the children may be sorted first.
unfoldable mutual
  pub sort_all : Node → Node
  sort_all (node ss ps o r l rt b) =
      node (sort_nodes static_before (sort_each ss)) (sort_nodes param_before (sort_each ps))
        (sort_maybe o) (sort_maybe r) l rt b

  pub sort_each : Nodes → Nodes
  sort_each nil = nil
  sort_each (cons c cs) = cons (sort_all c) (sort_each cs)

  pub sort_maybe : MaybeNode → MaybeNode
  sort_maybe absent = absent
  sort_maybe (present c) = present (sort_all c)
