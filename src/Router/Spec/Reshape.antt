-- ===== src/Router/Spec/Reshape.antt =====
-- Computing the specificity vectors and sorting the children change no path to a route.
use sveltego.Router.Segment.{Segment, SegmentKind, static, param, optional, rest, Route}
use sveltego.Router.Tree.{
  Node, node, Nodes, nil, cons, MaybeNode, absent, present, label, route, label_in,
}
use sveltego.Router.Spec.{
  propagate_spec, propagate_nodes, propagate_maybe, place, sort_nodes, sort_all, sort_each,
  sort_maybe, static_before, param_before,
}
use sveltego.Router.Paths.{In, Is, Child, Leads}
use sveltego.Base.{◌≡◌, refl, sym, ap, ◌∙◌, subst, ◌⊎◌, inl, inr, Bool, List, [], ◌∷◌, Bool-cases}

-- A function on trees that keeps labels and routes, and maps the children.
pub record Reshapes (g : Node → Node) : Type 0 where
  pub keeps_label : (n : Node) → label (g n) ≡ label n
  pub keeps_route : (n : Node) → route (g n) ≡ route n
  pub child_to : (k : SegmentKind) (n c : Node) → Child k n c → Child k (g n) (g c)
  pub child_from :
      (k : SegmentKind) (n c' : Node) → Child k (g n) c' → (c : Node) × Child k n c × (c' ≡ g c)

module _ {g : Node → Node} (r : Reshapes g) where
  pub Leads-to : (path : List Segment) (n : Node) (q : Route) → Leads n path q → Leads (g n) path q
  Leads-to [] n q e = r.keeps_route n ∙ e
  Leads-to (s ∷ path) n q (c, i, same, leads) = (
    g c,
    r.child_to s.kind n c i,
    same ∙ ap (label_in s.kind) (sym (r.keeps_label c)),
    Leads-to path c q leads,
  )

  pub Leads-from :
      (path : List Segment) (n : Node) (q : Route) → Leads (g n) path q → Leads n path q
  Leads-from [] n q e = sym (r.keeps_route n) ∙ e
  Leads-from (s ∷ path) n q (c', i, same, leads) =
      let (c, j, e) = r.child_from s.kind n c' i in
      (
        c,
        j,
        same ∙ ap (λ m. label_in s.kind (label m)) e ∙ ap (label_in s.kind) (r.keeps_label c),
        Leads-from path c q (subst (λ m. Leads m path q) e leads),
      )

In-propagate : (c : Node) (ns : Nodes) → In c ns → In (propagate_spec c) (propagate_nodes ns)
unfolding propagate_spec
In-propagate c (cons d ds) (inl e) = inl (ap propagate_spec e)
In-propagate c (cons d ds) (inr i) = inr (In-propagate c ds i)
In-propagate c nil i = absurd i

In-of_propagate :
    (c' : Node) (ns : Nodes)
    → In c' (propagate_nodes ns)
    → (c : Node) × In c ns × (c' ≡ propagate_spec c)
unfolding propagate_spec
In-of_propagate c' nil i = absurd i
In-of_propagate c' (cons d ds) (inl e) = (d, inl refl, e)
In-of_propagate c' (cons d ds) (inr i) = let (c, j, e) = In-of_propagate c' ds i in (c, inr j, e)

Is-propagate : (c : Node) (o : MaybeNode) → Is c o → Is (propagate_spec c) (propagate_maybe o)
unfolding propagate_spec
Is-propagate c absent i = i
Is-propagate c (present d) e = ap propagate_spec e

Is-of_propagate :
    (c' : Node) (o : MaybeNode)
    → Is c' (propagate_maybe o)
    → (c : Node) × Is c o × (c' ≡ propagate_spec c)
unfolding propagate_spec
Is-of_propagate c' absent i = absurd i
Is-of_propagate c' (present d) e = (d, refl, e)

pub propagate_spec-Reshapes : Reshapes propagate_spec
unfolding propagate_spec
propagate_spec-Reshapes = record {
  keeps_label = λ n. lab n;
  keeps_route = λ n. rou n;
  child_to = to;
  child_from = from;
}
  where
    lab : (n : Node) → label (propagate_spec n) ≡ label n
    lab (node ss ps o r l rt b) = refl

    rou : (n : Node) → route (propagate_spec n) ≡ route n
    rou (node ss ps o r l rt b) = refl

    to :
        (k : SegmentKind) (n c : Node) → Child k n c → Child k (propagate_spec n) (propagate_spec c)
    to static (node ss ps o r l rt b) c i = In-propagate c ss i
    to param (node ss ps o r l rt b) c i = In-propagate c ps i
    to optional (node ss ps o r l rt b) c i = Is-propagate c o i
    to rest (node ss ps o r l rt b) c i = Is-propagate c r i

    from :
        (k : SegmentKind) (n c' : Node)
        → Child k (propagate_spec n) c'
        → (c : Node) × Child k n c × (c' ≡ propagate_spec c)
    from static (node ss ps o r l rt b) c i = In-of_propagate c ss i
    from param (node ss ps o r l rt b) c i = In-of_propagate c ps i
    from optional (node ss ps o r l rt b) c i = Is-of_propagate c o i
    from rest (node ss ps o r l rt b) c i = Is-of_propagate c r i

In-place :
    (before : Node → Node → Bool) (c x : Node) (ns : Nodes)
    → (In c (place before x ns) → In c (cons x ns)) × (In c (cons x ns) → In c (place before x ns))
unfolding place
In-place before c x nil = (λ i. i, λ i. i)
In-place before c x (cons y ys) = elim (Bool-cases (before y x)) [
  | inr stop ↦ rw stop (λ i. i, λ i. i)
  | inl later ↦ rw later (
      let (to, from) = In-place before c x ys in
      (λ i. swap (inr_map to i), λ i. inr_map from (swap i)))
]
  where
    swap : {A B C : Type 0} → A ⊎ (B ⊎ C) → B ⊎ (A ⊎ C)
    swap (inl a) = inr (inl a)
    swap (inr (inl b)) = inl b
    swap (inr (inr c)) = inr (inr c)

    inr_map : {A B C : Type 0} → (B → C) → A ⊎ B → A ⊎ C
    inr_map f (inl a) = inl a
    inr_map f (inr b) = inr (f b)

In-sort_nodes :
    (before : Node → Node → Bool) (c : Node) (ns : Nodes)
    → (In c (sort_nodes before ns) → In c ns) × (In c ns → In c (sort_nodes before ns))
unfolding sort_nodes
In-sort_nodes before c nil = (λ i. i, λ i. i)
In-sort_nodes before c (cons x xs) =
    let (to, from) = In-sort_nodes before c xs in
    let (to', from') = In-place before c x (sort_nodes before xs) in
    (λ i. inr_map to (to' i), λ i. from' (inr_map from i))
  where
    inr_map : {A B C : Type 0} → (B → C) → A ⊎ B → A ⊎ C
    inr_map f (inl a) = inl a
    inr_map f (inr b) = inr (f b)

In-sort_each : (c : Node) (ns : Nodes) → In c ns → In (sort_all c) (sort_each ns)
unfolding sort_all
In-sort_each c (cons d ds) (inl e) = inl (ap sort_all e)
In-sort_each c (cons d ds) (inr i) = inr (In-sort_each c ds i)
In-sort_each c nil i = absurd i

In-of_sort_each :
    (c' : Node) (ns : Nodes) → In c' (sort_each ns) → (c : Node) × In c ns × (c' ≡ sort_all c)
unfolding sort_all
In-of_sort_each c' nil i = absurd i
In-of_sort_each c' (cons d ds) (inl e) = (d, inl refl, e)
In-of_sort_each c' (cons d ds) (inr i) = let (c, j, e) = In-of_sort_each c' ds i in (c, inr j, e)

Is-sort_maybe : (c : Node) (o : MaybeNode) → Is c o → Is (sort_all c) (sort_maybe o)
unfolding sort_all
Is-sort_maybe c absent i = i
Is-sort_maybe c (present d) e = ap sort_all e

Is-of_sort_maybe :
    (c' : Node) (o : MaybeNode) → Is c' (sort_maybe o) → (c : Node) × Is c o × (c' ≡ sort_all c)
unfolding sort_all
Is-of_sort_maybe c' absent i = absurd i
Is-of_sort_maybe c' (present d) e = (d, refl, e)

pub sort_all-Reshapes : Reshapes sort_all
unfolding sort_all
sort_all-Reshapes = record {
  keeps_label = λ n. lab n;
  keeps_route = λ n. rou n;
  child_to = to;
  child_from = from;
}
  where
    lab : (n : Node) → label (sort_all n) ≡ label n
    lab (node ss ps o r l rt b) = refl

    rou : (n : Node) → route (sort_all n) ≡ route n
    rou (node ss ps o r l rt b) = refl

    to : (k : SegmentKind) (n c : Node) → Child k n c → Child k (sort_all n) (sort_all c)
    to static (node ss ps o r l rt b) c i =
        (In-sort_nodes static_before (sort_all c) (sort_each ss)).1 (In-sort_each c ss i)
    to param (node ss ps o r l rt b) c i =
        (In-sort_nodes param_before (sort_all c) (sort_each ps)).1 (In-sort_each c ps i)
    to optional (node ss ps o r l rt b) c i = Is-sort_maybe c o i
    to rest (node ss ps o r l rt b) c i = Is-sort_maybe c r i

    from :
        (k : SegmentKind) (n c' : Node)
        → Child k (sort_all n) c'
        → (c : Node) × Child k n c × (c' ≡ sort_all c)
    from static (node ss ps o r l rt b) c i =
        In-of_sort_each c ss ((In-sort_nodes static_before c (sort_each ss)).0 i)
    from param (node ss ps o r l rt b) c i =
        In-of_sort_each c ps ((In-sort_nodes param_before c (sort_each ps)).0 i)
    from optional (node ss ps o r l rt b) c i = Is-of_sort_maybe c o i
    from rest (node ss ps o r l rt b) c i = Is-of_sort_maybe c r i
