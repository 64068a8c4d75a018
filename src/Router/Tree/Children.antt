-- ===== src/Router/Tree/Children.antt =====
-- `childFor`: where the children of the rewritten node come from.
use sveltego.Router.Segment.{Segment, SegmentKind, static, param, optional, rest}
use sveltego.Router.Tree.{
  Node, node, Nodes, nil, cons, MaybeNode, absent, present, label, route, label_of, leaf, Error,
}
use sveltego.Router.Tree.{same_child, in_nodes, in_maybe, child_for, Error}
use sveltego.Router.Paths.{In, Is, Child}
use sveltego.Base.{
  Result, ok, first_step, ok-injective, ◌≡◌, refl, sym, ap, ◌∙◌, subst, ◌⊎◌, inl, inr, Bool, true,
  Bool-cases,
}

-- What the walk rewrote: `c` is made of `d`, which is an old child that passes the test, or new.
pub record Rewritten (old : Node → Type 0) (test : Segment → Bool) (fresh : Segment)
    (k : Node → Result Error Node) (c : Node) : Type 0 where
  pub before : Node
  pub made : k before ≡ ok c
  pub origin : (old before × (test (label before) ≡ true)) ⊎ (before ≡ leaf fresh)

module _ (test : Segment → Bool) (fresh : Segment) (k : Node → Result Error Node) where
  in_nodes-In :
      (ns : Nodes) {ns' : Nodes} (c : Node)
      → in_nodes test fresh k ns ≡ ok ns'
      → In c ns'
      → In c ns ⊎ Rewritten (λ d. In d ns) test fresh k c
  unfolding in_nodes
  in_nodes-In nil c e i =
      let (n, made, same) = first_step (k (leaf fresh)) (λ n. ok (cons n nil)) e in
      elim (subst (In c) (sym (ok-injective same)) i) [
        | inl here ↦
            inr (record { before = leaf fresh; made = made ∙ ap ok (sym here); origin = inr refl })
        | inr gone ↦ absurd gone
      ]
  in_nodes-In (cons d ds) c e i = elim (Bool-cases (test (label d))) [
    | inl passes ↦
        let (d', made, same) = first_step (k d) (λ d'. ok (cons d' ds)) (rw passes at e) in
        elim (subst (In c) (sym (ok-injective same)) i) [
          | inl here ↦ inr (record {
            before = d;
            made = made ∙ ap ok (sym here);
            origin = inl (inl refl, passes);
          })
          | inr old ↦ inl (inr old)
        ]
    | inr fails ↦
        let (ds', made, same) =
          first_step (in_nodes test fresh k ds) (λ ds'. ok (cons d ds')) (rw fails at e) in
        elim (subst (In c) (sym (ok-injective same)) i) [
          | inl here ↦ inl (inl here)
          | inr later ↦ elim (in_nodes-In ds c made later) [
            | inl old ↦ inl (inr old)
            | inr w ↦ inr (record {
              before = w.before;
              made = w.made;
              origin = elim w.origin [ inl (j, t) ↦ inl (inr j, t) | inr new ↦ inr new ];
            })
          ]
        ]
  ]

  in_maybe-Is :
      (o : MaybeNode) {o' : MaybeNode} (c : Node)
      → in_maybe test fresh k o ≡ ok o'
      → Is c o'
      → Rewritten (λ d. Is d o) test fresh k c
  unfolding in_maybe
  in_maybe-Is absent c e i =
      let (n, made, same) = first_step (k (leaf fresh)) (λ n. ok (present n)) e in
      let here : c ≡ n = subst (Is c) (sym (ok-injective same)) i in
      record { before = leaf fresh; made = made ∙ ap ok (sym here); origin = inr refl }
  in_maybe-Is (present d) c e i = elim (Bool-cases (test (label d))) [
    | inl passes ↦
        let (d', made, same) = first_step (k d) (λ d'. ok (present d')) (rw passes at e) in
        let here : c ≡ d' = subst (Is c) (sym (ok-injective same)) i in
        record { before = d; made = made ∙ ap ok (sym here); origin = inl (refl, passes) }
    | inr fails ↦
        let (n, made, same) = first_step (k (leaf fresh)) (λ n. ok (present n)) (rw fails at e) in
        let here : c ≡ n = subst (Is c) (sym (ok-injective same)) i in
        record { before = leaf fresh; made = made ∙ ap ok (sym here); origin = inr refl }
  ]

module _ (s : Segment) (f : Node → Result Error Node) where
  pub child_for-keeps :
      (k : SegmentKind) (n : Node) {n' : Node}
      → child_for k s f n ≡ ok n'
      → (label n' ≡ label n) × (route n' ≡ route n)
  unfolding child_for
  child_for-keeps static (node ss ps o r l rt b) e =
      let (_, _, same) = first_step _ (λ ss'. ok (node ss' ps o r l rt b)) e in
      let e' = ok-injective same in (sym (ap label e'), sym (ap route e'))
  child_for-keeps param (node ss ps o r l rt b) e =
      let (_, _, same) = first_step _ (λ ps'. ok (node ss ps' o r l rt b)) e in
      let e' = ok-injective same in (sym (ap label e'), sym (ap route e'))
  child_for-keeps optional (node ss ps o r l rt b) e =
      let (_, _, same) = first_step _ (λ o'. ok (node ss ps o' r l rt b)) e in
      let e' = ok-injective same in (sym (ap label e'), sym (ap route e'))
  child_for-keeps rest (node ss ps o r l rt b) e =
      let (_, _, same) = first_step _ (λ r'. ok (node ss ps o r' l rt b)) e in
      let e' = ok-injective same in (sym (ap label e'), sym (ap route e'))

  -- A child of the new node is an old child, or was made by `f` at the segment's kind.
  abbrev pub Origin : SegmentKind → SegmentKind → Node → Node → Type 0
  Origin k j n c = Child j n c ⊎ ((j ≡ k) × Rewritten (Child k n) (same_child k s) (label_of s) f c)

  pub child_for-Origin :
      (k j : SegmentKind) (n : Node) {n' : Node} (c : Node)
      → child_for k s f n ≡ ok n'
      → Child j n' c
      → Origin k j n c
  unfolding child_for
  child_for-Origin static j (node ss ps o r l rt b) c e i =
      let (ss', made, same) = first_step _ (λ ss'. ok (node ss' ps o r l rt b)) e in
      go j _ (subst (λ m. Child j m c) (sym (ok-injective same)) i)
        (λ i'. in_nodes-In (same_child static s) (label_of s) f ss c made i')
    where
      go :
          (j : SegmentKind) (ss' : Nodes)
          → Child j (node ss' ps o r l rt b) c
          → (In c ss' → In c ss ⊎ Rewritten (λ d. In d ss) (same_child static s) (label_of s) f c)
          → Origin static j (node ss ps o r l rt b) c
      go static _ i h = elim (h i) [
        | inl old ↦ inl old
        | inr w ↦ inr (refl, record { before = w.before; made = w.made; origin = w.origin })
      ]
      go param _ i h = inl i
      go optional _ i h = inl i
      go rest _ i h = inl i
  child_for-Origin param j (node ss ps o r l rt b) c e i =
      let (ps', made, same) = first_step _ (λ ps'. ok (node ss ps' o r l rt b)) e in
      go j _ (subst (λ m. Child j m c) (sym (ok-injective same)) i)
        (λ i'. in_nodes-In (same_child param s) (label_of s) f ps c made i')
    where
      go :
          (j : SegmentKind) (ps' : Nodes)
          → Child j (node ss ps' o r l rt b) c
          → (In c ps' → In c ps ⊎ Rewritten (λ d. In d ps) (same_child param s) (label_of s) f c)
          → Origin param j (node ss ps o r l rt b) c
      go param _ i h = elim (h i) [
        | inl old ↦ inl old
        | inr w ↦ inr (refl, record { before = w.before; made = w.made; origin = w.origin })
      ]
      go static _ i h = inl i
      go optional _ i h = inl i
      go rest _ i h = inl i
  child_for-Origin optional j (node ss ps o r l rt b) c e i =
      let (o', made, same) = first_step _ (λ o'. ok (node ss ps o' r l rt b)) e in
      go j _ (subst (λ m. Child j m c) (sym (ok-injective same)) i)
        (λ i'. in_maybe-Is (same_child optional s) (label_of s) f o c made i')
    where
      go :
          (j : SegmentKind) (o' : MaybeNode)
          → Child j (node ss ps o' r l rt b) c
          → (Is c o' → Rewritten (λ d. Is d o) (same_child optional s) (label_of s) f c)
          → Origin optional j (node ss ps o r l rt b) c
      go optional _ i h =
          let w = h i in inr (refl, record { before = w.before; made = w.made; origin = w.origin })
      go static _ i h = inl i
      go param _ i h = inl i
      go rest _ i h = inl i
  child_for-Origin rest j (node ss ps o r l rt b) c e i =
      let (r', made, same) = first_step _ (λ r'. ok (node ss ps o r' l rt b)) e in
      go j _ (subst (λ m. Child j m c) (sym (ok-injective same)) i)
        (λ i'. in_maybe-Is (same_child rest s) (label_of s) f r c made i')
    where
      go :
          (j : SegmentKind) (r' : MaybeNode)
          → Child j (node ss ps o r' l rt b) c
          → (Is c r' → Rewritten (λ d. Is d r) (same_child rest s) (label_of s) f c)
          → Origin rest j (node ss ps o r l rt b) c
      go rest _ i h =
          let w = h i in inr (refl, record { before = w.before; made = w.made; origin = w.origin })
      go static _ i h = inl i
      go param _ i h = inl i
      go optional _ i h = inl i
