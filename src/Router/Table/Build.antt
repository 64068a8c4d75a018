-- ===== src/Router/Table/Build.antt =====
-- `NewTree`: which paths of the finished tree lead to which routes.
use mathlib.Core.List.{Memᴰ, head-eq_of_cons-eq, tail-eq_of_cons-eq}
use sveltego.Router.Match.{accepts, join_segs}
use sveltego.Router.Segment.{Segment, SegmentKind, static, param, optional, rest, Route}
use sveltego.Router.Tree.{Node, label_of, label_in, root_label, leaf}
use sveltego.Router.State.{Capture}
use sveltego.Router.Tree.{insert_at, insert, insert_all}
use sveltego.Router.Tree.Insert.{insert_at-Leads, Leads-leaf}
use sveltego.Router.Spec.{propagate_spec}
use sveltego.Router.Spec.Reshape.{Leads-from, propagate_spec-Reshapes, sort_all-Reshapes}
use sveltego.Router.Table.{Tree, tag, new_tree}
use sveltego.Router.Paths.{
  Leads, Fits, done, literal, required, given, omitted, remainder, no_remainder, bound,
}
use sveltego.Base.{
  ok, first_step, ok-injective, ◌≡◌, refl, sym, ap, ◌∙◌, subst, ◌≢◌, ◌⊎◌, inl, inr, Bool, true,
  Option, List, [], ◌∷◌, map, arith, Str,
}

insert-at :
    (q : Route) (n : Node) {n' : Node} → insert q n ≡ ok n' → insert_at q.segments q n ≡ ok n'
unfolding insert
insert-at q n e = ground arith

-- Each path was there before, or is the pattern of an inserted route.
pub insert_all-Leads :
    (qs : List Route) (n : Node) {n' : Node} (path : List Segment) (q' : Route)
    → insert_all qs n ≡ ok n'
    → Leads n' path q'
    → Leads n path q' ⊎ (Memᴰ q' qs × (path ≡ map label_of q'.segments))
unfolding insert_all
insert_all-Leads [] n path q' e leads =
    inl (subst (λ m. Leads m path q') (sym (ok-injective e)) leads)
insert_all-Leads (q ∷ qs) n path q' e leads =
    let (m, first, later) = first_step (insert q n) (insert_all qs) e in
    elim (insert_all-Leads qs m path q' later leads) [
      | inr (mem, same) ↦ inr (Memᴰ.tail mem, same)
      | inl there ↦ elim (insert_at-Leads q.segments q n path q' (insert-at q n first) there) [
        | inl before ↦ inl before
        | inr (same, here) ↦
            inr (Memᴰ.head here, same ∙ ap (λ r. map label_of r.segments) (sym here))
      ]
    ]

-- A path of a built tree is the pattern of one of its routes.
pub new_tree-Leads :
    (routes : List Route) {t : Tree} (path : List Segment) (q : Route)
    → new_tree routes ≡ ok t
    → Leads t.root path q
    → Memᴰ q (map tag routes) × (path ≡ map label_of q.segments)
unfolding new_tree
new_tree-Leads routes {t} path q e leads =
    let (n, built, same) = first_step (insert_all (map tag routes) (leaf root_label)) _ e in
    let sorted = subst (λ m. Leads m path q) (sym (ap (λ u. u.root) (ok-injective same))) leads in
    let there =
      Leads-from propagate_spec-Reshapes path n q
        (Leads-from sort_all-Reshapes path (propagate_spec n) q sorted) in
    elim (insert_all-Leads (map tag routes) (leaf root_label) path q built there) [
      | inl none' ↦ absurd (Leads-leaf path root_label q none')
      | inr found ↦ found
    ]

label_in-kind : (k : SegmentKind) (s : Segment) → (label_in k s).kind ≡ k
label_in-kind static s = refl
label_in-kind param s = refl
label_in-kind optional s = refl
label_in-kind rest s = refl

label_in-value : (k : SegmentKind) (s : Segment) → k ≡ static → (label_in k s).value ≡ s.value
label_in-value static s h = refl
label_in-value param s h = cc
label_in-value optional s h = cc
label_in-value rest s h = cc

label_in-name : (k : SegmentKind) (s : Segment) → k ≢ static → (label_in k s).name ≡ s.name
label_in-name static s h = absurd (h refl)
label_in-name param s h = refl
label_in-name optional s h = refl
label_in-name rest s h = refl

label_in-matcher : (k : SegmentKind) (s : Segment) → k ≢ static → (label_in k s).matcher ≡ s.matcher
label_in-matcher static s h = absurd (h refl)
label_in-matcher param s h = refl
label_in-matcher optional s h = refl
label_in-matcher rest s h = refl

-- Only the fields that `childFor` copies decide whether a pattern fits.
module _ (matchers : Option (List (Str × (Str → Bool)))) where
  kind_of_label :
      (s : Segment) {t : Segment} {k : SegmentKind} → t ≡ label_of s → t.kind ≡ k → s.kind ≡ k
  kind_of_label s e k = sym (label_in-kind s.kind s) ∙ sym (ap (λ u. u.kind) e) ∙ k

  value_of_label :
      (s t : Segment) {v : Str} → t ≡ label_of s → s.kind ≡ static → t.value ≡ v → s.value ≡ v
  value_of_label s t e k h = sym (ap (λ u. u.value) e ∙ label_in-value s.kind s k) ∙ h

  name_of_label :
      (s t : Segment) (k : SegmentKind) → k ≢ static → t ≡ label_of s → s.kind ≡ k → t.name ≡ s.name
  name_of_label s t k ne e h = ap (λ u. u.name) e ∙ label_in-name s.kind s (λ z. ne (sym h ∙ z))

  -- The matcher accepts, and the capture binds the same name.
  accepts_of_label :
      (s t : Segment) (k : SegmentKind) (v : Str)
      → k ≢ static
      → t ≡ label_of s
      → s.kind ≡ k
      → accepts matchers t.matcher v ≡ true
      → accepts matchers s.matcher v ≡ true
  accepts_of_label s t k v ne e h a =
      subst (λ m. accepts matchers m v ≡ true)
        (ap (λ u. u.matcher) e ∙ label_in-matcher s.kind s (λ z. ne (sym h ∙ z))) a

  bound_of_label :
      (s t : Segment) (k : SegmentKind) (v : Str)
      → k ≢ static
      → t ≡ label_of s
      → s.kind ≡ k
      → bound s v ≡ bound t v
  bound_of_label s t k v ne e h =
      ap (λ n. record { name = n; value = v }) (sym (name_of_label s t k ne e h))

  pub Fits-labels :
      (segs : List Segment) {path : List Segment} {vs : List Str} {cs : List Capture}
      → path ≡ map label_of segs
      → Fits matchers path vs cs
      → Fits matchers segs vs cs
  Fits-labels [] e done = done
  Fits-labels (s ∷ segs) e done = cc
  Fits-labels (s ∷ segs) e (literal {s = t} k v f) =
      let h = head-eq_of_cons-eq e in
      let k' = kind_of_label s h k in
      literal k' (value_of_label s t h k' v) (Fits-labels segs (tail-eq_of_cons-eq e) f)
  Fits-labels (s ∷ segs) e (required {s = t} {v} {vs} {cs} k a f) =
      let h = head-eq_of_cons-eq e in
      let k' = kind_of_label s h k in
      subst (λ c. Fits matchers (s ∷ segs) (v ∷ vs) (c ∷ cs)) (bound_of_label s t param v (cc) h k')
        (required k' (accepts_of_label s t param v (cc) h k' a)
          (Fits-labels segs (tail-eq_of_cons-eq e) f))
  Fits-labels (s ∷ segs) e (given {s = t} {v} {vs} {cs} k a f) =
      let h = head-eq_of_cons-eq e in
      let k' = kind_of_label s h k in
      subst (λ c. Fits matchers (s ∷ segs) (v ∷ vs) (c ∷ cs))
        (bound_of_label s t optional v (cc) h k')
        (given k' (accepts_of_label s t optional v (cc) h k' a)
          (Fits-labels segs (tail-eq_of_cons-eq e) f))
  Fits-labels (s ∷ segs) e (omitted {s = t} {vs} {cs} k f) =
      let h = head-eq_of_cons-eq e in
      let k' = kind_of_label s h k in
      subst (λ c. Fits matchers (s ∷ segs) vs (c ∷ cs)) (bound_of_label s t optional [] (cc) h k')
        (omitted k' (Fits-labels segs (tail-eq_of_cons-eq e) f))
  Fits-labels (s ∷ []) e (remainder {s = t} {v} {vs} k a) =
      let h = head-eq_of_cons-eq e in
      let k' = kind_of_label s h k in
      subst (λ c. Fits matchers (s ∷ []) (v ∷ vs) (c ∷ []))
        (bound_of_label s t rest (join_segs (v ∷ vs)) (cc) h k')
        (remainder k' (accepts_of_label s t rest (join_segs (v ∷ vs)) (cc) h k' a))
  Fits-labels (s ∷ []) e (no_remainder {s = t} k) =
      let h = head-eq_of_cons-eq e in
      let k' = kind_of_label s h k in
      subst (λ c. Fits matchers (s ∷ []) [] (c ∷ [])) (bound_of_label s t rest [] (cc) h k')
        (no_remainder k')
  Fits-labels (s ∷ u ∷ segs) e (remainder k a) = cc (tail-eq_of_cons-eq e)
  Fits-labels (s ∷ u ∷ segs) e (no_remainder k) = cc (tail-eq_of_cons-eq e)
  Fits-labels [] e _ = cc
