-- ===== src/Router/Tree/Insert.antt =====
-- Inserting a route into the tree: which paths lead to a route afterwards.
use sveltego.Router.Segment.{Segment, SegmentKind, static, param, optional, rest, Route}
use sveltego.Router.Tree.{Node, node, label, route, label_of, label_in, root_label, leaf}
use sveltego.Router.Tree.{same_child, set_route, insert_at}
use sveltego.Router.Tree.Children.{child_for-keeps, child_for-Origin}
use mathlib.Core.Path.{ap₂}
use sveltego.Router.Paths.{Child, Leads}
use sveltego.Base.{
  ok, ok-injective, ◌≡◌, refl, sym, ap, ◌∙◌, subst, ◌⊎◌, inl, inr, true, none, some, List, [], ◌∷◌,
  map, arith, str_eq_iff,
}

-- Labels that pass the test of `childFor` are equal at the segment's kind.
label_in-same_child :
    (k : SegmentKind) (s l : Segment) → same_child k s l ≡ true → label_in k l ≡ label_in k s
label_in-same_child static s l e =
    ap (λ v. record root_label { value = v }) ((str_eq_iff l.value s.value).0 e)
label_in-same_child param s l e =
    ground (arith, str_eq_iff l.name s.name, str_eq_iff l.matcher s.matcher)
label_in-same_child optional s l e =
    ground (arith, str_eq_iff l.name s.name, str_eq_iff l.matcher s.matcher)
label_in-same_child rest s l e =
    ground (arith, str_eq_iff l.name s.name, str_eq_iff l.matcher s.matcher)

pub insert_at-label :
    (segs : List Segment) (q : Route) (n : Node) {n' : Node}
    → insert_at segs q n ≡ ok n'
    → label n' ≡ label n
unfolding insert_at set_route
insert_at-label [] q (node ss ps o r l none b) e = sym (ap label (ok-injective e))
insert_at-label [] q (node ss ps o r l (some _) b) e = cc
insert_at-label (s ∷ segs) q n e = (child_for-keeps s (insert_at segs q) s.kind n e).0

pub Leads-leaf : (path : List Segment) (l : Segment) (q : Route) → ¬ Leads (leaf l) path q
Leads-leaf [] l q e = cc
Leads-leaf (s ∷ path) l q (c, i, _, _) = none_at s.kind i
  where
    none_at : (k : SegmentKind) → ¬ Child k (leaf l) c
    none_at static i = i
    none_at param i = i
    none_at optional i = i
    none_at rest i = i

label_in-label_of : (k : SegmentKind) (s : Segment) → label_in k (label_in k s) ≡ label_in k s
label_in-label_of static s = refl
label_in-label_of param s = refl
label_in-label_of optional s = refl
label_in-label_of rest s = refl

set_route-Leads :
    (q : Route) (n : Node) {n' : Node} (path : List Segment) (q' : Route)
    → set_route q n ≡ ok n'
    → Leads n' path q'
    → Leads n path q' ⊎ ((path ≡ []) × (q' ≡ q))
unfolding set_route
set_route-Leads q (node ss ps o r l none b) [] q' e leads =
    let same = ap route (ok-injective e) in inr (refl, cc)
set_route-Leads q (node ss ps o r l none b) (t ∷ path) q' e leads =
    let back = subst (λ m. Leads m (t ∷ path) q') (sym (ok-injective e)) leads in
    inl (same_children t.kind back)
  where
    same_children :
        (k : SegmentKind)
        → (c : Node) × Child k (node ss ps o r l (some q) b) c
          × (t ≡ label_in t.kind (label c))
          × Leads c path q'
        → (c : Node) × Child k (node ss ps o r l none b) c
          × (t ≡ label_in t.kind (label c))
          × Leads c path q'
    same_children static h = h
    same_children param h = h
    same_children optional h = h
    same_children rest h = h
set_route-Leads q (node ss ps o r l (some _) b) path q' e leads = cc

-- Each path after an insertion was there before, or is the path of the inserted route.
pub insert_at-Leads :
    (segs : List Segment) (q : Route) (n : Node) {n' : Node} (path : List Segment) (q' : Route)
    → insert_at segs q n ≡ ok n'
    → Leads n' path q'
    → Leads n path q' ⊎ ((path ≡ map label_of segs) × (q' ≡ q))
unfolding insert_at
insert_at-Leads [] q n path q' e leads = set_route-Leads q n path q' e leads
insert_at-Leads (s ∷ segs) q n [] q' e leads =
    inl (sym (child_for-keeps s (insert_at segs q) s.kind n e).1 ∙ leads)
insert_at-Leads (s ∷ segs) q n (t ∷ path) q' e (c, i, same, leads) =
    elim (child_for-Origin s (insert_at segs q) s.kind t.kind n c e i) [
      | inl old ↦ inl (c, old, same, leads)
      | inr (kind, w) ↦
          let back = insert_at-Leads segs q w.before path q' w.made leads in
          let kept : label c ≡ label w.before = insert_at-label segs q w.before w.made in
          elim w.origin [
            | inl (old, passes) ↦ elim back [
              | inl before ↦ inl (
                w.before,
                subst (λ k. Child k n w.before) (sym kind) old,
                same ∙ ap (label_in t.kind) kept,
                before,
              )
              | inr (rest', last) ↦ inr (
                ap₂ ◌∷◌
                    (same
                      ∙ ap (label_in t.kind) kept
                      ∙ ap (λ k. label_in k (label w.before)) kind
                      ∙ label_in-same_child s.kind s (label w.before) passes)
                    rest',
                last,
              )
            ]
            | inr new ↦ elim back [
              | inl before ↦
                  absurd (Leads-leaf path (label_of s) q' (subst (λ m. Leads m path q') new before))
              | inr (rest', last) ↦ inr (
                ap₂ ◌∷◌
                    (same
                      ∙ ap (label_in t.kind) (kept ∙ ap label new)
                      ∙ ap (λ k. label_in k (label_of s)) kind
                      ∙ label_in-label_of s.kind s)
                    rest',
                last,
              )
            ]
          ]
    ]
