-- ===== src/Router/Replaced.antt =====
-- Routes that a later route of the table takes out of the tree: a node has room for one optional and
-- for one rest child.
use sveltego.Router.Segment.{Segment, SegmentKind, static, param, optional, rest, Route, is_empty}
use sveltego.Router.Tree.{
  Node, node, nil, MaybeNode, absent, present, Error, label, leaf, root_label, label_in, label_of,
  same_child, in_maybe, child_for, insert_at, insert, insert_all,
}
use sveltego.Router.Tree.Insert.{insert_at-label}
use sveltego.Router.Spec.{propagate_spec, sort_all}
use sveltego.Router.Table.{Tree, Matchers, tag, new_tree}
use sveltego.Router.Resolve.{match}
use sveltego.Base.{
  Result, ok, err, ◌>>=◌, first_step, ok-injective, ◌≡◌, refl, sym, ap, ◌∙◌, subst, ◌≢◌, ◌⊎◌, Bool,
  false, Option, none, List, ◌∷◌, map, arith, if◌then◌else◌, Str, str_eq_iff,
}

-- A child that does not pass the test is as good as none.
in_maybe-replaces :
    (test test' : Segment → Bool) (fresh fresh' : Segment) (k k' : Node → Result Error Node)
    (o : MaybeNode)
    → ((n : Node) → k (leaf fresh) ≡ ok n → test' (label n) ≡ false)
    → in_maybe test fresh k absent ≡ ok o
    → in_maybe test' fresh' k' o ≡ in_maybe test' fresh' k' absent
unfolding in_maybe
in_maybe-replaces test test' fresh fresh' k k' o fails made =
    let (n, grown, same) = first_step (k (leaf fresh)) (λ m. ok (present m)) made in
    ap (in_maybe test' fresh' k') (sym (ok-injective same)) ∙ rw (in_maybe, fails n grown) refl

-- The kinds of segment of which a node has one child at most.
pub data Single : SegmentKind → Type 0 where
  single_optional : Single optional
  single_rest : Single rest

child_for-replaces :
    (kind : SegmentKind) (s s' : Segment) (k k' : Node → Result Error Node) (l : Segment) (m : Node)
    → Single kind
    → ((n : Node) → k (leaf (label_of s)) ≡ ok n → same_child kind s' (label n) ≡ false)
    → child_for kind s k (leaf l) ≡ ok m
    → child_for kind s' k' m ≡ child_for kind s' k' (leaf l)
unfolding child_for
child_for-replaces optional s s' k k' l m single_optional fails made =
    let (o, grown, same) =
      first_step (in_maybe (same_child optional s) (label_of s) k absent)
        (λ o. ok (node nil nil o absent l none none)) made in
    ap (child_for optional s' k') (sym (ok-injective same))
    ∙ ap (λ r. r >>= (λ o'. ok (node nil nil o' absent l none none)))
        (in_maybe-replaces (same_child optional s) (same_child optional s') (label_of s)
          (label_of s') k k' o fails grown)
child_for-replaces rest s s' k k' l m single_rest fails made =
    let (o, grown, same) =
      first_step (in_maybe (same_child rest s) (label_of s) k absent)
        (λ o. ok (node nil nil absent o l none none)) made in
    ap (child_for rest s' k') (sym (ok-injective same))
    ∙ ap (λ r. r >>= (λ o'. ok (node nil nil absent o' l none none)))
        (in_maybe-replaces (same_child rest s) (same_child rest s') (label_of s) (label_of s') k k'
          o fails grown)
child_for-replaces static s s' k k' l m only fails made = elim only [ ]
child_for-replaces param s s' k k' l m only fails made = elim only [ ]

-- The segments have one kind and differ in what `childFor` compares.
pub record Clash (kind : SegmentKind) (s s' : Segment) : Type 0 where
  pub single : Single kind
  pub first_kind : s.kind ≡ kind
  pub second_kind : s'.kind ≡ kind
  pub differ : (s.name ≢ s'.name) ⊎ (s.matcher ≢ s'.matcher)

clash_test :
    (kind : SegmentKind) (s s' l : Segment)
    → Single kind
    → (s.name ≢ s'.name) ⊎ (s.matcher ≢ s'.matcher)
    → l ≡ label_in kind s
    → same_child kind s' l ≡ false
clash_test optional s s' l single_optional d e =
    subst (λ x. same_child optional s' x ≡ false) (sym e)
      (ground (arith, d, str_eq_iff s.name s'.name, str_eq_iff s.matcher s'.matcher))
clash_test rest s s' l single_rest d e =
    subst (λ x. same_child rest s' x ≡ false) (sym e)
      (ground (arith, d, str_eq_iff s.name s'.name, str_eq_iff s.matcher s'.matcher))
clash_test static s s' l only d e = elim only [ ]
clash_test param s s' l only d e = elim only [ ]

insert_at-replaces :
    (kind : SegmentKind) (s s' : Segment) (segs segs' : List Segment) (q q' : Route) (m : Node)
    → Clash kind s s'
    → insert_at (s ∷ segs) q (leaf root_label) ≡ ok m
    → insert_at (s' ∷ segs') q' m ≡ insert_at (s' ∷ segs') q' (leaf root_label)
unfolding insert_at
insert_at-replaces kind s s' segs segs' q q' m c made =
    let first : child_for kind s (insert_at segs q) (leaf root_label) ≡ ok m =
      subst (λ k. child_for k s (insert_at segs q) (leaf root_label) ≡ ok m) c.first_kind made in
    subst
      (λ k.
        child_for k s' (insert_at segs' q') m
        ≡ child_for k s' (insert_at segs' q') (leaf root_label))
      (sym c.second_kind)
      (child_for-replaces kind s s' (insert_at segs q) (insert_at segs' q') root_label m c.single
        (λ n grown.
          clash_test kind s s' (label n) c.single c.differ (
            insert_at-label segs q (leaf (label_of s)) grown ∙ ap (λ k. label_in k s) c.first_kind))
        first)

insert-replaces :
    (kind : SegmentKind) (s s' : Segment) (segs segs' : List Segment) (q q' : Route) (m : Node)
    → Clash kind s s'
    → q.segments ≡ s ∷ segs
    → q'.segments ≡ s' ∷ segs'
    → insert q (leaf root_label) ≡ ok m
    → insert q' m ≡ insert q' (leaf root_label)
unfolding insert
insert-replaces kind s s' segs segs' q q' m c e e' made =
    let at_first : insert_at (s ∷ segs) q (leaf root_label) ≡ ok m =
      subst (λ x. insert_at x q (leaf root_label) ≡ ok m) e (filled made) in
    let same : insert_at q'.segments q' m ≡ insert_at q'.segments q' (leaf root_label) =
      subst (λ x. insert_at x q' m ≡ insert_at x q' (leaf root_label)) (sym e')
        (insert_at-replaces kind s s' segs segs' q q' m c at_first) in
    ap (λ r. if is_empty q'.pattern then err Error.empty_pattern else r) same
  where
    filled :
        ◌≡◌ {A = Result Error Node}
          (if is_empty q.pattern
            then err Error.empty_pattern
            else insert_at q.segments q (leaf root_label))
          (ok m)
        → insert_at q.segments q (leaf root_label) ≡ ok m
    filled h = ground arith

-- If the first two routes of a table start with an optional segment, or both with a rest segment, of
-- different names or matchers, a tree that `NewTree` builds resolves every path, with any matchers,
-- as the table without the first route does: the first route is lost.
pub new_tree-replaces :
    (kind : SegmentKind) (s s' : Segment) (segs segs' : List Segment) (q q' : Route)
    (qs : List Route) (t : Tree)
    → Clash kind s s'
    → q.segments ≡ s ∷ segs
    → q'.segments ≡ s' ∷ segs'
    → new_tree (q ∷ q' ∷ qs) ≡ ok t
    → (u : Tree) × (new_tree (q' ∷ qs) ≡ ok u)
      × ((matchers : Option Matchers) (path : Str)
          → match (record t { matchers = matchers }) path
            ≡ match (record u { matchers = matchers }) path)
unfolding new_tree insert_all match
new_tree-replaces kind s s' segs segs' q q' qs t c e e' built =
    let root = leaf root_label in
    let (n, all, finished) = first_step (insert_all (tag q ∷ tag q' ∷ map tag qs) root) _ built in
    let (m, first, later) =
      first_step (insert (tag q) root) (insert_all (tag q' ∷ map tag qs)) all in
    let same : insert_all (tag q' ∷ map tag qs) root ≡ ok n =
      ap (λ r. r >>= insert_all (map tag qs))
        (sym (insert-replaces kind s s' segs segs' (tag q) (tag q') m c e e' first))
      ∙ later in
    (
      record { root = sort_all (propagate_spec n); routes = map tag (q' ∷ qs); matchers = none },
      ap
          (λ r. r >>= (λ n. ok (record {
            root = sort_all (propagate_spec n);
            routes = map tag (q' ∷ qs);
            matchers = none;
          })))
          same,
      λ matchers path.
          ap (λ t. match (record t { matchers = matchers }) path) (sym (ok-injective finished)),
    )
