-- ===== src/Router/Match/Complete.antt =====
-- The matcher is complete: where a path of the tree fits, there is a hit.
use sveltego.Router.Segment.{Segment, SegmentKind, static, param, optional, rest, Route}
use sveltego.Router.Tree.{
  Node, node, Nodes, nil, cons, MaybeNode, absent, present, label, route, label_in,
}
use sveltego.Router.Table.{Matchers}
use sveltego.Router.State.{Capture}
use sveltego.Router.Match.{capture, accepts, join_segs}
use sveltego.Router.Match.Search.{
  Hit, under, hits_if, rest_end_hits, rest_hits, hits, optional_end_hits, static_hits, param_hits,
  optional_hits,
}
use sveltego.Router.Paths.{
  In, Is, Child, Leads, Fits, done, literal, required, given, omitted, remainder, no_remainder,
}
use sveltego.Base.{
  ℕ, ◌≡◌, refl, sym, ap, ◌∙◌, subst, ◌≢◌, inl, inr, Bool, true, Option, none, some, List, [], ◌∷◌,
  ◌++◌, map, Str, str_eq, str_eq_iff,
}

abbrev pub NonEmpty : List Hit → Type 0
NonEmpty [] = ⊥
NonEmpty (_ ∷ _) = Unit

NonEmpty-append_left : (xs ys : List Hit) → NonEmpty xs → NonEmpty (xs ++ ys)
NonEmpty-append_left (x ∷ xs) ys h = tt
NonEmpty-append_left [] ys h = absurd h

NonEmpty-append_right : (xs ys : List Hit) → NonEmpty ys → NonEmpty (xs ++ ys)
NonEmpty-append_right [] ys h = h
NonEmpty-append_right (x ∷ xs) ys h = tt

NonEmpty-map : (c : Capture) (xs : List Hit) → NonEmpty xs → NonEmpty (map (under c) xs)
NonEmpty-map c [] h = h
NonEmpty-map c (x ∷ xs) h = tt

NonEmpty-hits_if : (b : Bool) (xs : List Hit) → b ≡ true → NonEmpty xs → NonEmpty (hits_if b xs)
NonEmpty-hits_if b xs e h = rw e h

module _ (matchers : Option Matchers) where
  static_complete :
      (ss : Nodes) (c : Node) (seg : Str) (segs : List Str)
      → In c ss
      → (label c).value ≡ seg
      → NonEmpty (hits matchers c segs)
      → NonEmpty (static_hits matchers ss seg segs)
  unfolding hits
  static_complete nil c seg segs i e h = absurd i
  static_complete (cons d ds) c seg segs (inl same) e h =
      NonEmpty-append_left _ (static_hits matchers ds seg segs) (
        NonEmpty-hits_if _ (hits matchers d segs)
          ((str_eq_iff _ _).1 (ap (λ n. (label n).value) (sym same) ∙ e))
          (subst (λ n. NonEmpty (hits matchers n segs)) same h))
  static_complete (cons d ds) c seg segs (inr i) e h =
      NonEmpty-append_right (hits_if (str_eq (label d).value seg) (hits matchers d segs)) _
        (static_complete ds c seg segs i e h)

  param_complete :
      (ps : Nodes) (c : Node) (seg : Str) (segs : List Str)
      → In c ps
      → accepts matchers (label c).matcher seg ≡ true
      → NonEmpty (hits matchers c segs)
      → NonEmpty (param_hits matchers ps seg segs)
  unfolding hits
  param_complete nil c seg segs i e h = absurd i
  param_complete (cons d ds) c seg segs (inl same) e h =
      NonEmpty-append_left _ (param_hits matchers ds seg segs) (
        NonEmpty-hits_if _ (map (under (capture d seg)) (hits matchers d segs))
          (subst (λ n. accepts matchers (label n).matcher seg ≡ true) same e)
          (NonEmpty-map _ _ (subst (λ n. NonEmpty (hits matchers n segs)) same h)))
  param_complete (cons d ds) c seg segs (inr i) e h =
      NonEmpty-append_right
        (hits_if (accepts matchers (label d).matcher seg)
          (map (under (capture d seg)) (hits matchers d segs)))
        _ (param_complete ds c seg segs i e h)

  given_complete :
      (o : MaybeNode) (c : Node) (seg : Str) (segs : List Str)
      → Is c o
      → accepts matchers (label c).matcher seg ≡ true
      → NonEmpty (hits matchers c segs)
      → NonEmpty (optional_hits matchers o seg segs)
  unfolding hits
  given_complete absent c seg segs i e h = absurd i
  given_complete (present d) c seg segs same e h =
      NonEmpty-append_left _ (map (under (capture d [])) (hits matchers d (seg ∷ segs))) (
        NonEmpty-hits_if _ (map (under (capture d seg)) (hits matchers d segs))
          (subst (λ n. accepts matchers (label n).matcher seg ≡ true) same e)
          (NonEmpty-map _ _ (subst (λ n. NonEmpty (hits matchers n segs)) same h)))

  omitted_complete :
      (o : MaybeNode) (c : Node) (seg : Str) (segs : List Str)
      → Is c o
      → NonEmpty (hits matchers c (seg ∷ segs))
      → NonEmpty (optional_hits matchers o seg segs)
  unfolding hits
  omitted_complete absent c seg segs i h = absurd i
  omitted_complete (present d) c seg segs same h =
      NonEmpty-append_right
        (hits_if (accepts matchers (label d).matcher seg)
          (map (under (capture d seg)) (hits matchers d segs)))
        _ (NonEmpty-map _ _ (subst (λ n. NonEmpty (hits matchers n (seg ∷ segs))) same h))

  omitted_end_complete :
      (o : MaybeNode) (c : Node)
      → Is c o
      → NonEmpty (hits matchers c [])
      → NonEmpty (optional_end_hits matchers o)
  unfolding hits
  omitted_end_complete absent c i h = absurd i
  omitted_end_complete (present d) c same h =
      NonEmpty-map _ _ (subst (λ n. NonEmpty (hits matchers n [])) same h)

  rest_end_complete :
      (o : MaybeNode) (c : Node) (q : Route)
      → Is c o
      → route c ≡ some q
      → NonEmpty (rest_end_hits o)
  rest_end_complete absent c q i e = absurd i
  rest_end_complete (present (node _ _ _ _ l none _)) c q same e = cc (ap route same)
  rest_end_complete (present (node _ _ _ _ l (some r) _)) c q same e = tt

  rest_complete :
      (o : MaybeNode) (c : Node) (q : Route) (segs : List Str)
      → Is c o
      → route c ≡ some q
      → accepts matchers (label c).matcher (join_segs segs) ≡ true
      → NonEmpty (rest_hits matchers o segs)
  rest_complete absent c q segs i e a = absurd i
  rest_complete (present (node _ _ _ _ l none _)) c q segs same e a = cc (ap route same)
  rest_complete (present (node _ _ _ _ l (some r) _)) c q segs same e a =
      NonEmpty-hits_if _ _
        (subst (λ n. accepts matchers (label n).matcher (join_segs segs) ≡ true) same a) tt

  static_step :
      (n c : Node) (v : Str) (vs : List Str)
      → Child static n c
      → (label c).value ≡ v
      → NonEmpty (hits matchers c vs)
      → NonEmpty (hits matchers n (v ∷ vs))
  unfolding hits
  static_step (node ss ps o r l rt b) c v vs i e h =
      NonEmpty-append_left _ _ (static_complete ss c v vs i e h)

  param_step :
      (n c : Node) (v : Str) (vs : List Str)
      → Child param n c
      → accepts matchers (label c).matcher v ≡ true
      → NonEmpty (hits matchers c vs)
      → NonEmpty (hits matchers n (v ∷ vs))
  unfolding hits
  param_step (node ss ps o r l rt b) c v vs i e h =
      NonEmpty-append_right (static_hits matchers ss v vs) _
        (NonEmpty-append_left _ _ (param_complete ps c v vs i e h))

  optional_step :
      (ss ps : Nodes) (o r : MaybeNode) (l : Segment) (rt : Option Route) (b : Option (List ℕ))
      (v : Str) (vs : List Str)
      → NonEmpty (optional_hits matchers o v vs)
      → NonEmpty (hits matchers (node ss ps o r l rt b) (v ∷ vs))
  unfolding hits
  optional_step ss ps o r l rt b v vs h =
      NonEmpty-append_right (static_hits matchers ss v vs) _
        (NonEmpty-append_right (param_hits matchers ps v vs) _ (NonEmpty-append_left _ _ h))

  given_step :
      (n c : Node) (v : Str) (vs : List Str)
      → Child optional n c
      → accepts matchers (label c).matcher v ≡ true
      → NonEmpty (hits matchers c vs)
      → NonEmpty (hits matchers n (v ∷ vs))
  given_step (node ss ps o r l rt b) c v vs i e h =
      optional_step ss ps o r l rt b v vs (given_complete o c v vs i e h)

  omitted_step :
      (n c : Node) (segs : List Str)
      → Child optional n c
      → NonEmpty (hits matchers c segs)
      → NonEmpty (hits matchers n segs)
  omitted_step (node ss ps o r l (some q) b) c [] i h = unfold hits in tt
  omitted_step (node ss ps o r l none b) c [] i h =
      unfold hits in NonEmpty-append_left _ _ (omitted_end_complete o c i h)
  omitted_step (node ss ps o r l rt b) c (v ∷ vs) i h =
      optional_step ss ps o r l rt b v vs (omitted_complete o c v vs i h)

  rest_step :
      (n c : Node) (q : Route) (v : Str) (vs : List Str)
      → Child rest n c
      → route c ≡ some q
      → accepts matchers (label c).matcher (join_segs (v ∷ vs)) ≡ true
      → NonEmpty (hits matchers n (v ∷ vs))
  unfolding hits
  rest_step (node ss ps o r l rt b) c q v vs i e a =
      NonEmpty-append_right (static_hits matchers ss v vs) _ (
        NonEmpty-append_right (param_hits matchers ps v vs) _ (
          NonEmpty-append_right (optional_hits matchers o v vs) _
            (rest_complete r c q (v ∷ vs) i e a)))

  rest_end_step :
      (n c : Node) (q : Route) → Child rest n c → route c ≡ some q → NonEmpty (hits matchers n [])
  unfolding hits
  rest_end_step (node ss ps o r l (some q') b) c q i e = tt
  rest_end_step (node ss ps o r l none b) c q i e =
      NonEmpty-append_right (optional_end_hits matchers o) _ (rest_end_complete r c q i e)

  end_step : (n : Node) (q : Route) → route n ≡ some q → NonEmpty (hits matchers n [])
  unfolding hits
  end_step (node ss ps o r l (some q') b) q e = tt
  end_step (node ss ps o r l none b) q e = cc

  value-label : (s l : Segment) → s ≡ label_in s.kind l → s.kind ≡ static → l.value ≡ s.value
  value-label s l e k = sym (ap (λ t. t.value) e ∙ ap (λ j. (label_in j l).value) k)

  matcher-label :
      (k : SegmentKind) (s l : Segment)
      → k ≢ static
      → s ≡ label_in s.kind l
      → s.kind ≡ k
      → l.matcher ≡ s.matcher
  matcher-label static s l ne e h = absurd (ne refl)
  matcher-label param s l ne e h = sym (ap (λ t. t.matcher) e ∙ ap (λ j. (label_in j l).matcher) h)
  matcher-label optional s l ne e h =
      sym (ap (λ t. t.matcher) e ∙ ap (λ j. (label_in j l).matcher) h)
  matcher-label rest s l ne e h = sym (ap (λ t. t.matcher) e ∙ ap (λ j. (label_in j l).matcher) h)

  Child-at :
      {k : SegmentKind} (s : Segment) (n c : Node) → s.kind ≡ k → Child s.kind n c → Child k n c
  Child-at s n c e i = subst (λ j. Child j n c) e i

  pub hits_complete :
      {path : List Segment} {segs : List Str} {cs : List Capture} (n : Node) (q : Route)
      → Fits matchers path segs cs
      → Leads n path q
      → NonEmpty (hits matchers n segs)
  hits_complete n q done e = end_step n q e
  hits_complete n q (literal {s} {v} {vs} k e f) (c, i, same, leads) =
      static_step n c v vs (Child-at s n c k i) (value-label s (label c) same k ∙ e)
        (hits_complete c q f leads)
  hits_complete n q (required {s} {v} {vs} k a f) (c, i, same, leads) =
      param_step n c v vs (Child-at s n c k i) (rw (matcher-label param s (label c) (cc) same k) a)
        (hits_complete c q f leads)
  hits_complete n q (given {s} {v} {vs} k a f) (c, i, same, leads) =
      given_step n c v vs (Child-at s n c k i)
        (rw (matcher-label optional s (label c) (cc) same k) a) (hits_complete c q f leads)
  hits_complete n q (omitted {s} {vs} k f) (c, i, same, leads) =
      omitted_step n c vs (Child-at s n c k i) (hits_complete c q f leads)
  hits_complete n q (remainder {s} {v} {vs} k a) (c, i, same, leads) =
      rest_step n c q v vs (Child-at s n c k i) leads
        (rw (matcher-label rest s (label c) (cc) same k) a)
  hits_complete n q (no_remainder {s} k) (c, i, same, leads) =
      rest_end_step n c q (Child-at s n c k i) leads
