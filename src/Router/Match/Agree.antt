-- ===== src/Router/Match/Agree.antt =====
-- The matcher agrees with the reference: backtracking over one mutable stack of captures finds the
-- first hit, and leaves the stack as it was if there is none.
use sveltego.Router.Segment.{Route}
use sveltego.Router.Tree.{Node, node, Nodes, nil, cons, MaybeNode, absent, present, label}
use sveltego.Router.Table.{Matchers}
use sveltego.Router.State.{
  Capture, MatchState, push, captures, IsValid, push-IsValid, truncate-IsValid, captures-push,
  captures-truncate, length-captures,
}
use sveltego.Router.Match.{
  Outcome, or_else, restore, capture, accepts, join_segs, match_rest_end, match_rest, match_node,
  match_optional_end, match_statics, match_params, match_optional,
}
use sveltego.Router.Match.Search.{
  Hit, under, hits_if, rest_end_hits, rest_hits, hits, optional_end_hits, static_hits, param_hits,
  optional_hits,
}
use sveltego.Base.{
  ℕ, ◌+◌, ◌≤◌, ◌≡◌, refl, sym, ap, ◌∙◌, Bool, true, false, Option, none, some, List, [], ◌∷◌, ◌++◌,
  map, append_assoc, append-nil, arith, if◌then◌else◌, length, take, length-append,
  take-length-append, Str, str_eq,
}

-- What a run from a stack that holds `base` must return, for the list of hits.
abbrev pub Agrees : List Capture → Outcome → List Hit → Type 0
Agrees base (q, st) [] = (q ≡ none) × (captures st ≡ base) × IsValid st
Agrees base (q, st) ((r, cs) ∷ _) = (q ≡ some r) × (captures st ≡ base ++ cs) × IsValid st

Agrees-or_else :
    (base : List Capture) (m : Outcome) (k : MatchState → Outcome) (xs ys : List Hit)
    → Agrees base m xs
    → ((st : MatchState) → captures st ≡ base → IsValid st → Agrees base (k st) ys)
    → Agrees base (or_else m k) (xs ++ ys)
Agrees-or_else base (none, st) k [] ys (e, c, v) h = h st c v
Agrees-or_else base (some r, st) k [] ys (e, c, v) h = cc
Agrees-or_else base (none, st) k (x ∷ xs) ys (e, c, v) h = cc
Agrees-or_else base (some r, st) k (x ∷ xs) ys a h = a

Agrees-restore :
    (base : List Capture) (before : ℕ) (c : Capture) (m : Outcome) (xs : List Hit)
    → before ≡ length base
    → Agrees (base ++ c ∷ []) m xs
    → Agrees base (restore before m) (map (under c) xs)
Agrees-restore base before c (none, st) [] e (_, held, v) =
    let size : length base + 1 ≡ st.n =
      sym (length-append base (c ∷ [])) ∙ sym (ap length held) ∙ length-captures st v in
    let within : before ≤ st.n = omega arith in
    (
      refl,
      captures-truncate st before v within
          ∙ ap (take before) held
          ∙ ap (λ k. take k (base ++ c ∷ [])) e
          ∙ take-length-append base (c ∷ []),
      truncate-IsValid st before v within,
    )
Agrees-restore base before c (some r, st) [] e (f, held, v) = cc
Agrees-restore base before c (none, st) (x ∷ xs) e (f, held, v) = cc
Agrees-restore base before c (some r, st) ((q, cs) ∷ xs) e (f, held, v) =
    (f, held ∙ append_assoc base (c ∷ []) cs, v)

-- Entering a child with one more capture, and leaving it.
Agrees-enter :
    (base : List Capture) (st : MatchState) (c : Capture) (run : MatchState → Outcome)
    (xs : List Hit)
    → captures st ≡ base
    → IsValid st
    → ((b : List Capture) (s : MatchState) → captures s ≡ b → IsValid s → Agrees b (run s) xs)
    → Agrees base (restore st.n (run (push st c))) (map (under c) xs)
Agrees-enter base st c run xs held v h =
    Agrees-restore base st.n c (run (push st c)) xs (sym (length-captures st v) ∙ ap length held) (
      h (base ++ c ∷ []) (push st c) (captures-push st c v ∙ ap (λ b. b ++ c ∷ []) held)
        (push-IsValid st c v))

-- A branch on a test, with the hits that the test lets through.
module _ (base : List Capture) (b : Bool) (m k : Outcome) (xs : List Hit) where
  Agrees-if : Agrees base m xs → Agrees base k [] → Agrees base (if b then m else k) (hits_if b xs)
  Agrees-if p q = go b
    where
      go : (t : Bool) → Agrees base (if t then m else k) (hits_if t xs)
      go true = p
      go false = q

  Agrees-test :
      Agrees base m xs
      → Agrees base k []
      → Agrees base (elim b [ true ↦ m | false ↦ k ]) (hits_if b xs)
  Agrees-test p q = go b
    where
      go : (t : Bool) → Agrees base (elim t [ true ↦ m | false ↦ k ]) (hits_if t xs)
      go true = p
      go false = q

  Agrees-branch :
      (ys : List Hit)
      → Agrees base m (xs ++ ys)
      → Agrees base k ys
      → Agrees base (elim b [ true ↦ m | false ↦ k ]) (hits_if b xs ++ ys)
  Agrees-branch ys p q = go b
    where
      go : (t : Bool) → Agrees base (elim t [ true ↦ m | false ↦ k ]) (hits_if t xs ++ ys)
      go true = p
      go false = q

Agrees-push :
    (base : List Capture) (st : MatchState) (c : Capture) (r : Route)
    → captures st ≡ base
    → IsValid st
    → Agrees base (some r, push st c) ((r, c ∷ []) ∷ [])
Agrees-push base st c r held v =
    (refl, captures-push st c v ∙ ap (λ b. b ++ c ∷ []) held, push-IsValid st c v)

match_rest_end-Agrees :
    (base : List Capture) (o : MaybeNode) (st : MatchState)
    → captures st ≡ base
    → IsValid st
    → Agrees base (match_rest_end o st) (rest_end_hits o)
unfolding match_rest_end
match_rest_end-Agrees base absent st held v = (refl, held, v)
match_rest_end-Agrees base (present (node _ _ _ _ l none _)) st held v = (refl, held, v)
match_rest_end-Agrees base (present (node _ _ _ _ l (some r) _)) st held v =
    Agrees-push base st (record { name = l.name; value = [] }) r held v

module _ (matchers : Option Matchers) where
  match_rest-Agrees :
      (base : List Capture) (o : MaybeNode) (segs : List Str) (st : MatchState)
      → captures st ≡ base
      → IsValid st
      → Agrees base (match_rest matchers o segs st) (rest_hits matchers o segs)
  unfolding match_rest
  match_rest-Agrees base absent segs st held v = (refl, held, v)
  match_rest-Agrees base (present (node _ _ _ _ l none _)) segs st held v = (refl, held, v)
  match_rest-Agrees base (present (node _ _ _ _ l (some r) _)) segs st held v =
      Agrees-if base (accepts matchers l.matcher (join_segs segs)) _ _ _
        (Agrees-push base st (record { name = l.name; value = join_segs segs }) r held v)
        (refl, held, v)

  mutual
    unfolding match_node hits

    pub match_node-Agrees :
        (n : Node) (segs : List Str) (base : List Capture) (st : MatchState)
        → captures st ≡ base
        → IsValid st
        → Agrees base (match_node matchers n segs st) (hits matchers n segs)
    match_node-Agrees (node ss ps o r l (some q) b) [] base st held v =
        (refl, held ∙ sym (append-nil base), v)
    match_node-Agrees (node ss ps o r l none b) [] base st held v =
        Agrees-or_else base _ _ _ _ (optional_end-Agrees o base st held v)
          (λ s. match_rest_end-Agrees base r s)
    match_node-Agrees (node ss ps o r l rt b) (seg ∷ segs) base st held v =
        Agrees-or_else base _ _ _ _ (statics-Agrees ss seg segs base st held v) (λ s1 h1 v1.
          Agrees-or_else base _ _ _ _ (params-Agrees ps seg segs base s1 h1 v1) (λ s2 h2 v2.
            Agrees-or_else base _ _ _ _ (optional-Agrees o seg segs base s2 h2 v2)
              (λ s3. match_rest-Agrees base r (seg ∷ segs) s3)))

    optional_end-Agrees :
        (o : MaybeNode) (base : List Capture) (st : MatchState)
        → captures st ≡ base
        → IsValid st
        → Agrees base (match_optional_end matchers o st) (optional_end_hits matchers o)
    optional_end-Agrees absent base st held v = (refl, held, v)
    optional_end-Agrees (present c) base st held v =
        Agrees-enter base st (capture c []) (match_node matchers c []) _ held v
          (λ b s. match_node-Agrees c [] b s)

    statics-Agrees :
        (cs : Nodes) (seg : Str) (segs : List Str) (base : List Capture) (st : MatchState)
        → captures st ≡ base
        → IsValid st
        → Agrees base (match_statics matchers cs seg segs st) (static_hits matchers cs seg segs)
    statics-Agrees nil seg segs base st held v = (refl, held, v)
    statics-Agrees (cons c cs) seg segs base st held v =
        let here = λ (s : MatchState). match_node-Agrees c segs base s in
        let later = λ (s : MatchState). statics-Agrees cs seg segs base s in
        Agrees-branch base (str_eq (label c).value seg) _ _ _ _
          (Agrees-or_else base _ _ _ _ (here st held v) later) (later st held v)

    params-Agrees :
        (cs : Nodes) (seg : Str) (segs : List Str) (base : List Capture) (st : MatchState)
        → captures st ≡ base
        → IsValid st
        → Agrees base (match_params matchers cs seg segs st) (param_hits matchers cs seg segs)
    params-Agrees nil seg segs base st held v = (refl, held, v)
    params-Agrees (cons c cs) seg segs base st held v =
        let here =
          Agrees-enter base st (capture c seg) (match_node matchers c segs) _ held v
            (λ b s. match_node-Agrees c segs b s) in
        let later = λ (s : MatchState). params-Agrees cs seg segs base s in
        Agrees-branch base (accepts matchers (label c).matcher seg) _ _ _ _
          (Agrees-or_else base _ _ _ _ here later) (later st held v)

    optional-Agrees :
        (o : MaybeNode) (seg : Str) (segs : List Str) (base : List Capture) (st : MatchState)
        → captures st ≡ base
        → IsValid st
        → Agrees base (match_optional matchers o seg segs st) (optional_hits matchers o seg segs)
    optional-Agrees absent seg segs base st held v = (refl, held, v)
    optional-Agrees (present c) seg segs base st held v =
        let taken =
          Agrees-enter base st (capture c seg) (match_node matchers c segs) _ held v
            (λ b s. match_node-Agrees c segs b s) in
        let skipped = λ (s : MatchState) (h : captures s ≡ base) (w : IsValid s).
          Agrees-enter base s (capture c []) (match_node matchers c (seg ∷ segs)) _ h w
            (λ b s'. match_node-Agrees c (seg ∷ segs) b s') in
        Agrees-or_else base _ _ _ _
          (Agrees-test base (accepts matchers (label c).matcher seg) _ _ _ taken (refl, held, v))
          skipped
