-- ===== src/Lexer/Unroll.antt =====
-- internal/lexer: one round of a loop at a time, and what is left of the source at the cursor.
use sveltego.Lexer.Cursor.{Cursor, has_more, peek}
unfoldable use sveltego.Lexer.Cursor.{advance, step_byte}
use sveltego.Lexer.Loops.{here, goes_on}
unfoldable use sveltego.Lexer.Loops.{rounds, loop, skip, skip_quoted, past_end}
use sveltego.Lexer.Moves.{
  Advances, Advances-by, Advances-Moves, Advances-pos, Moves-src, step_byte_lem, advance-suc,
  advance-advance,
}
use sveltego.Base.{
  ℕ, zero, suc, ◌+◌, ◌-◌, ◌≤◌, ◌≡◌, refl, sym, ap, ◌∙◌, inl, inr, Bool, true, false, not, [], ◌∷◌,
  ◌++◌, arith, ltb, ◌==◌, Bool-cases, and_parts, length, get_or, drop, All, Str,
}

abbrev pub left : Cursor → Str
left c = drop c.pos c.src

drop_at :
    (n : ℕ) (s : Str) (b : ℕ) (t : Str)
    → drop n s ≡ b ∷ t
    → (ltb n (length s) ≡ true) × (get_or s n 0 ≡ b) × (drop (suc n) s ≡ t)
drop_at zero [] b t h = cc
drop_at zero (x ∷ s) b t h = (ground arith, ground arith, ground arith)
drop_at (suc n) [] b t h = cc
drop_at (suc n) (x ∷ s) b t h =
    let (more, is, rest) = drop_at n s b t h in (ground (arith, more), is, rest)

pub advance_none : (c : Cursor) → advance 0 c ≡ c
advance_none c = unfold advance in refl

pub advance-advance_one : (n : ℕ) (c : Cursor) → advance n (advance 1 c) ≡ advance (suc n) c
advance-advance_one n c =
    let e : 1 + n ≡ suc n = omega arith in advance-advance 1 n c ∙ ap (λ k. advance k c) e

-- A byte is under the cursor, and one step leaves what follows it.
pub left-advance :
    (c : Cursor) (b : ℕ) (t : Str)
    → left c ≡ b ∷ t
    → (has_more c ≡ true) × (peek 0 c ≡ b) × (left (advance 1 c) ≡ t)
left-advance c b t h =
    let (more, is, rest) = drop_at c.pos c.src b t h in
    let zero_more : c.pos + 0 ≡ c.pos = omega arith in
    let (src, pos) = step_byte_lem c in
    let step : left (step_byte c) ≡ t = rw (src, pos) rest in
    (
      more,
      ap (λ k. get_or c.src k 0) zero_more ∙ is,
      ap left (advance-suc 0 c more ∙ advance_none (step_byte c)) ∙ step,
    )

-- A whole text is passed.
pub left-advance_by : (s t : Str) (c : Cursor) → left c ≡ s ++ t → left (advance (length s) c) ≡ t
left-advance_by [] t c h = ap left (advance_none c) ∙ h
left-advance_by (b ∷ s) t c h =
    let (more, is, rest) = left-advance c b (s ++ t) h in
    ap left (sym (advance-advance_one (length s) c)) ∙ left-advance_by s t (advance 1 c) rest

module _ {S : Type 0} (at : S → Cursor) (test : S → Bool) (body : S → S) where
  rounds_done :
      (n : ℕ) (s : S) → goes_on at test body s ≡ false → rounds (goes_on at test body) body n s ≡ s
  unfolding rounds
  rounds_done zero s h = refl
  rounds_done (suc n) s h = rw (rounds, h) refl

  pub loop_done : (s : S) → goes_on at test body s ≡ false → loop at test body s ≡ s
  unfolding loop
  loop_done s h = rounds_done (length (at s).src - (at s).pos) s h

  module _ (strict : (s : S) → Advances (at s) (at (body s))) where
    rounds_enough :
        (n m : ℕ) (s : S)
        → length (at s).src - (at s).pos ≤ n
        → length (at s).src - (at s).pos ≤ m
        → rounds (goes_on at test body) body n s ≡ rounds (goes_on at test body) body m s
    unfolding rounds
    rounds_enough zero m s p q = sym (rounds_done m s (ground arith))
    rounds_enough n zero s p q = rounds_done n s (ground arith)
    rounds_enough (suc n) (suc m) s p q = elim (Bool-cases (goes_on at test body s)) [
      | inr h ↦ rw (rounds, h) refl
      | inl h ↦
          let more = (and_parts (has_more (at s)) (test s) h).0 in
          let src : length (at (body s)).src ≡ length (at s).src =
            ap length (Moves-src (Advances-Moves (strict s))) in
          let pos = Advances-pos (strict s) more in
          rw (rounds, h) (rounds_enough n m (body s) (omega arith) (omega arith))
    ]

    rounds_round :
        (n : ℕ) (s : S)
        → goes_on at test body s ≡ true
        → rounds (goes_on at test body) body (suc n) s
          ≡ rounds (goes_on at test body) body n (body s)
    unfolding rounds
    rounds_round n s h = rw (rounds, h) refl

    -- A round that goes on may be taken first.
    pub loop_round :
        (s : S) → goes_on at test body s ≡ true → loop at test body s ≡ loop at test body (body s)
    unfolding loop
    loop_round s h =
        let more = (and_parts (has_more (at s)) (test s) h).0 in
        let src : length (at (body s)).src ≡ length (at s).src =
          ap length (Moves-src (Advances-Moves (strict s))) in
        let pos = Advances-pos (strict s) more in
        let n = length (at s).src - (at s).pos in
        let low : length (at (body s)).src - (at (body s)).pos ≤ n - 1 = omega arith in
        let big : n ≡ suc (n - 1) = ground (arith, more) in
        ap (λ k. rounds (goes_on at test body) body k s) big
        ∙ rounds_round (n - 1) s h
        ∙ rounds_enough (n - 1) (length (at (body s)).src - (at (body s)).pos) (body s) low
            (omega arith)

-- The runs of bytes that satisfy a test are passed as a whole.
pub skip_run :
    (test : ℕ → Bool) (s : Str) (b : ℕ) (t : Str) (c : Cursor)
    → All (λ x. test x ≡ true) s
    → test b ≡ false
    → left c ≡ s ++ b ∷ t
    → skip test c ≡ advance (length s) c
unfolding skip
skip_run test [] b t c a stop h =
    let (more, is, rest) = left-advance c b t h in
    let off : test (peek 0 c) ≡ false = ap test is ∙ stop in
    loop_done here (λ d. test (peek 0 d)) (advance 1) c (ground (arith, off)) ∙ sym (advance_none c)
skip_run test (x ∷ s) b t c (go, a) stop h =
    let (more, is, rest) = left-advance c x (s ++ b ∷ t) h in
    let on : test (peek 0 c) ≡ true = ap test is ∙ go in
    loop_round here (λ d. test (peek 0 d)) (advance 1) (Advances-by 0) c (ground (arith, more, on))
    ∙ skip_run test s b t (advance 1 c) a stop rest
    ∙ advance-advance_one (length s) c

past_end_more : (c : Cursor) → has_more c ≡ true → past_end c ≡ advance 1 c
unfolding past_end
past_end_more c h = rw (past_end, h) refl

-- A text with a byte on each side.
pub advance-around :
    (n : ℕ) (c : Cursor) → advance 1 (advance n (advance 1 c)) ≡ advance (suc (suc n)) c
advance-around n c =
    let e : suc n + 1 ≡ suc (suc n) = omega arith in
    ap (advance 1) (advance-advance_one n c) ∙ advance-advance (suc n) 1 c ∙ ap (λ k. advance k c) e

-- A quoted run with both of its quotes.
pub skip_quoted_run :
    (q : ℕ) (s t : Str) (c : Cursor)
    → All (λ x. not (x == q) ≡ true) s
    → left c ≡ q ∷ (s ++ q ∷ t)
    → skip_quoted q c ≡ advance (suc (suc (length s))) c
unfolding skip_quoted
skip_quoted_run q s t c a h =
    let (_, _, rest) = left-advance c q (s ++ q ∷ t) h in
    let run = skip_run (λ b. not (b == q)) s q t (advance 1 c) a (ground arith) rest in
    let there = left-advance_by s (q ∷ t) (advance 1 c) rest in
    let (more, _, _) = left-advance (advance (length s) (advance 1 c)) q t there in
    ap past_end run ∙ past_end_more _ more ∙ advance-around (length s) c
