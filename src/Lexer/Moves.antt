-- ===== src/Lexer/Moves.antt =====
-- internal/lexer: every motion of the cursor is some number of steps of `advance`, so the loops
-- keep what `advance` keeps, and they end by their own tests.
use sveltego.Lexer.Cursor.{Cursor, has_more, peek, is_white}
use sveltego.Lexer.Cursor.{advance, step_byte}
use sveltego.Lexer.Loops.{here, goes_on, rounds, loop, skip, skip_spaces, skip_quoted, past_end}
use sveltego.Base.{
  ℕ, zero, suc, ◌+◌, ◌-◌, ◌≤◌, ◌<◌, ◌≡◌, refl, ap, ◌∙◌, inl, inr, Bool, true, false, ◌&&◌, arith,
  ltb, length, Bool-cases, not, and_parts, ◌==◌,
}

pub advance_stuck : (n : ℕ) (c : Cursor) → has_more c ≡ false → advance n c ≡ c
unfolding advance
advance_stuck zero c h = refl
advance_stuck (suc n) c h = rw (advance, h) refl

pub advance-suc :
    (n : ℕ) (c : Cursor) → has_more c ≡ true → advance (suc n) c ≡ advance n (step_byte c)
unfolding advance
advance-suc n c h = rw (advance, h) refl

pub advance-advance : (m n : ℕ) (c : Cursor) → advance n (advance m c) ≡ advance (m + n) c
unfolding advance
advance-advance zero n c = let e : n ≡ 0 + n = omega arith in ap (λ k. advance k c) e
advance-advance (suc m) n c =
    let e : suc (m + n) ≡ suc m + n = omega arith in
    rw (← e) (elim (Bool-cases (has_more c)) [
      | inl h ↦ rw (advance-suc m c h, advance-suc (m + n) c h) (advance-advance m n (step_byte c))
      | inr h ↦
          rw (advance_stuck (suc m) c h, advance_stuck (suc (m + n)) c h) (advance_stuck n c h)
    ])

pub step_byte_lem : (c : Cursor) → ((step_byte c).src ≡ c.src) × ((step_byte c).pos ≡ suc c.pos)
unfolding step_byte
step_byte_lem c = ground arith

pub src-advance : (n : ℕ) (c : Cursor) → (advance n c).src ≡ c.src
src-advance zero c = unfold advance in refl
src-advance (suc n) c = elim (Bool-cases (has_more c)) [
  | inl h ↦ rw (advance-suc n c h) (src-advance n (step_byte c) ∙ (step_byte_lem c).0)
  | inr h ↦ rw (advance_stuck (suc n) c h) refl
]

-- As far as there are bytes.
pub pos-advance :
    (n : ℕ) (c : Cursor)
    → (c.pos + n ≤ length c.src → (advance n c).pos ≡ c.pos + n)
      × (c.pos ≤ (advance n c).pos)
      × (c.pos ≤ length c.src → (advance n c).pos ≤ length c.src)
pos-advance zero c = unfold advance in ground arith
pos-advance (suc n) c =
    let same : length (step_byte c).src ≡ length c.src = ap length (step_byte_lem c).0 in
    let ih = pos-advance n (step_byte c) in
    elim (Bool-cases (has_more c)) [
      | inl h ↦ rw (advance-suc n c h) (ground (arith, ih, (step_byte_lem c).1, same))
      | inr h ↦ rw (advance_stuck (suc n) c h) (ground arith)
    ]

pub record Moves (c d : Cursor) : Type 0 where
  pub count : ℕ
  pub lands : d ≡ advance count c

pub record Advances (c d : Cursor) : Type 0 where
  pub count : ℕ
  pub lands : d ≡ advance (suc count) c

pub stays : (c : Cursor) → Moves c c
stays c = record { count = 0; lands = unfold advance in refl }

pub Moves-by : (n : ℕ) (c : Cursor) → Moves c (advance n c)
Moves-by n c = record { count = n; lands = refl }

pub Advances-by : (n : ℕ) (c : Cursor) → Advances c (advance (suc n) c)
Advances-by n c = record { count = n; lands = refl }

pub Advances-at : (n : ℕ) (c : Cursor) → 0 < n → Advances c (advance n c)
Advances-at zero c h = absurd (omega arith)
Advances-at (suc n) c h = Advances-by n c

-- A motion that passes a byte, and one that passes none.
pub Moves-strict : {c d : Cursor} → Moves c d → ltb c.pos d.pos ≡ true → Advances c d
unfolding advance
Moves-strict {c} {d} m h = go m.count m.lands
  where
    go : (n : ℕ) → d ≡ advance n c → Advances c d
    go zero l =
        let same : d.pos ≡ c.pos = ap (λ (e : Cursor). e.pos) l in absurd (ground (arith, same, h))
    go (suc n) l = record { count = n; lands = l }

pub then-Moves : {c d e : Cursor} → Moves c d → Moves d e → Moves c e
then-Moves {c} m n = record {
  count = m.count + n.count;
  lands = n.lands ∙ ap (advance n.count) m.lands ∙ advance-advance m.count n.count c;
}

pub Advances-then : {c d e : Cursor} → Advances c d → Moves d e → Advances c e
Advances-then {c} m n =
    let e : suc m.count + n.count ≡ suc (m.count + n.count) = omega arith in
    let more : advance (suc m.count + n.count) c ≡ advance (suc (m.count + n.count)) c =
      ap (λ k. advance k c) e in
    record {
      count = m.count + n.count;
      lands =
          n.lands ∙ ap (advance n.count) m.lands ∙ advance-advance (suc m.count) n.count c ∙ more;
    }

pub Advances-Moves : {c d : Cursor} → Advances c d → Moves c d
Advances-Moves m = record { count = suc m.count; lands = m.lands }

pub Moves-src : {c d : Cursor} → Moves c d → d.src ≡ c.src
Moves-src {c} m = ap (λ (e : Cursor). e.src) m.lands ∙ src-advance m.count c

pub Moves-pos :
    {c d : Cursor} → Moves c d → (c.pos ≤ d.pos) × (c.pos ≤ length c.src → d.pos ≤ length c.src)
Moves-pos {c} m = let p = pos-advance m.count c in rw m.lands (p.1, p.2)

pub Advances-pos : {c d : Cursor} → Advances c d → has_more c ≡ true → c.pos < d.pos
Advances-pos {c} m h =
    let low : c.pos + 1 ≤ length c.src = ground arith in
    let first = (pos-advance 1 c).0 low in
    let all = (pos-advance m.count (advance 1 c)).1 in
    let e : 1 + m.count ≡ suc m.count = omega arith in
    rw m.lands (rw (← e) (rw (← advance-advance 1 m.count c) (omega (arith, first, all))))

-- A loop whose body takes at least one byte, wherever it is run.
module _ {S : Type 0} (at : S → Cursor) (test : S → Bool) (body : S → S)
    (strict : (s : S) → Advances (at s) (at (body s))) where
  rounds_lem :
      (n : ℕ) (s : S)
      → Moves (at s) (at (rounds (goes_on at test body) body n s))
        × (length (at s).src - (at s).pos ≤ n
            → goes_on at test body (rounds (goes_on at test body) body n s) ≡ false)
  unfolding rounds
  rounds_lem zero s = (stays (at s), λ h. ground arith)
  rounds_lem (suc n) s = elim (Bool-cases (goes_on at test body s)) [
    | inr h ↦ rw (rounds, h) (stays (at s), λ _. h)
    | inl h ↦
        let more = (and_parts (has_more (at s)) (test s) h).0 in
        let ih = rounds_lem n (body s) in
        let src : length (at (body s)).src ≡ length (at s).src =
          ap length (Moves-src (Advances-Moves (strict s))) in
        let pos = Advances-pos (strict s) more in
        rw (rounds, h) (then-Moves (Advances-Moves (strict s)) ih.0, λ le. ih.1 (omega arith))
  ]

  pub loop-Moves : (s : S) → Moves (at s) (at (loop at test body s))
  unfolding loop
  loop-Moves s = (rounds_lem (length (at s).src - (at s).pos) s).0

  pub loop_ends : (s : S) → goes_on at test body (loop at test body s) ≡ false
  unfolding loop
  loop_ends s = (rounds_lem (length (at s).src - (at s).pos) s).1 (omega arith)

  -- The loop takes a byte if its first round does.
  pub loop_strict :
      (s : S) → goes_on at test body s ≡ true → Advances (at s) (at (loop at test body s))
  unfolding loop rounds
  loop_strict s h =
      let more = (and_parts (has_more (at s)) (test s) h).0 in
      first (length (at s).src - (at s).pos) (ground (arith, more))
    where
      first : (n : ℕ) → 0 < n → Advances (at s) (at (rounds (goes_on at test body) body n s))
      first zero p = absurd (omega arith)
      first (suc n) p = rw (rounds, h) (Advances-then (strict s) (rounds_lem n (body s)).0)

pub skip-Moves : (test : ℕ → Bool) (c : Cursor) → Moves c (skip test c)
unfolding skip
skip-Moves test = loop-Moves here (λ c. test (peek 0 c)) (advance 1) (Advances-by 0)

pub skip_strict :
    (test : ℕ → Bool) (c : Cursor)
    → has_more c ≡ true
    → test (peek 0 c) ≡ true
    → Advances c (skip test c)
unfolding skip
skip_strict test c more h =
    loop_strict here (λ d. test (peek 0 d)) (advance 1) (Advances-by 0) c (ground (arith, more, h))

pub skip_ends :
    (test : ℕ → Bool) (c : Cursor) → (has_more (skip test c) && test (peek 0 (skip test c))) ≡ false
unfolding skip
skip_ends test = loop_ends here (λ c. test (peek 0 c)) (advance 1) (Advances-by 0)

pub skip_spaces-Moves : (c : Cursor) → Moves c (skip_spaces c)
unfolding skip_spaces
skip_spaces-Moves = skip-Moves is_white

pub past_end-Moves : (c : Cursor) → Moves c (past_end c)
unfolding past_end
past_end-Moves c = elim (Bool-cases (has_more c)) [
  | inl h ↦ rw (past_end, h) (Moves-by 1 c)
  | inr h ↦ rw (past_end, h) (stays c)
]

pub skip_quoted-Advances : (quote : ℕ) (c : Cursor) → Advances c (skip_quoted quote c)
unfolding skip_quoted
skip_quoted-Advances quote c =
    Advances-then (Advances-by 0 c)
      (then-Moves (skip-Moves (λ b. not (b == quote)) (advance 1 c)) (past_end-Moves _))
