-- ===== src/Lexer/Skips.antt =====
-- internal/lexer, `skipSpaces`: it goes over spaces, and to a byte that is none.
use sveltego.Lexer.Cursor.{Cursor, has_more, peek, is_white}
use sveltego.Lexer.Cursor.{advance}
use sveltego.Lexer.Loops.{here, goes_on}
use sveltego.Lexer.Loops.{rounds, loop, skip, skip_spaces}
use sveltego.Lexer.Moves.{pos-advance, src-advance, skip_ends}
use sveltego.Base.{
  ℕ, zero, suc, ◌+◌, ◌-◌, ◌≤◌, ◌<◌, ◌≡◌, refl, subst, inl, inr, Bool, true, false, length, get_or,
  arith, Bool-cases, ltb, and_parts,
}

module _ (test : ℕ → Bool) where
  abbrev goes : Cursor → Bool
  goes = goes_on here (λ d. test (peek 0 d)) (advance 1)

  rounds_gap :
      (n : ℕ) (c : Cursor) (i : ℕ)
      → c.pos ≤ i
      → i < (rounds goes (advance 1) n c).pos
      → test (get_or c.src i 0) ≡ true
  unfolding rounds
  rounds_gap zero c i low high = absurd (omega arith)
  rounds_gap (suc n) c i low high = elim (Bool-cases (goes c)) [
    | inr h ↦ absurd (
        let same : c.pos ≡ (rounds goes (advance 1) (suc n) c).pos = rw (rounds, h) refl in
        omega arith)
    | inl h ↦
        let p = and_parts (has_more c) (test (peek 0 c)) h in
        let step : c.pos + 1 ≤ length c.src = ground (arith, p.0) in
        let pos : (advance 1 c).pos ≡ c.pos + 1 = (pos-advance 1 c).0 step in
        let same : (rounds goes (advance 1) n (advance 1 c)).pos
            ≡ (rounds goes (advance 1) (suc n) c).pos =
          rw (rounds, h) refl in
        let ih = rounds_gap n (advance 1 c) i in
        elim (Bool-cases (ltb c.pos i)) [
          | inl q ↦
              subst (λ s. test (get_or s i 0) ≡ true) (src-advance 1 c)
                (ih (ground (arith, pos, q)) (omega (arith, same)))
          | inr q ↦
              let here_is : c.pos + 0 ≡ i = ground (arith, q, low) in
              subst (λ k. test (get_or c.src k 0) ≡ true) here_is p.1
        ]
  ]

pub skip_spaces_gap :
    (c : Cursor) (i : ℕ) → c.pos ≤ i → i < (skip_spaces c).pos → is_white (get_or c.src i 0) ≡ true
unfolding skip_spaces skip loop
skip_spaces_gap c i = rounds_gap is_white (length c.src - c.pos) c i

pub skip_spaces_solid :
    (c : Cursor) → has_more (skip_spaces c) ≡ true → is_white (peek 0 (skip_spaces c)) ≡ false
unfolding skip_spaces
skip_spaces_solid c h = ground (arith, h, skip_ends is_white c)
