-- ===== src/Lexer/Positions.antt =====
-- internal/lexer: line and column, against a count of the newlines before the position.
use sveltego.Lexer.Cursor.{Cursor, has_more}
use sveltego.Lexer.Cursor.{advance, step_byte}
use sveltego.Lexer.Moves.{Moves, advance_stuck, advance-suc}
use sveltego.Base.{
  take-suc, ℕ, zero, suc, ◌+◌, ◌<◌, ◌≡◌, refl, ap, ◌∙◌, inl, inr, true, arith, [], ◌∷◌, ◌++◌, ltb,
  length, get_or, take, Bool-cases, Str, ◌==◌, if◌then◌else◌, ◌||◌,
}

-- The newlines of a text, and what it has behind the last of them.
unfoldable pub newlines : Str → ℕ
newlines [] = 0
newlines (c ∷ s) = if c == 10 then suc (newlines s) else newlines s

unfoldable pub last_line : Str → Str
unfolding newlines
last_line [] = []
last_line (c ∷ s) =
    let rest = last_line s in if c == 10 || ltb 0 (newlines s) then rest else c ∷ rest

-- The place of a position of a source, both counted from one.
abbrev pub line_at : Str → ℕ → ℕ
line_at s i = suc (newlines (take i s))

abbrev pub col_at : Str → ℕ → ℕ
col_at s i = suc (length (last_line (take i s)))

newlines-snoc :
    (s : Str) (c : ℕ) → newlines (s ++ c ∷ []) ≡ (if c == 10 then suc (newlines s) else newlines s)
unfolding newlines
newlines-snoc [] c = refl
newlines-snoc (b ∷ s) c = ground (arith, newlines-snoc s c)

length-last_line-snoc :
    (s : Str) (c : ℕ)
    → length (last_line (s ++ c ∷ [])) ≡ (if c == 10 then 0 else suc (length (last_line s)))
unfolding last_line newlines
length-last_line-snoc [] c = ground arith
length-last_line-snoc (b ∷ s) c = ground (arith, length-last_line-snoc s c, newlines-snoc s c)

pub record Placed (c : Cursor) : Type 0 where
  pub line : c.line ≡ line_at c.src c.pos
  pub col : c.col ≡ col_at c.src c.pos

step_byte-Placed : (c : Cursor) → has_more c ≡ true → Placed c → Placed (step_byte c)
unfolding step_byte
step_byte-Placed c h p =
    let low : c.pos < length c.src = ground arith in
    let here : c.pos + 0 ≡ c.pos = omega arith in
    let s = take c.pos c.src in
    let b = get_or c.src c.pos 0 in
    let lines : line_at c.src (suc c.pos)
        ≡ (if b == 10 then suc (line_at c.src c.pos) else line_at c.src c.pos) =
      ap (λ t. suc (newlines t)) (take-suc c.pos c.src 0 low) ∙ ground (arith, newlines-snoc s b) in
    let cols : col_at c.src (suc c.pos) ≡ (if b == 10 then 1 else suc (col_at c.src c.pos)) =
      ap (λ t. suc (length (last_line t))) (take-suc c.pos c.src 0 low)
      ∙ ground (arith, length-last_line-snoc s b) in
    elim (Bool-cases (b == 10)) [
      | inl e ↦
          rw (here, e) (record { line = ground (arith, lines, p.line); col = ground (arith, cols) })
      | inr e ↦
          rw (here, e)
            (record { line = ground (arith, lines, p.line); col = ground (arith, cols, p.col) })
    ]

advance-Placed : (n : ℕ) (c : Cursor) → Placed c → Placed (advance n c)
advance-Placed zero c p = unfold advance in p
advance-Placed (suc n) c p = elim (Bool-cases (has_more c)) [
  | inl h ↦ rw (advance-suc n c h) (advance-Placed n (step_byte c) (step_byte-Placed c h p))
  | inr h ↦ rw (advance_stuck (suc n) c h) p
]

pub Moves-Placed : {c d : Cursor} → Moves c d → Placed c → Placed d
Moves-Placed {c} m p = rw m.lands (advance-Placed m.count c p)
