-- ===== src/Lexer/Loops.antt =====
-- The loops of internal/lexer/lexer.go: each is `for l.pos < len(l.src)` with a further test or a
-- break. The state `S` is the cursor, with what the loop builds; as many rounds as there are bytes
-- left are enough, since each moves the cursor.
use sveltego.Lexer.Cursor.{Cursor, has_more, is_white, peek}
unfoldable use sveltego.Lexer.Cursor.{advance}
use sveltego.Base.{ℕ, zero, suc, ◌-◌, Bool, true, false, ◌&&◌, not, ◌==◌, length}

unfoldable pub rounds : {S : Type 0} → (S → Bool) → (S → S) → ℕ → S → S
rounds go body zero s = s
rounds go body (suc n) s = elim (go s) [ true ↦ rounds go body n (body s) | false ↦ s ]

module _ {S : Type 0} (at : S → Cursor) (test : S → Bool) (body : S → S) where
  abbrev pub goes_on : S → Bool
  goes_on s = has_more (at s) && test s

  unfoldable pub loop : S → S
  unfolding rounds
  loop s = rounds goes_on body (length (at s).src - (at s).pos) s

abbrev pub here : Cursor → Cursor
here c = c

-- `for l.pos < len(l.src) && test(l.peek(0)) { l.advance(1) }`
unfoldable pub skip : (ℕ → Bool) → Cursor → Cursor
unfolding loop advance
skip test = loop here (λ c. test (peek 0 c)) (advance 1)

unfoldable pub skip_spaces : Cursor → Cursor
unfolding skip
skip_spaces = skip is_white

-- What follows a string's loop: the closing byte, if the source has not ended.
unfoldable pub past_end : Cursor → Cursor
unfolding advance
past_end c = elim (has_more c) [ true ↦ advance 1 c | false ↦ c ]

unfoldable pub skip_quoted : ℕ → Cursor → Cursor
unfolding skip past_end advance
skip_quoted quote c = past_end (skip (λ b. not (b == quote)) (advance 1 c))
