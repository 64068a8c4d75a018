-- ===== src/Lexer/Ends.antt =====
-- internal/lexer/lexer.go, the ends of its loops.
use sveltego.Lexer.Cursor.{Cursor, has_more, peek}
use sveltego.Lexer.Cursor.{advance, starts_with}
use sveltego.Lexer.Loops.{here}
use sveltego.Lexer.Loops.{skip}
use sveltego.Lexer.Mustache.{is_escape, skip_literal, Body, body_step, body_end}
use sveltego.Lexer.Raw.{comment_end, raw_open_end, raw_open_step, raw_body_end, at_closer}
use sveltego.Lexer.Texts.{Text, text_step, text_run, is_escaped_brace, is_markup}
use sveltego.Lexer.Moves.{Advances-by, loop_ends, skip_ends}
use sveltego.Lexer.Spans.Mustaches.{literal-Advances, body_step-Advances}
use sveltego.Lexer.Spans.Raws.{raw_open_step-Advances}
use sveltego.Lexer.Spans.Runs.{text_step-Advances}
use sveltego.Base.{[], ℕ, ◌≡◌, Bool, false, ◌&&◌, ◌||◌, not, if◌then◌else◌, ◌==◌, str, Str, arith}

-- The source does not go on where `test` fails: the cursor is at its end, or `test` holds.
abbrev pub Ended : (Cursor → Bool) → Cursor → Type 0
Ended test c = (has_more c && not (test c)) ≡ false

text_ends : (c : Cursor) → Ended (λ d. not (is_escaped_brace d) && is_markup d) (text_run c).cursor
unfolding text_run
text_ends c = ground (
  arith,
  loop_ends (λ (t : Text). t.cursor) (λ t. is_escaped_brace t.cursor || not (is_markup t.cursor))
      text_step text_step-Advances start,
)
  where
    start : Text
    start = record { cursor = c; b = [] }

literal_ends :
    (quote : ℕ) (c : Cursor)
    → Ended (λ d. peek 0 d == quote || peek 0 d == 10) (skip_literal quote c)
unfolding skip_literal
literal_ends quote c = ground (
  arith,
  loop_ends here (λ d. is_escape d || not (peek 0 d == quote || peek 0 d == 10))
      (λ d. advance (if is_escape d then 2 else 1) d) literal-Advances c,
)

body_ends : (c : Cursor) → Ended (λ d. peek 0 d == b'}') (body_end c)
unfolding body_end
body_ends c = ground (
  arith,
  loop_ends (λ (b : Body). b.cursor) (λ b. not (peek 0 b.cursor == b'}' && b.depth == 1)) body_step
      body_step-Advances start,
)
  where
    start : Body
    start = record { cursor = c; depth = 1 }

-- The loops of the lexer from a cursor: those of a comment, of an opening tag, of a raw element's
-- body, of text, of a string between braces, of the plain runs, and of what stands between braces.
abbrev EveryLoopEnds : Cursor → Str → ℕ → (ℕ → Bool) → Type 0
EveryLoopEnds c closer quote test =
    Ended (starts_with (str "-->")) (comment_end c)
    × Ended (λ d. peek 0 d == b'>') (raw_open_end c)
    × Ended (at_closer closer) (raw_body_end closer c)
    × Ended (λ d. not (is_escaped_brace d) && is_markup d) (text_run c).cursor
    × Ended (λ d. peek 0 d == quote || peek 0 d == 10) (skip_literal quote c)
    × Ended (λ d. not (test (peek 0 d))) (skip test c)
    × Ended (λ d. peek 0 d == b'}') (body_end c)

-- However a loop of the lexer starts, it goes on until what it looks for is under the cursor or the
-- source ends: the end mark of a comment, the `>` of a tag, the closing tag, the start of markup, a
-- quote or a newline, a byte that fails the test, or the closing brace. The model's count of
-- rounds never stops one before.
loops_end :
    (c : Cursor) (closer : Str) (quote : ℕ) (test : ℕ → Bool) → EveryLoopEnds c closer quote test
unfolding comment_end raw_open_end raw_body_end
loops_end c closer quote test = (
  loop_ends here (λ d. not (starts_with (str "-->") d)) (advance 1) (Advances-by 0) c,
  loop_ends here (λ d. not (peek 0 d == b'>')) raw_open_step raw_open_step-Advances c,
  loop_ends here (λ d. not (at_closer closer d)) (advance 1) (Advances-by 0) c,
  text_ends c,
  literal_ends quote c,
  ground (arith, skip_ends test c),
  body_ends c,
)
