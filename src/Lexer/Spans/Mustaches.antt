-- ===== src/Lexer/Spans/Mustaches.antt =====
-- The tokens of `lexMustache` and of what stands between braces.
use sveltego.Lexer.Tokens.{
  TokenKind, token_error, token_text, token_mustache_open, token_mustache_close, mode_mustache,
  mode_mustache_close,
}
use sveltego.Lexer.Cursor.{Cursor, has_more, peek}
use sveltego.Lexer.Cursor.{advance}
use sveltego.Lexer.Loops.{here}
use sveltego.Lexer.Loops.{skip_spaces}
use sveltego.Lexer.State.{Lexer, pop_mode}
use sveltego.Lexer.Mustache.{
  is_escape, skip_literal, skip_string, Body, body_step, body_end, scan_mustache_body,
  lex_block_tag, block_kind_at, lex_mustache, lex_mustache_expr, lex_mustache_close_brace,
}
use sveltego.Lexer.Modes.{Turn, keep, pushed, pop, swap}
use sveltego.Lexer.Moves.{
  Moves, Advances, stays, Moves-by, Advances-by, then-Moves, Advances-then, loop-Moves,
  skip_spaces-Moves, skip_quoted-Advances,
}
use sveltego.Lexer.Spans.{Emits, Consumes, span-Emits, span-Consumes, mark-Consumes, room}
use sveltego.Base.{
  ℕ, ◌≡◌, inl, inr, Bool, true, false, ◌&&◌, ◌||◌, not, Bool-cases, Option-cases, if◌then◌else◌,
  ◌==◌, str, arith,
}

pub literal-Advances : (c : Cursor) → Advances c (advance (if is_escape c then 2 else 1) c)
literal-Advances c = elim (Bool-cases (is_escape c)) [
  | inl h ↦ rw h (Advances-by 1 c)
  | inr h ↦ rw h (Advances-by 0 c)
]

skip_literal-Moves : (quote : ℕ) (c : Cursor) → Moves c (skip_literal quote c)
unfolding skip_literal
skip_literal-Moves quote =
    loop-Moves here (λ c. is_escape c || not (peek 0 c == quote || peek 0 c == 10))
      (λ c. advance (if is_escape c then 2 else 1) c) literal-Advances

one_or_none : (b : Bool) (c : Cursor) → Moves c (elim b [ true ↦ advance 1 c | false ↦ c ])
one_or_none true c = Moves-by 1 c
one_or_none false c = stays c

skip_string-Advances : (quote : ℕ) (c : Cursor) → Advances c (skip_string quote c)
unfolding skip_string
skip_string-Advances quote c =
    Advances-then (Advances-by 0 c)
      (then-Moves (skip_literal-Moves quote (advance 1 c)) (one_or_none _ _))

pub body_step-Advances : (b : Body) → Advances b.cursor (body_step b).cursor
unfolding body_step
body_step-Advances b =
    let quoted = skip_quoted-Advances b'`' b.cursor in
    let double = skip_string-Advances b'"' b.cursor in
    let single = skip_string-Advances b'\'' b.cursor in
    let one = Advances-by 0 b.cursor in ground (arith, quoted, double, single, one)

body_end-Moves : (c : Cursor) → Moves c (body_end c)
unfolding body_end
body_end-Moves c =
    loop-Moves (λ (b : Body). b.cursor) (λ b. not (peek 0 b.cursor == b'}' && b.depth == 1))
      body_step body_step-Advances _

scan_mustache_body-Moves : (close : Bool) (c : Cursor) → Moves c (scan_mustache_body close c).1
unfolding scan_mustache_body
scan_mustache_body-Moves close c = elim (Bool-cases (has_more (body_end c))) [
  | inl h ↦ rw (scan_mustache_body, h) (then-Moves (body_end-Moves c) (one_or_none close _))
  | inr h ↦ rw (scan_mustache_body, h) (body_end-Moves c)
]

lex_block_tag-Consumes :
    (start c : Cursor) (kind : TokenKind)
    → Advances start c
    → Consumes start (lex_block_tag start kind c).0 (lex_block_tag start kind c).1
unfolding lex_block_tag
lex_block_tag-Consumes start c kind m =
    let whole = Advances-then m (scan_mustache_body-Moves true c) in
    elim (Option-cases (scan_mustache_body true c).0) [
      | inl h ↦ rw (lex_block_tag, h) (span-Consumes token_error _ whole)
      | inr (body, h) ↦ rw (lex_block_tag, h) (span-Consumes kind body whole)
    ]

pub lex_mustache-Consumes :
    (l : Lexer)
    → has_more l.cursor ≡ true
    → Consumes l.cursor (lex_mustache l).0 (lex_mustache l).1.cursor
unfolding lex_mustache
lex_mustache-Consumes l h =
    let saved = advance 1 l.cursor in
    elim (Option-cases (block_kind_at (skip_spaces saved))) [
      | inl e ↦
          rw (lex_mustache, e)
            (mark-Consumes token_mustache_open (str "{") l.cursor (omega arith) (room l.cursor h))
      | inr (kind, e) ↦
          rw (lex_mustache, e)
            (lex_block_tag-Consumes l.cursor (skip_spaces saved) kind
              (Advances-then (Advances-by 0 l.cursor) (skip_spaces-Moves saved)))
    ]

pub lex_mustache_expr-Emits :
    (l : Lexer) → Emits l.cursor (lex_mustache_expr l).0 (lex_mustache_expr l).1.cursor
unfolding lex_mustache_expr
lex_mustache_expr-Emits l =
    let m = scan_mustache_body-Moves false l.cursor in
    elim (Option-cases (scan_mustache_body false l.cursor).0) [
      | inl h ↦ rw (lex_mustache_expr, h) (span-Emits token_error _ m)
      | inr (body, h) ↦ rw (lex_mustache_expr, h) (span-Emits token_text body m)
    ]

pub lex_mustache_close_brace-Consumes :
    (l : Lexer)
    → has_more l.cursor ≡ true
    → Consumes l.cursor (lex_mustache_close_brace l).0 (lex_mustache_close_brace l).1.cursor
unfolding lex_mustache_close_brace
lex_mustache_close_brace-Consumes l h =
    mark-Consumes token_mustache_close (str "}") l.cursor (omega arith) (room l.cursor h)

pub lex_mustache-Turn : (l : Lexer) → Turn l.modes (lex_mustache l).1.modes
unfolding lex_mustache
lex_mustache-Turn l = elim (Option-cases (block_kind_at (skip_spaces (advance 1 l.cursor)))) [
  | inl e ↦ rw (lex_mustache, e) (pushed mode_mustache)
  | inr (kind, e) ↦ rw (lex_mustache, e) keep
]

-- As an attribute's value, whose mode is taken off first.
pub lex_mustache-pop_mode-Turn : (l : Lexer) → Turn l.modes (lex_mustache (pop_mode l)).1.modes
unfolding lex_mustache
lex_mustache-pop_mode-Turn l =
    elim (Option-cases (block_kind_at (skip_spaces (advance 1 l.cursor)))) [
      | inl e ↦ rw (lex_mustache, e) (swap mode_mustache)
      | inr (kind, e) ↦ rw (lex_mustache, e) pop
    ]

pub lex_mustache_expr-Turn : (l : Lexer) → Turn l.modes (lex_mustache_expr l).1.modes
unfolding lex_mustache_expr
lex_mustache_expr-Turn l = elim (Option-cases (scan_mustache_body false l.cursor).0) [
  | inl h ↦ rw (lex_mustache_expr, h) pop
  | inr (body, h) ↦ rw (lex_mustache_expr, h) (swap mode_mustache_close)
]

pub lex_mustache_close_brace-Turn : (l : Lexer) → Turn l.modes (lex_mustache_close_brace l).1.modes
unfolding lex_mustache_close_brace
lex_mustache_close_brace-Turn l = pop
