-- ===== src/Lexer/Mustache.antt =====
-- internal/lexer/lexer.go, what stands between braces: `scanMustacheBody` and its callers.
use sveltego.Lexer.Tokens.{
  Token, TokenKind, token_error, token_text, token_mustache_open, token_mustache_close,
  token_block_open, token_block_mid, token_block_close, token_at_tag, mode_mustache,
  mode_mustache_close,
}
use sveltego.Lexer.Cursor.{Cursor, has_more, peek, slice}
unfoldable use sveltego.Lexer.Cursor.{advance}
use sveltego.Lexer.Loops.{here}
unfoldable use sveltego.Lexer.Loops.{loop, skip_spaces, skip_quoted}
use sveltego.Lexer.State.{Lexer, push_mode, pop_mode, move_to, make_token, span_token}
use sveltego.Base.{
  ℕ, suc, ◌+◌, ◌-◌, Bool, true, false, ◌&&◌, ◌||◌, not, Option, none, some, ltb, if◌then◌else◌,
  ◌==◌, length, Str, str,
}

-- `ch == '\\' && l.pos+1 < len(l.src)`
abbrev pub is_escape : Cursor → Bool
is_escape c = peek 0 c == b'\\' && ltb (c.pos + 1) (length c.src)

-- The loop in a string or a rune: to the quote, the end of the line or the end of the source.
unfoldable pub skip_literal : ℕ → Cursor → Cursor
unfolding loop advance
skip_literal quote =
    loop here (λ c. is_escape c || not (peek 0 c == quote || peek 0 c == 10))
      (λ c. advance (if is_escape c then 2 else 1) c)

-- The case of a double or a single quote.
unfoldable pub skip_string : ℕ → Cursor → Cursor
unfolding skip_literal advance
skip_string quote c =
    let e = skip_literal quote (advance 1 c) in
    elim (has_more e && peek 0 e == quote) [ true ↦ advance 1 e | false ↦ e ]

pub record Body : Type 0 where
  pub cursor : Cursor
  pub depth : ℕ

-- One round of the loop that does not return.
unfoldable pub body_step : Body → Body
unfolding skip_quoted skip_string advance
body_step b =
    let c = peek 0 b.cursor in
    if c == b'`'
    then record b { cursor = skip_quoted b'`' b.cursor }
    else if c == b'"'
    then record b { cursor = skip_string b'"' b.cursor }
    else if c == b'\''
    then record b { cursor = skip_string b'\'' b.cursor }
    else if c == b'{'
    then record { cursor = advance 1 b.cursor; depth = suc b.depth }
    else if c == b'}'
    then record { cursor = advance 1 b.cursor; depth = b.depth - 1 }
    else record b { cursor = advance 1 b.cursor }

-- The loop ends where the code returns the body, at the brace that takes `depth` to zero.
unfoldable pub body_end : Cursor → Cursor
unfolding loop body_step
body_end c =
    (loop (λ b. b.cursor) (λ b. not (peek 0 b.cursor == b'}' && b.depth == 1)) body_step
      start).cursor
  where
    start : Body
    start = record { cursor = c; depth = 1 }

unfoldable pub scan_mustache_body : Bool → Cursor → Option Str × Cursor
unfolding body_end advance
scan_mustache_body consume_close c =
    let e = body_end c in
    elim (has_more e) [
      | true ↦
          (some (slice c.src c.pos e.pos), elim consume_close [ true ↦ advance 1 e | false ↦ e ])
      | false ↦ (none, e)
    ]

-- `start` is the opening brace; the scan starts at `c`.
unfoldable pub lex_block_tag : Cursor → TokenKind → Cursor → Token × Cursor
unfolding scan_mustache_body
lex_block_tag start kind c =
    let r = scan_mustache_body true c in
    elim r.0 [
      | some body ↦ (span_token kind body start r.1, r.1)
      | none ↦ (span_token token_error (str "unterminated mustache block") start r.1, r.1)
    ]

-- The switch of `lexMustache`.
unfoldable pub block_kind : ℕ → Option TokenKind
block_kind c =
    if c == b'#'
    then some token_block_open
    else if c == b':'
    then some token_block_mid
    else if c == b'/'
    then some token_block_close
    else if c == b'@'
    then some token_at_tag
    else none

abbrev pub block_kind_at : Cursor → Option TokenKind
block_kind_at c = if has_more c then block_kind (peek 0 c) else none

unfoldable pub lex_mustache : Lexer → Token × Lexer
unfolding lex_block_tag skip_spaces advance block_kind
lex_mustache l =
    let start = l.cursor in
    let saved = advance 1 start in
    let c = skip_spaces saved in
    elim (block_kind_at c) [
      | some kind ↦ (let r = lex_block_tag start kind c in (r.0, move_to r.1 l))
      | none ↦ (
        record (make_token token_mustache_open start (str "{")) { length = 1 },
        push_mode mode_mustache (move_to saved l),
      )
    ]

unfoldable pub lex_mustache_expr : Lexer → Token × Lexer
unfolding scan_mustache_body
lex_mustache_expr l =
    let r = scan_mustache_body false l.cursor in
    let m = pop_mode (move_to r.1 l) in
    elim r.0 [
      | none ↦ (span_token token_error (str "unterminated mustache") l.cursor r.1, m)
      | some body ↦ (span_token token_text body l.cursor r.1, push_mode mode_mustache_close m)
    ]

unfoldable pub lex_mustache_close_brace : Lexer → Token × Lexer
unfolding advance
lex_mustache_close_brace l =
    (make_token token_mustache_close l.cursor (str "}"), pop_mode (move_to (advance 1 l.cursor) l))
