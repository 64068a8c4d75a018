-- ===== src/Lexer/Tags.antt =====
-- internal/lexer/lexer.go, `lexTag` and `lexAttrValue`: names and attributes up to a tag's end.
use sveltego.Lexer.Tokens.{
  Token, token_error, token_tag_close, token_tag_self_close, token_attr_equals, token_identifier,
  token_attr_name, token_attr_value, mode_attr_value,
}
use sveltego.Lexer.Cursor.{Cursor, has_more, peek, slice, is_white}
unfoldable use sveltego.Lexer.Cursor.{
  advance, is_tag_name_start, is_tag_name_cont, is_tag_open_boundary, hex_char,
}
unfoldable use sveltego.Lexer.Loops.{skip, skip_spaces}
use sveltego.Lexer.State.{Lexer, push_mode, pop_mode, move_to, make_token, span_token, source_token}
unfoldable use sveltego.Lexer.Mustache.{lex_mustache}
use sveltego.Lexer.Texts.{has_next}
use sveltego.Base.{
  ℕ, ◌/◌, ◌%◌, Bool, true, false, ◌&&◌, ◌||◌, not, [], ◌∷◌, ◌++◌, ltb, leb, if◌then◌else◌, ◌==◌,
  Str, str,
}

unfoldable pub quote_byte : ℕ → Str
unfolding hex_char
quote_byte c =
    if leb 32 c && ltb c 127
    then str "'" ++ c ∷ str "'"
    else str "0x" ++ hex_char (c / 16) ∷ hex_char (c % 16) ∷ []

unfoldable pub lex_tag_name_or_attr : Cursor → Token × Cursor
unfolding skip is_tag_name_cont is_tag_open_boundary
lex_tag_name_or_attr c =
    let e = skip is_tag_name_cont c in
    let kind =
      if ltb 0 c.pos && not (is_tag_open_boundary c.src c.pos)
      then token_attr_name
      else token_identifier in
    (source_token kind c e, e)

-- To the `>`, which goes too, or the end of the line.
unfoldable pub recovered : Cursor → Cursor
unfolding skip advance
recovered c =
    let e = skip (λ b. not (b == b'>') && not (b == 10)) c in
    elim (has_more e && peek 0 e == b'>') [ true ↦ advance 1 e | false ↦ e ]

unfoldable pub recover_tag_error : ℕ → Lexer → Token × Lexer
unfolding recovered quote_byte
recover_tag_error b l =
    let e = recovered l.cursor in
    let message = str "unexpected character " ++ quote_byte b ++ str " in tag" in
    (span_token token_error message l.cursor e, pop_mode (move_to e l))

-- `lexTag` behind its call of `skipSpaces`.
unfoldable pub lex_in_tag : Lexer → Token × Lexer
unfolding lex_tag_name_or_attr recover_tag_error is_tag_name_start advance
lex_in_tag l =
    let c = l.cursor in
    let b = peek 0 c in
    if not (has_more c)
    then (span_token token_error (str "unterminated tag") c c, pop_mode l)
    else if b == b'>'
    then (make_token token_tag_close c (str ">"), pop_mode (move_to (advance 1 c) l))
    else if b == b'/' && has_next c && peek 1 c == b'>'
    then (make_token token_tag_self_close c (str "/>"), pop_mode (move_to (advance 2 c) l))
    else if b == b'='
    then (
      make_token token_attr_equals c (str "="),
      push_mode mode_attr_value (move_to (advance 1 c) l),
    )
    else if is_tag_name_start b
    then (let r = lex_tag_name_or_attr c in (r.0, move_to r.1 l))
    else recover_tag_error b l

unfoldable pub lex_tag : Lexer → Token × Lexer
unfolding lex_in_tag skip_spaces
lex_tag l = lex_in_tag (move_to (skip_spaces l.cursor) l)

-- What is written to `b` is every byte that the loop goes over.
unfoldable pub lex_quoted_value : Lexer → Token × Lexer
unfolding skip advance
lex_quoted_value l =
    let start = l.cursor in
    let first = advance 1 start in
    let e = skip (λ b. not (b == peek 0 start)) first in
    elim (has_more e) [
      | true ↦
          let f = advance 1 e in
          let value = slice start.src first.pos e.pos in
          (span_token token_attr_value value start f, pop_mode (move_to f l))
      | false ↦ (
        span_token token_error (str "unterminated attribute value") start e,
        pop_mode (move_to e l),
      )
    ]

unfoldable pub is_value_byte : ℕ → Bool
is_value_byte b = not (is_white b || b == b'>' || b == b'/')

unfoldable pub lex_plain_value : Lexer → Token × Lexer
unfolding skip is_value_byte
lex_plain_value l =
    let start = l.cursor in
    let e = skip is_value_byte start in
    let t =
      if start.pos == e.pos
      then span_token token_error (str "expected attribute value") start e
      else source_token token_attr_value start e in
    (t, pop_mode (move_to e l))

unfoldable pub lex_attr_value : Lexer → Token × Lexer
unfolding lex_mustache lex_quoted_value lex_plain_value
lex_attr_value l =
    let c = l.cursor in
    let b = peek 0 c in
    if not (has_more c)
    then (span_token token_error (str "unterminated attribute value") c c, pop_mode l)
    else if b == b'{'
    then lex_mustache (pop_mode l)
    else if b == b'"' || b == b'\''
    then lex_quoted_value l
    else lex_plain_value l
