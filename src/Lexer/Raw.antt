-- ===== src/Lexer/Raw.antt =====
-- internal/lexer/lexer.go, the spans taken as they stand: comments, and `<script>` and `<style>`.
use sveltego.Lexer.Tokens.{Token, TokenKind, token_eof, token_error, token_comment}
use sveltego.Lexer.Cursor.{Cursor, has_more, peek}
unfoldable use sveltego.Lexer.Cursor.{advance, starts_with, starts_with_fold, tag_boundary_at}
use sveltego.Lexer.Loops.{here}
unfoldable use sveltego.Lexer.Loops.{loop, skip, skip_quoted}
use sveltego.Lexer.State.{Lexer, pop_mode, move_to, make_token, span_token, source_token}
use sveltego.Base.{
  ◌+◌, Bool, true, false, ◌&&◌, ◌||◌, not, [], ◌++◌, ltb, if◌then◌else◌, ◌==◌, length, Str, str,
}

-- To the end mark of the comment, or the end of the source.
unfoldable pub comment_end : Cursor → Cursor
unfolding loop advance starts_with
comment_end = loop here (λ c. not (starts_with (str "-->") c)) (advance 1)

unfoldable pub lex_comment : Cursor → Token × Cursor
unfolding comment_end advance
lex_comment start =
    let e = comment_end (advance 4 start) in
    elim (has_more e) [
      | true ↦ (let f = advance 3 e in (source_token token_comment start f, f))
      | false ↦ (span_token token_error (str "unterminated comment") start e, e)
    ]

-- One round of the loop of `lexRawOpen`: a quoted value, or one byte.
unfoldable pub raw_open_step : Cursor → Cursor
unfolding skip_quoted advance
raw_open_step c = elim (peek 0 c == b'"' || peek 0 c == b'\'') [
  | true ↦ skip_quoted (peek 0 c) c
  | false ↦ advance 1 c
]

-- To the `>` of an opening tag.
unfoldable pub raw_open_end : Cursor → Cursor
unfolding loop raw_open_step
raw_open_end = loop here (λ c. not (peek 0 c == b'>')) raw_open_step

-- `set` writes true through the pointer `pending`.
unfoldable pub lex_raw_open : Str → TokenKind → (Lexer → Lexer) → Lexer → Token × Lexer
unfolding raw_open_end advance
lex_raw_open name kind set l =
    let e = raw_open_end (advance (1 + length name) l.cursor) in
    elim (has_more e) [
      | true ↦ (let f = advance 1 e in (source_token kind l.cursor f, set (move_to f l)))
      | false ↦ (
        span_token token_error (str "unterminated <" ++ name ++ str "> tag") l.cursor e,
        move_to e l,
      )
    ]

abbrev pub at_closer : Str → Cursor → Bool
at_closer closer c = starts_with_fold closer c && tag_boundary_at c.src (c.pos + length closer)

unfoldable pub raw_body_end : Str → Cursor → Cursor
unfolding loop advance starts_with_fold tag_boundary_at
raw_body_end closer = loop here (λ c. not (at_closer closer c)) (advance 1)

-- The closing tag, which starts at the cursor.
unfoldable pub lex_raw_close : Str → TokenKind → Lexer → Token × Lexer
unfolding skip advance
lex_raw_close name close_kind l =
    let e = skip (λ b. not (b == b'>')) (advance (2 + length name) l.cursor) in
    elim (has_more e) [
      | true ↦ (let f = advance 1 e in (source_token close_kind l.cursor f, pop_mode (move_to f l)))
      | false ↦ (
        span_token token_error (str "unterminated </" ++ name ++ str "> tag") l.cursor e,
        pop_mode (move_to e l),
      )
    ]

unfoldable pub lex_raw_block : Str → TokenKind → TokenKind → Lexer → Token × Lexer
unfolding raw_body_end lex_raw_close
lex_raw_block name body_kind close_kind l =
    let e = raw_body_end (str "</" ++ name) l.cursor in
    elim (ltb l.cursor.pos e.pos) [
      | true ↦ (
        if has_more e
            then source_token body_kind l.cursor e
            else span_token token_error (str "unterminated <" ++ name ++ str "> body") l.cursor e,
        move_to e l,
      )
      | false ↦ elim (has_more e) [
        | true ↦ lex_raw_close name close_kind (move_to e l)
        | false ↦ (make_token token_eof e [], move_to e l)
      ]
    ]
