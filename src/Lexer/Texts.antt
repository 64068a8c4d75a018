-- ===== src/Lexer/Texts.antt =====
-- internal/lexer/lexer.go, `lexText`: what stands outside tags.
use sveltego.Lexer.Tokens.{
  Token, token_eof, token_text, token_tag_open, token_tag_open_close, token_script_open,
  token_style_open, mode_tag,
}
use sveltego.Lexer.Cursor.{Cursor, has_more, peek}
unfoldable use sveltego.Lexer.Cursor.{
  advance, starts_with, starts_with_fold, tag_boundary_at, is_tag_name_start,
}
unfoldable use sveltego.Lexer.Loops.{loop}
use sveltego.Lexer.State.{Lexer, push_mode, move_to, make_token, span_token}
unfoldable use sveltego.Lexer.Mustache.{lex_mustache}
unfoldable use sveltego.Lexer.Raw.{lex_comment, lex_raw_open}
use sveltego.Base.{
  ◌+◌, Bool, true, ◌&&◌, ◌||◌, not, [], ◌∷◌, ◌++◌, ltb, if◌then◌else◌, ◌==◌, length, Str, str,
}

abbrev pub has_next : Cursor → Bool
has_next c = ltb (c.pos + 1) (length c.src)

abbrev pub at_raw_open : Str → Cursor → Bool
at_raw_open tag c = starts_with_fold tag c && tag_boundary_at c.src (c.pos + length tag)

abbrev pub set_script : Lexer → Lexer
set_script l = record l { pending_script = true }

abbrev pub set_style : Lexer → Lexer
set_style l = record l { pending_style = true }

-- A run of text: the cursor, and `b` with what is written to it.
pub record Text : Type 0 where
  pub cursor : Cursor
  pub b : Str

-- A backslash before a brace.
abbrev pub is_escaped_brace : Cursor → Bool
is_escaped_brace c = peek 0 c == b'\\' && has_next c && (peek 1 c == b'{' || peek 1 c == b'}')

-- The two breaks.
abbrev pub is_markup : Cursor → Bool
is_markup c =
    (peek 0 c == b'<'
      && has_next c
      && (is_tag_name_start (peek 1 c) || peek 1 c == b'/' || peek 1 c == b'!'))
    || peek 0 c == b'{'

unfoldable pub text_step : Text → Text
unfolding advance
text_step t =
    if is_escaped_brace t.cursor
    then record { cursor = advance 2 t.cursor; b = t.b ++ peek 1 t.cursor ∷ [] }
    else record { cursor = advance 1 t.cursor; b = t.b ++ peek 0 t.cursor ∷ [] }

unfoldable pub text_run : Cursor → Text
unfolding loop text_step is_tag_name_start
text_run c =
    loop (λ t. t.cursor) (λ t. is_escaped_brace t.cursor || not (is_markup t.cursor)) text_step
      start
  where
    start : Text
    start = record { cursor = c; b = [] }

unfoldable pub lex_plain : Lexer → Token × Lexer
unfolding text_run
lex_plain l =
    let t = text_run l.cursor in (span_token token_text t.b l.cursor t.cursor, move_to t.cursor l)

unfoldable pub lex_text : Lexer → Token × Lexer
unfolding lex_comment lex_raw_open lex_mustache lex_plain starts_with starts_with_fold
    tag_boundary_at is_tag_name_start advance
lex_text l =
    let c = l.cursor in
    if not (has_more c)
    then (make_token token_eof c [], l)
    else if starts_with (str "<!--") c
    then (let r = lex_comment c in (r.0, move_to r.1 l))
    else if at_raw_open (str "<script") c
    then lex_raw_open (str "script") token_script_open set_script l
    else if at_raw_open (str "<style") c
    then lex_raw_open (str "style") token_style_open set_style l
    else if starts_with (str "</") c
    then (
      make_token token_tag_open_close c (str "</"),
      push_mode mode_tag (move_to (advance 2 c) l),
    )
    else if peek 0 c == b'<' && has_next c && is_tag_name_start (peek 1 c)
    then (make_token token_tag_open c (str "<"), push_mode mode_tag (move_to (advance 1 c) l))
    else if peek 0 c == b'{'
    then lex_mustache l
    else lex_plain l
