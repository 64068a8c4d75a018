-- ===== src/Lexer/Next.antt =====
-- internal/lexer/lexer.go, `Next`: one token from the lexer's state.
use sveltego.Lexer.Tokens.{
  Token, token_eof, token_script_body, token_script_close, token_style_body, token_style_close,
  Mode, mode_text, mode_tag, mode_attr_value, mode_mustache, mode_mustache_close, mode_script,
  mode_style,
}
use sveltego.Lexer.Cursor.{has_more}
use sveltego.Lexer.State.{Lexer, current_mode, push_mode, make_token}
unfoldable use sveltego.Lexer.Mustache.{lex_mustache_expr, lex_mustache_close_brace}
unfoldable use sveltego.Lexer.Raw.{lex_raw_block}
unfoldable use sveltego.Lexer.Texts.{lex_text}
unfoldable use sveltego.Lexer.Tags.{lex_tag, lex_attr_value}
use sveltego.Base.{ℕ, zero, suc, true, false, List, [], ◌∷◌, if◌then◌else◌, str}

abbrev pub lex_mode : Mode → Lexer → Token × Lexer
lex_mode mode_text l = lex_text l
lex_mode mode_tag l = lex_tag l
lex_mode mode_attr_value l = lex_attr_value l
lex_mode mode_mustache l = lex_mustache_expr l
lex_mode mode_mustache_close l = lex_mustache_close_brace l
lex_mode mode_script l = lex_raw_block (str "script") token_script_body token_script_close l
lex_mode mode_style l = lex_raw_block (str "style") token_style_body token_style_close l

-- The two tests that `Next` begins with.
unfoldable pub enter_pending : Lexer → Lexer
enter_pending l =
    let m =
      if l.pending_script then push_mode mode_script (record l { pending_script = false }) else l in
    if m.pending_style then push_mode mode_style (record m { pending_style = false }) else m

unfoldable pub next : Lexer → Token × Lexer
unfolding enter_pending lex_text lex_tag lex_attr_value lex_mustache_expr lex_mustache_close_brace
    lex_raw_block
next l =
    let m = enter_pending l in
    elim (has_more m.cursor) [
      | true ↦ lex_mode (current_mode m.modes) m
      | false ↦ (make_token token_eof m.cursor [], m)
    ]

-- The lexer after a number of calls, and the tokens that they return.
unfoldable pub calls : ℕ → Lexer → Lexer
unfolding next
calls zero l = l
calls (suc n) l = calls n (next l).1

unfoldable pub tokens : ℕ → Lexer → List Token
unfolding next
tokens zero l = []
tokens (suc n) l = (next l).0 ∷ tokens n (next l).1
