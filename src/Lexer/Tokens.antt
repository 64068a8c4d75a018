-- ===== src/Lexer/Tokens.antt =====
-- internal/lexer/token.go, and the modes of lexer.go. `Next` has no branch for another mode: the
-- modes are these seven.
use sveltego.Base.{ℕ, Str}

pub data TokenKind : Type 0 where
  token_eof : TokenKind
  token_error : TokenKind
  token_text : TokenKind
  token_tag_open : TokenKind
  token_tag_open_close : TokenKind
  token_tag_self_close : TokenKind
  token_tag_close : TokenKind
  token_identifier : TokenKind
  token_attr_name : TokenKind
  token_attr_equals : TokenKind
  token_attr_value : TokenKind
  token_mustache_open : TokenKind
  token_mustache_close : TokenKind
  token_block_open : TokenKind
  token_block_mid : TokenKind
  token_block_close : TokenKind
  token_at_tag : TokenKind
  token_comment : TokenKind
  token_script_open : TokenKind
  token_script_body : TokenKind
  token_script_close : TokenKind
  token_style_open : TokenKind
  token_style_body : TokenKind
  token_style_close : TokenKind

pub record Token : Type 0 where
  pub kind : TokenKind
  pub value : Str
  pub offset : ℕ
  pub line : ℕ
  pub col : ℕ
  pub length : ℕ

pub data Mode : Type 0 where
  mode_text : Mode
  mode_tag : Mode
  mode_attr_value : Mode
  mode_mustache : Mode
  mode_mustache_close : Mode
  mode_script : Mode
  mode_style : Mode
