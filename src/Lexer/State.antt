-- ===== src/Lexer/State.antt =====
-- internal/lexer/lexer.go, the state of `Lexer`: the cursor, the mode stack with its top first, and
-- the two flags.
use sveltego.Lexer.Tokens.{Token, TokenKind, Mode, mode_text}
use sveltego.Lexer.Cursor.{Cursor, slice}
use sveltego.Base.{◌-◌, Bool, false, List, [], ◌∷◌, length, Str}

pub record Lexer : Type 0 where
  pub cursor : Cursor
  pub modes : List Mode
  pub pending_script : Bool
  pub pending_style : Bool

abbrev pub new_lexer : Str → Lexer
new_lexer src = record {
  cursor = record { src = src; pos = 0; line = 1; col = 1 };
  modes = mode_text ∷ [];
  pending_script = false;
  pending_style = false;
}

-- An empty stack, where the code panics, does not occur: `pop_mode` keeps the last mode.
abbrev pub current_mode : List Mode → Mode
current_mode [] = mode_text
current_mode (m ∷ _) = m

abbrev pub push_mode : Mode → Lexer → Lexer
push_mode m l = record l { modes = m ∷ l.modes }

unfoldable pub popped : List Mode → List Mode
popped (m ∷ n ∷ ms) = n ∷ ms
popped ms = ms

abbrev pub pop_mode : Lexer → Lexer
pop_mode l = record l { modes = popped l.modes }

-- `l.pos, l.line, l.col`
abbrev pub move_to : Cursor → Lexer → Lexer
move_to c l = record l { cursor = c }

abbrev pub make_token : TokenKind → Cursor → Str → Token
make_token kind c value = record {
  kind = kind;
  value = value;
  offset = c.pos;
  line = c.line;
  col = c.col;
  length = length value;
}

-- The literals whose length is `l.pos - startPos`.
abbrev pub span_token : TokenKind → Str → Cursor → Cursor → Token
span_token kind value start end = record {
  kind = kind;
  value = value;
  offset = start.pos;
  line = start.line;
  col = start.col;
  length = end.pos - start.pos;
}

-- Those whose value is `string(l.src[startPos:l.pos])`.
abbrev pub source_token : TokenKind → Cursor → Cursor → Token
source_token kind start end = span_token kind (slice start.src start.pos end.pos) start end
