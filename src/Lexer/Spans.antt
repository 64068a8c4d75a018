-- ===== src/Lexer/Spans.antt =====
-- internal/lexer: each token starts where its function is called and ends where the cursor is left.
pub mod Mustaches
pub mod Raws
pub mod Runs
pub mod Tagged
pub mod Whole
use sveltego.Lexer.Tokens.{Token, TokenKind, token_eof}
use sveltego.Lexer.Cursor.{Cursor, has_more}
use sveltego.Lexer.Cursor.{advance}
use sveltego.Lexer.State.{make_token, span_token}
use sveltego.Lexer.Moves.{
  Moves, Advances, stays, Moves-by, Advances-at, Advances-Moves, Moves-pos, pos-advance,
}
use sveltego.Base.{◌+◌, ◌≤◌, ◌<◌, ◌≡◌, refl, arith, length, Str, true, []}

pub record Emits (c : Cursor) (t : Token) (d : Cursor) : Type 0 where
  pub ends : Moves c d
  pub offset : t.offset ≡ c.pos
  pub line : t.line ≡ c.line
  pub col : t.col ≡ c.col
  pub length : c.pos + t.length ≡ d.pos

pub span-Emits :
    (kind : TokenKind) (value : Str) {c d : Cursor}
    → Moves c d
    → Emits c (span_token kind value c d) d
span-Emits kind value {c} {d} m = record {
  ends = m;
  offset = refl;
  line = refl;
  col = refl;
  length = omega (arith, (Moves-pos m).0);
}

-- A token for which at least one byte is taken.
pub record Consumes (c : Cursor) (t : Token) (d : Cursor) : Type 0 where
  pub emits : Emits c t d
  pub strict : Advances c d

pub span-Consumes :
    (kind : TokenKind) (value : Str) {c d : Cursor}
    → Advances c d
    → Consumes c (span_token kind value c d) d
span-Consumes kind value m = record { emits = span-Emits kind value (Advances-Moves m); strict = m }

-- A mark of a known length.
pub mark-Consumes :
    (kind : TokenKind) (value : Str) (c : Cursor)
    → 0 < length value
    → c.pos + length value ≤ length c.src
    → Consumes c (make_token kind c value) (advance (length value) c)
mark-Consumes kind value c some h = record {
  emits = record {
    ends = Moves-by (length value) c;
    offset = refl;
    line = refl;
    col = refl;
    length = omega (arith, (pos-advance (length value) c).0 h);
  };
  strict = Advances-at (length value) c some;
}

pub eof-Emits : (c : Cursor) → Emits c (make_token token_eof c []) c
eof-Emits c = record {
  ends = stays c;
  offset = refl;
  line = refl;
  col = refl;
  length = omega arith;
}

pub room : (c : Cursor) → has_more c ≡ true → c.pos + 1 ≤ length c.src
room c h = ground arith
