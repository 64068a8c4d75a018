-- ===== src/Lexer/Spans/Raws.antt =====
-- The tokens of comments, of `<script>` and `<style>`, and of text.
use sveltego.Lexer.Tokens.{TokenKind, token_error, token_comment}
use sveltego.Lexer.Cursor.{Cursor, has_more, peek}
use sveltego.Lexer.Cursor.{advance, starts_with}
use sveltego.Lexer.Loops.{here}
use sveltego.Lexer.Loops.{skip}
use sveltego.Lexer.State.{Lexer, move_to}
use sveltego.Lexer.Raw.{
  comment_end, lex_comment, raw_open_end, raw_open_step, lex_raw_open, raw_body_end, lex_raw_close,
  lex_raw_block, at_closer,
}
use sveltego.Lexer.Modes.{Turn, keep, pop}
use sveltego.Lexer.Moves.{
  Moves, Advances, Moves-by, Advances-by, Advances-at, Advances-then, Moves-strict, Advances-pos,
  advance_stuck, loop-Moves, skip-Moves, skip_quoted-Advances,
}
use sveltego.Lexer.Spans.{Consumes, span-Consumes}
use sveltego.Base.{
  ℕ, ◌+◌, ◌≡◌, ap, inl, inr, true, false, ◌||◌, not, Bool-cases, zero, suc, ◌∙◌, ◌==◌, str, arith,
  ◌++◌, Str, length, ltb,
}

comment_end-Moves : (c : Cursor) → Moves c (comment_end c)
unfolding comment_end
comment_end-Moves =
    loop-Moves here (λ c. not (starts_with (str "-->") c)) (advance 1) (Advances-by 0)

pub lex_comment-Consumes : (c : Cursor) → Consumes c (lex_comment c).0 (lex_comment c).1
unfolding lex_comment
lex_comment-Consumes c =
    let e = comment_end (advance 4 c) in
    let m = Advances-then (Advances-by 3 c) (comment_end-Moves (advance 4 c)) in
    elim (Bool-cases (has_more e)) [
      | inl h ↦ rw (lex_comment, h) (span-Consumes token_comment _ (Advances-then m (Moves-by 3 e)))
      | inr h ↦ rw (lex_comment, h) (span-Consumes token_error _ m)
    ]

pub raw_open_step-Advances : (c : Cursor) → Advances c (raw_open_step c)
unfolding raw_open_step
raw_open_step-Advances c = elim (Bool-cases (peek 0 c == b'"' || peek 0 c == b'\'')) [
  | inl h ↦ rw (raw_open_step, h) (skip_quoted-Advances (peek 0 c) c)
  | inr h ↦ rw (raw_open_step, h) (Advances-by 0 c)
]

raw_open_end-Moves : (c : Cursor) → Moves c (raw_open_end c)
unfolding raw_open_end
raw_open_end-Moves =
    loop-Moves here (λ c. not (peek 0 c == b'>')) raw_open_step raw_open_step-Advances

-- The flag that is set is not the cursor.
pub lex_raw_open-Consumes :
    (name : Str) (kind : TokenKind) (set : Lexer → Lexer) (l : Lexer)
    → ((m : Lexer) → (set m).cursor ≡ m.cursor)
    → Consumes l.cursor (lex_raw_open name kind set l).0 (lex_raw_open name kind set l).1.cursor
unfolding lex_raw_open
lex_raw_open-Consumes name kind set l keeps =
    let first = advance (1 + length name) l.cursor in
    let e = raw_open_end first in
    let m =
      Advances-then (Advances-at (1 + length name) l.cursor (omega arith))
        (raw_open_end-Moves first) in
    elim (Bool-cases (has_more e)) [
      | inl h ↦
          rw (lex_raw_open, h, keeps (move_to (advance 1 e) l))
            (span-Consumes kind _ (Advances-then m (Moves-by 1 e)))
      | inr h ↦ rw (lex_raw_open, h) (span-Consumes token_error _ m)
    ]

pub lex_raw_open-Turn :
    (name : Str) (kind : TokenKind) (set : Lexer → Lexer) (l : Lexer)
    → ((m : Lexer) → (set m).modes ≡ m.modes)
    → Turn l.modes (lex_raw_open name kind set l).1.modes
unfolding lex_raw_open
lex_raw_open-Turn name kind set l keeps =
    let e = raw_open_end (advance (1 + length name) l.cursor) in
    elim (Bool-cases (has_more e)) [
      | inl h ↦ rw (lex_raw_open, h, keeps (move_to (advance 1 e) l)) keep
      | inr h ↦ rw (lex_raw_open, h) keep
    ]

raw_body_end-Moves : (closer : Str) (c : Cursor) → Moves c (raw_body_end closer c)
unfolding raw_body_end
raw_body_end-Moves closer =
    loop-Moves here (λ c. not (at_closer closer c)) (advance 1) (Advances-by 0)

lex_raw_close-Consumes :
    (name : Str) (kind : TokenKind) (l : Lexer)
    → Consumes l.cursor (lex_raw_close name kind l).0 (lex_raw_close name kind l).1.cursor
unfolding lex_raw_close
lex_raw_close-Consumes name kind l =
    let first = advance (2 + length name) l.cursor in
    let e = skip (λ b. not (b == b'>')) first in
    let m =
      Advances-then (Advances-at (2 + length name) l.cursor (omega arith))
        (skip-Moves (λ b. not (b == b'>')) first) in
    elim (Bool-cases (has_more e)) [
      | inl h ↦ rw (lex_raw_close, h) (span-Consumes kind _ (Advances-then m (Moves-by 1 e)))
      | inr h ↦ rw (lex_raw_close, h) (span-Consumes token_error _ m)
    ]

lex_raw_close-Turn :
    (name : Str) (kind : TokenKind) (l : Lexer) → Turn l.modes (lex_raw_close name kind l).1.modes
unfolding lex_raw_close
lex_raw_close-Turn name kind l =
    let e = skip (λ b. not (b == b'>')) (advance (2 + length name) l.cursor) in
    elim (Bool-cases (has_more e)) [
      | inl h ↦ rw (lex_raw_close, h) pop
      | inr h ↦ rw (lex_raw_close, h) pop
    ]

-- A loop that did not move the position did not move.
Moves-same : {c d : Cursor} → Moves c d → ltb c.pos d.pos ≡ false → d ≡ c
unfolding advance
Moves-same {c} {d} m h = elim (Bool-cases (has_more c)) [
  | inr e ↦ m.lands ∙ advance_stuck m.count c e
  | inl e ↦ first m.count m.lands e
]
  where
    first : (n : ℕ) → d ≡ advance n c → has_more c ≡ true → d ≡ c
    first zero l e = l
    first (suc n) l e =
        let far = Advances-pos (record { count = n; lands = l }) e in
        absurd (ground (arith, far, h))

pub lex_raw_block-Consumes :
    (name : Str) (body_kind close_kind : TokenKind) (l : Lexer)
    → has_more l.cursor ≡ true
    → Consumes l.cursor
        (lex_raw_block name body_kind close_kind l).0
        (lex_raw_block name body_kind close_kind l).1.cursor
unfolding lex_raw_block
lex_raw_block-Consumes name body_kind close_kind l more =
    let e = raw_body_end (str "</" ++ name) l.cursor in
    let m = raw_body_end-Moves (str "</" ++ name) l.cursor in
    elim (Bool-cases (ltb l.cursor.pos e.pos)) [
      | inl p ↦ elim (Bool-cases (has_more e)) [
        | inl h ↦ rw (lex_raw_block, p, h) (span-Consumes body_kind _ (Moves-strict m p))
        | inr h ↦ rw (lex_raw_block, p, h) (span-Consumes token_error _ (Moves-strict m p))
      ]
      | inr p ↦ elim (Bool-cases (has_more e)) [
        | inl h ↦
            rw (lex_raw_block, p, h, Moves-same m p) (lex_raw_close-Consumes name close_kind l)
        | inr h ↦ let same = ap has_more (Moves-same m p) in absurd (ground (arith, same, h, more))
      ]
    ]

pub lex_raw_block-Turn :
    (name : Str) (body_kind close_kind : TokenKind) (l : Lexer)
    → Turn l.modes (lex_raw_block name body_kind close_kind l).1.modes
unfolding lex_raw_block
lex_raw_block-Turn name body_kind close_kind l =
    let e = raw_body_end (str "</" ++ name) l.cursor in
    elim (Bool-cases (ltb l.cursor.pos e.pos)) [
      | inl p ↦ rw (lex_raw_block, p) keep
      | inr p ↦ elim (Bool-cases (has_more e)) [
        | inl h ↦ rw (lex_raw_block, p, h) (lex_raw_close-Turn name close_kind (move_to e l))
        | inr h ↦ rw (lex_raw_block, p, h) keep
      ]
    ]
