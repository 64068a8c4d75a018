-- ===== src/Lexer/Progress.antt =====
-- internal/lexer: each call of `Next` comes nearer to the end, except at a `<!` that opens no
-- comment, where `lexText` breaks before it takes a byte.
use sveltego.Lexer.Tokens.{Token, Mode, token_text}
use sveltego.Lexer.Cursor.{Cursor, has_more, peek}
use sveltego.Lexer.Cursor.{starts_with, is_tag_name_start}
use sveltego.Lexer.State.{Lexer, popped}
use sveltego.Lexer.Texts.{
  Text, text_step, text_run, lex_plain, is_escaped_brace, is_markup, has_next,
}
use sveltego.Lexer.Modes.{Turn, keep, Based, weight, weights, Turn-weights, weight-popped}
use sveltego.Lexer.Moves.{Advances, loop_strict, Moves-pos, Moves-src, Advances-pos, Advances-Moves}
use sveltego.Lexer.Spans.{Emits, Consumes, span-Consumes}
use sveltego.Lexer.Spans.Runs.{text_step-Advances}
use sveltego.Base.{
  ℕ, zero, suc, ◌+◌, ◌-◌, ◌*◌, ◌≤◌, ◌<◌, ◌≡◌, refl, sym, ap, ◌∙◌, subst, Bool, true, false, ◌&&◌,
  ◌||◌, not, List, [], ◌∷◌, length, get_or, take, drop, Str, str, arith, ltb, ◌==◌,
}
unfoldable use sveltego.Base.{str_eq}

-- `<!` that does not open a comment: a document type, or a CDATA section.
abbrev pub is_declaration : Cursor → Bool
is_declaration c =
    peek 0 c == b'<' && has_next c && peek 1 c == b'!' && not (starts_with (str "<!--") c)

pub take-two :
    (i : ℕ) (s : Str)
    → suc i < length s
    → take 2 (drop i s) ≡ get_or s i 0 ∷ get_or s (suc i) 0 ∷ []
take-two i [] h = absurd (omega arith)
take-two zero (b ∷ []) h = absurd (omega arith)
take-two zero (b ∷ c ∷ s) h = refl
take-two (suc i) (b ∷ s) h = take-two i s (omega arith)

starts_with-close :
    (c : Cursor)
    → (peek 0 c == b'<') ≡ true
    → has_next c ≡ true
    → (peek 1 c == b'/') ≡ true
    → starts_with (str "</") c ≡ true
unfolding starts_with str_eq
starts_with-close c angle more slash =
    let fits : ltb (length c.src) (c.pos + 2) ≡ false = ground (arith, more) in
    let two : c.pos + 2 - c.pos ≡ 2 = omega arith in
    let low : suc c.pos < length c.src = ground (arith, more) in
    let here_0 : c.pos + 0 ≡ c.pos = omega arith in
    let here_1 : c.pos + 1 ≡ suc c.pos = omega arith in
    let first : get_or c.src c.pos 0 ≡ b'<' =
      ap (λ k. get_or c.src k 0) (sym here_0) ∙ ground (arith, angle) in
    let second : get_or c.src (suc c.pos) 0 ≡ b'/' =
      ap (λ k. get_or c.src k 0) (sym here_1) ∙ ground (arith, slash) in
    rw (starts_with, fits, two, take-two c.pos c.src low, first, second) refl

-- How far a lexer is from the end, in calls.
abbrev pub measure : Lexer → ℕ
measure l = 2 * (length l.cursor.src - l.cursor.pos) + weights l.modes

-- What a call does to a lexer that has more: its modes are turned, and it comes nearer.
pub record Nearer (l m : Lexer) : Type 0 where
  pub turned : Turn l.modes m.modes
  pub nearer : Based l.modes → measure m < measure l

pub ahead-Nearer :
    (l m : Lexer)
    → has_more l.cursor ≡ true
    → m.cursor.src ≡ l.cursor.src
    → l.cursor.pos < m.cursor.pos
    → Turn l.modes m.modes
    → Nearer l m
ahead-Nearer l m h same pos t =
    let src : length m.cursor.src ≡ length l.cursor.src = ap length same in
    let low : l.cursor.pos < length l.cursor.src = ground (arith, h) in
    record { turned = t; nearer = λ _. omega (arith, Turn-weights t, src, pos, low) }

pub consumed-Nearer :
    (l : Lexer)
    → has_more l.cursor ≡ true
    → (r : Token × Lexer) → Consumes l.cursor r.0 r.1.cursor
    → Turn l.modes r.1.modes
    → Nearer l r.1
consumed-Nearer l h r c t =
    ahead-Nearer l r.1 h (Moves-src (Advances-Moves c.strict)) (Advances-pos c.strict h) t

pub plain-Nearer :
    (l : Lexer)
    → has_more l.cursor ≡ true
    → is_declaration l.cursor ≡ false
    → starts_with (str "<!--") l.cursor ≡ false
    → starts_with (str "</") l.cursor ≡ false
    → (peek 0 l.cursor == b'<' && has_next l.cursor && is_tag_name_start (peek 1 l.cursor)) ≡ false
    → (peek 0 l.cursor == b'{') ≡ false
    → Nearer l (lex_plain l).1
unfolding lex_plain text_run
plain-Nearer l h no_declaration no_comment no_close no_open no_brace =
    consumed-Nearer l h (lex_plain l) (span-Consumes token_text _ strict) keep
  where
    start : Text
    start = record { cursor = l.cursor; b = [] }

    goes : (is_escaped_brace l.cursor || not (is_markup l.cursor)) ≡ true
    goes =
        ground (
          arith,
          no_declaration,
          no_comment,
          no_close,
          no_open,
          no_brace,
          starts_with-close l.cursor,
        )

    strict : Advances l.cursor (text_run l.cursor).cursor
    strict =
        loop_strict (λ (t : Text). t.cursor)
          (λ t. is_escaped_brace t.cursor || not (is_markup t.cursor)) text_step text_step-Advances
          start (ground (arith, h, goes))

-- A mode that is taken off with its weight, whether or not a byte is taken.
pub popped-Nearer :
    (l m : Lexer) (mode : Mode) (ms : List Mode)
    → l.modes ≡ mode ∷ ms
    → weight mode ≡ 1
    → (t : Token) → Emits l.cursor t m.cursor
    → Turn l.modes m.modes
    → weights m.modes ≤ weights (popped l.modes)
    → Nearer l m
popped-Nearer l m mode ms is heavy t e turn le = record { turned = turn; nearer = λ b. closer b }
  where
    closer : Based l.modes → measure m < measure l
    closer b =
        let src : length m.cursor.src ≡ length l.cursor.src = ap length (Moves-src e.ends) in
        let less = weight-popped mode ms (subst Based is b) in
        let same = ap (λ k. weights (popped k)) is in
        let whole = ap weights is in
        omega (arith, src, (Moves-pos e.ends).0, less, same, whole, heavy, le)
