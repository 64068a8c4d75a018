-- ===== src/Lexer/Spans/Tagged.antt =====
-- The tokens within a tag.
use sveltego.Lexer.Tokens.{
  Token, token_error, token_tag_close, token_tag_self_close, token_attr_equals, token_attr_value,
  mode_attr_value,
}
use sveltego.Lexer.Cursor.{Cursor, has_more, peek, is_white}
use sveltego.Lexer.Cursor.{advance, is_tag_name_start, is_tag_name_cont}
use sveltego.Lexer.Loops.{skip}
use sveltego.Lexer.State.{Lexer, pop_mode}
use sveltego.Lexer.Texts.{has_next}
use sveltego.Lexer.Tags.{
  lex_tag_name_or_attr, recovered, recover_tag_error, lex_in_tag, lex_quoted_value, is_value_byte,
  lex_plain_value, lex_attr_value,
}
use sveltego.Lexer.Modes.{Turn, keep, pushed, pop}
use sveltego.Lexer.Moves.{stays, Moves-by, Advances-by, Advances-then, skip-Moves, skip_strict}
use sveltego.Lexer.Spans.{Emits, Consumes, span-Emits, span-Consumes, mark-Consumes, room}
use sveltego.Lexer.Spans.Mustaches.{lex_mustache-Consumes, lex_mustache-pop_mode-Turn}
use sveltego.Base.{
  ℕ, ◌≡◌, refl, inl, inr, Bool, true, false, ◌&&◌, ◌||◌, not, Bool-cases, if_case, ◌==◌, str, arith,
}

name_start_cont : (b : ℕ) → is_tag_name_start b ≡ true → is_tag_name_cont b ≡ true
unfolding is_tag_name_cont
name_start_cont b h = rw (is_tag_name_cont, h) refl

name-Consumes :
    (c : Cursor)
    → has_more c ≡ true
    → is_tag_name_start (peek 0 c) ≡ true
    → Consumes c (lex_tag_name_or_attr c).0 (lex_tag_name_or_attr c).1
unfolding lex_tag_name_or_attr
name-Consumes c h e =
    span-Consumes _ _ (skip_strict is_tag_name_cont c h (name_start_cont (peek 0 c) e))

recover-Consumes :
    (b : ℕ) (l : Lexer)
    → has_more l.cursor ≡ true
    → (peek 0 l.cursor == b'>') ≡ false
    → (peek 0 l.cursor == 10) ≡ false
    → Consumes l.cursor (recover_tag_error b l).0 (recover_tag_error b l).1.cursor
unfolding recover_tag_error recovered
recover-Consumes b l h not_close not_line =
    let test : ℕ → Bool = λ b. not (b == b'>') && not (b == 10) in
    let e = skip test l.cursor in
    let m = skip_strict test l.cursor h (ground (arith, not_close, not_line)) in
    elim (Bool-cases (has_more e && peek 0 e == b'>')) [
      | inl h ↦
          rw (recover_tag_error, recovered, h)
            (span-Consumes token_error _ (Advances-then m (Moves-by 1 e)))
      | inr h ↦ rw (recover_tag_error, recovered, h) (span-Consumes token_error _ m)
    ]

-- Where the cursor is not at the end, nor at a space, each branch of `lexTag` takes a byte.
pub lex_in_tag-Consumes :
    (l : Lexer)
    → has_more l.cursor ≡ true
    → is_white (peek 0 l.cursor) ≡ false
    → Consumes l.cursor (lex_in_tag l).0 (lex_in_tag l).1.cursor
unfolding lex_in_tag
lex_in_tag-Consumes l h solid =
    if_case From (not (has_more l.cursor)) (λ e. absurd (ground (arith, h, e)))
      λ _.
        if_case From (peek 0 l.cursor == b'>')
          (λ _. mark-Consumes token_tag_close (str ">") l.cursor (omega arith) (room l.cursor h))
          λ no_close.
            if_case From (peek 0 l.cursor == b'/' && has_next l.cursor && peek 1 l.cursor == b'>')
              (λ e.
                mark-Consumes token_tag_self_close (str "/>") l.cursor (omega arith)
                  (ground (arith, e)))
              λ _.
                if_case From (peek 0 l.cursor == b'=')
                  (λ _.
                    mark-Consumes token_attr_equals (str "=") l.cursor (omega arith)
                      (room l.cursor h))
                  λ _.
                    if_case From (is_tag_name_start (peek 0 l.cursor))
                      (λ e. name-Consumes l.cursor h e)
                      λ _. recover-Consumes (peek 0 l.cursor) l h no_close (ground (arith, solid))
  where
    From : Token × Lexer → Type 0
    From r = Consumes l.cursor r.0 r.1.cursor

pub lex_in_tag_end :
    (l : Lexer)
    → has_more l.cursor ≡ false
    → Emits l.cursor (lex_in_tag l).0 (lex_in_tag l).1.cursor
unfolding lex_in_tag
lex_in_tag_end l h = rw (lex_in_tag, h) (span-Emits token_error _ (stays l.cursor))

pub lex_in_tag-Turn : (l : Lexer) → Turn l.modes (lex_in_tag l).1.modes
unfolding lex_in_tag recover_tag_error
lex_in_tag-Turn l =
    if_case Turned (not (has_more l.cursor)) (λ _. pop)
      λ _.
        if_case Turned (peek 0 l.cursor == b'>') (λ _. pop)
          λ _.
            if_case Turned (peek 0 l.cursor == b'/' && has_next l.cursor && peek 1 l.cursor == b'>')
              (λ _. pop)
              λ _.
                if_case Turned (peek 0 l.cursor == b'=') (λ _. pushed mode_attr_value)
                  λ _. if_case Turned (is_tag_name_start (peek 0 l.cursor)) (λ _. keep) λ _. pop
  where
    Turned : Token × Lexer → Type 0
    Turned r = Turn l.modes r.1.modes

lex_quoted_value-Turn : (l : Lexer) → Turn l.modes (lex_quoted_value l).1.modes
unfolding lex_quoted_value
lex_quoted_value-Turn l =
    let e = skip (λ b. not (b == peek 0 l.cursor)) (advance 1 l.cursor) in
    elim (Bool-cases (has_more e)) [
      | inl h ↦ rw (lex_quoted_value, h) pop
      | inr h ↦ rw (lex_quoted_value, h) pop
    ]

lex_quoted_value-Consumes :
    (l : Lexer) → Consumes l.cursor (lex_quoted_value l).0 (lex_quoted_value l).1.cursor
unfolding lex_quoted_value
lex_quoted_value-Consumes l =
    let test : ℕ → Bool = λ b. not (b == peek 0 l.cursor) in
    let first = advance 1 l.cursor in
    let e = skip test first in
    let m = Advances-then (Advances-by 0 l.cursor) (skip-Moves test first) in
    elim (Bool-cases (has_more e)) [
      | inl h ↦
          rw (lex_quoted_value, h)
            (span-Consumes token_attr_value _ (Advances-then m (Moves-by 1 e)))
      | inr h ↦ rw (lex_quoted_value, h) (span-Consumes token_error _ m)
    ]

pub lex_plain_value-Emits :
    (l : Lexer) → Emits l.cursor (lex_plain_value l).0 (lex_plain_value l).1.cursor
unfolding lex_plain_value
lex_plain_value-Emits l =
    let m = skip-Moves is_value_byte l.cursor in
    if_case (λ t. Emits l.cursor t (skip is_value_byte l.cursor))
      (l.cursor.pos == (skip is_value_byte l.cursor).pos) (λ _. span-Emits token_error _ m)
      (λ _. span-Emits token_attr_value _ m)

-- Every branch of `lexAttrValue` takes a byte, but the one of a value without quotes.
module _ {κ} (P : Token × Lexer → Type κ) (l : Lexer) (h : has_more l.cursor ≡ true)
    (consumed : (r : Token × Lexer)
      → Consumes l.cursor r.0 r.1.cursor
      → Turn l.modes r.1.modes
      → P r) where
  pub lex_attr_value-cases : P (lex_plain_value l) → P (lex_attr_value l)
  unfolding lex_attr_value
  lex_attr_value-cases plain =
      if_case P (not (has_more l.cursor)) (λ e. absurd (ground (arith, h, e)))
        λ _.
          if_case P (peek 0 l.cursor == b'{')
            (λ _. consumed _ (lex_mustache-Consumes (pop_mode l) h) (lex_mustache-pop_mode-Turn l))
            λ _.
              if_case P (peek 0 l.cursor == b'"' || peek 0 l.cursor == b'\'')
                (λ _. consumed _ (lex_quoted_value-Consumes l) (lex_quoted_value-Turn l)) λ _. plain

pub lex_attr_value-Emits :
    (l : Lexer)
    → has_more l.cursor ≡ true
    → Emits l.cursor (lex_attr_value l).0 (lex_attr_value l).1.cursor
lex_attr_value-Emits l h =
    lex_attr_value-cases (λ r. Emits l.cursor r.0 r.1.cursor) l h (λ r c _. c.emits)
      (lex_plain_value-Emits l)
