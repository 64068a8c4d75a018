-- ===== src/Lexer/Spans/Whole.antt =====
-- The tokens of a whole run, against the source.
use sveltego.Lexer.Tokens.{
  Token, Mode, mode_text, mode_tag, mode_attr_value, mode_mustache, mode_mustache_close,
  mode_script, mode_style, token_script_body, token_script_close, token_style_body,
  token_style_close,
}
use sveltego.Lexer.Cursor.{Cursor, has_more, is_white}
use sveltego.Lexer.Loops.{skip_spaces}
use sveltego.Lexer.State.{Lexer, move_to, current_mode}
use sveltego.Lexer.Tags.{lex_tag}
use sveltego.Lexer.Next.{enter_pending, lex_mode, next}
use sveltego.Lexer.Moves.{Moves, stays, Moves-src, Moves-pos, skip_spaces-Moves, then-Moves}
use sveltego.Lexer.Skips.{skip_spaces_gap, skip_spaces_solid}
use sveltego.Lexer.Positions.{line_at, col_at, Placed, Moves-Placed}
use sveltego.Lexer.Spans.{Emits, eof-Emits}
use sveltego.Lexer.Spans.Mustaches.{lex_mustache_expr-Emits, lex_mustache_close_brace-Consumes}
use sveltego.Lexer.Spans.Raws.{lex_raw_block-Consumes}
use sveltego.Lexer.Spans.Runs.{lex_text-Emits}
use sveltego.Lexer.Spans.Tagged.{lex_in_tag-Consumes, lex_in_tag_end, lex_attr_value-Emits}
use sveltego.Base.{
  ℕ, ◌+◌, ◌≤◌, ◌<◌, ◌≡◌, refl, ◌∙◌, subst, ◌⊎◌, inl, inr, true, length, get_or, str, arith,
  Bool-cases,
}

-- A record of what a token says of the source: `t` from `l`, with `m` left.
pub record Spans (l : Lexer) (t : Token) (m : Lexer) : Type 0 where
  pub same_source : m.cursor.src ≡ l.cursor.src
  pub ordered : l.cursor.pos ≤ t.offset
  pub blank : (i : ℕ) → l.cursor.pos ≤ i → i < t.offset → is_white (get_or l.cursor.src i 0) ≡ true
  pub adjoins : t.offset + t.length ≡ m.cursor.pos
  pub inside : l.cursor.pos ≤ length l.cursor.src → m.cursor.pos ≤ length l.cursor.src
  pub line : Placed l.cursor → t.line ≡ line_at l.cursor.src t.offset
  pub col : Placed l.cursor → t.col ≡ col_at l.cursor.src t.offset
  pub placed : Placed l.cursor → Placed m.cursor

-- The cursor that a token starts at: behind the spaces, in a tag.
abbrev Starts : Cursor → Token → Cursor → Type 0
Starts c t d = Emits c t d ⊎ Emits (skip_spaces c) t d

lex_tag-Starts : (l : Lexer) → Starts l.cursor (lex_tag l).0 (lex_tag l).1.cursor
unfolding lex_tag
lex_tag-Starts l =
    let c = skip_spaces l.cursor in
    elim (Bool-cases (has_more c)) [
      | inl h ↦ inr (lex_in_tag-Consumes (move_to c l) h (skip_spaces_solid l.cursor h)).emits
      | inr h ↦ inr (lex_in_tag_end (move_to c l) h)
    ]

lex_mode-Starts :
    (mode : Mode) (l : Lexer)
    → has_more l.cursor ≡ true
    → Starts l.cursor (lex_mode mode l).0 (lex_mode mode l).1.cursor
lex_mode-Starts mode_text l h = inl (lex_text-Emits l h)
lex_mode-Starts mode_tag l h = lex_tag-Starts l
lex_mode-Starts mode_attr_value l h = inl (lex_attr_value-Emits l h)
lex_mode-Starts mode_mustache l h = inl (lex_mustache_expr-Emits l)
lex_mode-Starts mode_mustache_close l h = inl (lex_mustache_close_brace-Consumes l h).emits
lex_mode-Starts mode_script l h =
    inl (lex_raw_block-Consumes (str "script") token_script_body token_script_close l h).emits
lex_mode-Starts mode_style l h =
    inl (lex_raw_block-Consumes (str "style") token_style_body token_style_close l h).emits

pub enter_pending_at : (l : Lexer) → (enter_pending l).cursor ≡ l.cursor
unfolding enter_pending
enter_pending_at l = ground arith

next-Starts : (l : Lexer) → Starts l.cursor (next l).0 (next l).1.cursor
unfolding next
next-Starts l =
    let m = enter_pending l in
    elim (Bool-cases (has_more m.cursor)) [
      | inl h ↦
          subst (λ c. Starts c (next l).0 (next l).1.cursor) (enter_pending_at l)
            (rw (next, h) (lex_mode-Starts (current_mode m.modes) m h))
      | inr h ↦
          subst (λ c. Starts c (next l).0 (next l).1.cursor) (enter_pending_at l)
            (rw (next, h) (inl (eof-Emits m.cursor)))
    ]

-- From a token's start, which is reached over spaces only.
starts-Spans :
    (l : Lexer) (t : Token) (m : Lexer) (c : Cursor)
    → Moves l.cursor c
    → ((i : ℕ) → l.cursor.pos ≤ i → i < c.pos → is_white (get_or l.cursor.src i 0) ≡ true)
    → Emits c t m.cursor
    → Spans l t m
starts-Spans l t m c reach gap e =
    let whole = then-Moves reach e.ends in
    record {
      same_source = Moves-src whole;
      ordered = omega (arith, (Moves-pos reach).0, e.offset);
      blank = λ i low high. gap i low (omega (arith, e.offset));
      adjoins = omega (arith, e.offset, e.length);
      inside = (Moves-pos whole).1;
      line = λ p. e.line ∙ (Moves-Placed reach p).line ∙ ap2_line e.offset;
      col = λ p. e.col ∙ (Moves-Placed reach p).col ∙ ap2_col e.offset;
      placed = Moves-Placed whole;
    }
  where
    ap2_line : t.offset ≡ c.pos → line_at c.src c.pos ≡ line_at l.cursor.src t.offset
    ap2_line o = rw (Moves-src reach, o) refl

    ap2_col : t.offset ≡ c.pos → col_at c.src c.pos ≡ col_at l.cursor.src t.offset
    ap2_col o = rw (Moves-src reach, o) refl

pub next-Spans : (l : Lexer) → Spans l (next l).0 (next l).1
next-Spans l = elim (next-Starts l) [
  | inl e ↦ starts-Spans l _ _ l.cursor (stays l.cursor) (λ i low high. absurd (omega arith)) e
  | inr e ↦
      starts-Spans l _ _ (skip_spaces l.cursor) (skip_spaces-Moves l.cursor)
        (skip_spaces_gap l.cursor) e
]
