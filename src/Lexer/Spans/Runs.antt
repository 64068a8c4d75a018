-- ===== src/Lexer/Spans/Runs.antt =====
-- internal/lexer: the tokens of text, and what begins in it.
use sveltego.Lexer.Tokens.{
  Token, token_text, token_script_open, token_style_open, token_tag_open, token_tag_open_close,
  mode_tag,
}
use sveltego.Lexer.Cursor.{Cursor, has_more, peek}
use sveltego.Lexer.Cursor.{starts_with, is_tag_name_start}
use sveltego.Lexer.State.{Lexer}
use sveltego.Lexer.Texts.{
  Text, text_step, text_run, lex_plain, lex_text, is_escaped_brace, is_markup, at_raw_open,
  has_next, set_script, set_style,
}
use sveltego.Lexer.Modes.{Turn, keep, pushed}
use sveltego.Lexer.Moves.{Moves, Advances, Advances-by, loop-Moves}
use sveltego.Lexer.Spans.{Emits, Consumes, span-Emits, mark-Consumes, room}
use sveltego.Lexer.Spans.Mustaches.{lex_mustache-Consumes, lex_mustache-Turn}
use sveltego.Base.{
  ◌+◌, ◌≤◌, ◌≡◌, refl, inl, inr, true, false, ◌&&◌, ◌||◌, not, Bool-cases, if_case, ◌==◌, str,
  arith, Str, length,
}
use sveltego.Lexer.Spans.Raws.{lex_comment-Consumes, lex_raw_open-Consumes, lex_raw_open-Turn}

pub text_step-Advances : (t : Text) → Advances t.cursor (text_step t).cursor
unfolding text_step
text_step-Advances t = elim (Bool-cases (is_escaped_brace t.cursor)) [
  | inl h ↦ rw (text_step, h) (Advances-by 1 t.cursor)
  | inr h ↦ rw (text_step, h) (Advances-by 0 t.cursor)
]

pub text_run-Moves : (c : Cursor) → Moves c (text_run c).cursor
unfolding text_run
text_run-Moves c =
    loop-Moves (λ (t : Text). t.cursor) (λ t. is_escaped_brace t.cursor || not (is_markup t.cursor))
      text_step text_step-Advances _

pub lex_plain-Emits : (l : Lexer) → Emits l.cursor (lex_plain l).0 (lex_plain l).1.cursor
unfolding lex_plain
lex_plain-Emits l = span-Emits token_text _ (text_run-Moves l.cursor)

pub starts_with-room :
    (s : Str) (c : Cursor) → starts_with s c ≡ true → c.pos + length s ≤ length c.src
unfolding starts_with
starts_with-room s c h = ground arith

-- The branches of `lexText` but the last take at least one byte.
module _ {κ} (P : Token × Lexer → Type κ) (l : Lexer) (h : has_more l.cursor ≡ true)
    (consumed : (r : Token × Lexer)
      → Consumes l.cursor r.0 r.1.cursor
      → Turn l.modes r.1.modes
      → P r) where
  pub lex_text-cases :
      ((starts_with (str "<!--") l.cursor) ≡ false
        → (starts_with (str "</") l.cursor) ≡ false
        → (peek 0 l.cursor == b'<' && has_next l.cursor && is_tag_name_start (peek 1 l.cursor))
          ≡ false
        → (peek 0 l.cursor == b'{') ≡ false
        → P (lex_plain l))
      → P (lex_text l)
  unfolding lex_text
  lex_text-cases plain =
      if_case P (not (has_more l.cursor)) (λ e. absurd (ground (arith, h, e)))
        λ _.
          if_case P (starts_with (str "<!--") l.cursor)
            (λ _. consumed _ (lex_comment-Consumes l.cursor) keep)
            λ no_comment.
              if_case P (at_raw_open (str "<script") l.cursor)
                (λ _.
                  consumed _
                    (lex_raw_open-Consumes (str "script") token_script_open set_script l
                      (λ _. refl))
                    (lex_raw_open-Turn (str "script") token_script_open set_script l (λ _. refl)))
                λ _.
                  if_case P (at_raw_open (str "<style") l.cursor)
                    (λ _.
                      consumed _
                        (lex_raw_open-Consumes (str "style") token_style_open set_style l
                          (λ _. refl))
                        (lex_raw_open-Turn (str "style") token_style_open set_style l (λ _. refl)))
                    λ _.
                      if_case P (starts_with (str "</") l.cursor)
                        (λ e.
                          consumed _
                            (mark-Consumes token_tag_open_close (str "</") l.cursor (omega arith)
                              (starts_with-room (str "</") l.cursor e))
                            (pushed mode_tag))
                        λ no_close.
                          if_case P
                            (peek 0 l.cursor == b'<'
                              && has_next l.cursor
                              && is_tag_name_start (peek 1 l.cursor))
                            (λ _.
                              consumed _
                                (mark-Consumes token_tag_open (str "<") l.cursor (omega arith)
                                  (room l.cursor h))
                                (pushed mode_tag))
                            λ no_open.
                              if_case P (peek 0 l.cursor == b'{')
                                (λ _. consumed _ (lex_mustache-Consumes l h) (lex_mustache-Turn l))
                                λ no_brace. plain no_comment no_close no_open no_brace

pub lex_text-Emits :
    (l : Lexer) → has_more l.cursor ≡ true → Emits l.cursor (lex_text l).0 (lex_text l).1.cursor
lex_text-Emits l h =
    lex_text-cases (λ r. Emits l.cursor r.0 r.1.cursor) l h (λ r c _. c.emits)
      λ _ _ _ _. lex_plain-Emits l
