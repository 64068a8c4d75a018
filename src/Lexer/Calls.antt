-- ===== src/Lexer/Calls.antt =====
-- internal/lexer: the calls of `Next`, mode by mode, come nearer to the end.
use sveltego.Lexer.Tokens.{
  Mode, mode_text, mode_tag, mode_attr_value, mode_mustache, mode_mustache_close, mode_script,
  mode_style, token_script_body, token_script_close, token_style_body, token_style_close,
}
use sveltego.Lexer.Cursor.{Cursor, has_more}
use sveltego.Lexer.Loops.{skip_spaces}
use sveltego.Lexer.State.{Lexer, popped, move_to, current_mode}
use sveltego.Lexer.Tags.{lex_tag, lex_plain_value}
use sveltego.Lexer.Mustache.{lex_mustache_expr, scan_mustache_body}
use sveltego.Lexer.Next.{enter_pending, lex_mode, next}
use sveltego.Lexer.Progress.{
  is_declaration, measure, Nearer, ahead-Nearer, consumed-Nearer, plain-Nearer, popped-Nearer,
}
use sveltego.Lexer.Modes.{pushed, pop, Based, weight, weights, Turn-Based}
use sveltego.Lexer.Moves.{Moves-pos, Moves-src, Advances-pos, skip_spaces-Moves}
use sveltego.Lexer.Skips.{skip_spaces_solid}
use sveltego.Lexer.Spans.Whole.{enter_pending_at}
use sveltego.Lexer.Spans.Mustaches.{
  lex_mustache_expr-Emits, lex_mustache_expr-Turn, lex_mustache_close_brace-Consumes,
  lex_mustache_close_brace-Turn,
}
use sveltego.Lexer.Spans.Raws.{lex_raw_block-Consumes, lex_raw_block-Turn}
use sveltego.Lexer.Spans.Runs.{lex_text-cases}
use sveltego.Lexer.Spans.Tagged.{
  lex_in_tag-Consumes, lex_in_tag-Turn, lex_in_tag_end, lex_attr_value-cases, lex_plain_value-Emits,
}
use sveltego.Base.{
  ◌+◌, ◌-◌, ◌*◌, ◌≤◌, ◌<◌, ◌≡◌, refl, ap, ◌∙◌, subst, inl, inr, true, false, List, [], ◌∷◌, length,
  str, arith, Bool-cases, Option-cases,
}

plain_value-Nearer :
    (l : Lexer) (ms : List Mode) → l.modes ≡ mode_attr_value ∷ ms → Nearer l (lex_plain_value l).1
unfolding lex_plain_value
plain_value-Nearer l ms is =
    popped-Nearer l _ mode_attr_value ms is refl _ (lex_plain_value-Emits l) pop (omega arith)

top_mode :
    (ms : List Mode) (mode : Mode)
    → current_mode ms ≡ mode
    → weight mode ≡ 1
    → (rest : List Mode) × (ms ≡ mode ∷ rest)
top_mode [] mode is heavy = absurd (let w = ap weight is in omega arith)
top_mode (m ∷ rest) mode is heavy = (rest, ap (λ k. k ∷ rest) is)

tag-Nearer : (l : Lexer) → has_more l.cursor ≡ true → Nearer l (lex_tag l).1
unfolding lex_tag
tag-Nearer l h =
    let c = skip_spaces l.cursor in
    let reach = skip_spaces-Moves l.cursor in
    let low : l.cursor.pos < length l.cursor.src = ground (arith, h) in
    let src : length c.src ≡ length l.cursor.src = ap length (Moves-src reach) in
    elim (Bool-cases (has_more c)) [
      | inl more ↦
          let s = lex_in_tag-Consumes (move_to c l) more (skip_spaces_solid l.cursor more) in
          ahead-Nearer l _ h (Moves-src s.emits.ends ∙ Moves-src reach)
            (omega (arith, (Moves-pos reach).0, Advances-pos s.strict more))
            (lex_in_tag-Turn (move_to c l))
      | inr done ↦
          let e = lex_in_tag_end (move_to c l) done in
          let far : length c.src ≤ c.pos = ground (arith, done) in
          ahead-Nearer l _ h (Moves-src e.ends ∙ Moves-src reach)
            (omega (arith, far, src, low, (Moves-pos e.ends).0)) (lex_in_tag-Turn (move_to c l))
    ]

expr_weights : (l : Lexer) → weights (lex_mustache_expr l).1.modes ≤ weights (popped l.modes)
unfolding lex_mustache_expr weights
expr_weights l = elim (Option-cases (scan_mustache_body false l.cursor).0) [
  | inl h ↦ rw (lex_mustache_expr, h) (omega arith)
  | inr (body, h) ↦ rw (lex_mustache_expr, h, weights) (omega arith)
]

lex_mode-Nearer :
    (mode : Mode) (l : Lexer)
    → current_mode l.modes ≡ mode
    → has_more l.cursor ≡ true
    → is_declaration l.cursor ≡ false
    → Nearer l (lex_mode mode l).1
lex_mode-Nearer mode_text l is h plain =
    lex_text-cases (λ r. Nearer l r.1) l h (consumed-Nearer l h) (plain-Nearer l h plain)
lex_mode-Nearer mode_tag l is h plain = tag-Nearer l h
lex_mode-Nearer mode_attr_value l is h plain =
    let top = top_mode l.modes mode_attr_value is refl in
    lex_attr_value-cases (λ r. Nearer l r.1) l h (consumed-Nearer l h)
      (plain_value-Nearer l top.0 top.1)
lex_mode-Nearer mode_mustache l is h plain =
    let top = top_mode l.modes mode_mustache is refl in
    popped-Nearer l _ mode_mustache top.0 top.1 refl _ (lex_mustache_expr-Emits l)
      (lex_mustache_expr-Turn l) (expr_weights l)
lex_mode-Nearer mode_mustache_close l is h plain =
    consumed-Nearer l h _ (lex_mustache_close_brace-Consumes l h) (lex_mustache_close_brace-Turn l)
lex_mode-Nearer mode_script l is h plain =
    consumed-Nearer l h _
      (lex_raw_block-Consumes (str "script") token_script_body token_script_close l h)
      (lex_raw_block-Turn (str "script") token_script_body token_script_close l)
lex_mode-Nearer mode_style l is h plain =
    consumed-Nearer l h _
      (lex_raw_block-Consumes (str "style") token_style_body token_style_close l h)
      (lex_raw_block-Turn (str "style") token_style_body token_style_close l)

enter_pending-keeps :
    (l : Lexer)
    → Based l.modes
    → Based (enter_pending l).modes × (weights (enter_pending l).modes ≡ weights l.modes)
unfolding enter_pending weights
enter_pending-keeps l b = elim (Bool-cases l.pending_script) [
  | inl p ↦ elim (Bool-cases l.pending_style) [
    | inl q ↦
        rw (enter_pending, p, q)
          (Turn-Based (pushed mode_style) (Turn-Based (pushed mode_script) b), omega arith)
    | inr q ↦ rw (enter_pending, p, q) (Turn-Based (pushed mode_script) b, omega arith)
  ]
  | inr p ↦ elim (Bool-cases l.pending_style) [
    | inl q ↦ rw (enter_pending, p, q) (Turn-Based (pushed mode_style) b, omega arith)
    | inr q ↦ rw (enter_pending, p, q) (b, refl)
  ]
]

-- A call where there is more to read.
pub next-nearer :
    (l : Lexer)
    → Based l.modes
    → has_more l.cursor ≡ true
    → is_declaration l.cursor ≡ false
    → (measure (next l).1 < measure l) × Based (next l).1.modes
unfolding next
next-nearer l b h plain =
    let m = enter_pending l in
    let at = enter_pending_at l in
    let h_m : has_more m.cursor ≡ true = ap has_more at ∙ h in
    let n = lex_mode-Nearer (current_mode m.modes) m refl h_m (ap is_declaration at ∙ plain) in
    let kept = enter_pending-keeps l b in
    let same : measure m ≡ measure l =
      ap (λ (c : Cursor). 2 * (length c.src - c.pos) + weights m.modes) at
      ∙ ap (λ k. 2 * (length l.cursor.src - l.cursor.pos) + k) kept.1 in
    let step : (next l).1 ≡ (lex_mode (current_mode m.modes) m).1 = rw (next, h_m) refl in
    rw step (
      subst (λ k. measure (lex_mode (current_mode m.modes) m).1 < k) same (n.nearer kept.0),
      Turn-Based n.turned kept.0,
    )
