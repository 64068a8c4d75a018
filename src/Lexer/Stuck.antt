-- ===== src/Lexer/Stuck.antt =====
-- internal/lexer/lexer.go, `lexText` at a `<!` that opens no comment: it takes nothing.
use sveltego.Lexer.Tokens.{Token, token_text, mode_text}
use sveltego.Lexer.Cursor.{Cursor, has_more, peek}
use sveltego.Lexer.Cursor.{starts_with, starts_with_fold, folds, lower, is_tag_name_start}
use sveltego.Lexer.Loops.{loop, rounds}
use sveltego.Lexer.State.{Lexer, move_to, span_token, current_mode}
use sveltego.Lexer.Texts.{
  has_next, is_markup, is_escaped_brace, Text, text_step, text_run, lex_plain, lex_text,
}
use sveltego.Lexer.Next.{enter_pending, lex_mode, next, calls}
use sveltego.Lexer.Progress.{is_declaration, take-two}
unfoldable use sveltego.Base.{str_eq}
use sveltego.Base.{
  ℕ, zero, suc, ◌+◌, ◌-◌, ◌<◌, ◌≡◌, refl, sym, ap, ◌∙◌, subst, inl, inr, Bool, true, false, ◌&&◌,
  ◌||◌, not, [], ◌∷◌, length, get_or, drop, Str, str, arith, Bool-cases, ltb, ◌==◌,
}

-- A `<!` that opens no comment is not the start of a raw element either.
fold_second :
    (s : Str) (b : ℕ) (rest : Str)
    → folds s (b'<' ∷ b ∷ rest) ≡ true
    → (lower (get_or s 1 0) == lower b) ≡ true
unfolding folds
fold_second [] b rest h = absurd (ground (arith, h))
fold_second (x ∷ []) b rest h = absurd (ground (arith, h))
fold_second (x ∷ y ∷ s) b rest h = ground (arith, h)

get_or-drop : (i j : ℕ) (s : Str) → get_or (drop i s) j 0 ≡ get_or s (i + j) 0
get_or-drop zero j s = let e : j ≡ 0 + j = omega arith in ap (λ k. get_or s k 0) e
get_or-drop (suc i) j [] = refl
get_or-drop (suc i) j (b ∷ s) =
    let e : suc (i + j) ≡ suc i + j = omega arith in
    get_or-drop i j s ∙ ap (λ k. get_or (b ∷ s) k 0) e

not_raw :
    (c : Cursor)
    → (peek 1 c == b'!') ≡ true
    → (rest : Str) → starts_with_fold (b'<' ∷ b's' ∷ rest) c ≡ false
unfolding starts_with_fold lower
not_raw c bang rest = elim (Bool-cases (ltb (length c.src) (c.pos + suc (suc (length rest))))) [
  | inl h ↦ rw (starts_with_fold, h) refl
  | inr h ↦ elim (Bool-cases (folds (drop c.pos c.src) (b'<' ∷ b's' ∷ rest))) [
    | inr f ↦ rw (starts_with_fold, h, f) refl
    | inl f ↦
        let second = fold_second (drop c.pos c.src) b's' rest f in
        absurd (ground (arith, get_or-drop c.pos 1 c.src, bang, second))
  ]
]

not_close : (c : Cursor) → (peek 1 c == b'!') ≡ true → starts_with (str "</") c ≡ false
unfolding starts_with str_eq
not_close c bang = elim (Bool-cases (ltb (length c.src) (c.pos + 2))) [
  | inl h ↦ rw (starts_with, h) refl
  | inr h ↦
      let two : c.pos + 2 - c.pos ≡ 2 = omega arith in
      let low : suc c.pos < length c.src = ground (arith, h) in
      let here_1 : c.pos + 1 ≡ suc c.pos = omega arith in
      let second : get_or c.src (suc c.pos) 0 ≡ b'!' =
        ap (λ k. get_or c.src k 0) (sym here_1) ∙ ground (arith, bang) in
      rw (starts_with, h, two, take-two c.pos c.src low, second)
        (first_differs (get_or c.src c.pos 0))
]
  where
    first_differs : (a : ℕ) → str_eq (a ∷ b'!' ∷ []) (str "</") ≡ false
    first_differs a = ground arith

enter_same : (l : Lexer) → l.pending_script ≡ false → l.pending_style ≡ false → enter_pending l ≡ l
unfolding enter_pending
enter_same l a b = simp (a, b)

rounds_stop :
    {S : Type 0} (go : S → Bool) (body : S → S) (n : ℕ) (s : S)
    → go s ≡ false
    → rounds go body n s ≡ s
unfolding rounds
rounds_stop go body zero s h = refl
rounds_stop go body (suc n) s h = rw (rounds, h) refl

-- The bytes at a declaration.
declared :
    (c : Cursor)
    → is_declaration c ≡ true
    → (peek 0 c ≡ b'<')
      × (has_next c ≡ true)
      × (peek 1 c ≡ b'!')
      × (starts_with (str "<!--") c ≡ false)
declared c h = ground (arith, h)

plain_stuck :
    (l : Lexer)
    → is_declaration l.cursor ≡ true
    → lex_plain l ≡ (span_token token_text [] l.cursor l.cursor, l)
unfolding lex_plain text_run loop is_tag_name_start
plain_stuck l h =
    let d = declared l.cursor h in
    let stop : text_run l.cursor ≡ start =
      rounds_stop
        (λ t. has_more t.cursor && (is_escaped_brace t.cursor || not (is_markup t.cursor)))
        text_step (length l.cursor.src - l.cursor.pos) start (ground (arith, d)) in
    ap (λ (t : Text). (span_token token_text t.b l.cursor t.cursor, move_to t.cursor l)) stop
  where
    start : Text
    start = record { cursor = l.cursor; b = [] }

text_stuck : (l : Lexer) → is_declaration l.cursor ≡ true → lex_text l ≡ lex_plain l
unfolding lex_text is_tag_name_start
text_stuck l h =
    let d = declared l.cursor h in
    let bang : (peek 1 l.cursor == b'!') ≡ true = ground (arith, d) in
    let more : has_more l.cursor ≡ true = ground (arith, d) in
    let script = not_raw l.cursor bang (str "cript") in
    let style = not_raw l.cursor bang (str "tyle") in
    rw (lex_text, more, d.3, script, style, not_close l.cursor bang, d.0, d.1, d.2) refl

next_in :
    (l m : Lexer)
    → enter_pending l ≡ m
    → has_more m.cursor ≡ true
    → next l ≡ lex_mode (current_mode m.modes) m
unfolding next
next_in l m e =
    subst (λ k. has_more k.cursor ≡ true → next l ≡ lex_mode (current_mode k.modes) k) e
      (λ h. rw (next, h) refl)

calls_same : (l : Lexer) → (next l).1 ≡ l → (n : ℕ) → calls n l ≡ l
unfolding calls
calls_same l h zero = refl
calls_same l h (suc n) = ap (calls n) h ∙ calls_same l h n

-- In text, at a `<!` that does not open a comment and with no raw element pending, a call returns
-- an empty text token and leaves the lexer as it was, and so do all the calls after it.
pub next_stuck :
    (l : Lexer)
    → current_mode l.modes ≡ mode_text
    → l.pending_script ≡ false
    → l.pending_style ≡ false
    → is_declaration l.cursor ≡ true
    → (next l ≡ (span_token token_text [] l.cursor l.cursor, l)) × ((n : ℕ) → calls n l ≡ l)
unfolding next
next_stuck l mode no_script no_style stuck = (once, again)
  where
    more : has_more l.cursor ≡ true
    more = ground (arith, declared l.cursor stuck)

    once : next l ≡ (span_token token_text [] l.cursor l.cursor, l)
    once =
        next_in l l (enter_same l no_script no_style) more
        ∙ ap (λ k. lex_mode k l) mode
        ∙ text_stuck l stuck
        ∙ plain_stuck l stuck

    again : (n : ℕ) → calls n l ≡ l
    again n = calls_same l (ap (λ (r : Token × Lexer). r.1) once) n
