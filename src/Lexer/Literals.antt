-- ===== src/Lexer/Literals.antt =====
-- internal/lexer/lexer.go, strings between braces, against a grammar of what may stand in them.
use sveltego.Lexer.Cursor.{Cursor, has_more, peek}
unfoldable use sveltego.Lexer.Cursor.{advance}
use sveltego.Lexer.Loops.{here}
use sveltego.Lexer.Mustache.{is_escape}
unfoldable use sveltego.Lexer.Mustache.{skip_literal, skip_string}
use sveltego.Lexer.Moves.{advance-advance, pos-advance, src-advance}
use sveltego.Lexer.Unroll.{
  left, left-advance, left-advance_by, advance_none, advance-advance_one, advance-around, loop_done,
  loop_round,
}
use sveltego.Lexer.Spans.Mustaches.{literal-Advances}
use sveltego.Base.{
  ℕ, suc, ◌+◌, ◌≡◌, refl, sym, ap, ◌∙◌, Bool, true, false, ◌&&◌, ◌||◌, not, [], ◌∷◌, ◌++◌, arith,
  ltb, if◌then◌else◌, ◌==◌, length, Str,
}

-- What may stand in a string that the byte `q` closes: no newline, and no `q` that no backslash
-- comes before.
pub data Literal (q : ℕ) : Str → Type 0 where
  no_more : Literal q []
  plain :
      (b : ℕ) (s : Str)
      → (b == q) ≡ false
      → (b == 10) ≡ false
      → (b == b'\\') ≡ false
      → Literal q s
      → Literal q (b ∷ s)
  escaped : (b : ℕ) (s : Str) → Literal q s → Literal q (b'\\' ∷ b ∷ s)

-- Two bytes are under the cursor.
left-advance_two :
    (c : Cursor) (a b : ℕ) (t : Str)
    → left c ≡ a ∷ b ∷ t
    → (ltb (c.pos + 1) (length c.src) ≡ true) × (left (advance 1 (advance 1 c)) ≡ t)
left-advance_two c a b t h =
    let (more, _, rest) = left-advance c a (b ∷ t) h in
    let (again, _, rest') = left-advance (advance 1 c) b t rest in
    let pos : (advance 1 c).pos ≡ c.pos + 1 = (pos-advance 1 c).0 (ground (arith, more)) in
    let src : length (advance 1 c).src ≡ length c.src = ap length (src-advance 1 c) in
    (ground (arith, again, pos, src), rest')

module _ (q : ℕ) where
  abbrev in_literal : Cursor → Bool
  in_literal c = is_escape c || not (peek 0 c == q || peek 0 c == 10)

  abbrev literal_step : Cursor → Cursor
  literal_step c = advance (if is_escape c then 2 else 1) c

  -- The loop in a string passes a literal.
  skip_literal-Literal :
      (s t : Str) (c : Cursor)
      → (q == b'\\') ≡ false
      → Literal q s
      → left c ≡ s ++ q ∷ t
      → skip_literal q c ≡ advance (length s) c
  unfolding skip_literal
  skip_literal-Literal _ t c quote no_more h =
      let (_, is, _) = left-advance c q t h in
      loop_done here in_literal literal_step c (ground (arith, is, quote)) ∙ sym (advance_none c)
  skip_literal-Literal _ t c quote (plain b s n0 n1 n2 l) h =
      let (more, is, rest) = left-advance c b (s ++ q ∷ t) h in
      let bare : is_escape c ≡ false = ground (arith, is, n2) in
      loop_round here in_literal literal_step literal-Advances c
        (ground (arith, more, is, n0, n1, n2))
      ∙ ap (λ k. skip_literal q (advance (if k then 2 else 1) c)) bare
      ∙ skip_literal-Literal s t (advance 1 c) quote l rest
      ∙ advance-advance_one (length s) c
  skip_literal-Literal _ t c quote (escaped b s l) h =
      let (more, is, _) = left-advance c b'\\' (b ∷ (s ++ q ∷ t)) h in
      let (second, rest) = left-advance_two c b'\\' b (s ++ q ∷ t) h in
      let pair : is_escape c ≡ true = ground (arith, is, second) in
      loop_round here in_literal literal_step literal-Advances c (ground (arith, more, pair))
      ∙ ap (λ k. skip_literal q (advance (if k then 2 else 1) c)) pair
      ∙ ap (skip_literal q) (sym (advance-advance 1 1 c))
      ∙ skip_literal-Literal s t (advance 1 (advance 1 c)) quote l rest
      ∙ advance-advance_one (length s) (advance 1 c)
      ∙ advance-advance_one (suc (length s)) c

  abbrev closing : Cursor → Cursor
  closing e = elim (has_more e && peek 0 e == q) [ true ↦ advance 1 e | false ↦ e ]

  closed : (e : Cursor) → (has_more e && peek 0 e == q) ≡ true → closing e ≡ advance 1 e
  closed e h = rw (closing, h) refl

  -- A string is passed with both of its quotes.
  pub skip_string-Literal :
      (s t : Str) (c : Cursor)
      → (q == b'\\') ≡ false
      → Literal q s
      → left c ≡ q ∷ (s ++ q ∷ t)
      → skip_string q c ≡ advance (suc (suc (length s))) c
  unfolding skip_string
  skip_string-Literal s t c quote l h =
      let (_, _, rest) = left-advance c q (s ++ q ∷ t) h in
      let run = skip_literal-Literal s t (advance 1 c) quote l rest in
      let there = left-advance_by s (q ∷ t) (advance 1 c) rest in
      let (more, is, _) = left-advance (advance (length s) (advance 1 c)) q t there in
      ap closing run
      ∙ closed (advance (length s) (advance 1 c)) (ground (arith, more, is))
      ∙ advance-around (length s) c
