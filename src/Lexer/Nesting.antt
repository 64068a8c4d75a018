-- ===== src/Lexer/Nesting.antt =====
-- internal/lexer/lexer.go, `scanMustacheBody`, against a grammar of what may stand between braces.
use sveltego.Lexer.Cursor.{Cursor, has_more, peek, slice}
unfoldable use sveltego.Lexer.Cursor.{advance}
unfoldable use sveltego.Lexer.Loops.{loop, skip_quoted}
use sveltego.Lexer.Mustache.{Body}
unfoldable use sveltego.Lexer.Mustache.{skip_string, body_step, body_end, scan_mustache_body}
use sveltego.Lexer.Moves.{advance-advance, pos-advance}
use sveltego.Lexer.Unroll.{
  left, left-advance, left-advance_by, advance_none, advance-advance_one, advance-around, loop_done,
  loop_round, skip_quoted_run,
}
use sveltego.Lexer.Spans.Mustaches.{body_step-Advances}
use sveltego.Base.{
  ℕ, suc, ◌+◌, ◌-◌, ◌≤◌, ◌≡◌, refl, sym, ap, ◌∙◌, inl, inr, Bool, true, false, ◌&&◌, ◌||◌, not,
  some, [], ◌∷◌, ◌++◌, append_assoc, arith, if◌then◌else◌, ◌==◌, Bool-cases, length, take, All,
  length-append, length-drop, take-length-append, Str,
}
use sveltego.Lexer.Literals.{Literal, skip_string-Literal}

-- A byte that opens and closes nothing.
abbrev pub is_ordinary : ℕ → Bool
is_ordinary b = not (b == b'`' || b == b'"' || b == b'\'' || b == b'{' || b == b'}')

-- Text whose braces are matched, those in strings apart.
pub data Nested : Str → Type 0 where
  nothing : Nested []
  ordinary : (b : ℕ) (s : Str) → is_ordinary b ≡ true → Nested s → Nested (b ∷ s)
  braces : (s t : Str) → Nested s → Nested t → Nested (b'{' ∷ (s ++ b'}' ∷ t))
  raw_string :
      (s t : Str) → All (λ b. not (b == b'`') ≡ true) s → Nested t → Nested (b'`' ∷ (s ++ b'`' ∷ t))
  string :
      (q : ℕ) (s t : Str)
      → (q == b'"' || q == b'\'') ≡ true
      → Literal q s
      → Nested t
      → Nested (q ∷ (s ++ q ∷ t))

-- One round at a byte that is not the last brace.
abbrev going : Body → Bool
going b = not (peek 0 b.cursor == b'}' && b.depth == 1)

abbrev body_loop : Body → Body
body_loop = loop (λ b. b.cursor) going body_step

abbrev body_at : Cursor → ℕ → Body
body_at c d = record { cursor = c; depth = d }

body_loop_round :
    (b b' : Body)
    → has_more b.cursor ≡ true
    → going b ≡ true
    → body_step b ≡ b'
    → body_loop b ≡ body_loop b'
body_loop_round b b' more on step =
    loop_round (λ b. b.cursor) going body_step body_step-Advances b (ground (arith, more, on))
    ∙ ap body_loop step

module _ (c : Cursor) (d : ℕ) where
  step_ordinary :
      (b : ℕ)
      → peek 0 c ≡ b
      → is_ordinary b ≡ true
      → body_step (body_at c d) ≡ body_at (advance 1 c) d
  unfolding body_step
  step_ordinary b is o = ground (arith, is, o)

  step_open : peek 0 c ≡ b'{' → body_step (body_at c d) ≡ body_at (advance 1 c) (suc d)
  unfolding body_step
  step_open is = rw is refl

  step_close : peek 0 c ≡ b'}' → body_step (body_at c (suc d)) ≡ body_at (advance 1 c) d
  unfolding body_step
  step_close is = let e : suc d - 1 ≡ d = omega arith in rw is (ap (λ k. body_at (advance 1 c) k) e)

  step_raw : peek 0 c ≡ b'`' → body_step (body_at c d) ≡ body_at (skip_quoted b'`' c) d
  unfolding body_step
  step_raw is = rw is refl

  step_string :
      (q : ℕ)
      → peek 0 c ≡ q
      → (q == b'"' || q == b'\'') ≡ true
      → body_step (body_at c d) ≡ body_at (skip_string q c) d
  unfolding body_step
  step_string q is quote = elim (Bool-cases (q == b'"')) [
    | inl double ↦ let same : q ≡ b'"' = ground (arith, double) in rw (is ∙ same, same) refl
    | inr single ↦ let same : q ≡ b'\'' = ground (arith, single, quote) in rw (is ∙ same, same) refl
  ]

-- A text between two bytes, and what follows.
module _ (x y : ℕ) (s u t : Str) (c : Cursor) (h : left c ≡ (x ∷ (s ++ y ∷ u)) ++ t) where
  enclosed : left c ≡ x ∷ (s ++ y ∷ (u ++ t))
  enclosed = h ∙ ap (◌∷◌ x) (append_assoc s (y ∷ u) t)

  left-enclosed : left (advance (suc (suc (length s))) c) ≡ u ++ t
  left-enclosed =
      let (_, _, rest) = left-advance c x (s ++ y ∷ (u ++ t)) enclosed in
      let there = left-advance_by s (y ∷ (u ++ t)) (advance 1 c) rest in
      let (_, _, after) = left-advance (advance (length s) (advance 1 c)) y (u ++ t) there in
      ap left (sym (advance-around (length s) c)) ∙ after

  advance-enclosed :
      advance (length u) (advance (suc (suc (length s))) c) ≡ advance (suc (length (s ++ y ∷ u))) c
  advance-enclosed =
      let e : suc (suc (length s)) + length u ≡ suc (length (s ++ y ∷ u)) =
        omega (arith, length-append s (y ∷ u)) in
      advance-advance (suc (suc (length s))) (length u) c ∙ ap (λ k. advance k c) e

-- Nested text is passed, and the depth is as before.
body_loop-Nested :
    (s t : Str) (c : Cursor) (d : ℕ)
    → 1 ≤ d
    → Nested s
    → left c ≡ s ++ t
    → body_loop (body_at c d) ≡ body_loop (body_at (advance (length s) c) d)
body_loop-Nested _ t c d low nothing h = ap (λ k. body_loop (body_at k d)) (sym (advance_none c))
body_loop-Nested _ t c d low (ordinary b s o n) h =
    let (more, is, rest) = left-advance c b (s ++ t) h in
    body_loop_round (body_at c d) (body_at (advance 1 c) d) more (ground (arith, is, o))
      (step_ordinary c d b is o)
    ∙ body_loop-Nested s t (advance 1 c) d low n rest
    ∙ ap (λ k. body_loop (body_at k d)) (advance-advance_one (length s) c)
body_loop-Nested _ t c d low (braces s u n m) h =
    let whole = enclosed b'{' b'}' s u t c h in
    let (more, is, rest) = left-advance c b'{' (s ++ b'}' ∷ (u ++ t)) whole in
    let there = left-advance_by s (b'}' ∷ (u ++ t)) (advance 1 c) rest in
    let e = advance (length s) (advance 1 c) in
    let (again, close, _) = left-advance e b'}' (u ++ t) there in
    body_loop_round (body_at c d) (body_at (advance 1 c) (suc d)) more (ground (arith, is))
      (step_open c d is)
    ∙ body_loop-Nested s (b'}' ∷ (u ++ t)) (advance 1 c) (suc d) (omega arith) n rest
    ∙ body_loop_round (body_at e (suc d)) (body_at (advance 1 e) d) again
        (ground (arith, close, low)) (step_close e d close)
    ∙ ap (λ k. body_loop (body_at k d)) (advance-around (length s) c)
    ∙ body_loop-Nested u t (advance (suc (suc (length s))) c) d low m
        (left-enclosed b'{' b'}' s u t c h)
    ∙ ap (λ k. body_loop (body_at k d)) (advance-enclosed b'{' b'}' s u t c h)
body_loop-Nested _ t c d low (raw_string s u a n) h =
    let whole = enclosed b'`' b'`' s u t c h in
    let (more, is, _) = left-advance c b'`' (s ++ b'`' ∷ (u ++ t)) whole in
    body_loop_round (body_at c d) (body_at (skip_quoted b'`' c) d) more (ground (arith, is))
      (step_raw c d is)
    ∙ ap (λ k. body_loop (body_at k d)) (skip_quoted_run b'`' s (u ++ t) c a whole)
    ∙ body_loop-Nested u t (advance (suc (suc (length s))) c) d low n
        (left-enclosed b'`' b'`' s u t c h)
    ∙ ap (λ k. body_loop (body_at k d)) (advance-enclosed b'`' b'`' s u t c h)
body_loop-Nested _ t c d low (string q s u quote l n) h =
    let whole = enclosed q q s u t c h in
    let (more, is, _) = left-advance c q (s ++ q ∷ (u ++ t)) whole in
    body_loop_round (body_at c d) (body_at (skip_string q c) d) more (ground (arith, is, quote))
      (step_string c d q is quote)
    ∙ ap (λ k. body_loop (body_at k d))
        (skip_string-Literal q s (u ++ t) c (ground (arith, quote)) l whole)
    ∙ body_loop-Nested u t (advance (suc (suc (length s))) c) d low n (left-enclosed q q s u t c h)
    ∙ ap (λ k. body_loop (body_at k d)) (advance-enclosed q q s u t c h)

body_end-Nested :
    (s t : Str) (c : Cursor) → Nested s → left c ≡ s ++ b'}' ∷ t → body_end c ≡ advance (length s) c
unfolding body_end
body_end-Nested s t c n h =
    let there = left-advance_by s (b'}' ∷ t) c h in
    let (_, is, _) = left-advance (advance (length s) c) b'}' t there in
    ap (λ (b : Body). b.cursor)
      (body_loop-Nested s (b'}' ∷ t) c 1 (omega arith) n h
        ∙ loop_done (λ b. b.cursor) going body_step (body_at (advance (length s) c) 1)
            (ground (arith, is)))

scan_found :
    (consume_close : Bool) (c : Cursor)
    → has_more (body_end c) ≡ true
    → scan_mustache_body consume_close c ≡ (
      some (slice c.src c.pos (body_end c).pos),
      elim consume_close [ true ↦ advance 1 (body_end c) | false ↦ body_end c ],
    )
unfolding scan_mustache_body
scan_found consume_close c more = rw (scan_mustache_body, more) refl

slice-left :
    (s t : Str) (c : Cursor) → left c ≡ s ++ t → slice c.src c.pos (advance (length s) c).pos ≡ s
slice-left [] t c h =
    let none_left : c.pos - c.pos ≡ 0 = omega arith in
    ap (λ (k : Cursor). slice c.src c.pos k.pos) (advance_none c)
    ∙ ap (λ k. take k (left c)) none_left
slice-left (b ∷ s) t c h =
    let size = ap length h ∙ length-append (b ∷ s) t in
    let low : c.pos + length (b ∷ s) ≤ length c.src =
      omega (arith, size, length-drop c.pos c.src) in
    let pos = (pos-advance (length (b ∷ s)) c).0 low in
    let count : (advance (length (b ∷ s)) c).pos - c.pos ≡ length (b ∷ s) = omega (arith, pos) in
    ap (λ k. take k (left c)) count ∙ ap (take (length (b ∷ s))) h ∙ take-length-append (b ∷ s) t

-- Where nested text and then a closing brace stand at the cursor, the scan of a body succeeds with
-- exactly that text, and leaves what follows: behind the brace if it is to be consumed, from the
-- brace on if not.
pub scan_mustache_body-Nested :
    (s t : Str) (consume_close : Bool) (c : Cursor)
    → Nested s
    → left c ≡ s ++ b'}' ∷ t
    → ((scan_mustache_body consume_close c).0 ≡ some s)
      × (left (scan_mustache_body consume_close c).1 ≡ (if consume_close then t else b'}' ∷ t))
scan_mustache_body-Nested s t consume_close c n h =
    let e = advance (length s) c in
    let ends : body_end c ≡ e = body_end-Nested s t c n h in
    let there = left-advance_by s (b'}' ∷ t) c h in
    let (more, _, behind) = left-advance e b'}' t there in
    let found = scan_found consume_close c (ap has_more ends ∙ more) in
    (
      ap (λ r. r.0) found
          ∙ ap (λ (k : Cursor). some (slice c.src c.pos k.pos)) ends
          ∙ ap some (slice-left s (b'}' ∷ t) c h),
      ap (λ r. left r.1) found
          ∙ ap (λ k. left (elim consume_close [ true ↦ advance 1 k | false ↦ k ])) ends
          ∙ after consume_close e behind there,
    )
  where
    after :
        (consume : Bool) (e : Cursor)
        → left (advance 1 e) ≡ t
        → left e ≡ b'}' ∷ t
        → left (elim consume [ true ↦ advance 1 e | false ↦ e ]) ≡ (if consume then t else b'}' ∷ t)
    after true e behind there = behind
    after false e behind there = there
