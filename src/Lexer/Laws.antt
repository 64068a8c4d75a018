-- ===== src/Lexer/Laws.antt =====
-- Runs of the lexer of internal/lexer/lexer.go: where its tokens lie, when it ends, and where not.
use sveltego.Lexer.Tokens.{Token, token_eof}
use sveltego.Lexer.Cursor.{has_more, is_white}
use sveltego.Lexer.Cursor.{starts_with}
use sveltego.Lexer.State.{Lexer, new_lexer, make_token}
use sveltego.Lexer.Next.{enter_pending, next, calls}
use sveltego.Lexer.Modes.{Based, weights}
use sveltego.Lexer.Positions.{line_at, col_at, Placed, newlines, last_line}
use sveltego.Lexer.Spans.Whole.{next-Spans, enter_pending_at}
use sveltego.Lexer.Progress.{is_declaration, measure}
use sveltego.Lexer.Calls.{next-nearer}
use sveltego.Base.{
  ℕ, zero, suc, ◌+◌, ◌*◌, ◌≤◌, ◌<◌, ◌≡◌, refl, sym, ap, ◌∙◌, subst, inl, inr, true, false, [],
  length, get_or, Str, arith, Bool-cases,
}

-- The state of every lexer in a run over a source.
record Running (src : Str) (l : Lexer) : Type 0 where
  same_source : l.cursor.src ≡ src
  inside : l.cursor.pos ≤ length src
  placed : Placed l.cursor

new_lexer-Running : (src : Str) → Running src (new_lexer src)
unfolding newlines last_line
new_lexer-Running src = record {
  same_source = refl;
  inside = omega arith;
  placed = record { line = refl; col = refl };
}

next-Running : (src : Str) (l : Lexer) → Running src l → Running src (next l).1
next-Running src l r =
    let s = next-Spans l in
    let same = ap length r.same_source in
    record {
      same_source = s.same_source ∙ r.same_source;
      inside = omega (arith, same, s.inside (omega (arith, same, r.inside)));
      placed = s.placed r.placed;
    }

calls-Running : (src : Str) (n : ℕ) (l : Lexer) → Running src l → Running src (calls n l)
unfolding calls
calls-Running src zero l r = r
calls-Running src (suc n) l r = calls-Running src n (next l).1 (next-Running src l r)

-- What a token of a run says of the source. `from` is where the token before it ended, and `to` is
-- where the next starts to look.
pub record Lies (src : Str) (from : ℕ) (t : Token) (to : ℕ) : Type 0 where
  pub ordered : from ≤ t.offset
  pub blank : (i : ℕ) → from ≤ i → i < t.offset → is_white (get_or src i 0) ≡ true
  pub adjoins : t.offset + t.length ≡ to
  pub inside : to ≤ length src
  pub line : t.line ≡ line_at src t.offset
  pub col : t.col ≡ col_at src t.offset

-- The token of any call in a run over a source lies in the source. It starts where the token
-- before it ended, or behind spaces that follow; it has its length in bytes up to where the lexer
-- goes on, which is not past the end; and its line and column are those of its offset, counted from
-- the newlines before it.
pub next-Lies :
    (src : Str) (n : ℕ)
    → Lies src
        (calls n (new_lexer src)).cursor.pos
        (next (calls n (new_lexer src))).0
        (next (calls n (new_lexer src))).1.cursor.pos
next-Lies src n =
    let l = calls n (new_lexer src) in
    let r = calls-Running src n (new_lexer src) (new_lexer-Running src) in
    let s = next-Spans l in
    let same = ap length r.same_source in
    record {
      ordered = s.ordered;
      blank = λ i low high.
          subst (λ k. is_white (get_or k i 0) ≡ true) r.same_source (s.blank i low high);
      adjoins = s.adjoins;
      inside = omega (arith, same, s.inside (omega (arith, same, r.inside)));
      line =
          subst (λ k. (next l).0.line ≡ line_at k (next l).0.offset) r.same_source
            (s.line r.placed);
      col = subst (λ k. (next l).0.col ≡ col_at k (next l).0.offset) r.same_source (s.col r.placed);
    }

-- A source without a `<!` that opens no comment.
abbrev pub HasNoDeclaration : Str → Type 0
HasNoDeclaration src =
    (i : ℕ) → is_declaration (record { src = src; pos = i; line = 1; col = 1 }) ≡ false

no_declaration_at :
    (src : Str) (l : Lexer)
    → HasNoDeclaration src
    → l.cursor.src ≡ src
    → is_declaration l.cursor ≡ false
unfolding starts_with
no_declaration_at src l none is =
    subst (λ s. is_declaration (record { src = s; pos = l.cursor.pos; line = 1; col = 1 }) ≡ false)
      (sym is) (none l.cursor.pos)

next_at_end :
    (l : Lexer)
    → has_more l.cursor ≡ false
    → ((next l).0 ≡ make_token token_eof l.cursor []) × ((next l).1.cursor ≡ l.cursor)
unfolding next
next_at_end l h =
    let done : has_more (enter_pending l).cursor ≡ false = ap has_more (enter_pending_at l) ∙ h in
    rw (next, done) (ap (λ c. make_token token_eof c []) (enter_pending_at l), enter_pending_at l)

calls_ended : (n : ℕ) (l : Lexer) → has_more l.cursor ≡ false → has_more (calls n l).cursor ≡ false
unfolding calls
calls_ended zero l h = h
calls_ended (suc n) l h = calls_ended n (next l).1 (ap has_more (next_at_end l h).1 ∙ h)

calls_near :
    (src : Str) (n : ℕ) (l : Lexer)
    → HasNoDeclaration src
    → l.cursor.src ≡ src
    → Based l.modes
    → measure l ≤ n
    → has_more (calls n l).cursor ≡ false
unfolding calls
calls_near src zero l none is b d = ground (arith, d)
calls_near src (suc n) l none is b d = elim (Bool-cases (has_more l.cursor)) [
  | inr h ↦ calls_ended n (next l).1 (ap has_more (next_at_end l h).1 ∙ h)
  | inl h ↦
      let s = next-nearer l b h (no_declaration_at src l none is) in
      calls_near src n (next l).1 none ((next-Spans l).same_source ∙ is) s.1 (omega (arith, s.0, d))
]

-- The token at the end of a source.
abbrev pub end_token : Str → Token
end_token src = record {
  kind = token_eof;
  value = [];
  offset = length src;
  line = line_at src (length src);
  col = col_at src (length src);
  length = 0;
}

-- Over a source that has no `<!` but those of comments, the lexer comes to the end: after twice as
-- many calls as the source has bytes, every further call returns the same token, the end of the
-- file at the source's length.
pub calls_reach_end :
    (src : Str)
    → HasNoDeclaration src
    → (n : ℕ) → 2 * length src ≤ n
    → (next (calls n (new_lexer src))).0 ≡ end_token src
unfolding weights Based
calls_reach_end src none n enough =
    let l = calls n (new_lexer src) in
    let r = calls-Running src n (new_lexer src) (new_lexer-Running src) in
    let start : measure (new_lexer src) ≤ n = omega (arith, enough) in
    let done = calls_near src n (new_lexer src) none refl refl start in
    let same = ap length r.same_source in
    let far : length l.cursor.src ≤ l.cursor.pos = ground (arith, done) in
    let at_end : l.cursor.pos ≡ length src = omega (arith, far, same, r.inside) in
    (next_at_end l done).0 ∙ rw (r.placed.line, r.placed.col, r.same_source, at_end) refl
