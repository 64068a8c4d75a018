-- ===== src/Lexer/Tests.antt =====
-- Runs of internal/lexer, and its theorems at small sources.
use sveltego.Lexer.Tokens.{
  Token, TokenKind, token_text, token_attr_name, token_attr_equals, token_mustache_open,
  token_mustache_close, token_identifier, token_tag_open, token_tag_close,
}
use sveltego.Lexer.Cursor.{Cursor, starts_with}
use sveltego.Lexer.State.{Lexer, new_lexer, span_token, popped}
use sveltego.Lexer.Next.{next, calls, tokens}
use sveltego.Lexer.Laws.{Lies, next-Lies, HasNoDeclaration, end_token, calls_reach_end}
use sveltego.Lexer.Stuck.{next_stuck}
use sveltego.Lexer.Mustache.{scan_mustache_body}
use sveltego.Lexer.Unroll.{left}
use sveltego.Lexer.Literals.{plain, no_more}
use sveltego.Lexer.Nesting.{Nested, nothing, ordinary, braces, string, scan_mustache_body-Nested}
unfoldable use sveltego.Base.{str_eq}
use sveltego.Base.{
  true, some, ℕ, zero, suc, ◌+◌, ◌≡◌, refl, false, List, [], ◌∷◌, map, All, get_or, Str, str, arith,
  ◌==◌,
}

abbrev sample : Str
sample = str "<p class=\"a\">\n {b}</p>"

abbrev kinds : ℕ → Str → List (TokenKind × Str)
kinds n s = map (λ (t : Token). (t.kind, t.value)) (tokens n (new_lexer s))

-- A source without a `!`.
get_or_none : (s : Str) (i : ℕ) → All (λ b. (b == b'!') ≡ false) s → (get_or s i 0 == b'!') ≡ false
get_or_none [] i a = refl
get_or_none (b ∷ s) zero a = a.0
get_or_none (b ∷ s) (suc i) a = get_or_none s i a.1

no_bang : (s : Str) → All (λ b. (b == b'!') ≡ false) s → HasNoDeclaration s
no_bang s a i = ground (arith, get_or_none s (i + 1) a)

next-Lies_example :
    Lies sample
      (calls 5 (new_lexer sample)).cursor.pos
      (next (calls 5 (new_lexer sample))).0
      (next (calls 5 (new_lexer sample))).1.cursor.pos
next-Lies_example = next-Lies sample 5

calls_reach_end_example : (next (calls 60 (new_lexer sample))).0 ≡ end_token sample
calls_reach_end_example = calls_reach_end sample (no_bang sample (ground arith)) 60 (omega arith)

abbrev doctype : Lexer
doctype = new_lexer (str "<!DOCTYPE html>")

next_stuck_example :
    (next doctype ≡ (span_token token_text [] doctype.cursor doctype.cursor, doctype))
    × ((n : ℕ) → calls n doctype ≡ doctype)
unfolding starts_with str_eq
next_stuck_example = next_stuck doctype refl refl refl refl

-- A body with braces, and with a brace in a string.
abbrev braced : Str
braced = str "{\"}\"}a"

braced-Nested : Nested braced
braced-Nested =
    braces (str "\"}\"") (str "a")
      (string b'"' (str "}") [] refl (plain b'}' [] refl refl refl no_more) nothing)
      (ordinary b'a' [] refl nothing)

abbrev in_braces : Cursor
in_braces = (new_lexer (str "{\"}\"}a}b}")).cursor

scan_mustache_body-Nested_example :
    ((scan_mustache_body true in_braces).0 ≡ some braced)
    × (left (scan_mustache_body true in_braces).1 ≡ str "b}")
scan_mustache_body-Nested_example =
    scan_mustache_body-Nested braced (str "b}") true in_braces braced-Nested refl

-- A name, an attribute with an expression, and an escaped brace in the text.
tokens_test :
    kinds 9 (str "<p x={b}>\\{</p>")
    ≡ (token_tag_open, str "<")
      ∷ (token_identifier, str "p")
      ∷ (token_attr_name, str "x")
      ∷ (token_attr_equals, str "=")
      ∷ (token_mustache_open, str "{")
      ∷ (token_text, str "b")
      ∷ (token_mustache_close, str "}")
      ∷ (token_tag_close, str ">")
      ∷ (token_text, str "{")
      ∷ []
unfolding tokens popped
tokens_test = refl
