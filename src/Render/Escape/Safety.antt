-- ===== src/Render/Escape/Safety.antt =====
-- No byte of an escaped value can open a tag or end an attribute.
use sveltego.Render.Escape.{text_byte, attr_byte, append_escape_text, append_escape_attr}
use sveltego.Render.Escape.FastPath.{escape_each, append_escape-escape_each}
use sveltego.Base.{ℕ, ◌≡◌, refl, ◌∙◌, Bool, true, ◌&&◌, ◌||◌, not, [], ◌∷◌, ◌++◌, arith, ◌==◌, Str}

-- Every byte of `s` passes the test.
abbrev pub all_pass : (ℕ → Bool) → Str → Bool
all_pass ok_byte [] = true
all_pass ok_byte (b ∷ s) = ok_byte b && all_pass ok_byte s

-- Neither `<` nor `>` nor `"`.
abbrev pub attr_safe : ℕ → Bool
attr_safe b = not (b == 60 || b == 62 || b == 34)

-- Nor `'`.
abbrev pub text_safe : ℕ → Bool
text_safe b = not (b == 60 || b == 62 || b == 34 || b == 39)

all_pass-append : (p : ℕ → Bool) (s t : Str) → all_pass p (s ++ t) ≡ (all_pass p s && all_pass p t)
all_pass-append p [] t = refl
all_pass-append p (b ∷ s) t = ground (arith, all_pass-append p s t)

all_pass-escape_each :
    (p : ℕ → Bool) (byte : ℕ → Str)
    → ((b : ℕ) → all_pass p (byte b) ≡ true)
    → (s : Str) → all_pass p (escape_each byte s) ≡ true
unfolding escape_each
all_pass-escape_each p byte each [] = refl
all_pass-escape_each p byte each (b ∷ s) =
    all_pass-append p (byte b) (escape_each byte s)
    ∙ rw (each b, all_pass-escape_each p byte each s) refl

text_byte_safe : (b : ℕ) → all_pass text_safe (text_byte b) ≡ true
text_byte_safe b = ground arith

attr_byte_safe : (b : ℕ) → all_pass attr_safe (attr_byte b) ≡ true
attr_byte_safe b = ground arith

-- Whatever the value is, its text escape has none of `<`, `>`, `"` and `'`, and its attribute
-- escape none of `<`, `>` and `"`.
pub append_escape_safe :
    (s : Str)
    → (all_pass text_safe (append_escape_text [] s) ≡ true)
      × (all_pass attr_safe (append_escape_attr [] s) ≡ true)
append_escape_safe s =
    let (text, attr, _, _) = append_escape-escape_each [] s in
    (
      rw text (all_pass-escape_each text_safe text_byte text_byte_safe s),
      rw attr (all_pass-escape_each attr_safe attr_byte attr_byte_safe s),
    )
