-- ===== src/Render/Escape.antt =====
-- render/escape.go. A string and a byte slice are both lists of bytes; the index -1 is `none`.
pub mod FastPath
pub mod Safety
pub mod Unescape
mod Tests
use sveltego.Base.{
  ℕ, suc, Bool, ◌||◌, Option, none, some, [], ◌∷◌, ◌++◌, if◌then◌else◌, ◌==◌, take, drop, Str, str,
}

abbrev pub esc_amp : Str
esc_amp = str "&amp;"

abbrev pub esc_lt : Str
esc_lt = str "&lt;"

abbrev pub esc_gt : Str
esc_gt = str "&gt;"

abbrev pub esc_quot : Str
esc_quot = str "&#34;"

abbrev pub esc_apos : Str
esc_apos = str "&#39;"

-- The case lists of the index functions: `&`, `<`, `>`, `"` and, in text, `'`.
abbrev pub attr_special : ℕ → Bool
attr_special b = b == 38 || b == 60 || b == 62 || b == 34

abbrev pub text_special : ℕ → Bool
text_special b = b == 38 || b == 60 || b == 62 || b == 34 || b == 39

-- `for i := range len(s) { switch s[i] { case ...: return i } }`
unfoldable pub index_of : (ℕ → Bool) → Str → Option ℕ
index_of special [] = none
index_of special (b ∷ s) =
    if special b then some 0 else elim (index_of special s) [ none ↦ none | some i ↦ some (suc i) ]

unfoldable pub index_text_special : Str → Option ℕ
unfolding index_of
index_text_special s = index_of text_special s

unfoldable pub index_attr_special : Str → Option ℕ
unfolding index_of
index_attr_special s = index_of attr_special s

unfoldable pub index_text_special_bytes : Str → Option ℕ
unfolding index_of
index_text_special_bytes s = index_of text_special s

unfoldable pub index_attr_special_bytes : Str → Option ℕ
unfolding index_of
index_attr_special_bytes s = index_of attr_special s

-- What the switch in the loop appends for one byte.
abbrev pub attr_byte : ℕ → Str
attr_byte b =
    if b == 38
    then esc_amp
    else if b == 60
    then esc_lt
    else if b == 62
    then esc_gt
    else if b == 34
    then esc_quot
    else b ∷ []

abbrev pub text_byte : ℕ → Str
text_byte b =
    if b == 38
    then esc_amp
    else if b == 60
    then esc_lt
    else if b == 62
    then esc_gt
    else if b == 34
    then esc_quot
    else if b == 39
    then esc_apos
    else b ∷ []

-- The loop from the first special byte on.
unfoldable pub text_loop : Str → Str → Str
text_loop dst [] = dst
text_loop dst (b ∷ s) = text_loop (dst ++ text_byte b) s

unfoldable pub attr_loop : Str → Str → Str
attr_loop dst [] = dst
attr_loop dst (b ∷ s) = attr_loop (dst ++ attr_byte b) s

unfoldable pub append_escape_text : Str → Str → Str
unfolding index_text_special text_loop
append_escape_text dst s = elim (index_text_special s) [
  | none ↦ dst ++ s
  | some i ↦ text_loop (dst ++ take i s) (drop i s)
]

unfoldable pub append_escape_attr : Str → Str → Str
unfolding index_attr_special attr_loop
append_escape_attr dst s = elim (index_attr_special s) [
  | none ↦ dst ++ s
  | some i ↦ attr_loop (dst ++ take i s) (drop i s)
]

unfoldable pub append_escape_text_bytes : Str → Str → Str
unfolding index_text_special_bytes text_loop
append_escape_text_bytes dst s = elim (index_text_special_bytes s) [
  | none ↦ dst ++ s
  | some i ↦ text_loop (dst ++ take i s) (drop i s)
]

unfoldable pub append_escape_attr_bytes : Str → Str → Str
unfolding index_attr_special_bytes attr_loop
append_escape_attr_bytes dst s = elim (index_attr_special_bytes s) [
  | none ↦ dst ++ s
  | some i ↦ attr_loop (dst ++ take i s) (drop i s)
]
