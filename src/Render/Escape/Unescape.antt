-- ===== src/Render/Escape/Unescape.antt =====
-- A reader of character references gets the value back.
use sveltego.Render.Escape.{text_byte, attr_byte, append_escape_text, append_escape_attr}
use sveltego.Render.Escape.FastPath.{escape_each, append_escape-escape_each}
use sveltego.Base.{
  ℕ, ◌≡◌, refl, ap, ◌∙◌, Option, none, some, [], ◌∷◌, ◌++◌, arith, if◌then◌else◌, ◌==◌, Str, str,
  str_eq,
}

-- The byte that a name stands for in HTML, of the names that are read here.
abbrev pub named : Str → Option ℕ
named e =
    if str_eq e (str "amp")
    then some 38
    else if str_eq e (str "lt")
    then some 60
    else if str_eq e (str "gt")
    then some 62
    else if str_eq e (str "#34")
    then some 34
    else if str_eq e (str "#39")
    then some 39
    else none

-- A reference that is closed before `rest`; one of another name stays as it stands.
abbrev pub referred : Str → Str → Str
referred e rest = elim (named e) [ some b ↦ b ∷ rest | none ↦ 38 ∷ (e ++ 59 ∷ rest) ]

-- A reader in text, or in a reference with the bytes read of its name. A reference that is not
-- closed stays as it stands.
unfoldable pub unescape : Option Str → Str → Str
unescape none [] = []
unescape (some e) [] = 38 ∷ e
unescape none (b ∷ s) =
    let inside = unescape (some []) s in
    let outside = unescape none s in if b == 38 then inside else b ∷ outside
unescape (some e) (b ∷ s) =
    let closed = unescape none s in
    let open_still = unescape (some (e ++ b ∷ [])) s in
    if b == 59 then referred e closed else open_still

text_byte_read : (b : ℕ) (t : Str) → unescape none (text_byte b ++ t) ≡ b ∷ unescape none t
unfolding unescape str_eq
text_byte_read b t = ground arith

attr_byte_read : (b : ℕ) (t : Str) → unescape none (attr_byte b ++ t) ≡ b ∷ unescape none t
unfolding unescape str_eq
attr_byte_read b t = ground arith

unescape-escape_each :
    (byte : ℕ → Str)
    → ((b : ℕ) (t : Str) → unescape none (byte b ++ t) ≡ b ∷ unescape none t)
    → (s : Str) → unescape none (escape_each byte s) ≡ s
unfolding unescape escape_each
unescape-escape_each byte reads [] = refl
unescape-escape_each byte reads (b ∷ s) =
    reads b (escape_each byte s) ∙ ap (◌∷◌ b) (unescape-escape_each byte reads s)

-- A reader of the escaped text or attribute sees the value that was written, byte for byte: the
-- escape loses nothing and no two values look the same.
pub unescape-append_escape :
    (s : Str)
    → (unescape none (append_escape_text [] s) ≡ s) × (unescape none (append_escape_attr [] s) ≡ s)
unescape-append_escape s =
    let (text, attr, _, _) = append_escape-escape_each [] s in
    (
      rw text (unescape-escape_each text_byte text_byte_read s),
      rw attr (unescape-escape_each attr_byte attr_byte_read s),
    )
