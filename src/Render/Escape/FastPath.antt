-- ===== src/Render/Escape/FastPath.antt =====
-- The search for a first special byte is an optimisation: the reference escapes every byte.
use sveltego.Render.Escape.{
  text_special, attr_special, index_of, text_byte, attr_byte, text_loop, attr_loop,
  append_escape_text, append_escape_attr, append_escape_text_bytes, append_escape_attr_bytes,
  index_text_special, index_attr_special, index_text_special_bytes, index_attr_special_bytes,
}
use sveltego.Base.{
  ℕ, suc, ◌≡◌, refl, sym, ap, ◌∙◌, inl, inr, Bool, false, none, some, [], ◌∷◌, ◌++◌, append_assoc,
  append-nil, arith, Bool-cases, Option-cases, take, drop, Str,
}

-- Every byte by itself, in order.
unfoldable pub escape_each : (ℕ → Str) → Str → Str
escape_each byte [] = []
escape_each byte (b ∷ s) = byte b ++ escape_each byte s

text_loop_lem : (dst s : Str) → text_loop dst s ≡ dst ++ escape_each text_byte s
unfolding text_loop escape_each
text_loop_lem dst [] = sym (append-nil dst)
text_loop_lem dst (b ∷ s) =
    text_loop_lem (dst ++ text_byte b) s ∙ append_assoc dst (text_byte b) (escape_each text_byte s)

attr_loop_lem : (dst s : Str) → attr_loop dst s ≡ dst ++ escape_each attr_byte s
unfolding attr_loop escape_each
attr_loop_lem dst [] = sym (append-nil dst)
attr_loop_lem dst (b ∷ s) =
    attr_loop_lem (dst ++ attr_byte b) s ∙ append_assoc dst (attr_byte b) (escape_each attr_byte s)

-- The part in front of the first special byte is left as it is, and the whole string where there
-- is none.
module _ (special : ℕ → Bool) (byte : ℕ → Str)
    (plain : (b : ℕ) → special b ≡ false → byte b ≡ b ∷ []) where
  no_special : (s : Str) → index_of special s ≡ none → escape_each byte s ≡ s
  unfolding index_of escape_each
  no_special [] h = refl
  no_special (b ∷ s) h = elim (Bool-cases (special b)) [
    | inl hit ↦ cc (rw hit at h)
    | inr miss ↦ elim (Option-cases (index_of special s)) [
      | inl e ↦ rw (plain b miss) (ap (◌∷◌ b) (no_special s e))
      | inr (i, e) ↦ cc (rw (miss, e) at h)
    ]
  ]

  first_special :
      (s : Str) (i : ℕ)
      → index_of special s ≡ some i
      → escape_each byte s ≡ take i s ++ escape_each byte (drop i s)
  unfolding index_of escape_each
  first_special [] i h = cc
  first_special (b ∷ s) i h = elim (Bool-cases (special b)) [
    | inl hit ↦ let z : i ≡ 0 = cc (rw hit at h) in rw z refl
    | inr miss ↦ elim (Option-cases (index_of special s)) [
      | inl e ↦ cc (rw (miss, e) at h)
      | inr (k, e) ↦
          let z : i ≡ suc k = cc (rw (miss, e) at h) in
          rw (z, plain b miss) (ap (◌∷◌ b) (first_special s k e))
    ]
  ]

  -- Both ends of the fast path.
  fast_path :
      (loop : Str → Str → Str)
      → ((dst s : Str) → loop dst s ≡ dst ++ escape_each byte s)
      → (dst s : Str)
      → ◌≡◌ {A = Str}
          (elim (index_of special s) [
            | none ↦ dst ++ s
            | some i ↦ loop (dst ++ take i s) (drop i s)
          ])
          (dst ++ escape_each byte s)
  fast_path loop loops dst s = elim (Option-cases (index_of special s)) [
    | inl e ↦ rw e (ap (◌++◌ dst) (sym (no_special s e)))
    | inr (i, e) ↦ rw e (
        loops (dst ++ take i s) (drop i s)
        ∙ append_assoc dst (take i s) (escape_each byte (drop i s))
        ∙ ap (◌++◌ dst) (sym (first_special s i e)))
  ]

text_plain : (b : ℕ) → text_special b ≡ false → text_byte b ≡ b ∷ []
text_plain b h = ground arith

attr_plain : (b : ℕ) → attr_special b ≡ false → attr_byte b ≡ b ∷ []
attr_plain b h = ground arith

-- The four functions append the escapes of the bytes one by one: the search for the first special
-- byte and the copy of the part in front of it never show, and the byte-slice variants agree with
-- those on strings.
pub append_escape-escape_each :
    (dst s : Str)
    → (append_escape_text dst s ≡ dst ++ escape_each text_byte s)
      × (append_escape_attr dst s ≡ dst ++ escape_each attr_byte s)
      × (append_escape_text_bytes dst s ≡ dst ++ escape_each text_byte s)
      × (append_escape_attr_bytes dst s ≡ dst ++ escape_each attr_byte s)
unfolding append_escape_text append_escape_attr append_escape_text_bytes append_escape_attr_bytes
    index_text_special index_attr_special index_text_special_bytes index_attr_special_bytes
append_escape-escape_each dst s = (
  fast_path text_special text_byte text_plain text_loop text_loop_lem dst s,
  fast_path attr_special attr_byte attr_plain attr_loop attr_loop_lem dst s,
  fast_path text_special text_byte text_plain text_loop text_loop_lem dst s,
  fast_path attr_special attr_byte attr_plain attr_loop attr_loop_lem dst s,
)
