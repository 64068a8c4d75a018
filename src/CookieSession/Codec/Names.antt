-- ===== src/CookieSession/Codec/Names.antt =====
-- The cookie names of one session differ, and the chunk count survives its cookie.
use sveltego.Base.Decimal.{
  itoa, AllDigits, itoa-AllDigits, itoa-injective, atoi-itoa, trim_space-itoa,
}
use sveltego.CookieSession.Codec.{chunk_name, meta_name, encode_chunk_meta, decode_chunk_meta}
use sveltego.Base.{
  ℕ, ◌^◌, ◌≤◌, ◌<◌, ◌≡◌, refl, sym, ap, ◌∙◌, subst, ◌≢◌, false, some, [], ◌∷◌, ◌++◌, append_assoc,
  arith, ltb, length, length-append, Str, str,
}

-- The count of a chunked session reads back from the meta cookie, for every count that a 64-bit
-- integer holds.
pub decode-encode_chunk_meta :
    (n : ℕ) → 1 ≤ n → n < 2 ^ 63 → decode_chunk_meta (encode_chunk_meta n) ≡ some n
unfolding decode_chunk_meta encode_chunk_meta
decode-encode_chunk_meta n low high =
    let above : ltb n 1 ≡ false = ground arith in
    rw (decode_chunk_meta, encode_chunk_meta, trim_space-itoa n, atoi-itoa n high, above) refl

append-cancel : (base s t : Str) → base ++ s ≡ base ++ t → s ≡ t
append-cancel [] s t e = e
append-cancel (b ∷ base) s t e = append-cancel base s t (cc)

pub chunk_name-injective : (base : Str) (i j : ℕ) → chunk_name base i ≡ chunk_name base j → i ≡ j
unfolding chunk_name
chunk_name-injective base i j e =
    let dotted : str "." ++ itoa i ≡ str "." ++ itoa j =
      append-cancel base _ _
        (sym (append_assoc base (str ".") (itoa i)) ∙ e ∙ append_assoc base (str ".") (itoa j)) in
    itoa-injective i j (append-cancel (str ".") (itoa i) (itoa j) dotted)

append_not_self : (base : Str) (b : ℕ) (s : Str) → base ++ b ∷ s ≢ base
append_not_self base b s e =
    let long = length-append base (b ∷ s) in let same = ap length e in omega arith

pub chunk_name_not_base : (base : Str) (i : ℕ) → chunk_name base i ≢ base
unfolding chunk_name
chunk_name_not_base base i e =
    append_not_self base 46 (itoa i) (sym (append_assoc base (str ".") (itoa i)) ∙ e)

pub meta_name_not_base : (base : Str) → meta_name base ≢ base
unfolding meta_name
meta_name_not_base base e = append_not_self base 46 (str "meta") e

pub chunk_name_not_meta : (base : Str) (i : ℕ) → chunk_name base i ≢ meta_name base
unfolding chunk_name meta_name
chunk_name_not_meta base i e =
    let dotted : str "." ++ itoa i ≡ str ".meta" =
      append-cancel base _ _ (sym (append_assoc base (str ".") (itoa i)) ∙ e) in
    let digits : AllDigits (str "meta") =
      subst AllDigits (append-cancel (str ".") (itoa i) (str "meta") dotted) (itoa-AllDigits i) in
    cc (digits.0)
