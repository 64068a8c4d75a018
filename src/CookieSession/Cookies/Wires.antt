-- ===== src/CookieSession/Cookies/Wires.antt =====
-- The session cookies of one wire, as a request brings them back.
use sveltego.Base.Map.{lookup}
use sveltego.CookieSession.Codec.{
  max_chunk_bytes, split_chunks, join_chunks, meta_name, decode_chunk_meta,
}
use sveltego.CookieSession.Cookies.{Options, Request, read_parts, read_chunked, read_wire}
use sveltego.CookieSession.Codec.Chunks.{split_chunks-long}
use sveltego.CookieSession.Cookies.Browser.{Browser, AllOctets, is_octet}
use sveltego.Base.Decimal.{AllDigits}
use sveltego.Base.{
  ℕ, ◌≤◌, ◌≡◌, refl, ◌⊎◌, inl, inr, Bool, true, none, some, List, [], ◌∷◌, ◌++◌, arith, leb,
  Bool-cases, length, All, Str,
}

pub digits-AllOctets : (s : Str) → AllDigits s → AllOctets s
digits-AllOctets [] h = tt
digits-AllOctets (b ∷ s) (d, h) = (ground (arith, d), digits-AllOctets s h)

pub All-append_parts {ℓ κ} :
    {A : Type ℓ} (P : A → Type κ) (xs ys : List A) → All P (xs ++ ys) → All P xs × All P ys
All-append_parts P [] ys h = (tt, h)
All-append_parts P (x ∷ xs) ys (p, h) = let (l, r) = All-append_parts P xs ys h in ((p, l), r)

pub chunks-AllOctets : (chunks : List Str) → AllOctets (join_chunks chunks) → All AllOctets chunks
unfolding join_chunks
chunks-AllOctets [] h = tt
chunks-AllOctets (c ∷ chunks) h =
    let (l, r) = All-append_parts (λ b. is_octet b ≡ true) c (join_chunks chunks) h in
    (l, chunks-AllOctets chunks r)

pub read_plain :
    (o : Options) (r : Request) (x : ℕ) (v : Str)
    → lookup o.name r.cookies ≡ some (x ∷ v)
    → read_wire o (some r) ≡ some (x ∷ v)
unfolding read_wire
read_plain o r x v e = rw (read_wire, e) refl

pub read_chunks :
    (o : Options) (r : Request) (n : ℕ) (meta : Str) (parts : List Str)
    → (lookup o.name r.cookies ≡ none) ⊎ (lookup o.name r.cookies ≡ some [])
    → lookup (meta_name o.name) r.cookies ≡ some meta
    → decode_chunk_meta meta ≡ some n
    → read_parts o r 0 n ≡ some parts
    → read_wire o (some r) ≡ some (join_chunks parts)
unfolding read_wire read_chunked
read_chunks o r n meta parts (inl gone) m d p =
    let chunked : read_chunked o r ≡ some (join_chunks parts) = rw (read_chunked, m, d, p) refl in
    rw (read_wire, gone) chunked
read_chunks o r n meta parts (inr blank) m d p =
    let chunked : read_chunked o r ≡ some (join_chunks parts) = rw (read_chunked, m, d, p) refl in
    rw (read_wire, blank) chunked

-- The request that the jar sends.
abbrev pub next_request : {J : Type 0} → Browser J → Bool → J → Request
next_request b tls j = record { cookies = b.send j; tls = tls }

pub shape : (wire : Str) → (split_chunks wire ≡ wire ∷ []) ⊎ (2 ≤ length (split_chunks wire))
unfolding split_chunks
shape wire = elim (Bool-cases (leb (length wire) max_chunk_bytes)) [
  | inl short ↦ inl (rw (split_chunks, short) refl)
  | inr long ↦ inr (split_chunks-long wire long)
]
