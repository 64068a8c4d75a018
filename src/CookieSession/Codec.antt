-- ===== src/CookieSession/Codec.antt =====
-- cookiesession/codec.go, and the Codec interface of crypto.go. Marshalling and encryption are
-- parameters: the functions of one `Coding`.
pub mod Chunks
pub mod Names
mod Tests
use sveltego.Base.Decimal.{itoa, atoi, trim_space}
use sveltego.Base.{
  ◌>>=◌, Result, ℕ, zero, suc, Option, none, some, List, [], ◌∷◌, ◌++◌, ltb, leb, if◌then◌else◌,
  length, take, drop, Str, str,
}

-- An instant, with `none` for Go's zero time.
abbrev pub Expiry : Type 0
Expiry = Option ℕ

pub record Payload (T : Type 0) : Type 0 where
  pub payload_data : T
  pub expires : Expiry

-- `json.Marshal` and `json.Unmarshal` at the payload, and the methods of a Codec, with their
-- errors.
pub record Coding (T E : Type 0) : Type 0 where
  pub marshal : Payload T → Result E Str
  pub unmarshal : Str → Result E (Payload T)
  pub encrypt : Str → Result E Str
  pub decrypt : Str → Result E Str

module _ {T E : Type 0} where
  unfoldable pub encode_payload : Coding T E → Payload T → Result E Str
  encode_payload c p = do raw ← c.marshal p; c.encrypt raw

  unfoldable pub decode_payload : Coding T E → Str → Result E (Payload T)
  decode_payload c wire = do raw ← c.decrypt wire; c.unmarshal raw

abbrev pub max_chunk_bytes : ℕ
max_chunk_bytes = 4000

-- The loop of `splitChunks`, on fuel: each round takes at least one byte.
unfoldable pub chunks_from : ℕ → Str → List Str
chunks_from fuel [] = []
chunks_from zero (b ∷ wire) = []
chunks_from (suc fuel) (b ∷ wire) =
    let whole = b ∷ wire in
    let n = if ltb (length whole) max_chunk_bytes then length whole else max_chunk_bytes in
    take n whole ∷ chunks_from fuel (drop n whole)

unfoldable pub split_chunks : Str → List Str
unfolding chunks_from
split_chunks wire =
    if leb (length wire) max_chunk_bytes then wire ∷ [] else chunks_from (length wire) wire

unfoldable pub join_chunks : List Str → Str
join_chunks [] = []
join_chunks (c ∷ chunks) = c ++ join_chunks chunks

unfoldable pub chunk_name : Str → ℕ → Str
chunk_name base i = base ++ str "." ++ itoa i

unfoldable pub meta_name : Str → Str
meta_name base = base ++ str ".meta"

unfoldable pub encode_chunk_meta : ℕ → Str
encode_chunk_meta n = itoa n

-- `none` is the error "invalid chunk meta".
unfoldable pub decode_chunk_meta : Str → Option ℕ
decode_chunk_meta meta = elim (atoi (trim_space meta)) [
  | none ↦ none
  | some n ↦ if ltb n 1 then none else some n
]
