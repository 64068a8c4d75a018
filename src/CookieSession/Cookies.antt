-- ===== src/CookieSession/Cookies.antt =====
-- cookiesession/session.go, the part that reads and writes cookies. One instant stands for the clock
-- reads of one call. A duration is a number of nanoseconds: a negative MaxAge acts as zero does, in
-- every place.
pub mod Browser
pub mod Reread
pub mod Wires
use sveltego.Base.Map.{lookup}
use sveltego.CookieSession.Codec.{
  Expiry, Payload, Coding, encode_payload, decode_payload, split_chunks, join_chunks, chunk_name,
  meta_name, encode_chunk_meta, decode_chunk_meta,
}
use sveltego.Http.{MaxAge, unset, delete_now, seconds, SetCookie}
use sveltego.Base.{
  ℕ, zero, suc, ◌+◌, ◌-◌, ◌/◌, Bool, true, false, not, Option, none, some, List, [], ◌∷◌, ◌++◌, ltb,
  if◌then◌else◌, ◌==◌, length, Str, str,
}

pub record Options : Type 0 where
  pub name : Str
  pub max_age : ℕ
  pub path : Str
  pub domain : Str
  pub secure : Option Bool
  pub same_site : ℕ

-- What of the request is read: its cookies and whether it came over TLS.
pub record Request : Type 0 where
  pub cookies : List (Str × Str)
  pub tls : Bool

abbrev pub is_nil {ℓ} : {A : Type ℓ} → List A → Bool
is_nil [] = true
is_nil (_ ∷ _) = false

unfoldable pub path_of : Options → Str
path_of o = if is_nil o.path then str "/" else o.path

-- http.SameSiteLaxMode is 2.
unfoldable pub same_site_of : Options → ℕ
same_site_of o = if o.same_site == 0 then 2 else o.same_site

unfoldable pub secure_of : Options → Option Request → Bool
secure_of o r = elim o.secure [ some b ↦ b | none ↦ elim r [ none ↦ false | some q ↦ q.tls ] ]

-- `int(d.Seconds())`, which is zero below one second.
unfoldable pub max_age_of : ℕ → MaxAge
max_age_of d = if d / 1000000000 == 0 then unset else seconds (d / 1000000000)

unfoldable pub set_cookie : Options → Option Request → ℕ → Str → Str → SetCookie
unfolding path_of same_site_of secure_of max_age_of
set_cookie o r now name value = record {
  name = name;
  value = value;
  path = path_of o;
  domain = o.domain;
  max_age = if ltb 0 o.max_age then max_age_of o.max_age else unset;
  expires = if ltb 0 o.max_age then some (now + o.max_age) else none;
  http_only = true;
  secure = secure_of o r;
  same_site = same_site_of o;
}

-- `time.Unix(0, 0)` is the instant 0.
unfoldable pub delete_cookie : Options → Str → SetCookie
unfolding path_of
delete_cookie o name = record {
  name = name;
  value = [];
  path = path_of o;
  domain = o.domain;
  max_age = delete_now;
  expires = some 0;
  http_only = false;
  secure = false;
  same_site = 0;
}

-- The loops that delete `n` chunk cookies from the i-th on, and that set them.
unfoldable pub delete_chunks : Options → ℕ → ℕ → List SetCookie
unfolding delete_cookie chunk_name
delete_chunks o i zero = []
delete_chunks o i (suc n) = delete_cookie o (chunk_name o.name i) ∷ delete_chunks o (suc i) n

unfoldable pub set_chunks : Options → Option Request → ℕ → ℕ → List Str → List SetCookie
unfolding set_cookie chunk_name
set_chunks o r now i [] = []
set_chunks o r now i (c ∷ chunks) =
    set_cookie o r now (chunk_name o.name i) c ∷ set_chunks o r now (suc i) chunks

unfoldable pub prev_chunk_count : Options → Option Request → ℕ
unfolding meta_name decode_chunk_meta
prev_chunk_count o none = 0
prev_chunk_count o (some r) = elim (lookup (meta_name o.name) r.cookies) [
  | none ↦ 0
  | some meta ↦ elim (decode_chunk_meta meta) [ none ↦ 0 | some n ↦ n ]
]

-- The plain cookie is deleted if the request has one that is not empty.
unfoldable pub delete_plain : Options → Option Request → List SetCookie
unfolding delete_cookie
delete_plain o none = []
delete_plain o (some r) = elim (lookup o.name r.cookies) [
  | none ↦ []
  | some v ↦ if not (is_nil v) then delete_cookie o o.name ∷ [] else []
]

unfoldable pub delete_meta : Options → ℕ → List SetCookie
unfolding delete_cookie meta_name
delete_meta o prev = if ltb 0 prev then delete_cookie o (meta_name o.name) ∷ [] else []

-- The two branches of `flush`, once the wire is split.
unfoldable pub flush_cookies : Options → Option Request → ℕ → List Str → List SetCookie
unfolding prev_chunk_count delete_chunks delete_meta delete_plain set_cookie set_chunks
    encode_chunk_meta meta_name
flush_cookies o r now (wire ∷ []) =
    delete_chunks o 0 (prev_chunk_count o r)
    ++ (delete_meta o (prev_chunk_count o r) ++ set_cookie o r now o.name wire ∷ [])
flush_cookies o r now chunks =
    delete_plain o r
    ++ (delete_chunks o (length chunks) (prev_chunk_count o r - length chunks)
        ++ set_cookie o r now (meta_name o.name) (encode_chunk_meta (length chunks))
          ∷ set_chunks o r now 0 chunks)

-- The values of `n` chunk cookies from the i-th on; the first that is missing ends the loop.
unfoldable pub read_parts : Options → Request → ℕ → ℕ → Option (List Str)
unfolding chunk_name
read_parts o r i zero = some []
read_parts o r i (suc n) = elim (lookup (chunk_name o.name i) r.cookies) [
  | none ↦ none
  | some v ↦ elim (read_parts o r (suc i) n) [ none ↦ none | some rest ↦ some (v ∷ rest) ]
]

unfoldable pub read_chunked : Options → Request → Option Str
unfolding meta_name decode_chunk_meta read_parts join_chunks
read_chunked o r = elim (lookup (meta_name o.name) r.cookies) [
  | none ↦ none
  | some meta ↦ elim (decode_chunk_meta meta) [
    | none ↦ none
    | some n ↦ elim (read_parts o r 0 n) [ none ↦ none | some parts ↦ some (join_chunks parts) ]
  ]
]

-- The only caller of `readWire` takes all its errors alike: they are `none`.
unfoldable pub read_wire : Options → Option Request → Option Str
unfolding read_chunked
read_wire o none = none
read_wire o (some r) =
    let chunked = read_chunked o r in
    elim (lookup o.name r.cookies) [
      | none ↦ chunked
      | some v ↦ if not (is_nil v) then some v else chunked
    ]
