-- ===== src/CookieSession/Cookies/Browser.antt =====
-- What a browser keeps of the written cookies, and what the next request then has.
use sveltego.Base.Map.{lookup}
use sveltego.CookieSession.Codec.{chunk_name, meta_name}
use sveltego.CookieSession.Codec.Names.{
  chunk_name-injective, chunk_name_not_base, chunk_name_not_meta,
}
use sveltego.CookieSession.Cookies.{
  Options, Request, max_age_of, set_cookie, delete_cookie, delete_chunks, set_chunks, read_parts,
}
use sveltego.Http.{delete_now, SetCookie}
use sveltego.Base.{
  ℕ, zero, suc, ◌≤◌, ◌≡◌, refl, sym, ◌∙◌, ◌≢◌, Bool, true, ◌&&◌, ◌||◌, not, Option, none, some,
  List, [], ◌∷◌, ◌++◌, arith, ltb, leb, ◌==◌, length, All, Str,
}

-- The bytes that net/http sends in a cookie value as they are.
abbrev pub is_octet : ℕ → Bool
is_octet b = leb 32 b && ltb b 127 && not (b == 34 || b == 59 || b == 92)

abbrev pub AllOctets : Str → Type 0
AllOctets s = All (λ b. is_octet b ≡ true) s

-- A browser's cookies for one host and path, and how it stores a response's Set-Cookie headers
-- (RFC 6265, section 5.3). A later request sends what was stored, until it expires.
pub record Browser (J : Type 0) : Type 0 where
  pub send : J → List (Str × Str)
  pub receive : J → SetCookie → J
  pub deleted :
      (j : J) (c : SetCookie) → c.max_age ≡ delete_now → lookup c.name (send (receive j c)) ≡ none
  pub stored :
      (j : J) (c : SetCookie)
      → c.max_age ≢ delete_now
      → AllOctets c.value
      → lookup c.name (send (receive j c)) ≡ some c.value
  pub others :
      (j : J) (c : SetCookie) (n : Str)
      → n ≢ c.name
      → lookup n (send (receive j c)) ≡ lookup n (send j)

-- The names of the cookies differ from `n`.
abbrev pub Leaves : Str → List SetCookie → Type 0
Leaves n cs = All (λ c. n ≢ c.name) cs

pub Leaves-append :
    (n : Str) (cs ds : List SetCookie) → Leaves n cs → Leaves n ds → Leaves n (cs ++ ds)
Leaves-append n [] ds h k = k
Leaves-append n (c ∷ cs) ds (d, h) k = (d, Leaves-append n cs ds h k)

module _ (o : Options) where
  pub delete_chunks-Leaves :
      (name : Str)
      → ((i : ℕ) → name ≢ chunk_name o.name i)
      → (i n : ℕ) → Leaves name (delete_chunks o i n)
  unfolding delete_chunks delete_cookie
  delete_chunks-Leaves name apart i zero = tt
  delete_chunks-Leaves name apart i (suc n) = (apart i, delete_chunks-Leaves name apart (suc i) n)

  pub set_chunks-Leaves :
      (r : Option Request) (now : ℕ) (name : Str) (i : ℕ)
      → ((k : ℕ) → i ≤ k → name ≢ chunk_name o.name k)
      → (chunks : List Str) → Leaves name (set_chunks o r now i chunks)
  unfolding set_chunks set_cookie
  set_chunks-Leaves r now name i apart [] = tt
  set_chunks-Leaves r now name i apart (c ∷ chunks) = (
    apart i (omega arith),
    set_chunks-Leaves r now name (suc i) (λ k h. apart k (omega arith)) chunks,
  )

  pub base_not_chunk : (i : ℕ) → o.name ≢ chunk_name o.name i
  base_not_chunk i e = chunk_name_not_base o.name i (sym e)

  pub meta_not_chunk : (i : ℕ) → meta_name o.name ≢ chunk_name o.name i
  meta_not_chunk i e = chunk_name_not_meta o.name i (sym e)

pub set_cookie_kept :
    (o : Options) (r : Option Request) (now : ℕ) (name value : Str)
    → (set_cookie o r now name value).max_age ≢ delete_now
unfolding set_cookie max_age_of
set_cookie_kept o r now name value h = ground arith

read_next :
    (o : Options) (r : Request) (i n : ℕ) (v : Str) (rest : List Str)
    → lookup (chunk_name o.name i) r.cookies ≡ some v
    → read_parts o r (suc i) n ≡ some rest
    → read_parts o r i (suc n) ≡ some (v ∷ rest)
unfolding read_parts
read_next o r i n v rest e f = rw (read_parts, e, f) refl

module _ {J : Type 0} (b : Browser J) where
  pub lookup-set_cookie :
      (o : Options) (r : Option Request) (now : ℕ) (name value : Str) (j : J)
      → AllOctets value
      → lookup name (b.send (b.receive j (set_cookie o r now name value))) ≡ some value
  unfolding set_cookie
  lookup-set_cookie o r now name value j d =
      b.stored j (set_cookie o r now name value) (set_cookie_kept o r now name value) d

  pub lookup-delete_cookie :
      (o : Options) (name : Str) (j : J)
      → lookup name (b.send (b.receive j (delete_cookie o name))) ≡ none
  unfolding delete_cookie
  lookup-delete_cookie o name j = b.deleted j (delete_cookie o name) refl

  unfoldable pub receive_all : J → List SetCookie → J
  receive_all j [] = j
  receive_all j (c ∷ cs) = receive_all (b.receive j c) cs

  pub receive_all-append :
      (j : J) (cs ds : List SetCookie)
      → receive_all j (cs ++ ds) ≡ receive_all (receive_all j cs) ds
  unfolding receive_all
  receive_all-append j [] ds = refl
  receive_all-append j (c ∷ cs) ds = receive_all-append (b.receive j c) cs ds

  pub lookup-receive_all :
      (j : J) (n : Str) (cs : List SetCookie)
      → Leaves n cs
      → lookup n (b.send (receive_all j cs)) ≡ lookup n (b.send j)
  unfolding receive_all
  lookup-receive_all j n [] h = refl
  lookup-receive_all j n (c ∷ cs) (d, h) =
      lookup-receive_all (b.receive j c) n cs h ∙ b.others j c n d

  -- The chunks read back in order.
  pub read_parts-set_chunks :
      (o : Options) (r : Option Request) (tls : Bool) (now i : ℕ) (chunks : List Str) (j : J)
      → All AllOctets chunks
      → read_parts o
          (record { cookies = b.send (receive_all j (set_chunks o r now i chunks)); tls = tls })
          i
          (length chunks)
        ≡ some chunks
  unfolding set_chunks receive_all read_parts
  read_parts-set_chunks o r tls now i [] j h = refl
  read_parts-set_chunks o r tls now i (c ∷ chunks) j (d, h) =
      let first = set_cookie o r now (chunk_name o.name i) c in
      let rest = read_parts-set_chunks o r tls now (suc i) chunks (b.receive j first) h in
      let kept : lookup (chunk_name o.name i)
            (b.send (receive_all (b.receive j first) (set_chunks o r now (suc i) chunks)))
          ≡ some c =
        lookup-receive_all (b.receive j first) (chunk_name o.name i)
          (set_chunks o r now (suc i) chunks)
          (set_chunks-Leaves o r now (chunk_name o.name i) (suc i)
            (λ k l e. let same = chunk_name-injective o.name i k e in omega arith) chunks)
        ∙ lookup-set_cookie o r now (chunk_name o.name i) c j d in
      read_next o
        (record {
          cookies = b.send (receive_all (b.receive j first) (set_chunks o r now (suc i) chunks));
          tls = tls;
        })
        i (length chunks) c chunks kept rest
