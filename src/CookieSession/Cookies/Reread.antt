-- ===== src/CookieSession/Cookies/Reread.antt =====
-- What the next request reads of the cookies that one flush wrote.
use sveltego.Base.Map.{lookup}
use sveltego.CookieSession.Codec.{split_chunks, join_chunks, meta_name, encode_chunk_meta}
use sveltego.CookieSession.Cookies.{
  Options, Request, set_cookie, delete_chunks, set_chunks, prev_chunk_count, delete_plain,
  delete_meta, flush_cookies, read_wire,
}
use sveltego.CookieSession.Codec.Names.{decode-encode_chunk_meta, meta_name_not_base}
use sveltego.CookieSession.Codec.Chunks.{join-split_chunks, length-split_chunks}
use sveltego.CookieSession.Cookies.Browser.{
  Browser, AllOctets, Leaves, Leaves-append, delete_chunks-Leaves, set_chunks-Leaves,
  base_not_chunk, meta_not_chunk, receive_all, receive_all-append, lookup-receive_all,
  lookup-set_cookie, lookup-delete_cookie, read_parts-set_chunks,
}
use sveltego.Base.Decimal.{itoa, itoa-AllDigits}
use sveltego.Base.{
  ℕ, ◌-◌, ◌^◌, ◌≤◌, ◌<◌, ◌≡◌, refl, sym, ap, ◌∙◌, subst, ◌≢◌, ◌⊎◌, inl, inr, Bool, Option, none,
  some, List, [], ◌∷◌, ◌++◌, arith, Option-cases, length, Str,
}
use sveltego.CookieSession.Cookies.Wires.{
  digits-AllOctets, chunks-AllOctets, read_plain, read_chunks, next_request, shape,
}

module _ {J : Type 0} (b : Browser J) (o : Options) (tls : Bool) (now : ℕ) (j : J) where
  plain_gone :
      (lookup o.name (b.send (receive_all b j (delete_plain o (some (next_request b tls j)))))
        ≡ none)
      ⊎ (lookup o.name (b.send (receive_all b j (delete_plain o (some (next_request b tls j)))))
          ≡ some [])
  unfolding delete_plain receive_all
  plain_gone = elim (Option-cases (lookup o.name (b.send j))) [
    | inl e ↦ rw (receive_all, delete_plain, e) (inl e)
    | inr ([], e) ↦ rw (receive_all, delete_plain, e) (inr e)
    | inr (x ∷ v, e) ↦ rw (receive_all, delete_plain, e) (inl (lookup-delete_cookie b o o.name j))
  ]

  -- The plain cookie of a wire that fits is the last one written.
  pub plain_written :
      (x : ℕ) (wire : Str)
      → AllOctets (x ∷ wire)
      → lookup o.name (
          b.send
            (receive_all b j (flush_cookies o (some (next_request b tls j)) now ((x ∷ wire) ∷ []))))
        ≡ some (x ∷ wire)
  unfolding flush_cookies receive_all
  plain_written x wire octets =
      let r = some (next_request b tls j) in
      let prev = prev_chunk_count o r in
      let set = set_cookie o r now o.name (x ∷ wire) ∷ [] in
      let before = receive_all b (receive_all b j (delete_chunks o 0 prev)) (delete_meta o prev) in
      let last : receive_all b j (delete_chunks o 0 prev ++ (delete_meta o prev ++ set))
          ≡ receive_all b before set =
        receive_all-append b j (delete_chunks o 0 prev) (delete_meta o prev ++ set)
        ∙ receive_all-append b (receive_all b j (delete_chunks o 0 prev)) (delete_meta o prev)
            set in
      subst (λ k. lookup o.name (b.send k) ≡ some (x ∷ wire)) (sym last)
        (lookup-set_cookie b o r now o.name (x ∷ wire) before octets)

  one_cookie :
      (x : ℕ) (wire : Str)
      → AllOctets (x ∷ wire)
      → read_wire o (
          some (
            next_request b tls (
              receive_all b j
                (flush_cookies o (some (next_request b tls j)) now ((x ∷ wire) ∷ [])))))
        ≡ some (x ∷ wire)
  one_cookie x wire octets =
      read_plain o
        (next_request b tls
          (receive_all b j (flush_cookies o (some (next_request b tls j)) now ((x ∷ wire) ∷ []))))
        x wire (plain_written x wire octets)

  gone_as :
      {found : Option Str}
      → found
        ≡ lookup o.name (b.send (receive_all b j (delete_plain o (some (next_request b tls j)))))
      → (found ≡ none) ⊎ (found ≡ some [])
  gone_as e = elim plain_gone [ inl gone ↦ inl (e ∙ gone) | inr blank ↦ inr (e ∙ blank) ]

  many_cookies :
      (c d : Str) (cs : List Str)
      → AllOctets (join_chunks (c ∷ d ∷ cs))
      → length (c ∷ d ∷ cs) < 2 ^ 63
      → read_wire o (
          some (
            next_request b tls
              (receive_all b j (flush_cookies o (some (next_request b tls j)) now (c ∷ d ∷ cs)))))
        ≡ some (join_chunks (c ∷ d ∷ cs))
  unfolding flush_cookies receive_all encode_chunk_meta
  many_cookies c d cs octets top =
      let r = some (next_request b tls j) in
      let chunks = c ∷ d ∷ cs in
      let orphans = delete_chunks o (length chunks) (prev_chunk_count o r - length chunks) in
      let meta = set_cookie o r now (meta_name o.name) (encode_chunk_meta (length chunks)) in
      let set = set_chunks o r now 0 chunks in
      let j1 = receive_all b j (delete_plain o r) in
      let j2 = receive_all b j1 orphans in
      let j3 = b.receive j2 meta in
      let last : receive_all b j (delete_plain o r ++ (orphans ++ meta ∷ set))
          ≡ receive_all b j3 set =
        receive_all-append b j (delete_plain o r) (orphans ++ meta ∷ set)
        ∙ receive_all-append b j1 orphans (meta ∷ set) in
      let plain : lookup o.name (b.send (receive_all b j3 set)) ≡ lookup o.name (b.send j1) =
        lookup-receive_all b j3 o.name set
          (set_chunks-Leaves o r now o.name 0 (λ k _. base_not_chunk o k) chunks)
        ∙ lookup-receive_all b j2 o.name (meta ∷ []) ((λ e. meta_name_not_base o.name (sym e)), tt)
        ∙ lookup-receive_all b j1 o.name orphans (
            delete_chunks-Leaves o o.name (base_not_chunk o) (length chunks)
              (prev_chunk_count o r - length chunks)) in
      let counted : lookup (meta_name o.name) (b.send (receive_all b j3 set))
          ≡ some (encode_chunk_meta (length chunks)) =
        lookup-receive_all b j3 (meta_name o.name) set
          (set_chunks-Leaves o r now (meta_name o.name) 0 (λ k _. meta_not_chunk o k) chunks)
        ∙ lookup-set_cookie b o r now (meta_name o.name) (encode_chunk_meta (length chunks)) j2
            (digits-AllOctets (itoa (length chunks)) (itoa-AllDigits (length chunks))) in
      subst (λ k. read_wire o (some (next_request b tls k)) ≡ some (join_chunks chunks)) (sym last)
        (read_chunks o (next_request b tls (receive_all b j3 set)) (length chunks)
          (encode_chunk_meta (length chunks)) chunks (gone_as plain) counted
          (decode-encode_chunk_meta (length chunks) (omega arith) top)
          (read_parts-set_chunks b o r tls now 0 chunks j3 (chunks-AllOctets chunks octets)))

  any_cookies :
      (wire : Str) (chunks : List Str)
      → wire ≢ []
      → AllOctets wire
      → join_chunks chunks ≡ wire
      → (chunks ≡ wire ∷ []) ⊎ (2 ≤ length chunks)
      → length chunks < 2 ^ 63
      → read_wire o (
          some (
            next_request b tls
              (receive_all b j (flush_cookies o (some (next_request b tls j)) now chunks))))
        ≡ some wire
  any_cookies [] chunks ne octets joined (inl one) top = absurd (ne refl)
  any_cookies (x ∷ wire) chunks ne octets joined (inl one) top =
      subst
        (λ cs.
          read_wire o (
            some (
              next_request b tls
                (receive_all b j (flush_cookies o (some (next_request b tls j)) now cs))))
          ≡ some (x ∷ wire))
        (sym one) (one_cookie x wire octets)
  any_cookies wire [] ne octets joined (inr more) top = absurd (omega arith)
  any_cookies wire (c ∷ []) ne octets joined (inr more) top = absurd (omega arith)
  any_cookies wire (c ∷ d ∷ cs) ne octets joined (inr more) top =
      many_cookies c d cs (subst AllOctets (sym joined) octets) top ∙ ap some joined

  -- The next request reads the wire that a flush wrote, whatever session cookies the browser had.
  pub read_wire-flush_cookies :
      (wire : Str)
      → wire ≢ []
      → AllOctets wire
      → length wire < 2 ^ 63
      → read_wire o (
          some (
            next_request b tls (
              receive_all b j
                (flush_cookies o (some (next_request b tls j)) now (split_chunks wire)))))
        ≡ some wire
  read_wire-flush_cookies wire some_byte octets top =
      any_cookies wire (split_chunks wire) some_byte octets (join-split_chunks wire).0 (shape wire)
        (let count = length-split_chunks wire some_byte in omega arith)

-- A chunked flush leaves a plain cookie alone that the request does not have.
pub flush_cookies-Leaves :
    (o : Options) (r : Request) (now : ℕ) (chunks : List Str)
    → lookup o.name r.cookies ≡ none
    → 2 ≤ length chunks
    → Leaves o.name (flush_cookies o (some r) now chunks)
unfolding flush_cookies delete_plain
flush_cookies-Leaves o r now [] none_yet more = absurd (omega arith)
flush_cookies-Leaves o r now (c ∷ []) none_yet more = absurd (omega arith)
flush_cookies-Leaves o r now (c ∷ d ∷ cs) none_yet more =
    let chunks = c ∷ d ∷ cs in
    let n = prev_chunk_count o (some r) - length chunks in
    let quiet : delete_plain o (some r) ≡ [] = rw (delete_plain, none_yet) refl in
    let meta = set_cookie o (some r) now (meta_name o.name) (encode_chunk_meta (length chunks)) in
    subst
      (λ p.
        Leaves o.name
          (p ++ (delete_chunks o (length chunks) n ++ meta ∷ set_chunks o (some r) now 0 chunks)))
      (sym quiet)
      (Leaves-append o.name (delete_chunks o (length chunks) n)
        (meta ∷ set_chunks o (some r) now 0 chunks)
        (delete_chunks-Leaves o o.name (base_not_chunk o) (length chunks) n)
        (
          (λ e. meta_name_not_base o.name (sym e)),
          set_chunks-Leaves o (some r) now o.name 0 (λ k _. base_not_chunk o k) chunks,
        ))
