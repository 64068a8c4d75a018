-- ===== src/CookieSession/Session/Stale.antt =====
-- Where the cookies of one response do not say what the session says: the earlier cookies are looked
-- up in the request only.
use sveltego.Base.Map.{lookup}
use sveltego.CookieSession.Codec.{
  Coding, encode_payload, decode_payload, max_chunk_bytes, split_chunks, chunk_name, meta_name,
  encode_chunk_meta,
}
use sveltego.CookieSession.Cookies.{
  Options, Request, delete_cookie, delete_chunks, prev_chunk_count, flush_cookies,
}
use sveltego.CookieSession.Session.{
  Session, is_expired, fresh, needs_sync, delete_all_cookies, destroy, new_session, flush, set_data,
  update, refresh,
}
use sveltego.CookieSession.Codec.Names.{decode-encode_chunk_meta}
use sveltego.CookieSession.Codec.Chunks.{split_chunks-long}
use sveltego.CookieSession.Cookies.Browser.{
  Browser, AllOctets, receive_all, receive_all-append, lookup-receive_all,
}
use sveltego.CookieSession.Cookies.Wires.{next_request, read_plain}
use sveltego.CookieSession.Cookies.Reread.{plain_written, flush_cookies-Leaves}
use sveltego.CookieSession.Session.RoundTrip.{read-new_session, flush_ok, stamped}
use sveltego.Http.{SetCookie, delete_now}
use sveltego.Base.{
  ok, All, List, ℕ, zero, suc, ◌+◌, ◌^◌, ◌≤◌, ◌<◌, ◌≡◌, refl, sym, ap, ◌∙◌, subst, Bool, true,
  false, Option, none, some, [], ◌∷◌, ◌++◌, arith, ltb, leb, length, Str,
}

split_short :
    (wire : Str) → leb (length wire) max_chunk_bytes ≡ true → split_chunks wire ≡ wire ∷ []
unfolding split_chunks
split_short wire short = rw (split_chunks, short) refl

-- A session without cookies written so far, whose request is the browser's and had no plain session
-- cookie, is set twice in that request: first to a value whose wire is not empty, fits one cookie, has
-- cookie bytes only and decodes to that value with its expiry, then to one whose wire does not fit one
-- cookie. Both calls succeed, and the browser's next request, before that expiry, loads the first
-- value: the second Set does not delete the cookie that the first one wrote.
pub set_data-stale :
    {T E J : Type 0} (c : Coding T E) (b : Browser J) (s : Session T) (v w zero_data : T)
    (now next later : ℕ) (tls : Bool) (j : J) (x : ℕ) (small large : Str)
    → s.writer ≡ true
    → s.written ≡ []
    → s.request ≡ some (next_request b tls j)
    → lookup s.opts.name (b.send j) ≡ none
    → encode_payload c (stamped now v s) ≡ ok (x ∷ small)
    → leb (length (x ∷ small)) max_chunk_bytes ≡ true
    → encode_payload c (stamped next w (set_data c now v s).0) ≡ ok large
    → leb (length large) max_chunk_bytes ≡ false
    → decode_payload c (x ∷ small) ≡ ok (stamped now v s)
    → AllOctets (x ∷ small)
    → is_expired later (stamped now v s) ≡ false
    → (let first = set_data c now v s in
        let second = set_data c next w first.0 in
        let r = some (next_request b tls (receive_all b j second.0.written)) in
        (first.1 ≡ none)
        × (second.1 ≡ none)
        × (new_session c zero_data later r true s.opts
            ≡ (record (fresh zero_data s.opts r true) { payload = stamped now v s }, none)))
unfolding set_data
set_data-stale {T} c b s v w zero_data now next later tls j x small large open_writer unwritten
      request absent encoded short encoded_next long decoded octets live =
    let r = next_request b tls j in
    let t : Session T = (set_data c now v s).0 in
    let u : Session T = (set_data c next w t).0 in
    let s' = record s { payload = stamped now v s; dirty = true; destroyed = false } in
    let first = flush_ok c now s' (x ∷ small) open_writer encoded in
    let t_is = sym (ap (λ p. p.0) first) in
    let t_opts : t.opts ≡ s.opts = sym (ap (λ k. k.opts) t_is) in
    let t_request : t.request ≡ some r = sym (ap (λ k. k.request) t_is) ∙ request in
    let t_writer : t.writer ≡ true = sym (ap (λ k. k.writer) t_is) ∙ open_writer in
    let one = flush_cookies s.opts (some r) now ((x ∷ small) ∷ []) in
    let two = flush_cookies s.opts (some r) next (split_chunks large) in
    let t_written : t.written ≡ one =
      sym (ap (λ k. k.written) t_is)
      ∙ ap (λ k. k ++ flush_cookies s.opts s.request now (split_chunks (x ∷ small))) unwritten
      ∙ ap (λ k. flush_cookies s.opts k now (split_chunks (x ∷ small))) request
      ∙ ap (flush_cookies s.opts (some r) now) (split_short (x ∷ small) short) in
    let t' = record t { payload = stamped next w t; dirty = true; destroyed = false } in
    let second = flush_ok c next t' large t_writer encoded_next in
    let u_is = sym (ap (λ p. p.0) second) in
    let u_written : u.written ≡ one ++ two =
      sym (ap (λ k. k.written) u_is)
      ∙ ap (λ k. k ++ flush_cookies t.opts t.request next (split_chunks large)) t_written
      ∙ ap (λ k. one ++ flush_cookies k t.request next (split_chunks large)) t_opts
      ∙ ap (λ k. one ++ flush_cookies s.opts k next (split_chunks large)) t_request in
    let kept : lookup s.opts.name (b.send (receive_all b j (one ++ two))) ≡ some (x ∷ small) =
      ap (λ k. lookup s.opts.name (b.send k)) (receive_all-append b j one two)
      ∙ lookup-receive_all b (receive_all b j one) s.opts.name two (
          flush_cookies-Leaves s.opts r next (split_chunks large) absent
            (split_chunks-long large long))
      ∙ plain_written b s.opts tls now j x small octets in
    let loaded =
      subst
        (λ k.
          (let q = some (next_request b tls (receive_all b j k)) in
            new_session c zero_data later q true s.opts
            ≡ (record (fresh zero_data s.opts q true) { payload = stamped now v s }, none)))
        (sym u_written)
        (read-new_session c zero_data later
          (some (next_request b tls (receive_all b j (one ++ two)))) true s.opts (x ∷ small)
          (stamped now v s)
          (read_plain s.opts (next_request b tls (receive_all b j (one ++ two))) x small kept)
          decoded live) in
    (ap (λ p. p.1) first, ap (λ p. p.1) second, loaded)

-- A cookie that a browser drops at once.
abbrev pub IsDeletion : SetCookie → Type 0
IsDeletion c = (c.max_age ≡ delete_now) × (c.value ≡ [])

delete_cookie-IsDeletion : (o : Options) (name : Str) → IsDeletion (delete_cookie o name)
unfolding delete_cookie
delete_cookie-IsDeletion o name = (refl, refl)

delete_chunks-IsDeletion : (o : Options) (i n : ℕ) → All IsDeletion (delete_chunks o i n)
unfolding delete_chunks
delete_chunks-IsDeletion o i zero = tt
delete_chunks-IsDeletion o i (suc n) =
    (delete_cookie-IsDeletion o (chunk_name o.name i), delete_chunks-IsDeletion o (suc i) n)

-- The chunk count of the meta cookie is taken as it is: for any count n from 1 up to the largest
-- signed 64-bit integer, `Destroy` on a session with a writer appends n + 2 cookies to those that
-- were written, whatever chunk cookies the request has, and each of them is a deletion.
pub length-destroy :
    {T : Type 0} (zero_data : T) (s : Session T) (r : Request) (n : ℕ)
    → s.writer ≡ true
    → s.request ≡ some r
    → lookup (meta_name s.opts.name) r.cookies ≡ some (encode_chunk_meta n)
    → 1 ≤ n
    → n < 2 ^ 63
    → (ds : List SetCookie) × ((destroy zero_data s).written ≡ s.written ++ ds)
      × (length ds ≡ n + 2)
      × All IsDeletion ds
unfolding destroy
length-destroy zero_data s r n open_writer request meta low top =
    let count : prev_chunk_count s.opts s.request ≡ n =
      ap (prev_chunk_count s.opts) request ∙ counted s.opts r n meta low top in
    let size : length (delete_all_cookies s) ≡ n + 2 =
      rw (delete_all_cookies, open_writer, count, above n low)
        (omega (arith, length-delete_chunks s.opts 0 n)) in
    let gone : All IsDeletion (delete_all_cookies s) =
      rw (delete_all_cookies, open_writer, count, above n low)
        (
          delete_cookie-IsDeletion s.opts s.opts.name,
          (
            delete_cookie-IsDeletion s.opts (meta_name s.opts.name),
            delete_chunks-IsDeletion s.opts 0 n,
          ),
        ) in
    (delete_all_cookies s, refl, size, gone)
  where
    above : (n : ℕ) → 1 ≤ n → ltb 0 n ≡ true
    above n low = ground arith

    length-delete_chunks : (o : Options) (i n : ℕ) → length (delete_chunks o i n) ≡ n
    length-delete_chunks o i zero = refl
    length-delete_chunks o i (suc n) = ap suc (length-delete_chunks o (suc i) n)

    counted :
        (o : Options) (r : Request) (n : ℕ)
        → lookup (meta_name o.name) r.cookies ≡ some (encode_chunk_meta n)
        → 1 ≤ n
        → n < 2 ^ 63
        → prev_chunk_count o (some r) ≡ n
    counted o r n meta low top =
        rw (prev_chunk_count, meta, decode-encode_chunk_meta n low top) refl

-- A session that has changed asks for a sync for ever: no later change and no flush, failed or
-- done, resets the flag.
pub needs_sync_kept :
    {T E : Type 0} (c : Coding T E) (now : ℕ) (v : T) (f : T → T) (d : Option ℕ) (s : Session T)
    → (needs_sync (set_data c now v s).0 ≡ true)
      × (needs_sync (update c now f s).0 ≡ true)
      × (needs_sync (refresh c now d s).0 ≡ true)
      × (needs_sync (destroy v s) ≡ true)
      × (needs_sync (flush c now s).0 ≡ needs_sync s)
unfolding set_data update refresh destroy needs_sync flush
needs_sync_kept c now v f d s =
    (flush_dirty c now _, flush_dirty c now _, flush_dirty c now _, refl, flush_dirty c now s)
  where
    flush_dirty :
        {T E : Type 0} (c : Coding T E) (now : ℕ) (s : Session T)
        → (flush c now s).0.dirty ≡ s.dirty
    flush_dirty c now s = ground arith
