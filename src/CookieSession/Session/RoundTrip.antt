-- ===== src/CookieSession/Session/RoundTrip.antt =====
-- What one request stores, the next one loads.
use sveltego.CookieSession.Codec.{Payload, Coding, encode_payload, decode_payload, split_chunks}
use sveltego.CookieSession.Cookies.{Options, Request, flush_cookies, read_wire}
use sveltego.CookieSession.Session.{Session, is_expired, fresh, stamp, new_session, flush, set_data}
use sveltego.CookieSession.Cookies.Browser.{Browser, AllOctets, receive_all}
use sveltego.CookieSession.Cookies.Wires.{next_request}
use sveltego.CookieSession.Cookies.Reread.{read_wire-flush_cookies}
use sveltego.Base.{
  ok, ℕ, ◌^◌, ◌<◌, ◌≡◌, refl, sym, ap, ◌∙◌, subst, ◌≢◌, Bool, true, false, Option, none, some, [],
  ◌++◌, length, Str,
}

pub read-new_session :
    {T E : Type 0} (c : Coding T E) (zero_data : T) (later : ℕ) (r : Option Request) (w : Bool)
    (o : Options) (wire : Str) (p : Payload T)
    → read_wire o r ≡ some wire
    → decode_payload c wire ≡ ok p
    → is_expired later p ≡ false
    → new_session c zero_data later r w o ≡ (record (fresh zero_data o r w) { payload = p }, none)
unfolding new_session
read-new_session c zero_data later r w o wire p read decoded live =
    rw (new_session, read, decoded, live) refl

pub flush_ok :
    {T E : Type 0} (c : Coding T E) (now : ℕ) (s : Session T) (wire : Str)
    → s.writer ≡ true
    → encode_payload c s.payload ≡ ok wire
    → flush c now s ≡ (
      record s { written = s.written ++ flush_cookies s.opts s.request now (split_chunks wire) },
      none,
    )
unfolding flush
flush_ok c now s wire open_writer encoded = simp (flush, open_writer, encoded)

-- The payload that Set stores.
abbrev pub stamped : {T : Type 0} → ℕ → T → Session T → Payload T
stamped now v s = record { payload_data = v; expires = stamp now s.opts.max_age s.payload.expires }

-- Set on a session of a fresh response succeeds if the payload encodes, and the session that the
-- browser's next request opens holds the value, with the expiry stamped, whatever session cookies
-- the browser had before. The wire must not be empty, have less than 2^63 bytes, all of them cookie
-- bytes, and decode to the payload that it encodes, and the payload must not have expired.
pub set_data-new_session :
    {T E J : Type 0} (c : Coding T E) (b : Browser J) (s : Session T) (v zero_data : T)
    (now later : ℕ) (tls : Bool) (j : J) (wire : Str)
    → s.writer ≡ true
    → s.written ≡ []
    → s.request ≡ some (next_request b tls j)
    → encode_payload c (stamped now v s) ≡ ok wire
    → decode_payload c wire ≡ ok (stamped now v s)
    → wire ≢ []
    → AllOctets wire
    → length wire < 2 ^ 63
    → is_expired later (stamped now v s) ≡ false
    → (t : Session T) × (set_data c now v s ≡ (t, none))
      × (let r = some (next_request b tls (receive_all b j t.written)) in
          new_session c zero_data later r true s.opts
          ≡ (record (fresh zero_data s.opts r true) { payload = stamped now v s }, none))
unfolding set_data
set_data-new_session c b s v zero_data now later tls j wire open_writer unwritten request encoded
      decoded ne octets top live =
    let p = stamped now v s in
    let cookies = s.written ++ flush_cookies s.opts s.request now (split_chunks wire) in
    let exact : flush_cookies s.opts (some (next_request b tls j)) now (split_chunks wire)
        ≡ cookies =
      sym (
        ap (λ r. s.written ++ flush_cookies s.opts r now (split_chunks wire)) request
        ∙ ap (λ w. w ++ flush_cookies s.opts (some (next_request b tls j)) now (split_chunks wire))
            unwritten) in
    (
      record s { payload = p; dirty = true; destroyed = false; written = cookies },
      flush_ok c now (record s { payload = p; dirty = true; destroyed = false }) wire open_writer
          encoded,
      read-new_session c zero_data later (some (next_request b tls (receive_all b j cookies))) true
          s.opts wire p
          (subst (λ w. read_wire s.opts (some (next_request b tls (receive_all b j w))) ≡ some wire)
            exact (read_wire-flush_cookies b s.opts tls now j wire ne octets top))
          decoded live,
    )
