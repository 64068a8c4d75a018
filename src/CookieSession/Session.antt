-- ===== src/CookieSession/Session.antt =====
-- cookiesession/session.go. A session belongs to one request, so its lock never waits. The cookies
-- that a call writes are appended to `written`, the Set-Cookie headers of the response; the call's
-- error is `none` where Go returns nil.
pub mod RoundTrip
pub mod Stale
mod Tests
use sveltego.CookieSession.Cookies.{
  Options, Request, is_nil, path_of, same_site_of, secure_of, max_age_of, set_cookie, delete_cookie,
  delete_chunks, set_chunks, prev_chunk_count, delete_plain, delete_meta, flush_cookies, read_parts,
  read_chunked, read_wire,
}
use sveltego.Http.{MaxAge, unset, delete_now, seconds, SetCookie}
use sveltego.Base.Map.{lookup}
use sveltego.CookieSession.Codec.{
  Expiry, Payload, Coding, encode_payload, decode_payload, split_chunks, join_chunks, chunk_name,
  meta_name, encode_chunk_meta, decode_chunk_meta,
}
use sveltego.Base.{
  ok, err, ℕ, ◌+◌, Bool, true, false, not, Option, none, some, List, [], ◌∷◌, ◌++◌, ltb,
  if◌then◌else◌,
}

pub record Session (T : Type 0) : Type 0 where
  pub opts : Options
  pub request : Option Request
  pub writer : Bool
  pub payload : Payload T
  pub dirty : Bool
  pub destroyed : Bool
  pub written : List SetCookie

-- The expiry after a change with the lifetime `d`.
unfoldable pub stamp : ℕ → ℕ → Expiry → Expiry
stamp now d old = if ltb 0 d then some (now + d) else old

-- `d` is the first of the variadic arguments.
unfoldable pub lifetime : Options → Option ℕ → ℕ
lifetime o none = o.max_age
lifetime o (some d) = if ltb 0 d then d else o.max_age

module _ {T : Type 0} where
  -- `time.Now().After(p.Expires)`, unless the payload has no expiry.
  abbrev pub is_expired : ℕ → Payload T → Bool
  is_expired now p = elim p.expires [ none ↦ false | some t ↦ ltb t now ]

  abbrev pub fresh : T → Options → Option Request → Bool → Session T
  fresh zero_data o r w = record {
    opts = o;
    request = r;
    writer = w;
    payload = record { payload_data = zero_data; expires = none };
    dirty = false;
    destroyed = false;
    written = [];
  }

  unfoldable pub needs_sync : Session T → Bool
  needs_sync s = s.dirty

  unfoldable pub delete_all_cookies : Session T → List SetCookie
  unfolding delete_cookie prev_chunk_count delete_chunks meta_name
  delete_all_cookies s =
      if not s.writer
      then []
      else delete_cookie s.opts s.opts.name
        ∷ (if ltb 0 (prev_chunk_count s.opts s.request)
            then delete_cookie s.opts (meta_name s.opts.name)
              ∷ delete_chunks s.opts 0 (prev_chunk_count s.opts s.request)
            else [])

  unfoldable pub destroy : T → Session T → Session T
  unfolding delete_all_cookies
  destroy zero_data s = record s {
    payload = record { payload_data = zero_data; expires = none };
    dirty = true;
    destroyed = true;
    written = s.written ++ delete_all_cookies s;
  }

module _ {T E : Type 0} where
  unfoldable pub new_session :
      Coding T E → T → ℕ → Option Request → Bool → Options → Session T × Option E
  unfolding read_wire decode_payload
  new_session c zero_data now r w o = elim (read_wire o r) [
    | none ↦ (fresh zero_data o r w, none)
    | some wire ↦ elim (decode_payload c wire) [
      | err e ↦ (fresh zero_data o r w, some e)
      | ok p ↦
          if is_expired now p
          then (record (fresh zero_data o r w) { dirty = true; destroyed = true }, none)
          else (record (fresh zero_data o r w) { payload = p }, none)
    ]
  ]

  unfoldable pub flush : Coding T E → ℕ → Session T → Session T × Option E
  unfolding encode_payload split_chunks flush_cookies
  flush c now s = if not s.writer then (s, none) else elim (encode_payload c s.payload) [
    | err e ↦ (s, some e)
    | ok wire ↦ (
      record s { written = s.written ++ flush_cookies s.opts s.request now (split_chunks wire) },
      none,
    )
  ]

  unfoldable pub set_data : Coding T E → ℕ → T → Session T → Session T × Option E
  unfolding flush stamp
  set_data c now v s = flush c now (record s {
    payload = record { payload_data = v; expires = stamp now s.opts.max_age s.payload.expires };
    dirty = true;
    destroyed = false;
  })

  unfoldable pub update : Coding T E → ℕ → (T → T) → Session T → Session T × Option E
  unfolding flush stamp
  update c now f s = flush c now (record s {
    payload = record {
      payload_data = f s.payload.payload_data;
      expires = stamp now s.opts.max_age s.payload.expires;
    };
    dirty = true;
    destroyed = false;
  })

  unfoldable pub refresh : Coding T E → ℕ → Option ℕ → Session T → Session T × Option E
  unfolding flush stamp lifetime
  refresh c now d s = flush c now (record s {
    payload = record s.payload { expires = stamp now (lifetime s.opts d) s.payload.expires };
    dirty = true;
  })
