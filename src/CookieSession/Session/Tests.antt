-- ===== src/CookieSession/Session/Tests.antt =====
-- The theorems on sessions, with text as data, a codec that marks its wire, and a browser that is an
-- association list.
use sveltego.Base.Map.{insert, delete, lookup-insert, lookup-delete}
use sveltego.Base.Map.{lookup}
use sveltego.CookieSession.Codec.{
  Coding, encode_payload, decode_payload, split_chunks, meta_name, encode_chunk_meta,
}
use sveltego.CookieSession.Cookies.{
  Options, Request, delete_chunks, prev_chunk_count, delete_meta, flush_cookies,
}
use sveltego.Http.{unset, delete_now, seconds, SetCookie}
use sveltego.CookieSession.Session.{
  Session, fresh, needs_sync, stamp, destroy, new_session, flush, set_data, update, refresh,
}
use sveltego.CookieSession.Cookies.Browser.{Browser, receive_all}
use sveltego.Base.Decimal.{itoa, digits}
use sveltego.CookieSession.Cookies.Wires.{next_request}
use sveltego.CookieSession.Session.RoundTrip.{stamped, set_data-new_session}
use sveltego.CookieSession.Session.Stale.{
  IsDeletion, set_data-stale, length-destroy, needs_sync_kept,
}
use sveltego.Base.{
  ok, All, ◌++◌, err, ℕ, zero, suc, ◌+◌, ◌≡◌, refl, ◌≢◌, Bool, true, false, none, some, List, [],
  ◌∷◌, arith, length, Str, str, str_eq, str_eq_iff, str_eq_refl,
}

abbrev marking : Coding Str Bool
marking = record {
  marshal = λ p. ok p.payload_data;
  unmarshal = λ s. ok (record { payload_data = s; expires = none });
  encrypt = λ s. ok (120 ∷ s);
  decrypt = λ s. elim s [ [] ↦ err false | _ ∷ rest ↦ ok rest ];
}

abbrev received : List (Str × Str) → SetCookie → List (Str × Str)
received j c = elim c.max_age [
  | delete_now ↦ delete c.name j
  | unset ↦ insert c.name c.value j
  | seconds _ ↦ insert c.name c.value j
]

received_deleted :
    (j : List (Str × Str)) (c : SetCookie)
    → c.max_age ≡ delete_now
    → lookup c.name (received j c) ≡ none
received_deleted j c e = ground (arith, lookup-delete c.name c.name j, str_eq_refl c.name)

received_stored :
    (j : List (Str × Str)) (c : SetCookie)
    → c.max_age ≢ delete_now
    → lookup c.name (received j c) ≡ some c.value
received_stored j c e = ground (arith, lookup-insert c.name c.name c.value j, str_eq_refl c.name)

received_others :
    (j : List (Str × Str)) (c : SetCookie) (n : Str)
    → n ≢ c.name
    → lookup n (received j c) ≡ lookup n j
received_others j c n e =
    ground (arith, lookup-insert c.name n c.value j, lookup-delete c.name n j, str_eq_iff c.name n)

abbrev jar : Browser (List (Str × Str))
jar = record {
  send = λ j. j;
  receive = received;
  deleted = λ j c e. received_deleted j c e;
  stored = λ j c e _. received_stored j c e;
  others = λ j c n e. received_others j c n e;
}

abbrev plain_options : Options
plain_options = record {
  name = str "s";
  max_age = 0;
  path = [];
  domain = [];
  secure = none;
  same_site = 0;
}

abbrev visitor : Session Str
visitor = fresh [] plain_options (some (next_request jar true [])) true

set_data-new_session_example :
    (t : Session Str) × (set_data marking 1 (str "hello") visitor ≡ (t, none))
    × (let r = some (next_request jar true (receive_all jar [] t.written)) in
        new_session marking [] 5 r true plain_options ≡ (
          record (fresh [] plain_options r true) { payload = stamped 1 (str "hello") visitor },
          none,
        ))
unfolding encode_payload decode_payload stamp
set_data-new_session_example =
    set_data-new_session marking jar visitor (str "hello") [] 1 5 true [] (str "xhello") refl refl
      refl refl refl (λ e. cc) (ground arith) (omega arith) refl

abbrev letters : ℕ → Str
letters zero = []
letters (suc n) = 97 ∷ letters n

set_data-stale_example :
    (let first = set_data marking 1 (str "hello") visitor in
      let second = set_data marking 2 (letters 4000) first.0 in
      let r = some (next_request jar true (receive_all jar [] second.0.written)) in
      (first.1 ≡ none)
      × (second.1 ≡ none)
      × (new_session marking [] 5 r true plain_options ≡ (
        record (fresh [] plain_options r true) { payload = stamped 1 (str "hello") visitor },
        none,
      )))
unfolding encode_payload decode_payload stamp set_data flush flush_cookies split_chunks
    prev_chunk_count delete_chunks delete_meta lookup str_eq
set_data-stale_example =
    set_data-stale marking jar visitor (str "hello") (letters 4000) [] 1 2 5 true [] 120
      (str "hello") (120 ∷ letters 4000) refl refl refl refl refl refl refl refl refl (ground arith)
      refl

abbrev announced : Request
announced = record { cookies = (str "s.meta", str "77") ∷ []; tls = true }

length-destroy_example :
    (ds : List SetCookie) × ((destroy
        (str "")
        (record visitor { request = some announced })).written
      ≡ [] ++ ds)
    × (length ds ≡ 77 + 2)
    × All IsDeletion ds
unfolding meta_name encode_chunk_meta lookup str_eq itoa digits
length-destroy_example =
    length-destroy (str "") (record visitor { request = some announced }) announced 77 refl refl
      refl (omega arith) (omega arith)

needs_sync_kept_example :
    (needs_sync (set_data marking 1 (str "a") visitor).0 ≡ true)
    × (needs_sync (update marking 1 (λ s. 97 ∷ s) visitor).0 ≡ true)
    × (needs_sync (refresh marking 1 none visitor).0 ≡ true)
    × (needs_sync (destroy (str "a") visitor) ≡ true)
    × (needs_sync (flush marking 1 visitor).0 ≡ needs_sync visitor)
needs_sync_kept_example = needs_sync_kept marking 1 (str "a") (λ s. 97 ∷ s) none visitor
