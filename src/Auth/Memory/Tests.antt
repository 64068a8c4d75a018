-- ===== src/Auth/Memory/Tests.antt =====
-- The theorems on the in-memory store, at a small store.
use sveltego.Base.Map.{lookup, insert, delete, delete_where}
use sveltego.Auth.Identity.{User, Session, session_expired, nil_dereference}
use sveltego.Auth.Memory.{
  Store, new, create_user, user_by_id, user_by_email, reindex, update_user, delete_user,
  create_session, session_by_token, refresh_session, revoke_all_sessions,
}
use sveltego.Auth.Memory.Lookup.{user_by_email_iff}
use sveltego.Auth.Memory.Reach.{Reach, start, next, created, session_created}
use sveltego.Auth.Memory.Cascade.{
  Cascades, delete_user-Cascades, revoke_all_sessions-session_by_token,
  refresh_session-session_by_token,
}
use sveltego.Auth.Memory.Duplicates.{create_user-dangling, update_user-hijack}
use sveltego.Base.{
  ok, err, String, ◌≡◌, refl, ap, ◌≢◌, ◌↔◌, false, some, [], ◌∷◌, ltb, if◌then◌else◌, Str, str,
  str_eq,
}

memory : Unit {0}
unfolding create_user user_by_id user_by_email reindex update_user delete_user create_session
    session_by_token refresh_session revoke_all_sessions lookup insert delete delete_where str_eq
memory = tt

abbrev user : String → String → User
user id email = record {
  id = str id;
  email = str email;
  email_verified = false;
  name = [];
  image = [];
  created_at = 0;
  updated_at = 0;
}

abbrev session : Session
session = record {
  id = str "s";
  user_id = str "1";
  token = str "t";
  expires_at = 50;
  fresh_until = 10;
  ip_address = [];
  user_agent = [];
  created_at = 0;
  updated_at = 0;
}

abbrev one_user : Store
one_user = record new {
  users = (str "1", user "1" "a@b.c") ∷ [];
  users_by_email = (str "a@b.c", str "1") ∷ [];
}

abbrev one_session : Store
one_session = record one_user { sessions = (str "t", session) ∷ [] }

one_session-Reach : Reach one_session
unfolding memory
one_session-Reach =
    next (next start (created (user "1" "a@b.c") refl refl)) (session_created session)

user_by_email_iff_example :
    ((user_by_email one_session (str "a@b.c") ≡ ok (user "1" "a@b.c"))
      ↔ ((user_by_id one_session (str "1") ≡ ok (user "1" "a@b.c")) × (str "a@b.c" ≡ str "a@b.c")))
    × (user_by_email one_session (str "a@b.c") ≢ err nil_dereference)
user_by_email_iff_example =
    user_by_email_iff one_session (str "a@b.c") (user "1" "a@b.c") one_session-Reach

delete_user-Cascades_example :
    (t : Store) × (delete_user one_session (str "1") ≡ ok t)
    × Cascades one_session t (str "1") (user "1" "a@b.c")
unfolding memory
delete_user-Cascades_example =
    delete_user-Cascades one_session (str "1") (user "1" "a@b.c") one_session-Reach refl

revoke_all_sessions-session_by_token_example :
    (session_by_token (revoke_all_sessions one_session (str "1")) 5 (str "t") ≡ ok session)
    ↔ ((session_by_token one_session 5 (str "t") ≡ ok session) × (str "1" ≢ str "1"))
revoke_all_sessions-session_by_token_example =
    revoke_all_sessions-session_by_token one_session (str "1") (str "t") 5 session one_session-Reach

abbrev refreshed : Store
refreshed = record one_user {
  sessions = (str "t", record session { expires_at = 90; updated_at = 5 }) ∷ [];
}

refresh_session-session_by_token_example :
    (e : Session) × (lookup (str "t") one_session.sessions ≡ some e)
    × (session_by_token refreshed 70 (str "t") ≡ (
        if ltb 90 70
        then err session_expired
        else ok (record e { expires_at = 90; updated_at = 5 })))
    × (str "u" ≢ str "t"
        → session_by_token refreshed 70 (str "u") ≡ session_by_token one_session 70 (str "u"))
unfolding memory
refresh_session-session_by_token_example =
    refresh_session-session_by_token one_session refreshed 5 70 90 (str "t") (str "u") refl

abbrev two_emails : Store
two_emails = record new {
  users = (str "1", user "1" "x@y.z") ∷ [];
  users_by_email = (str "a@b.c", str "1") ∷ (str "x@y.z", str "1") ∷ [];
}

abbrev left_over : Store
left_over = record new { users_by_email = (str "a@b.c", str "1") ∷ [] }

create_user-dangling_example : user_by_email left_over (str "a@b.c") ≡ err nil_dereference
unfolding memory
create_user-dangling_example =
    create_user-dangling new one_user two_emails left_over (user "1" "a@b.c") (user "1" "x@y.z")
      refl refl refl (λ e. cc (ap (λ (x : Str). str_eq x (str "a@b.c")) e)) refl

abbrev two_users : Store
two_users = record new {
  users = (str "1", user "1" "a@b.c") ∷ (str "2", user "2" "x@y.z") ∷ [];
  users_by_email = (str "a@b.c", str "1") ∷ (str "x@y.z", str "2") ∷ [];
}

update_user-hijack_example :
    (t : Store) × (update_user two_users (user "1" "x@y.z") ≡ ok t)
    × (user_by_id t (str "2") ≡ ok (user "2" "x@y.z"))
    × (user_by_email t (str "x@y.z") ≡ ok (user "1" "x@y.z"))
unfolding memory
update_user-hijack_example =
    update_user-hijack two_users (user "1" "a@b.c") (user "1" "x@y.z") (user "2" "x@y.z") refl refl
      (λ e. cc (ap (λ (x : Str). str_eq x (str "1")) e)) refl
      (λ e. cc (ap (λ (x : Str). str_eq x (str "a@b.c")) e))
