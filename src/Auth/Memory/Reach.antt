-- ===== src/Auth/Memory/Reach.antt =====
-- The states that a store can reach while callers give each new user a fresh ID and take no email
-- that another user has; the invariant of these states.
use sveltego.Base.Map.{
  lookup, IsFunctional, insert-IsFunctional, delete-IsFunctional, delete_where-IsFunctional,
}
use sveltego.Auth.Identity.{Time, User, Account, Session, Verification}
use sveltego.Auth.Memory.{
  Store, new, create_user, update_user, delete_user, create_session, refresh_session,
  revoke_session, revoke_all_sessions, create_account, unlink_account, create_verification,
  consume_verification,
}
use sveltego.Auth.Memory.Index.{IsIndexed, IsIndexed-create, IsIndexed-update, IsIndexed-delete}
use sveltego.Base.{ok, ok-injective, ◌≡◌, subst, ◌≢◌, inl, inr, none, some, List, Option-cases, Str}

-- One successful call that changes the store.
pub data Step (s : Store) : Store → Type 0 where
  created : (u : User) {t : Store} → lookup u.id s.users ≡ none → create_user s u ≡ ok t → Step s t
  updated :
      (old u : User) {t : Store}
      → lookup u.id s.users ≡ some old
      → (u.email ≢ old.email → lookup u.email s.users_by_email ≡ none)
      → update_user s u ≡ ok t
      → Step s t
  deleted : (id : Str) {t : Store} → delete_user s id ≡ ok t → Step s t
  session_created : (e : Session) → Step s (create_session s e)
  session_refreshed :
      (now expiry : Time) (token : Str) {t : Store}
      → refresh_session s now token expiry ≡ ok t
      → Step s t
  session_revoked : (token : Str) → Step s (revoke_session s token)
  sessions_revoked : (user : Str) → Step s (revoke_all_sessions s user)
  account_created : (a : Account) → Step s (create_account s a)
  account_unlinked : (id : Str) {t : Store} → unlink_account s id ≡ ok t → Step s t
  verification_created : (v : Verification) → Step s (create_verification s v)
  verification_consumed : (code : Str) {t : Store} → consume_verification s code ≡ ok t → Step s t

pub data Reach : Store → Type 0 where
  start : Reach new
  next : {s t : Store} → Reach s → Step s t → Reach t

pub record IsWellFormed (s : Store) : Type 0 where
  pub indexed : IsIndexed s.users s.users_by_email
  pub sessions_once : IsFunctional s.sessions
  pub accounts_once : IsFunctional s.accounts
  pub verifications_once : IsFunctional s.verifications

new-IsWellFormed : IsWellFormed new
unfolding lookup
new-IsWellFormed = record {
  indexed = record { own_id = λ id u h. cc; listed = λ id u h. cc; owned = λ email id h. cc };
  sessions_once = tt;
  accounts_once = tt;
  verifications_once = tt;
}

-- The users and their index stay, and the other maps are given anew.
module _ {s : Store} (w : IsWellFormed s) where
  refreshed-IsWellFormed :
      (now expiry : Time) (token : Str) (t : Store)
      → refresh_session s now token expiry ≡ ok t
      → IsWellFormed t
  unfolding refresh_session
  refreshed-IsWellFormed now expiry token t e = elim (Option-cases (lookup token s.sessions)) [
    | inl missing ↦ cc (rw missing at e)
    | inr (old, held) ↦ subst IsWellFormed (ok-injective (rw held at e)) (record {
      indexed = w.indexed;
      sessions_once = insert-IsFunctional token _ s.sessions w.sessions_once;
      accounts_once = w.accounts_once;
      verifications_once = w.verifications_once;
    })
  ]

  unlinked-IsWellFormed : (id : Str) (t : Store) → unlink_account s id ≡ ok t → IsWellFormed t
  unfolding unlink_account
  unlinked-IsWellFormed id t e = elim (Option-cases (lookup id s.accounts)) [
    | inl missing ↦ cc (rw missing at e)
    | inr (a, held) ↦ subst IsWellFormed (ok-injective (rw held at e)) (record {
      indexed = w.indexed;
      sessions_once = w.sessions_once;
      accounts_once = delete-IsFunctional id s.accounts w.accounts_once;
      verifications_once = w.verifications_once;
    })
  ]

  consumed-IsWellFormed :
      (code : Str) (t : Store) → consume_verification s code ≡ ok t → IsWellFormed t
  unfolding consume_verification
  consumed-IsWellFormed code t e = elim (Option-cases (lookup code s.verifications)) [
    | inl missing ↦ cc (rw missing at e)
    | inr (v, held) ↦ subst IsWellFormed (ok-injective (rw held at e)) (record {
      indexed = w.indexed;
      sessions_once = w.sessions_once;
      accounts_once = w.accounts_once;
      verifications_once = delete-IsFunctional code s.verifications w.verifications_once;
    })
  ]

  with_sessions :
      {m : List (Str × Session)} → IsFunctional m → IsWellFormed (record s { sessions = m })
  with_sessions f = record {
    indexed = w.indexed;
    sessions_once = f;
    accounts_once = w.accounts_once;
    verifications_once = w.verifications_once;
  }

  created-IsWellFormed :
      (u : User) (t : Store) → lookup u.id s.users ≡ none → create_user s u ≡ ok t → IsWellFormed t
  unfolding create_user
  created-IsWellFormed u t fresh e = elim (Option-cases (lookup u.email s.users_by_email)) [
    | inr (id, taken) ↦ cc (rw taken at e)
    | inl free ↦ subst IsWellFormed (ok-injective (rw free at e)) (record {
      indexed = IsIndexed-create s.users s.users_by_email u w.indexed free fresh;
      sessions_once = w.sessions_once;
      accounts_once = w.accounts_once;
      verifications_once = w.verifications_once;
    })
  ]

  updated-IsWellFormed :
      (old u : User) (t : Store)
      → lookup u.id s.users ≡ some old
      → (u.email ≢ old.email → lookup u.email s.users_by_email ≡ none)
      → update_user s u ≡ ok t
      → IsWellFormed t
  unfolding update_user
  updated-IsWellFormed old u t held free e =
      subst IsWellFormed (ok-injective (rw held at e)) (record {
        indexed = IsIndexed-update s.users s.users_by_email old u w.indexed held free;
        sessions_once = w.sessions_once;
        accounts_once = w.accounts_once;
        verifications_once = w.verifications_once;
      })

  deleted-IsWellFormed : (id : Str) (t : Store) → delete_user s id ≡ ok t → IsWellFormed t
  unfolding delete_user
  deleted-IsWellFormed id t e = elim (Option-cases (lookup id s.users)) [
    | inl missing ↦ cc (rw missing at e)
    | inr (u, held) ↦ subst IsWellFormed (ok-injective (rw held at e)) (record {
      indexed = IsIndexed-delete s.users s.users_by_email id u w.indexed held;
      sessions_once = delete_where-IsFunctional _ s.sessions w.sessions_once;
      accounts_once = delete_where-IsFunctional _ s.accounts w.accounts_once;
      verifications_once = delete_where-IsFunctional _ s.verifications w.verifications_once;
    })
  ]

Step-IsWellFormed : {s t : Store} → IsWellFormed s → Step s t → IsWellFormed t
unfolding create_session revoke_session revoke_all_sessions create_account create_verification
Step-IsWellFormed {s} w (created u {t} fresh e) = created-IsWellFormed w u t fresh e
Step-IsWellFormed {s} w (updated old u {t} held free e) = updated-IsWellFormed w old u t held free e
Step-IsWellFormed {s} w (deleted id {t} e) = deleted-IsWellFormed w id t e
Step-IsWellFormed {s} w (session_created e) =
    with_sessions w (insert-IsFunctional e.token e s.sessions w.sessions_once)
Step-IsWellFormed {s} w (session_refreshed now expiry token {t} e) =
    refreshed-IsWellFormed w now expiry token t e
Step-IsWellFormed {s} w (session_revoked token) =
    with_sessions w (delete-IsFunctional token s.sessions w.sessions_once)
Step-IsWellFormed {s} w (sessions_revoked user) =
    with_sessions w (delete_where-IsFunctional _ s.sessions w.sessions_once)
Step-IsWellFormed {s} w (account_created a) = record {
  indexed = w.indexed;
  sessions_once = w.sessions_once;
  accounts_once = insert-IsFunctional a.id a s.accounts w.accounts_once;
  verifications_once = w.verifications_once;
}
Step-IsWellFormed {s} w (account_unlinked id {t} e) = unlinked-IsWellFormed w id t e
Step-IsWellFormed {s} w (verification_created v) = record {
  indexed = w.indexed;
  sessions_once = w.sessions_once;
  accounts_once = w.accounts_once;
  verifications_once = insert-IsFunctional v.token v s.verifications w.verifications_once;
}
Step-IsWellFormed {s} w (verification_consumed code {t} e) = consumed-IsWellFormed w code t e

pub Reach-IsWellFormed : {s : Store} → Reach s → IsWellFormed s
Reach-IsWellFormed start = new-IsWellFormed
Reach-IsWellFormed (next r step) = Step-IsWellFormed (Reach-IsWellFormed r) step
