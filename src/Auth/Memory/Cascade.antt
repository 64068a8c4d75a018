-- ===== src/Auth/Memory/Cascade.antt =====
-- What deleting a user and revoking sessions take away, and what they leave.
use sveltego.Base.Map.{
  lookup, delete, delete_where, lookup-insert, lookup-delete, lookup-delete_where, keep_unless,
}
use sveltego.Auth.Identity.{Time, User, Account, Session, Verification, session_expired}
use sveltego.Auth.Memory.{
  Store, user_by_id, delete_user, session_by_token, refresh_session, revoke_all_sessions,
}
use sveltego.Auth.Memory.Reach.{Reach, Reach-IsWellFormed}
use sveltego.Base.{
  ok, err, ok-injective, ◌≡◌, refl, sym, ◌∙◌, subst, ◌≢◌, ◌↔◌, inl, inr, Option, none, some, arith,
  ltb, if◌then◌else◌, Option-cases, Str, str_eq, str_eq_iff, str_eq_refl, str_eq_ne,
}

-- What is left of the entry `o` when the entries of the user are deleted.
abbrev pub without {ℓ} : {A : Type ℓ} → (A → Str) → Str → Option A → Option A
without owner user none = none
without owner user (some a) = if str_eq (owner a) user then none else some a

keep_unless-without {ℓ} :
    {A : Type ℓ} (owner : A → Str) (user : Str) (o : Option A)
    → keep_unless (λ a. str_eq (owner a) user) o ≡ without owner user o
keep_unless-without owner user none = refl
keep_unless-without owner user (some a) = refl

-- The state after `DeleteUser`, read key by key.
pub record Cascades (s t : Store) (id : Str) (u : User) : Type 0 where
  pub users : (j : Str) → lookup j t.users ≡ (if str_eq id j then none else lookup j s.users)
  pub emails :
      (email : Str)
      → lookup email t.users_by_email
        ≡ (if str_eq u.email email then none else lookup email s.users_by_email)
  pub sessions :
      (token : Str)
      → lookup token t.sessions ≡ without (λ e. e.user_id) id (lookup token s.sessions)
  pub accounts : (j : Str) → lookup j t.accounts ≡ without (λ a. a.user_id) id (lookup j s.accounts)
  pub verifications :
      (code : Str)
      → lookup code t.verifications ≡ without (λ v. v.user_id) id (lookup code s.verifications)

-- Deleting a stored user in a reachable state succeeds. It removes that user and its email, and
-- exactly the sessions, accounts and verifications of that user; everything else stays.
pub delete_user-Cascades :
    (s : Store) (id : Str) (u : User)
    → Reach s
    → user_by_id s id ≡ ok u
    → (t : Store) × (delete_user s id ≡ ok t) × Cascades s t id u
unfolding delete_user user_by_id
delete_user-Cascades s id u r found_u =
    let w = Reach-IsWellFormed r in
    let held : lookup id s.users ≡ some u = ground arith in
    (
      record {
        users = delete id s.users;
        users_by_email = delete u.email s.users_by_email;
        sessions = delete_where (λ e. str_eq e.user_id id) s.sessions;
        accounts = delete_where (λ a. str_eq a.user_id id) s.accounts;
        verifications = delete_where (λ v. str_eq v.user_id id) s.verifications;
      },
      rw held,
      record {
        users = λ j. lookup-delete id j s.users;
        emails = λ email. lookup-delete u.email email s.users_by_email;
        sessions = λ token.
            lookup-delete_where _ token s.sessions w.sessions_once
            ∙ keep_unless-without (λ (e : Session). e.user_id) id (lookup token s.sessions);
        accounts = λ j.
            lookup-delete_where _ j s.accounts w.accounts_once
            ∙ keep_unless-without (λ (a : Account). a.user_id) id (lookup j s.accounts);
        verifications = λ code.
            lookup-delete_where _ code s.verifications w.verifications_once
            ∙ keep_unless-without (λ (v : Verification). v.user_id) id
                (lookup code s.verifications);
      },
    )

-- After `RevokeAllSessions` no token opens a session of the user, at any time, and a token of
-- another user opens what it opened before.
pub revoke_all_sessions-session_by_token :
    (s : Store) (user token : Str) (now : Time) (e : Session)
    → Reach s
    → (session_by_token (revoke_all_sessions s user) now token ≡ ok e)
      ↔ ((session_by_token s now token ≡ ok e) × (e.user_id ≢ user))
unfolding session_by_token revoke_all_sessions
revoke_all_sessions-session_by_token s user token now e r =
    let left =
      lookup-delete_where (λ (x : Session). str_eq x.user_id user) token s.sessions
        (Reach-IsWellFormed r).sessions_once in
    rw left (grind (arith, str_eq_iff e.user_id user))

-- A refreshed session opens until its new expiry and is expired behind it, with its other data
-- unchanged; every other token opens what it opened before.
pub refresh_session-session_by_token :
    (s t : Store) (now later expiry : Time) (token other : Str)
    → refresh_session s now token expiry ≡ ok t
    → (e : Session) × (lookup token s.sessions ≡ some e)
      × (session_by_token t later token ≡ (
          if ltb expiry later
          then err session_expired
          else ok (record e { expires_at = expiry; updated_at = now })))
      × (other ≢ token → session_by_token t later other ≡ session_by_token s later other)
unfolding refresh_session session_by_token
refresh_session-session_by_token s t now later expiry token other e =
    elim (Option-cases (lookup token s.sessions)) [
      | inl missing ↦ cc (rw missing at e)
      | inr (old, held) ↦
          let new' : Session = record old { expires_at = expiry; updated_at = now } in
          let same = ok-injective (rw held at e) in
          (
            old,
            held,
            subst
                (λ u.
                  session_by_token u later token
                  ≡ (if ltb expiry later then err session_expired else ok new'))
                same (rw (lookup-insert token token new' s.sessions, str_eq_refl token) refl),
            λ ne.
                subst (λ u. session_by_token u later other ≡ session_by_token s later other) same
                  (rw
                    (
                      lookup-insert token other new' s.sessions,
                      str_eq_ne token other (λ h. ne (sym h)),
                    )
                    refl),
          )
    ]
