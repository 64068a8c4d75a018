-- ===== src/Auth/Memory.antt =====
-- packages/auth/storage/memory/memory.go. A method runs under the store's lock, so it is one
-- step; records are cloned on the way in and out, so they are values. A method that changes the
-- store returns the new one, or an error before anything is written.
pub mod Index
pub mod Reach
pub mod Lookup
pub mod Cascade
pub mod Duplicates
mod Tests
use sveltego.Base.Map.{lookup, insert, delete, delete_where}
use sveltego.Auth.Identity.{
  Time, User, Account, Session, Verification, Error, not_found, conflict, session_expired,
  nil_dereference,
}
use sveltego.Base.{
  ◌>>=◌, Result, ok, err, not, Option, none, some, List, [], ◌∷◌, ltb, if◌then◌else◌, is_some, Str,
  str_eq,
}

pub record Store : Type 0 where
  pub users : List (Str × User)
  pub users_by_email : List (Str × Str)
  pub sessions : List (Str × Session)
  pub accounts : List (Str × Account)
  pub verifications : List (Str × Verification)

-- `New`
abbrev pub new : Store
new = record { users = []; users_by_email = []; sessions = []; accounts = []; verifications = [] }

abbrev pub found {ℓ} : {A : Type ℓ} → Option A → Result Error A
found none = err not_found
found (some a) = ok a

unfoldable pub create_user : Store → User → Result Error Store
create_user s u =
    if is_some (lookup u.email s.users_by_email)
    then err conflict
    else ok (record s {
      users = insert u.id u s.users;
      users_by_email = insert u.email u.id s.users_by_email;
    })

unfoldable pub user_by_id : Store → Str → Result Error User
user_by_id s id = found (lookup id s.users)

-- The index is read without a test on the user that it names.
unfoldable pub user_by_email : Store → Str → Result Error User
user_by_email s email = elim (lookup email s.users_by_email) [
  | none ↦ err not_found
  | some id ↦ elim (lookup id s.users) [ none ↦ err nil_dereference | some u ↦ ok u ]
]

-- The index after an update from `existing` to `u`.
unfoldable pub reindex : User → User → List (Str × Str) → List (Str × Str)
reindex existing u m =
    if not (str_eq existing.email u.email) then insert u.email u.id (delete existing.email m) else m

unfoldable pub update_user : Store → User → Result Error Store
unfolding reindex
update_user s u = do
  existing ← found (lookup u.id s.users)
  ok (record s {
    users = insert u.id u s.users;
    users_by_email = reindex existing u s.users_by_email;
  })

unfoldable pub delete_user : Store → Str → Result Error Store
delete_user s id = do
  u ← found (lookup id s.users)
  ok (record {
    users = delete id s.users;
    users_by_email = delete u.email s.users_by_email;
    sessions = delete_where (λ e. str_eq e.user_id id) s.sessions;
    accounts = delete_where (λ a. str_eq a.user_id id) s.accounts;
    verifications = delete_where (λ v. str_eq v.user_id id) s.verifications;
  })

unfoldable pub create_session : Store → Session → Store
create_session s e = record s { sessions = insert e.token e s.sessions }

-- `now.After(ExpiresAt)`
unfoldable pub session_by_token : Store → Time → Str → Result Error Session
session_by_token s now token = do
  e ← found (lookup token s.sessions)
  if ltb e.expires_at now then err session_expired else ok e

unfoldable pub refresh_session : Store → Time → Str → Time → Result Error Store
refresh_session s now token expiry = do
  e ← found (lookup token s.sessions)
  ok (record s {
    sessions = insert token (record e { expires_at = expiry; updated_at = now }) s.sessions;
  })

unfoldable pub revoke_session : Store → Str → Store
revoke_session s token = record s { sessions = delete token s.sessions }

unfoldable pub revoke_all_sessions : Store → Str → Store
revoke_all_sessions s user = record s {
  sessions = delete_where (λ e. str_eq e.user_id user) s.sessions;
}

unfoldable pub create_account : Store → Account → Store
create_account s a = record s { accounts = insert a.id a s.accounts }

unfoldable pub link_account : Store → Account → Store
unfolding create_account
link_account s a = create_account s a

-- The range loop; Go leaves the order of a map open.
unfoldable pub accounts_in : Str → List (Str × Account) → List Account
accounts_in user [] = []
accounts_in user ((_, a) ∷ m) =
    if str_eq a.user_id user then a ∷ accounts_in user m else accounts_in user m

unfoldable pub accounts_by_user : Store → Str → List Account
unfolding accounts_in
accounts_by_user s user = accounts_in user s.accounts

unfoldable pub unlink_account : Store → Str → Result Error Store
unlink_account s id =
    if not (is_some (lookup id s.accounts))
    then err not_found
    else ok (record s { accounts = delete id s.accounts })

unfoldable pub create_verification : Store → Verification → Store
create_verification s v = record s { verifications = insert v.token v s.verifications }

unfoldable pub verification_by_code : Store → Str → Result Error Verification
verification_by_code s code = found (lookup code s.verifications)

unfoldable pub consume_verification : Store → Str → Result Error Store
consume_verification s code =
    if not (is_some (lookup code s.verifications))
    then err not_found
    else ok (record s { verifications = delete code s.verifications })
