-- ===== src/Auth/Memory/Duplicates.antt =====
-- What `CreateUser` and `UpdateUser` do when a caller repeats an ID or takes another user's email:
-- neither of them tests for it.
use sveltego.Base.Map.{lookup, insert, delete, lookup-insert, lookup-delete}
use sveltego.Auth.Identity.{User, nil_dereference}
use sveltego.Auth.Memory.{
  Store, create_user, user_by_id, user_by_email, reindex, update_user, delete_user,
}
use sveltego.Base.{
  ok, err, ok-injective, ◌≡◌, refl, sym, ap, ◌∙◌, ◌≢◌, inl, inr, none, some, arith, if◌then◌else◌,
  Option-cases, Str, str_eq, str_eq_iff, str_eq_refl, str_eq_ne,
}

-- What a successful creation and a successful deletion leave, read key by key.
create_user-reads :
    (s t : Store) (u : User)
    → create_user s u ≡ ok t
    → ((j : Str) → lookup j t.users ≡ (if str_eq u.id j then some u else lookup j s.users))
      × ((email : Str)
          → lookup email t.users_by_email
            ≡ (if str_eq u.email email then some u.id else lookup email s.users_by_email))
unfolding create_user
create_user-reads s t u e = elim (Option-cases (lookup u.email s.users_by_email)) [
  | inr (id, taken) ↦ cc (rw taken at e)
  | inl free ↦
      let same = ok-injective (rw free at e) in
      (
        λ j. ap (λ (x : Store). lookup j x.users) (sym same) ∙ lookup-insert u.id j u s.users,
        λ email.
            ap (λ (x : Store). lookup email x.users_by_email) (sym same)
            ∙ lookup-insert u.email email u.id s.users_by_email,
      )
]

delete_user-reads :
    (s t : Store) (id : Str)
    → delete_user s id ≡ ok t
    → (u : User) × (lookup id s.users ≡ some u)
      × ((j : Str) → lookup j t.users ≡ (if str_eq id j then none else lookup j s.users))
      × ((email : Str)
          → lookup email t.users_by_email
            ≡ (if str_eq u.email email then none else lookup email s.users_by_email))
unfolding delete_user
delete_user-reads s t id e = elim (Option-cases (lookup id s.users)) [
  | inl missing ↦ cc (rw missing at e)
  | inr (u, held) ↦
      let same = ok-injective (rw held at e) in
      (
        u,
        held,
        λ j. ap (λ (x : Store). lookup j x.users) (sym same) ∙ lookup-delete id j s.users,
        λ email.
            ap (λ (x : Store). lookup email x.users_by_email) (sym same)
            ∙ lookup-delete u.email email s.users_by_email,
      )
]

-- Two users that are created with one ID and two emails leave an index entry that dangles once that
-- user is deleted, and `UserByEmail` follows it: the store ends in a nil dereference.
pub create_user-dangling :
    (s s' t t' : Store) (u v : User)
    → create_user s u ≡ ok s'
    → create_user s' v ≡ ok t
    → v.id ≡ u.id
    → u.email ≢ v.email
    → delete_user t u.id ≡ ok t'
    → user_by_email t' u.email ≡ err nil_dereference
unfolding user_by_email
create_user-dangling s s' t t' u v first second same differ gone =
    let a = create_user-reads s s' u first in
    let b = create_user-reads s' t v second in
    let (w, held, users, emails) = delete_user-reads t t' u.id gone in
    let w_is_v : w ≡ v = ground (arith, b.0 u.id, str_eq_iff v.id u.id) in
    let dangling : lookup u.email t'.users_by_email ≡ some u.id =
      emails u.email
      ∙ rw (ap (λ (x : User). x.email) w_is_v, str_eq_ne v.email u.email (λ e. differ (sym e)))
          (b.1 u.email
            ∙ rw (str_eq_ne v.email u.email (λ e. differ (sym e)))
                (a.1 u.email ∙ rw (str_eq_refl u.email) refl)) in
    let removed : lookup u.id t'.users ≡ none = users u.id ∙ rw (str_eq_refl u.id) refl in
    rw (user_by_email, dangling, removed) refl

-- An update that gives a user the email of another one succeeds, and from then on that email finds
-- the updated user: the other user is still stored but no longer found by its email.
pub update_user-hijack :
    (s : Store) (old u v : User)
    → user_by_id s u.id ≡ ok old
    → user_by_id s v.id ≡ ok v
    → v.id ≢ u.id
    → u.email ≡ v.email
    → u.email ≢ old.email
    → (t : Store) × (update_user s u ≡ ok t)
      × (user_by_id t v.id ≡ ok v)
      × (user_by_email t v.email ≡ ok u)
unfolding update_user user_by_id user_by_email reindex
update_user-hijack s old u v held other apart same moved =
    let h : lookup u.id s.users ≡ some old = ground arith in
    let h' : lookup v.id s.users ≡ some v = ground arith in
    (
      record s {
        users = insert u.id u s.users;
        users_by_email = insert u.email u.id (delete old.email s.users_by_email);
      },
      rw (h, str_eq_ne old.email u.email (λ e. moved (sym e))) refl,
      rw
          (
            user_by_id,
            lookup-insert u.id v.id u s.users,
            str_eq_ne u.id v.id (λ e. apart (sym e)),
            h',
          )
          refl,
      rw
          (
            user_by_email,
            lookup-insert u.email v.email u.id (delete old.email s.users_by_email),
            (str_eq_iff u.email v.email).1 same,
            lookup-insert u.id u.id u s.users,
            str_eq_refl u.id,
          )
          refl,
    )
