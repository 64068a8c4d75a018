-- ===== src/Auth/Memory/Lookup.antt =====
-- What looking a user up by email finds in a reachable state.
use sveltego.Base.Map.{lookup}
use sveltego.Auth.Identity.{User, nil_dereference}
use sveltego.Auth.Memory.{Store, found, user_by_id, user_by_email}
use sveltego.Auth.Memory.Index.{IsIndexed}
use sveltego.Auth.Memory.Reach.{Reach, Reach-IsWellFormed}
use sveltego.Base.{
  ok, err, ok-injective, ◌≡◌, sym, ap, ◌∙◌, subst, ◌≢◌, ◌↔◌, inl, inr, some, Option-cases, Str,
}

-- In every state that is reached while callers give new users fresh IDs and take no email of
-- another user, `UserByEmail` answers exactly as a search over the users would: it returns a user
-- if and only if that user is stored under its ID and has the email. It never follows a dangling
-- ID.
pub user_by_email_iff :
    (s : Store) (email : Str) (u : User)
    → Reach s
    → ((user_by_email s email ≡ ok u) ↔ ((user_by_id s u.id ≡ ok u) × (u.email ≡ email)))
      × (user_by_email s email ≢ err nil_dereference)
unfolding user_by_email user_by_id
user_by_email_iff s email u r =
    let x = (Reach-IsWellFormed r).indexed in ((to x, λ h. from x h), never x)
  where
    to :
        IsIndexed s.users s.users_by_email
        → user_by_email s email ≡ ok u
        → (user_by_id s u.id ≡ ok u) × (u.email ≡ email)
    to x h = elim (Option-cases (lookup email s.users_by_email)) [
      | inl missing ↦ cc (rw (user_by_email, user_by_id, missing) at h)
      | inr (id, e) ↦
          let (v, here, same) = x.owned email id e in
          let v_is_u : v ≡ u = ok-injective (rw (user_by_email, e, here) at h) in
          let own : v.id ≡ id = x.own_id id v here in
          (
            subst (λ w. user_by_id s w.id ≡ ok w) v_is_u
                (ap found (ap (λ k. lookup k s.users) own ∙ here)),
            subst (λ w. w.email ≡ email) v_is_u same,
          )
    ]

    from :
        IsIndexed s.users s.users_by_email
        → (user_by_id s u.id ≡ ok u) × (u.email ≡ email)
        → user_by_email s email ≡ ok u
    from x (h, same) = elim (Option-cases (lookup u.id s.users)) [
      | inl missing ↦ cc (rw (user_by_email, user_by_id, missing) at h)
      | inr (v, here) ↦
          let v_is_u : v ≡ u = ok-injective (rw (user_by_id, here) at h) in
          let listed : lookup email s.users_by_email ≡ some u.id =
            ap (λ k. lookup k s.users_by_email) (sym (ap (λ w. w.email) v_is_u ∙ same))
            ∙ x.listed u.id v here in
          rw (user_by_email, listed, here) (ap ok v_is_u)
    ]

    never : IsIndexed s.users s.users_by_email → user_by_email s email ≢ err nil_dereference
    never x h = elim (Option-cases (lookup email s.users_by_email)) [
      | inl missing ↦ cc (rw (user_by_email, user_by_id, missing) at h)
      | inr (id, e) ↦
          let (v, here, same) = x.owned email id e in cc (rw (user_by_email, e, here) at h)
    ]
