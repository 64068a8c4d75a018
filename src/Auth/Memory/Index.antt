-- ===== src/Auth/Memory/Index.antt =====
-- The index of the users by email: when it stays true, and what it means for the readers.
use sveltego.Base.Map.{lookup, insert, delete, lookup-insert, lookup-delete}
use sveltego.Auth.Identity.{User}
use sveltego.Auth.Memory.{reindex}
use sveltego.Base.{
  ◌≡◌, ◌≢◌, inl, inr, false, none, some, List, arith, Bool-cases, Str, str_eq, str_eq_iff,
}

-- The index holds exactly the emails of the users, each under its owner's ID, and the users stand
-- under their own IDs.
pub record IsIndexed (users : List (Str × User)) (index : List (Str × Str)) : Type 0 where
  pub own_id : (id : Str) (u : User) → lookup id users ≡ some u → u.id ≡ id
  pub listed : (id : Str) (u : User) → lookup id users ≡ some u → lookup u.email index ≡ some id
  pub owned :
      (email id : Str)
      → lookup email index ≡ some id
      → (u : User) × (lookup id users ≡ some u) × (u.email ≡ email)

pub IsIndexed-create :
    (users : List (Str × User)) (index : List (Str × Str)) (u : User)
    → IsIndexed users index
    → lookup u.email index ≡ none
    → lookup u.id users ≡ none
    → IsIndexed (insert u.id u users) (insert u.email u.id index)
IsIndexed-create users index u x free fresh = record {
  own_id =
      λ id v h. ground (arith, lookup-insert u.id id u users, str_eq_iff u.id id, x.own_id id v);
  listed = λ id v h. ground (
    arith,
    lookup-insert u.id id u users,
    lookup-insert u.email v.email u.id index,
    str_eq_iff u.id id,
    str_eq_iff u.email v.email,
    x.listed id v,
  );
  owned = λ email id h. elim (Bool-cases (str_eq u.email email)) [
    | inl same ↦ (
      u,
      ground (
        arith,
        lookup-insert u.email email u.id index,
        lookup-insert u.id id u users,
        str_eq_iff u.id id,
      ),
      (str_eq_iff u.email email).0 same,
    )
    | inr other ↦
        let old : lookup email index ≡ some id =
          ground (arith, lookup-insert u.email email u.id index) in
        let (v, held, e) = x.owned email id old in
        (v, ground (arith, lookup-insert u.id id u users, str_eq_iff u.id id), e)
  ];
}

pub IsIndexed-update :
    (users : List (Str × User)) (index : List (Str × Str)) (old u : User)
    → IsIndexed users index
    → lookup u.id users ≡ some old
    → (u.email ≢ old.email → lookup u.email index ≡ none)
    → IsIndexed (insert u.id u users) (reindex old u index)
unfolding reindex
IsIndexed-update users index old u x held free = elim (Bool-cases (str_eq old.email u.email)) [
  | inl same ↦ rw same (
      let e = (str_eq_iff old.email u.email).0 same in
      record {
        own_id = λ id v h.
            ground (arith, lookup-insert u.id id u users, str_eq_iff u.id id, x.own_id id v);
        listed = λ id v h. ground (
          arith,
          lookup-insert u.id id u users,
          str_eq_iff u.id id,
          x.listed id v,
          x.listed u.id old,
        );
        owned = λ email id h. kept_owner email id h e;
      })
  | inr moved ↦ rw moved (record {
    own_id =
        λ id v h. ground (arith, lookup-insert u.id id u users, str_eq_iff u.id id, x.own_id id v);
    listed = λ id v h. ground (
      arith,
      lookup-insert u.id id u users,
      lookup-insert u.email v.email u.id (delete old.email index),
      lookup-delete old.email v.email index,
      str_eq_iff u.id id,
      str_eq_iff u.email v.email,
      str_eq_iff old.email v.email,
      str_eq_iff old.email u.email,
      x.listed id v,
      x.listed u.id old,
      free,
    );
    owned = λ email id h. moved_owner email id h moved;
  })
]
  where
    kept_owner :
        (email id : Str)
        → lookup email index ≡ some id
        → old.email ≡ u.email
        → (v : User) × (lookup id (insert u.id u users) ≡ some v) × (v.email ≡ email)
    kept_owner email id h e =
        let (v, here, same) = x.owned email id h in
        elim (Bool-cases (str_eq u.id id)) [
          | inl self ↦
              (u, ground (arith, lookup-insert u.id id u users), ground (arith, str_eq_iff u.id id))
          | inr other ↦ (v, ground (arith, lookup-insert u.id id u users), same)
        ]

    moved_owner :
        (email id : Str)
        → lookup email (insert u.email u.id (delete old.email index)) ≡ some id
        → str_eq old.email u.email ≡ false
        → (v : User) × (lookup id (insert u.id u users) ≡ some v) × (v.email ≡ email)
    moved_owner email id h moved = elim (Bool-cases (str_eq u.email email)) [
      | inl self ↦ (
        u,
        ground (
          arith,
          lookup-insert u.email email u.id (delete old.email index),
          lookup-insert u.id id u users,
          str_eq_iff u.id id,
        ),
        (str_eq_iff u.email email).0 self,
      )
      | inr other ↦
          let kept : (lookup email index ≡ some id) × (str_eq old.email email ≡ false) = ground (
            arith,
            lookup-insert u.email email u.id (delete old.email index),
            lookup-delete old.email email index,
          ) in
          let (v, here, same) = x.owned email id kept.0 in
          (
            v,
            ground (
              arith,
              lookup-insert u.id id u users,
              str_eq_iff u.id id,
              str_eq_iff old.email email,
            ),
            same,
          )
    ]

pub IsIndexed-delete :
    (users : List (Str × User)) (index : List (Str × Str)) (id : Str) (u : User)
    → IsIndexed users index
    → lookup id users ≡ some u
    → IsIndexed (delete id users) (delete u.email index)
IsIndexed-delete users index id u x held = record {
  own_id = λ j v h. ground (arith, lookup-delete id j users, x.own_id j v);
  listed = λ j v h. ground (
    arith,
    lookup-delete id j users,
    lookup-delete u.email v.email index,
    str_eq_iff id j,
    str_eq_iff u.email v.email,
    x.listed j v,
    x.listed id u,
  );
  owned = λ email j h.
      let old : lookup email index ≡ some j = ground (arith, lookup-delete u.email email index) in
      let (v, here, same) = x.owned email j old in
      (
        v,
        ground (
          arith,
          lookup-delete u.email email index,
          lookup-delete id j users,
          str_eq_iff id j,
          str_eq_iff u.email email,
        ),
        same,
      );
}
