-- ===== src/Fallback/Cache/Linked.antt =====
-- The map and the list of the cache name the same elements.
use sveltego.Base.Map.{lookup, insert, delete, lookup-insert, lookup-delete}
use sveltego.Fallback.Cache.{Entry, Elem, Cache, find_elem, remove_elem}
use sveltego.Fallback.Cache.Elements.{
  Distinct, find_elem-number, find-remove_elem, remove_elem-Distinct,
}
use mathlib.Core.Option.{some-injective}
use sveltego.Base.{
  ==_iff, ℕ, suc, ◌<◌, ◌≡◌, refl, sym, ap, ◌∙◌, subst, ◌≢◌, inl, inr, false, none, some, List, [],
  ◌∷◌, arith, ◌==◌, Bool-cases, Option-cases, Str, str_eq, str_eq_iff, str_eq_refl, str_eq_ne,
}

-- Each key of the map points to an element of the list with that key, and each element is the one
-- that its key points to; the numbers differ and are below the next one.
pub record IsLinked (items : List (Str × ℕ)) (order : List Elem) (next : ℕ) : Type 0 where
  pub distinct : Distinct order
  pub keyed :
      (key : Str) (i : ℕ)
      → lookup key items ≡ some i
      → (e : Elem) × (find_elem i order ≡ some e) × (e.key ≡ key)
  pub listed : (i : ℕ) (e : Elem) → find_elem i order ≡ some e → lookup e.key items ≡ some i
  pub below : (i : ℕ) (e : Elem) → find_elem i order ≡ some e → i < next

abbrev pub IsWellFormed : Cache → Type 0
IsWellFormed c = IsLinked c.items c.order c.next

pub new-IsLinked : IsLinked [] [] 0
unfolding lookup find_elem
new-IsLinked = record {
  distinct = tt;
  keyed = λ key i h. cc;
  listed = λ i e h. cc;
  below = λ i e h. cc;
}

module _ {items : List (Str × ℕ)} {order : List Elem} {next : ℕ}
    (w : IsLinked items order next) where
  -- The element leaves the map and the list.
  pub unlink :
      (i : ℕ) (e : Elem)
      → find_elem i order ≡ some e
      → IsLinked (delete e.key items) (remove_elem i order) next
  unlink i e found = record {
    distinct = remove_elem-Distinct i order w.distinct;
    keyed = λ key j h.
        let held : lookup key items ≡ some j = ground (arith, lookup-delete e.key key items) in
        let other : e.key ≢ key =
          ground (arith, lookup-delete e.key key items, str_eq_iff e.key key) in
        let (d, there, same) = w.keyed key j held in
        (
          d,
          find-remove_elem i j order w.distinct
              ∙ rw (apart i j d e found there (λ k. other (k ∙ same))) there,
          same,
        );
    listed = λ j d h.
        let there : find_elem j order ≡ some d =
          ground (arith, find-remove_elem i j order w.distinct) in
        let ne : (i == j) ≡ false = ground (arith, find-remove_elem i j order w.distinct) in
        let held = w.listed j d there in
        let held_e = w.listed i e found in
        lookup-delete e.key d.key items
        ∙ rw (str_eq_ne e.key d.key (λ k. same_number j d k held_e held ne)) held;
    below = λ j d h. w.below j d (ground (arith, find-remove_elem i j order w.distinct));
  }
    where
      apart :
          (i j : ℕ) (d e : Elem)
          → find_elem i order ≡ some e
          → find_elem j order ≡ some d
          → e.key ≢ d.key
          → (i == j) ≡ false
      apart i j d e f g ne = elim (Bool-cases (i == j)) [
        | inr no_match ↦ no_match
        | inl hit ↦
            let g' : find_elem i order ≡ some d =
              subst (λ k. find_elem k order ≡ some d) (sym ((==_iff i j).0 hit)) g in
            let same : e ≡ d = some-injective e d (sym f ∙ g') in absurd (ne (ap (λ x. x.key) same))
      ]

      same_number :
          (j : ℕ) (d : Elem)
          → e.key ≡ d.key
          → lookup e.key items ≡ some i
          → lookup d.key items ≡ some j
          → (i == j) ≡ false
          → ⊥
      same_number j d k held_e held ne =
          let both : some i ≡ some j = sym held_e ∙ ap (λ x. lookup x items) k ∙ held in
          let same : i ≡ j = some-injective i j both in let hit = (==_iff i j).1 same in cc

  -- An element of the list, with a new entry, at the front.
  pub refront :
      (i : ℕ) (e e' : Elem)
      → find_elem i order ≡ some e
      → e'.number ≡ e.number
      → e'.key ≡ e.key
      → IsLinked items (e' ∷ remove_elem i order) next
  unfolding find_elem
  refront i e e' found number key =
      let own : e'.number ≡ i = number ∙ find_elem-number i order e found in
      record {
        distinct = (
          find-remove_elem i e'.number order w.distinct
              ∙ rw ((==_iff i e'.number).1 (sym own)) refl,
          remove_elem-Distinct i order w.distinct,
        );
        keyed = λ k j h.
            let (d, there, same) = w.keyed k j h in
            elim (Bool-cases (e'.number == j)) [
              | inl hit ↦
                  let there' : find_elem i order ≡ some d =
                    subst (λ n. find_elem n order ≡ some d) (sym ((==_iff e'.number j).0 hit) ∙ own)
                      there in
                  let one : e ≡ d = some-injective e d (sym found ∙ there') in
                  (e', rw hit refl, key ∙ ap (λ x. x.key) one ∙ same)
              | inr miss ↦ (
                d,
                rw miss (
                    find-remove_elem i j order w.distinct
                    ∙ rw (subst (λ n. (n == j) ≡ false) own miss) there),
                same,
              )
            ];
        listed = λ j d h. elim (Bool-cases (e'.number == j)) [
          | inl hit ↦
              let one : e' ≡ d = some-injective e' d (rw hit at h) in
              subst (λ x. lookup x.key items ≡ some j) one
                (ap (λ k. lookup k items) key
                  ∙ w.listed i e found
                  ∙ ap some (sym own ∙ (==_iff e'.number j).0 hit))
          | inr miss ↦ w.listed j d (kept j d miss own (rw miss at h))
        ];
        below = λ j d h. elim (Bool-cases (e'.number == j)) [
          | inl hit ↦
              subst (λ n. n < next) (sym own ∙ (==_iff e'.number j).0 hit) (w.below i e found)
          | inr miss ↦ w.below j d (kept j d miss own (rw miss at h))
        ];
      }
    where
      kept :
          (j : ℕ) (d : Elem)
          → (e'.number == j) ≡ false
          → e'.number ≡ i
          → find_elem j (remove_elem i order) ≡ some d
          → find_elem j order ≡ some d
      kept j d miss own h = ground (arith, find-remove_elem i j order w.distinct)

  -- A new element for a key that the map does not have.
  pub link :
      (key : Str) (v : Entry)
      → lookup key items ≡ none
      → IsLinked
          (insert key next items)
          (record { number = next; key = key; entry = v } ∷ order)
          (suc next)
  unfolding find_elem
  link key v absent =
      let e : Elem = record { number = next; key = key; entry = v } in
      record {
        distinct = (unused, w.distinct);
        keyed = λ k j h. elim (Bool-cases (str_eq key k)) [
          | inl same ↦
              let j_is : next ≡ j = ground (arith, lookup-insert key k next items) in
              (e, rw ((==_iff next j).1 j_is) refl, (str_eq_iff key k).0 same)
          | inr other ↦
              let held : lookup k items ≡ some j = ground (arith, lookup-insert key k next items) in
              let (d, there, here) = w.keyed k j held in
              let under = w.below j d there in
              let miss : (next == j) ≡ false = ground arith in (d, rw miss there, here)
        ];
        listed = λ j d h. elim (Bool-cases (next == j)) [
          | inl hit ↦
              let one : e ≡ d = some-injective e d (rw hit at h) in
              subst (λ x. lookup x.key (insert key next items) ≡ some j) one
                (lookup-insert key key next items
                  ∙ rw (str_eq_refl key) (ap some ((==_iff next j).0 hit)))
          | inr miss ↦
              let held = w.listed j d (rw miss at h) in
              lookup-insert key d.key next items
              ∙ rw (str_eq_ne key d.key (λ k. clash d j k held)) held
        ];
        below = λ j d h. elim (Bool-cases (next == j)) [
          | inl hit ↦ ground arith
          | inr miss ↦ let under = w.below j d (rw miss at h) in omega arith
        ];
      }
    where
      unused : find_elem next order ≡ none
      unused = elim (Option-cases (find_elem next order)) [
        | inl gone ↦ gone
        | inr (e, found) ↦ let under = w.below next e found in absurd (omega arith)
      ]

      clash : (d : Elem) (j : ℕ) → key ≡ d.key → lookup d.key items ≡ some j → ⊥
      clash d j k held =
          let held' : lookup key items ≡ some j = ap (λ x. lookup x items) k ∙ held in cc
