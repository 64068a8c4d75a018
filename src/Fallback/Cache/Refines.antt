-- ===== src/Fallback/Cache/Refines.antt =====
-- The cache against its abstract specification: the entries in the order of their last use.
use sveltego.Base.Map.{lookup}
use sveltego.Fallback.Cache.{Entry, Elem, Cache, find_elem, remove_elem}
use sveltego.Fallback.Cache.Elements.{find-own}
use sveltego.Fallback.Cache.Linked.{IsWellFormed}
use mathlib.Core.Option.{some-injective}
use sveltego.Base.{
  ℕ, zero, suc, ◌+◌, ◌-◌, ◌≡◌, refl, sym, ap, ◌∙◌, subst, ◌↔◌, ◌&&◌, Option, none, some, List, [],
  ◌∷◌, arith, ltb, if◌then◌else◌, take, All, Str, str_eq, str_eq_iff, str_eq_ne,
}

-- Keys and entries, the most recent first.
abbrev pub Recent : Type 0
Recent = List (Str × Entry)

abbrev pub view : List Elem → Recent
view [] = []
view (e ∷ es) = (e.key, e.entry) ∷ view es

unfoldable pub entry_of : Str → Recent → Option Entry
entry_of key [] = none
entry_of key ((k, v) ∷ r) = if str_eq k key then some v else entry_of key r

unfoldable pub without : Str → Recent → Recent
without key [] = []
without key ((k, v) ∷ r) = if str_eq k key then r else (k, v) ∷ without key r

-- A lookup uses the entry, or drops it if it has expired.
unfoldable pub recent_get : ℕ → ℕ → Str → Recent → Recent × Option Entry
recent_get ttl now key r = elim (entry_of key r) [
  | none ↦ (r, none)
  | some v ↦
      if ltb 0 ttl && ltb v.expires now
      then (without key r, none)
      else ((key, v) ∷ without key r, some v)
]

abbrev pub restamped : ℕ → ℕ → Entry → Entry
restamped ttl now v = if ltb 0 ttl then record v { expires = now + ttl } else v

-- A new entry displaces the least recent ones, so that the capacity is kept.
unfoldable pub recent_put : ℕ → ℕ → ℕ → Str → Entry → Recent → Recent
recent_put capacity ttl now key v r = elim (entry_of key r) [
  | none ↦ (key, restamped ttl now v) ∷ take (capacity - 1) r
  | some _ ↦ (key, restamped ttl now v) ∷ without key r
]

-- The elements of the list with the key are those with the number.
unfoldable pub Named : Str → ℕ → List Elem → Type 0
Named key i es = All (λ e. (e.key ≡ key) ↔ (e.number ≡ i)) es

pub entry_of-view :
    (key : Str) (i : ℕ) (es : List Elem)
    → Named key i es
    → entry_of key (view es) ≡ elim (find_elem i es) [ none ↦ none | some e ↦ some e.entry ]
unfolding Named entry_of find_elem
entry_of-view key i [] n = refl
entry_of-view key i (e ∷ es) (h, n) = ground (arith, str_eq_iff e.key key, entry_of-view key i es n)

pub without-view :
    (key : Str) (i : ℕ) (es : List Elem)
    → Named key i es
    → without key (view es) ≡ view (remove_elem i es)
unfolding Named without remove_elem
without-view key i [] n = refl
without-view key i (e ∷ es) (h, n) = ground (arith, str_eq_iff e.key key, without-view key i es n)

module _ (c : Cache) (w : IsWellFormed c) where
  pub named : (key : Str) (i : ℕ) → lookup key c.items ≡ some i → Named key i c.order
  unfolding Named
  named key i held = all c.order (find-own c.order w.distinct)
    where
      all :
          (es : List Elem)
          → All (λ e. find_elem e.number c.order ≡ some e) es
          → All (λ e. (e.key ≡ key) ↔ (e.number ≡ i)) es
      all [] h = tt
      all (e ∷ es) (own, h) =
          let listed = w.listed e.number e own in
          let (d, there, same) = w.keyed key i held in
          (
            (
              (λ k. some-injective e.number i (sym listed ∙ ap (λ x. lookup x c.items) k ∙ held)),
              (λ n.
                  let there' : find_elem e.number c.order ≡ some d =
                    subst (λ x. find_elem x c.order ≡ some d) (sym n) there in
                  ap (λ x. x.key) (some-injective e d (sym own ∙ there')) ∙ same),
            ),
            all es h,
          )

  pub absent_entry : (key : Str) → lookup key c.items ≡ none → entry_of key (view c.order) ≡ none
  unfolding entry_of
  absent_entry key gone = all c.order (find-own c.order w.distinct)
    where
      all :
          (es : List Elem)
          → All (λ e. find_elem e.number c.order ≡ some e) es
          → entry_of key (view es) ≡ none
      all [] h = refl
      all (e ∷ es) (own, h) =
          let listed = w.listed e.number e own in
          rw (str_eq_ne e.key key (λ k. clash e k listed)) (all es h)
        where
          clash : (e : Elem) → e.key ≡ key → lookup e.key c.items ≡ some e.number → ⊥
          clash e k held =
              let held' : lookup key c.items ≡ some e.number =
                ap (λ x. lookup x c.items) (sym k) ∙ held in
              cc

pub view-take : (n : ℕ) (es : List Elem) → view (take n es) ≡ take n (view es)
view-take zero es = refl
view-take (suc n) [] = refl
view-take (suc n) (e ∷ es) = ap (◌∷◌ (e.key, e.entry)) (view-take n es)
