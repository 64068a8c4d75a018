-- ===== src/Fallback/Cache/Calls.antt =====
-- fallback/cache.go: what one call of Get or Put does to the list in the order of use.
use sveltego.Base.Map.{lookup, delete}
use sveltego.Fallback.Cache.{
  Entry, Elem, Cache, find_elem, remove_elem, move_to_front, is_expired, get, stamped, evict, put,
  push_front,
}
use sveltego.Fallback.Cache.Elements.{find-set_entry}
use sveltego.Fallback.Cache.Linked.{IsLinked, IsWellFormed, unlink, refront, link}
use sveltego.Fallback.Cache.Refines.{
  view, entry_of, recent_get, recent_put, entry_of-view, without-view, named, absent_entry,
  view-take,
}
use sveltego.Fallback.Cache.Evict.{evict-Evicted}
use sveltego.Base.{
  ℕ, suc, ◌-◌, ◌≤◌, ◌≡◌, refl, sym, ap, ◌∙◌, subst, inl, inr, Option, none, some, List, [], ◌∷◌,
  arith, ◌==◌, Bool-cases, Option-cases, length, length-take, Str,
}

pub record GetRefines (c : Cache) (now : ℕ) (key : Str) (d : Cache) (answer : Option Entry)
    : Type 0 where
  pub well_formed : IsWellFormed d
  pub capacity : d.capacity ≡ c.capacity
  pub ttl : d.ttl ≡ c.ttl
  pub refines : recent_get c.ttl now key (view c.order) ≡ (view d.order, answer)
  pub bounded : length d.order ≤ length c.order

pub length-remove_elem :
    (i : ℕ) (es : List Elem) (e : Elem)
    → find_elem i es ≡ some e
    → suc (length (remove_elem i es)) ≡ length es
unfolding find_elem remove_elem
length-remove_elem i [] e h = cc
length-remove_elem i (d ∷ es) e h = elim (Bool-cases (d.number == i)) [
  | inl hit ↦ rw hit refl
  | inr miss ↦ rw miss (ap suc (length-remove_elem i es e (rw miss at h)))
]

pub get-Refines :
    (c : Cache) (now : ℕ) (key : Str)
    → IsWellFormed c
    → GetRefines c now key (get c now key).0 (get c now key).1
unfolding get recent_get move_to_front
get-Refines c now key w = elim (Option-cases (lookup key c.items)) [
  | inl gone ↦
      let is : get c now key ≡ (c, none) = rw (get, gone) refl in
      subst (λ q. GetRefines c now key q.0 q.1) (sym is)
        (record {
          well_formed = w;
          capacity = refl;
          ttl = refl;
          refines = rw (recent_get, absent_entry c w key gone) refl;
          bounded = omega arith;
        })
  | inr (i, held) ↦
      let (e, found, same) = w.keyed key i held in
      let n = named c w key i held in
      let entry : entry_of key (view c.order) ≡ some e.entry =
        entry_of-view key i c.order n ∙ rw found refl in
      let size = length-remove_elem i c.order e found in
      let removed = without-view key i c.order n in
      elim (Bool-cases (is_expired c now e.entry)) [
        | inl old ↦
            let d : Cache = record c {
              order = remove_elem i c.order;
              items = delete key c.items;
            } in
            let is : get c now key ≡ (d, none) = rw (get, held, found, old) refl in
            subst (λ q. GetRefines c now key q.0 q.1) (sym is)
              (record {
                well_formed =
                    subst (λ k. IsLinked (delete k c.items) (remove_elem i c.order) c.next) same
                      (unlink w i e found);
                capacity = refl;
                ttl = refl;
                refines = rw (recent_get, entry, old, removed) refl;
                bounded = omega (arith, size);
              })
        | inr live ↦
            let d : Cache = record c { order = e ∷ remove_elem i c.order } in
            let moved : move_to_front i c.order ≡ e ∷ remove_elem i c.order =
              rw (move_to_front, found) refl in
            let is : get c now key ≡ (d, some e.entry) = rw (get, held, found, live, moved) refl in
            subst (λ q. GetRefines c now key q.0 q.1) (sym is)
              (record {
                well_formed = refront w i e e found refl refl;
                capacity = refl;
                ttl = refl;
                refines =
                    rw (recent_get, entry, live, removed)
                      (ap (λ k. ((k, e.entry) ∷ view (remove_elem i c.order), some e.entry))
                        (sym same));
                bounded = omega (arith, size);
              })
      ]
]

pub record PutRefines (c : Cache) (now : ℕ) (key : Str) (v : Entry) (d : Cache) : Type 0 where
  pub well_formed : IsWellFormed d
  pub capacity : d.capacity ≡ c.capacity
  pub ttl : d.ttl ≡ c.ttl
  pub refines : recent_put c.capacity c.ttl now key v (view c.order) ≡ view d.order
  pub bounded : length c.order ≤ c.capacity → length d.order ≤ c.capacity

pub put-Refines :
    (c : Cache) (now : ℕ) (key : Str) (v : Entry)
    → IsWellFormed c
    → 1 ≤ c.capacity
    → PutRefines c now key v (put c now key v)
unfolding put recent_put push_front
put-Refines c now key v w room = elim (Option-cases (lookup key c.items)) [
  | inl gone ↦
      let x = evict-Evicted (length c.order) c w (omega arith) room in
      let d = evict (length c.order) c in
      let is : put c now key v ≡ push_front d key (stamped c now v) = rw (put, gone) refl in
      subst (PutRefines c now key v) (sym is) (record {
        well_formed = link x.well_formed key (stamped c now v) (x.shrunk key gone);
        capacity = x.capacity;
        ttl = x.ttl;
        refines =
            rw (recent_put, absent_entry c w key gone)
              (ap (λ r. (key, stamped c now v) ∷ r)
                (sym (ap view x.order ∙ view-take (c.capacity - 1) c.order)));
        bounded = λ h.
            let size : length d.order ≤ c.capacity - 1 =
              subst (λ es. length es ≤ c.capacity - 1) (sym x.order)
                (rw (length-take (c.capacity - 1) c.order) (omega arith)) in
            omega arith;
      })
  | inr (i, held) ↦
      let (e, found, same) = w.keyed key i held in
      let n = named c w key i held in
      let entry : entry_of key (view c.order) ≡ some e.entry =
        entry_of-view key i c.order n ∙ rw found refl in
      let size = length-remove_elem i c.order e found in
      let e' : Elem = record e { entry = stamped c now v } in
      let d : Cache = record c { order = e' ∷ remove_elem i c.order } in
      let moved = find-set_entry i (stamped c now v) c.order e found in
      let is : put c now key v ≡ d = rw (put, held, moved) refl in
      subst (PutRefines c now key v) (sym is) (record {
        well_formed = refront w i e e' found refl refl;
        capacity = refl;
        ttl = refl;
        refines =
            rw (recent_put, entry, without-view key i c.order n)
              (ap (λ k. (k, stamped c now v) ∷ view (remove_elem i c.order)) (sym same));
        bounded = λ h. omega (arith, size);
      })
]
