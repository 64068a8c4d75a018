-- ===== src/Fallback/Cache/Evict.antt =====
-- The loop that makes room in the cache.
use sveltego.Base.Map.{lookup, delete, lookup-delete}
use sveltego.Fallback.Cache.{Elem, Cache, find_elem, remove_elem, evict_back, evict}
use sveltego.Fallback.Cache.Elements.{init, back-last, length-back, init-take}
use sveltego.Fallback.Cache.Linked.{IsWellFormed, unlink}
use sveltego.Base.{
  take-take_of_le, nil_of_length, ℕ, zero, suc, ◌-◌, ◌≤◌, ◌≡◌, refl, sym, ap, ◌∙◌, subst, inl, inr,
  none, some, [], arith, leb, Bool-cases, length, take, length-take, take_all, Str,
}

-- What the loop of `Put` leaves.
pub record Evicted (c d : Cache) : Type 0 where
  pub well_formed : IsWellFormed d
  pub capacity : d.capacity ≡ c.capacity
  pub ttl : d.ttl ≡ c.ttl
  pub order : d.order ≡ take (c.capacity - 1) c.order
  pub shrunk : (key : Str) → lookup key c.items ≡ none → lookup key d.items ≡ none

record Shrunk (c d : Cache) : Type 0 where
  well_formed : IsWellFormed d
  capacity : d.capacity ≡ c.capacity
  ttl : d.ttl ≡ c.ttl
  order : d.order ≡ init c.order
  shrunk : (key : Str) → lookup key c.items ≡ none → lookup key d.items ≡ none

evict_back-Shrunk : (c : Cache) → IsWellFormed c → 1 ≤ length c.order → Shrunk c (evict_back c)
unfolding evict_back
evict_back-Shrunk c w some_elem =
    let (e, last) = length-back c.order some_elem in
    let (found, rest) = back-last c.order e w.distinct last in
    subst (Shrunk c) (sym (rw (evict_back, last) refl)) (shrinks e found rest)
  where
    shrinks :
        (e : Elem)
        → find_elem e.number c.order ≡ some e
        → remove_elem e.number c.order ≡ init c.order
        → Shrunk c (record c { order = remove_elem e.number c.order; items = delete e.key c.items })
    shrinks e found rest = record {
      well_formed = unlink w e.number e found;
      capacity = refl;
      ttl = refl;
      order = rest;
      shrunk = λ key gone. lookup-delete e.key key c.items ∙ ground (arith, gone);
    }

pub evict-Evicted :
    (fuel : ℕ) (c : Cache)
    → IsWellFormed c
    → length c.order ≤ fuel
    → 1 ≤ c.capacity
    → Evicted c (evict fuel c)
unfolding evict
evict-Evicted zero c w enough room = record {
  well_formed = w;
  capacity = refl;
  ttl = refl;
  order =
      let empty : c.order ≡ [] = nil_of_length c.order (omega arith) in
      sym (take_all (c.capacity - 1) c.order (omega arith));
  shrunk = λ key gone. gone;
}
evict-Evicted (suc fuel) c w enough room = elim (Bool-cases (leb c.capacity (length c.order))) [
  | inr small ↦ rw small (record {
    well_formed = w;
    capacity = refl;
    ttl = refl;
    order = sym (take_all (c.capacity - 1) c.order (ground arith));
    shrunk = λ key gone. gone;
  })
  | inl full ↦ rw full (
      let one = evict_back-Shrunk c w (ground arith) in
      let size : length (evict_back c).order ≡ length c.order - 1 =
        ap length (one.order ∙ init-take c.order)
        ∙ length-take (length c.order - 1) c.order
        ∙ (omega arith) in
      let rest =
        evict-Evicted fuel (evict_back c) one.well_formed (omega arith)
          (subst (λ n. 1 ≤ n) (sym one.capacity) room) in
      record {
        well_formed = rest.well_formed;
        capacity = rest.capacity ∙ one.capacity;
        ttl = rest.ttl ∙ one.ttl;
        order =
            rest.order
            ∙ ap (λ n. take (n - 1) (evict_back c).order) one.capacity
            ∙ ap (take (c.capacity - 1)) (one.order ∙ init-take c.order)
            ∙ take-take_of_le (c.capacity - 1) (length c.order - 1) c.order (ground arith);
        shrunk = λ key gone. rest.shrunk key (one.shrunk key gone);
      })
]
