-- ===== src/Fallback/Cache.antt =====
-- fallback/cache.go. A pointer to a list element is the element's number, which is new for each
-- element; a method runs under the cache's lock. `now` is an argument, and a TTL below zero acts as
-- zero does.
pub mod Elements
pub mod Linked
pub mod Evict
pub mod Refines
pub mod Runs
pub mod Calls
mod Tests
use sveltego.Base.Map.{lookup, insert, delete}
use sveltego.Base.{
  ℕ, zero, suc, ◌+◌, Bool, ◌&&◌, Option, none, some, List, [], ◌∷◌, ltb, leb, if◌then◌else◌, ◌==◌,
  length, Str,
}

pub record Entry : Type 0 where
  pub body : Str
  pub head : Str
  pub expires : ℕ

pub record Elem : Type 0 where
  pub number : ℕ
  pub key : Str
  pub entry : Entry

-- `order` is the list from its front, the most recent element; `next` numbers the next element.
pub record Cache : Type 0 where
  pub capacity : ℕ
  pub ttl : ℕ
  pub items : List (Str × ℕ)
  pub order : List Elem
  pub next : ℕ

abbrev pub new_lru_cache : ℕ → ℕ → Cache
new_lru_cache capacity ttl = record {
  capacity = if leb capacity 0 then 1 else capacity;
  ttl = ttl;
  items = [];
  order = [];
  next = 0;
}

unfoldable pub find_elem : ℕ → List Elem → Option Elem
find_elem i [] = none
find_elem i (e ∷ es) = if e.number == i then some e else find_elem i es

-- `order.Remove`
unfoldable pub remove_elem : ℕ → List Elem → List Elem
remove_elem i [] = []
remove_elem i (e ∷ es) = if e.number == i then es else e ∷ remove_elem i es

-- `order.Back`
unfoldable pub back : List Elem → Option Elem
back [] = none
back (e ∷ []) = some e
back (e ∷ f ∷ es) = back (f ∷ es)

-- `order.MoveToFront`
unfoldable pub move_to_front : ℕ → List Elem → List Elem
unfolding find_elem remove_elem
move_to_front i es = elim (find_elem i es) [ none ↦ es | some e ↦ e ∷ remove_elem i es ]

-- `el.Value.(*listValue).entry = entry`
unfoldable pub set_entry : ℕ → Entry → List Elem → List Elem
set_entry i v [] = []
set_entry i v (e ∷ es) = if e.number == i then record e { entry = v } ∷ es else e ∷ set_entry i v es

abbrev pub is_expired : Cache → ℕ → Entry → Bool
is_expired c now v = ltb 0 c.ttl && ltb v.expires now

-- A pointer in `items` is never to an element that the list does not have.
unfoldable pub get : Cache → ℕ → Str → Cache × Option Entry
unfolding find_elem remove_elem move_to_front
get c now key = elim (lookup key c.items) [
  | none ↦ (c, none)
  | some i ↦ elim (find_elem i c.order) [
    | none ↦ (c, none)
    | some e ↦
        if is_expired c now e.entry
        then (record c { order = remove_elem i c.order; items = delete key c.items }, none)
        else (record c { order = move_to_front i c.order }, some e.entry)
  ]
]

abbrev pub stamped : Cache → ℕ → Entry → Entry
stamped c now v = if ltb 0 c.ttl then record v { expires = now + c.ttl } else v

-- One round of the loop in `Put`.
unfoldable pub evict_back : Cache → Cache
unfolding back remove_elem
evict_back c = elim (back c.order) [
  | none ↦ c
  | some e ↦ record c { order = remove_elem e.number c.order; items = delete e.key c.items }
]

-- The loop, on fuel: each round takes one element out.
unfoldable pub evict : ℕ → Cache → Cache
unfolding evict_back
evict zero c = c
evict (suc fuel) c =
    let rest = evict fuel (evict_back c) in if leb c.capacity (length c.order) then rest else c

unfoldable pub push_front : Cache → Str → Entry → Cache
push_front c key v = record c {
  order = record { number = c.next; key = key; entry = v } ∷ c.order;
  items = insert key c.next c.items;
  next = suc c.next;
}

unfoldable pub put : Cache → ℕ → Str → Entry → Cache
unfolding move_to_front set_entry evict push_front
put c now key v = elim (lookup key c.items) [
  | some i ↦ record c { order = move_to_front i (set_entry i (stamped c now v) c.order) }
  | none ↦ push_front (evict (length c.order) c) key (stamped c now v)
]
