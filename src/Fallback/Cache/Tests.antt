-- ===== src/Fallback/Cache/Tests.antt =====
-- A cache of two entries.
use sveltego.Fallback.Cache.{
  Entry, new_lru_cache, find_elem, remove_elem, back, move_to_front, set_entry, get, evict_back,
  evict, put, push_front,
}
use sveltego.Base.Map.{lookup, insert, delete}
use sveltego.Fallback.Cache.Refines.{view}
use sveltego.Fallback.Cache.Runs.{Call, get_call, put_call, run, recent_run, run-refines}
use sveltego.Base.{◌≤◌, String, ◌≡◌, refl, none, some, List, [], ◌∷◌, length, str, str_eq}

abbrev body_of : String → Entry
body_of s = record { body = str s; head = []; expires = 0 }

-- `b` is the least recent when `c` comes, and `a` has expired at 30.
abbrev calls : List Call
calls =
    put_call 1 (str "a") (body_of "A")
    ∷ put_call 2 (str "b") (body_of "B")
    ∷ get_call 3 (str "a")
    ∷ put_call 4 (str "c") (body_of "C")
    ∷ get_call 5 (str "b")
    ∷ get_call 30 (str "a")
    ∷ []

answers :
    (run (new_lru_cache 2 20) calls).1
    ≡ some (record { body = str "A"; head = []; expires = 21 }) ∷ none ∷ none ∷ []
unfolding run get put lookup insert delete str_eq find_elem remove_elem move_to_front set_entry
    evict evict_back back push_front
answers = refl

run-refines_example :
    (let c = new_lru_cache 2 20 in
      (recent_run c.capacity 20 [] calls ≡ (view (run c calls).0.order, (run c calls).1))
      × (length (run c calls).0.order ≤ c.capacity))
run-refines_example = run-refines 2 20 calls
