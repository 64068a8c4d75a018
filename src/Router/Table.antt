-- ===== src/Router/Table.antt =====
-- runtime/router/tree.go: `NewTree`, `WithMatchers`, `Routes` and the route tag.
pub mod Build
use Prim.Native.Nat.{bit_xor}
use sveltego.Base.Map.{lookup}
use sveltego.Router.Segment.{Segment, Route, is_empty}
use sveltego.Router.Tree.{Node, leaf, root_label, Error, missing_matcher, insert_all}
use sveltego.Router.Spec.{propagate_spec, sort_all}
use sveltego.Base.{
  ◌>>=◌, Result, ok, err, ℕ, ◌+◌, ◌-◌, ◌*◌, ◌/◌, ◌%◌, ◌^◌, Bool, not, Option, none, some, List, [],
  ◌∷◌, ◌++◌, map, ltb, if◌then◌else◌, is_some, Str,
}

-- `fnv.New32a`, over the bytes of the pattern; the sum is a `uint32`
unfoldable pub fnv32a : ℕ → Str → ℕ
fnv32a h [] = h
fnv32a h (c ∷ s) = fnv32a (bit_xor h c * 16777619 % 2 ^ 32) s

unfoldable pub hex_digit : ℕ → ℕ
hex_digit d = if ltb d 10 then b'0' + d else b'a' + (d - 10)

-- `hex.EncodeToString` of one byte
unfoldable pub hex_byte : ℕ → Str
unfolding hex_digit
hex_byte b = hex_digit (b / 16) ∷ hex_digit (b % 16) ∷ []

unfoldable pub route_id : Str → Str
unfolding fnv32a hex_byte
route_id pattern =
    let h = fnv32a 2166136261 pattern in
    hex_byte (h / 2 ^ 24 % 256)
    ++ (hex_byte (h / 2 ^ 16 % 256) ++ (hex_byte (h / 2 ^ 8 % 256) ++ hex_byte (h % 256)))

abbrev pub Matchers : Type 0
Matchers = List (Str × (Str → Bool))

-- `matchers` is `none` while the map is nil.
pub record Tree : Type 0 where
  pub root : Node
  pub routes : List Route
  pub matchers : Option Matchers

abbrev pub tag : Route → Route
tag r = record r { id = route_id r.pattern }

unfoldable pub new_tree : List Route → Result Error Tree
new_tree routes =
    let tagged = map tag routes in
    do
      root ← insert_all tagged (leaf root_label)
      ok (record { root = sort_all (propagate_spec root); routes = tagged; matchers = none })

abbrev missing_in : Matchers → Str → Bool
missing_in m name = not (is_some (lookup name m))

-- the inner loop: the first segment that names a missing matcher
unfoldable pub check_segments : Matchers → List Segment → Option Str
check_segments m [] = none
check_segments m (s ∷ segs) =
    if is_empty s.matcher
    then check_segments m segs
    else if missing_in m s.matcher
    then some s.matcher
    else check_segments m segs

unfoldable pub check_routes : Matchers → List Route → Option Error
unfolding check_segments
check_routes m [] = none
check_routes m (r ∷ rs) = elim (check_segments m r.segments) [
  | some name ↦ some (missing_matcher r.pattern name)
  | none ↦ check_routes m rs
]

unfoldable pub with_matchers : Tree → Matchers → Result Error Tree
unfolding check_routes
with_matchers t m = elim (check_routes m t.routes) [
  | some e ↦ err e
  | none ↦ ok (record t { matchers = some m })
]
