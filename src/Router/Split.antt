-- ===== src/Router/Split.antt =====
-- runtime/router/match.go: `splitAndDecodeInto` with its stack buffer, and Go's
-- `url.PathUnescape`, which it calls for each segment.
use native.Mathlib.Numerals.{add-one}
use sveltego.Base.{
  ℕ, ◌+◌, ◌-◌, ◌*◌, ◌≤◌, ◌≡◌, refl, sym, ap, ◌∙◌, inl, inr, Bool, true, false, ◌&&◌, ◌||◌, Option,
  none, some, List, [], ◌∷◌, ◌++◌, append_assoc, append-nil, arith, ltb, leb, if◌then◌else◌, ◌==◌,
  Bool-cases, Option-cases, length, set, take, length-set, take_all, take-suc-set, Str,
}

abbrev between : ℕ → ℕ → ℕ → Bool
between lo hi c = leb lo c && leb c hi

unfoldable pub is_hex : ℕ → Bool
is_hex c = between b'0' b'9' c || (between b'a' b'f' c || between b'A' b'F' c)

unfoldable pub unhex : ℕ → ℕ
unhex c =
    if between b'0' b'9' c
    then c - b'0'
    else if between b'a' b'f' c
    then c - b'a' + 10
    else if between b'A' b'F' c
    then c - b'A' + 10
    else 0

abbrev pub cons_to : ℕ → Option Str → Option Str
cons_to c none = none
cons_to c (some s) = some (c ∷ s)

-- `url.PathUnescape`: a `%` wants two hexadecimal digits behind it
unfoldable pub path_unescape : Str → Option Str
unfolding is_hex unhex
path_unescape [] = some []
path_unescape (c ∷ []) = if c == b'%' then none else some (c ∷ [])
path_unescape (c ∷ a ∷ []) =
    let plain = cons_to c (path_unescape (a ∷ [])) in if c == b'%' then none else plain
path_unescape (c ∷ a ∷ b ∷ s) =
    let plain = cons_to c (path_unescape (a ∷ b ∷ s)) in
    let decoded = cons_to (unhex a * 16 + unhex b) (path_unescape s) in
    let escaped = if is_hex a && is_hex b then decoded else none in
    if c == b'%' then escaped else plain

-- The segments found so far: the caller's array, their count, and the slice that takes over when
-- the array is full (nil is `none`).
pub record Parts : Type 0 where
  pub buf : List Str
  pub count : ℕ
  pub heap : Option (List Str)

abbrev pub buffer_size : ℕ
buffer_size = 8

unfoldable pub store : Parts → Str → Parts
store ps s = elim ps.heap [
  | some h ↦ record ps { heap = some (h ++ s ∷ []); count = ps.count + 1 }
  | none ↦
      if ltb ps.count buffer_size
      then record ps { buf = set ps.buf ps.count s; count = ps.count + 1 }
      else record ps { heap = some (ps.buf ++ s ∷ []); count = ps.count + 1 }
]

unfoldable pub stored : Parts → List Str
stored ps = elim ps.heap [ some h ↦ h | none ↦ take ps.count ps.buf ]

-- The loop; `cur` is `p[start:i]`.
unfoldable pub split_from : Parts → Str → Str → Option (List Str)
unfolding store stored
split_from ps cur [] = elim (path_unescape cur) [
  | none ↦ none
  | some s ↦ some (stored (store ps s))
]
split_from ps cur (c ∷ p) =
    let closed : Option (List Str) = elim (path_unescape cur) [
      | none ↦ none
      | some s ↦ split_from (store ps s) [] p
    ] in
    let longer = split_from ps (cur ++ c ∷ []) p in if c == b'/' then closed else longer

abbrev pub no_parts : Parts
no_parts = record { buf = [] ∷ [] ∷ [] ∷ [] ∷ [] ∷ [] ∷ [] ∷ [] ∷ []; count = 0; heap = none }

unfoldable pub split_relative : Str → Option (List Str)
unfolding split_from
split_relative [] = some []
split_relative (c ∷ p) = split_from no_parts [] (c ∷ p)

unfoldable pub split_and_decode : Str → Option (List Str)
split_and_decode [] = some []
split_and_decode (c ∷ []) = if c == b'/' then some [] else split_relative (c ∷ [])
split_and_decode (c ∷ d ∷ p) =
    if c == b'/' then split_relative (d ∷ p) else split_relative (c ∷ d ∷ p)

-- The same with no buffer: cut at each slash, then decode each piece.
abbrev pub add_first : ℕ → List Str → List Str
add_first c [] = (c ∷ []) ∷ []
add_first c (s ∷ rest) = (c ∷ s) ∷ rest

abbrev pub pieces : Str → List Str
pieces [] = [] ∷ []
pieces (c ∷ p) = if c == b'/' then [] ∷ pieces p else add_first c (pieces p)

abbrev pub decode_all : List Str → Option (List Str)
decode_all [] = some []
decode_all (s ∷ rest) = elim (path_unescape s) [
  | none ↦ none
  | some d ↦ elim (decode_all rest) [ none ↦ none | some ds ↦ some (d ∷ ds) ]
]

-- Without the leading slash; nothing is left of "" and "/".
abbrev pub relative : Str → Str
relative [] = []
relative (c ∷ p) = if c == b'/' then p else c ∷ p

abbrev pub pieces_or_none : Str → List Str
pieces_or_none [] = []
pieces_or_none (c ∷ p) = pieces (c ∷ p)

abbrev prefix_to : List Str → Option (List Str) → Option (List Str)
prefix_to xs none = none
prefix_to xs (some ys) = some (xs ++ ys)

abbrev glue : Str → List Str → List Str
glue cur [] = cur ∷ []
glue cur (s ∷ rest) = (cur ++ s) ∷ rest

record IsGood (ps : Parts) : Type 0 where
  size : length ps.buf ≡ buffer_size
  fits : ps.heap ≡ none → ps.count ≤ buffer_size

store-IsGood : (ps : Parts) (s : Str) → IsGood ps → IsGood (store ps s)
unfolding store
store-IsGood ps s g = ground (arith, length-set ps.buf ps.count s)

stored-store : (ps : Parts) (s : Str) → IsGood ps → stored (store ps s) ≡ stored ps ++ s ∷ []
unfolding store stored
stored-store ps s g =
    ground
      (arith, g.size, add-one ps.count, take-suc-set ps.count ps.buf s, take_all ps.count ps.buf)

glue-nil : (p : Str) → glue [] (pieces p) ≡ pieces p
glue-nil [] = refl
glue-nil (c ∷ p) = go (c == b'/') (pieces p)
  where
    go :
        (b : Bool) (rest : List Str)
        → glue [] (if b then [] ∷ rest else add_first c rest)
          ≡ (if b then [] ∷ rest else add_first c rest)
    go true rest = refl
    go false [] = refl
    go false (s ∷ rest) = refl

glue-add_first :
    (cur : Str) (c : ℕ) (rest : List Str) → glue cur (add_first c rest) ≡ glue (cur ++ c ∷ []) rest
glue-add_first cur c [] = refl
glue-add_first cur c (s ∷ rest) = ap (λ t. t ∷ rest) (sym (append_assoc cur (c ∷ []) s))

prefix_to-stored :
    (ps : Parts) (s : Str) (o : Option (List Str))
    → IsGood ps
    → prefix_to (stored (store ps s)) o
      ≡ prefix_to (stored ps) (elim o [ none ↦ none | some ds ↦ some (s ∷ ds) ])
prefix_to-stored ps s none g = refl
prefix_to-stored ps s (some ds) g =
    ap some (ap (λ l. l ++ ds) (stored-store ps s g) ∙ append_assoc (stored ps) (s ∷ []) ds)

split_from-decode_all :
    (p : Str) (ps : Parts) (cur : Str)
    → IsGood ps
    → split_from ps cur p ≡ prefix_to (stored ps) (decode_all (glue cur (pieces p)))
unfolding split_from
split_from-decode_all [] ps cur g = elim (Option-cases (path_unescape cur)) [
  | inl bad ↦ rw append-nil (ground arith)
  | inr (s, good) ↦ rw append-nil (ground (arith, stored-store ps s g))
]
split_from-decode_all (c ∷ p) ps cur g = elim (Bool-cases (c == b'/')) [
  | inr more ↦ rw more (
      split_from-decode_all p ps (cur ++ c ∷ []) g
      ∙ ap (λ l. prefix_to (stored ps) (decode_all l)) (sym (glue-add_first cur c (pieces p))))
  | inl slash ↦ elim (Option-cases (path_unescape cur)) [
    | inl bad ↦ rw (slash, append-nil) (ground arith)
    | inr (s, good) ↦
        rw (slash, append-nil, good)
          (rw (good, decode_all)
            (split_from-decode_all p (store ps s) [] (store-IsGood ps s g)
              ∙ ap (λ l. prefix_to (stored (store ps s)) (decode_all l)) (glue-nil p)
              ∙ prefix_to-stored ps s (decode_all (pieces p)) g))
  ]
]

prefix_to-nil : (o : Option (List Str)) → prefix_to [] o ≡ o
prefix_to-nil none = refl
prefix_to-nil (some ys) = refl

split_relative-decode_all : (p : Str) → split_relative p ≡ decode_all (pieces_or_none p)
unfolding split_relative
split_relative-decode_all [] = refl
split_relative-decode_all (c ∷ p) =
    split_from-decode_all (c ∷ p) no_parts [] (record { size = refl; fits = λ _. omega arith })
    ∙ ap (λ l. prefix_to [] (decode_all l)) (glue-nil (c ∷ p))
    ∙ prefix_to-nil (decode_all (pieces (c ∷ p)))

-- The stack buffer is unobservable: the result is that of cutting the path at each slash, after a
-- leading one, and decoding each piece; nil for "" and "/"; and a failure if one piece does not
-- decode.
pub split_and_decode-decode_all :
    (p : Str) → split_and_decode p ≡ decode_all (pieces_or_none (relative p))
unfolding split_and_decode
split_and_decode-decode_all [] = refl
split_and_decode-decode_all (c ∷ []) = elim (Bool-cases (c == b'/')) [
  | inl slash ↦ rw slash
  | inr more ↦ rw more (split_relative-decode_all (c ∷ []))
]
split_and_decode-decode_all (c ∷ d ∷ p) = elim (Bool-cases (c == b'/')) [
  | inl slash ↦ rw slash (split_relative-decode_all (d ∷ p))
  | inr more ↦ rw more (split_relative-decode_all (c ∷ d ∷ p))
]
