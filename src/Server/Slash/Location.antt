-- ===== src/Server/Slash/Location.antt =====
-- How the location of a redirect is read: the path is what comes before the first `?`, with its
-- percent-encoding undone, and the query is what comes behind.
use sveltego.Router.Split.{cons_to}
unfoldable use sveltego.Router.Split.{path_unescape, is_hex, unhex}
use sveltego.Server.Slash.{keep_unless_slash, Url, is_blank, is_plain, upper_hex, escape_byte}
unfoldable use sveltego.Server.Slash.{
  trim_slashes, escape_path, query_part, request_uri, canonical_redirect,
}
unfoldable use sveltego.Base.{str_eq}
use sveltego.Base.{
  ℕ, ◌+◌, ◌*◌, ◌/◌, ◌%◌, ◌<◌, ◌≡◌, refl, sym, ap, ◌∙◌, inl, inr, true, false, ◌||◌, not, Option,
  none, some, [], ◌∷◌, ◌++◌, append_assoc, append-nil, arith, if◌then◌else◌, ◌==◌, Bool-cases, All,
  Str, str, str_eq_iff,
}

unfoldable pub before_query : Str → Str
before_query [] = []
before_query (b ∷ s) = let rest = before_query s in if b == b'?' then [] else b ∷ rest

unfoldable pub after_query : Str → Option Str
after_query [] = none
after_query (b ∷ s) = let rest = after_query s in if b == b'?' then some s else rest

abbrev pub AllBytes : Str → Type 0
AllBytes s = All (λ b. b < 256) s

-- The query of a URL, where it has one.
abbrev pub query_of : Url → Option Str
query_of u = if u.force_query || not (is_blank u.raw_query) then some u.raw_query else none

path_unescape-plain :
    (b : ℕ) (s : Str) → (b == b'%') ≡ false → path_unescape (b ∷ s) ≡ cons_to b (path_unescape s)
unfolding path_unescape
path_unescape-plain b [] h = rw h refl
path_unescape-plain b (c ∷ []) h = rw h refl
path_unescape-plain b (c ∷ d ∷ s) h = rw h refl

hex_digit : (d : ℕ) → d < 16 → (is_hex (upper_hex d) ≡ true) × (unhex (upper_hex d) ≡ d)
unfolding is_hex unhex
hex_digit d h = ground arith

hex_not_mark : (d : ℕ) → d < 16 → (upper_hex d == b'?') ≡ false
hex_not_mark d h = ground arith

path_unescape-hex :
    (b : ℕ) (s : Str)
    → b < 256
    → path_unescape (b'%' ∷ upper_hex (b / 16) ∷ upper_hex (b % 16) ∷ s)
      ≡ cons_to b (path_unescape s)
unfolding path_unescape
path_unescape-hex b s h =
    let (hi_hex, hi) = hex_digit (b / 16) (omega arith) in
    let (lo_hex, lo) = hex_digit (b % 16) (omega arith) in
    let whole : b / 16 * 16 + b % 16 ≡ b = omega arith in rw (hi_hex, lo_hex, hi, lo, whole) refl

path_unescape-escape_byte :
    (b : ℕ) (s : Str) → b < 256 → path_unescape (escape_byte b ++ s) ≡ cons_to b (path_unescape s)
path_unescape-escape_byte b s h = elim (Bool-cases (is_plain b)) [
  | inl plain ↦ rw plain (path_unescape-plain b s (ground (arith, plain)))
  | inr coded ↦ rw coded (path_unescape-hex b s h)
]

pub path_unescape-escape_path : (p : Str) → AllBytes p → path_unescape (escape_path p) ≡ some p
unfolding escape_path path_unescape
path_unescape-escape_path [] a = refl
path_unescape-escape_path (b ∷ p) (h, a) =
    path_unescape-escape_byte b (escape_path p) h ∙ ap (cons_to b) (path_unescape-escape_path p a)

-- A `?` of the path is encoded.
query-escape_byte :
    (b : ℕ) (s : Str)
    → b < 256
    → (before_query (escape_byte b ++ s) ≡ escape_byte b ++ before_query s)
      × (after_query (escape_byte b ++ s) ≡ after_query s)
unfolding before_query after_query
query-escape_byte b s h = elim (Bool-cases (is_plain b)) [
  | inl plain ↦
      let other : (b == b'?') ≡ false = ground (arith, plain) in rw (plain, other) (refl, refl)
  | inr coded ↦
      let hi = hex_not_mark (b / 16) (omega arith) in
      let lo = hex_not_mark (b % 16) (omega arith) in rw (coded, hi, lo) (refl, refl)
]

query-escape_path :
    (p s : Str)
    → AllBytes p
    → (before_query (escape_path p ++ s) ≡ escape_path p ++ before_query s)
      × (after_query (escape_path p ++ s) ≡ after_query s)
unfolding escape_path
query-escape_path [] s a = (refl, refl)
query-escape_path (b ∷ p) s (h, a) =
    let one = query-escape_byte b (escape_path p ++ s) h in
    let more = query-escape_path p s a in
    rw (append_assoc (escape_byte b) (escape_path p) s) (
      one.0
          ∙ ap (λ t. escape_byte b ++ t) more.0
          ∙ sym (append_assoc (escape_byte b) (escape_path p) (before_query s)),
      one.1 ∙ more.1,
    )

query_part-read :
    (u : Url) → (before_query (query_part u) ≡ []) × (after_query (query_part u) ≡ query_of u)
unfolding before_query after_query query_part
query_part-read u = elim (Bool-cases (u.force_query || not (is_blank u.raw_query))) [
  | inl some_query ↦ rw some_query (refl, refl)
  | inr no_query ↦ rw no_query (refl, refl)
]

-- `EscapedPath` of a path, which leaves a lone `*` as it is.
abbrev encoded : Str → Str
encoded p = if str_eq p (str "*") then str "*" else escape_path p

encoded-read :
    (p s : Str)
    → AllBytes p
    → (path_unescape (encoded p) ≡ some p)
      × (before_query (encoded p ++ s) ≡ encoded p ++ before_query s)
      × (after_query (encoded p ++ s) ≡ after_query s)
unfolding path_unescape before_query after_query
encoded-read p s a = elim (Bool-cases (str_eq p (str "*"))) [
  | inl star ↦ let is = (str_eq_iff p (str "*")).0 star in rw star (ap some (sym is), refl, refl)
  | inr other ↦
      let read = query-escape_path p s a in rw other (path_unescape-escape_path p a, read.0, read.1)
]

-- `RequestURI` of a path that is not empty.
encoded_some : (b : ℕ) (p : Str) → is_blank (encoded (b ∷ p)) ≡ false
unfolding escape_path
encoded_some b p = ground arith

canonical_redirect-encoded :
    (u : Url) (b : ℕ) (p : Str) → canonical_redirect u (b ∷ p) ≡ encoded (b ∷ p) ++ query_part u
unfolding canonical_redirect request_uri query_part
canonical_redirect-encoded u b p =
    ap (λ k. (if k then str "/" else encoded (b ∷ p)) ++ query_part u) (encoded_some b p)

blank-append : (s t : Str) → is_blank s ≡ false → is_blank (s ++ t) ≡ false
blank-append [] t h = cc
blank-append (b ∷ s) t h = refl

-- A reader of the location of a redirect to a path that is not empty gets that path and the query
-- of the URL.
pub canonical_redirect-read :
    (u : Url) (p : Str)
    → AllBytes p
    → is_blank p ≡ false
    → let location = canonical_redirect u p in
      (is_blank location ≡ false)
      × (path_unescape (before_query location) ≡ some p)
      × (after_query location ≡ query_of u)
canonical_redirect-read u [] a h = cc
canonical_redirect-read u (b ∷ p) a h =
    let read = encoded-read (b ∷ p) (query_part u) a in
    let query = query_part-read u in
    let path : before_query (encoded (b ∷ p) ++ query_part u) ≡ encoded (b ∷ p) =
      read.1 ∙ ap (λ t. encoded (b ∷ p) ++ t) query.0 ∙ append-nil (encoded (b ∷ p)) in
    rw (canonical_redirect-encoded u b p) (
      blank-append (encoded (b ∷ p)) (query_part u) (encoded_some b p),
      ap path_unescape path ∙ read.0,
      read.2 ∙ query.1,
    )

pub All-append : (s t : Str) → AllBytes s → AllBytes t → AllBytes (s ++ t)
All-append [] t a c = c
All-append (b ∷ s) t (h, a) c = (h, All-append s t a c)

All-keep_unless_slash : (b : ℕ) (s : Str) → b < 256 → AllBytes s → AllBytes (keep_unless_slash b s)
All-keep_unless_slash b [] h a = elim (Bool-cases (b == 47)) [
  | inl slash ↦ rw slash tt
  | inr other ↦ rw other (h, tt)
]
All-keep_unless_slash b (c ∷ s) h a = (h, a)

pub All-trim_slashes : (s : Str) → AllBytes s → AllBytes (trim_slashes s)
unfolding trim_slashes
All-trim_slashes [] a = tt
All-trim_slashes (b ∷ s) (h, a) = All-keep_unless_slash b (trim_slashes s) h (All-trim_slashes s a)
