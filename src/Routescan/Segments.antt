-- ===== src/Routescan/Segments.antt =====
-- internal/routescan/segments.go: directory names into segments. A name is its bytes. The runes that
-- `range` reads from it, and unicode.IsLetter and unicode.IsDigit, are parameters.
mod Accepted
mod Inverse
mod Cuts
mod Stable
mod Collide
mod Tests
use mathlib.Core.Option.{map as map_option}
use sveltego.Router.Segment.{Segment, SegmentKind, static, param, optional, rest, is_empty}
use sveltego.Base.{
  Result, ok, err, ◌>>=◌, ℕ, ◌-◌, Bool, true, false, ◌&&◌, ◌||◌, not, Option, none, some, List, [],
  ◌∷◌, ◌++◌, if◌then◌else◌, ◌==◌, length, take, drop, Str, str, map,
}
unfoldable use sveltego.Base.{str_eq, has_suffix}

-- `ErrGroup`, and the errors that are made where they are returned; a wrapped error is the error.
pub data SegmentError : Type 0 where
  err_group empty_segment unbalanced_group empty_group invalid_group invalid_static : SegmentError
  unbalanced_optional unbalanced_brackets nested_brackets : SegmentError
  empty_parameter invalid_parameter keyword_parameter invalid_matcher : SegmentError

abbrev pub has : ℕ → Str → Bool
has b [] = false
has b (c ∷ s) = c == b || has b s

-- strings.ContainsAny
abbrev pub contains_any : Str → Str → Bool
contains_any s [] = false
contains_any s (b ∷ bs) = has b s || contains_any s bs

-- strings.CutPrefix, of which HasPrefix is the flag.
unfoldable pub cut_prefix : Str → Str → Option Str
cut_prefix s [] = some s
cut_prefix [] (b ∷ p) = none
cut_prefix (c ∷ s) (b ∷ p) = let cut = cut_prefix s p in if c == b then cut else none

-- strings.Cut at one byte.
unfoldable pub cut : ℕ → Str → Option (Str × Str)
cut b [] = none
cut b (c ∷ s) =
    let more = map_option (λ parts. (c ∷ parts.0, parts.1)) (cut b s) in
    if c == b then some ([], s) else more

-- `s[n : len(s)-n]`
abbrev pub trim_ends : ℕ → Str → Str
trim_ends n s = take (length s - n - n) (drop n s)

abbrev pub go_keywords : List Str
go_keywords = map str (
    "break" ∷ "case" ∷ "chan" ∷ "const" ∷ "continue" ∷ "default" ∷ "defer" ∷ "else" ∷ "fallthrough"
    ∷ "for" ∷ "func" ∷ "go" ∷ "goto" ∷ "if" ∷ "import" ∷ "interface" ∷ "map" ∷ "package" ∷ "range"
    ∷ "return" ∷ "select" ∷ "struct" ∷ "switch" ∷ "type" ∷ "var" ∷ [])

unfoldable pub is_one_of : List Str → Str → Bool
unfolding str_eq
is_one_of [] s = false
is_one_of (w ∷ ws) s = str_eq w s || is_one_of ws s

unfoldable pub is_go_keyword : Str → Bool
unfolding is_one_of
is_go_keyword = is_one_of go_keywords

module _ (runes : Str → List ℕ) (is_letter is_digit : ℕ → Bool) where
  -- The rest of the loop of `isGoIdent`, and its first round.
  unfoldable pub ident_tail : List ℕ → Bool
  ident_tail [] = true
  ident_tail (r ∷ rs) = (is_letter r || is_digit r || r == b'_') && ident_tail rs

  unfoldable pub ident_runes : List ℕ → Bool
  unfolding ident_tail
  ident_runes [] = true
  ident_runes (r ∷ rs) = (is_letter r || r == b'_') && ident_tail rs

  unfoldable pub is_go_ident : Str → Bool
  unfolding ident_runes
  is_go_ident s = if is_empty s then false else ident_runes (runes s)

  -- The name and the matcher, before they are checked.
  unfoldable pub cut_matcher : Str → Str × Str
  unfolding cut
  cut_matcher s = elim (cut b'=' s) [ none ↦ (s, []) | some parts ↦ parts ]

  unfoldable pub checked : Str → Str → Result SegmentError (Str × Str)
  unfolding is_go_ident is_go_keyword
  checked name matcher =
      if not (is_go_ident name)
      then err invalid_parameter
      else if is_go_keyword name
      then err keyword_parameter
      else if not (is_empty matcher) && not (is_go_ident matcher)
      then err invalid_matcher
      else ok (name, matcher)

  unfoldable pub split_name_matcher : Str → Result SegmentError (Str × Str)
  unfolding cut_matcher checked
  split_name_matcher s =
      if is_empty s
      then err empty_parameter
      else (let parts = cut_matcher s in checked parts.0 parts.1)

  unfoldable pub bracket_segment : SegmentKind → Str → Result SegmentError Segment
  unfolding split_name_matcher
  bracket_segment kind s = do
    parts ← split_name_matcher s
    ok (record { kind = kind; name = parts.0; value = []; matcher = parts.1 })

  unfoldable pub parse_bracketed : Str → Result SegmentError Segment
  unfolding bracket_segment has_suffix cut_prefix
  parse_bracketed name = elim (cut_prefix name (str "[[")) [
    | some _ ↦
        if not (has_suffix name (str "]]"))
        then err unbalanced_optional
        else if contains_any (trim_ends 2 name) (str "[]")
        then err nested_brackets
        else bracket_segment optional (trim_ends 2 name)
    | none ↦
        if not (has_suffix name (str "]"))
        then err unbalanced_brackets
        else if contains_any (trim_ends 1 name) (str "[]")
        then err nested_brackets
        else elim (cut_prefix (trim_ends 1 name) (str "...")) [
          | some tail ↦ bracket_segment rest tail
          | none ↦ bracket_segment param (trim_ends 1 name)
        ]
  ]

  unfoldable pub parse_group : Str → Result SegmentError Segment
  unfolding is_go_ident has_suffix
  parse_group name =
      if not (has_suffix name (str ")"))
      then err unbalanced_group
      else if is_empty (trim_ends 1 name)
      then err empty_group
      else if not (is_go_ident (trim_ends 1 name))
      then err invalid_group
      else err err_group

  unfoldable pub parse_segment : Str → Result SegmentError Segment
  unfolding parse_group parse_bracketed
  parse_segment [] = err empty_segment
  parse_segment (c ∷ s) =
      if c == b'('
      then parse_group (c ∷ s)
      else if c == b'['
      then parse_bracketed (c ∷ s)
      else if contains_any (c ∷ s) (str "[]()")
      then err invalid_static
      else ok (record { kind = static; name = []; value = c ∷ s; matcher = [] })

-- `encodePackageName` for what is not a group, and for a group.
unfoldable pub encode_segment : SegmentKind → Segment → Str
encode_segment static s = s.value
encode_segment param s = b'_' ∷ (s.name ++ (b'_' ∷ []))
encode_segment optional s = b'_' ∷ b'_' ∷ (s.name ++ (b'_' ∷ b'_' ∷ []))
encode_segment rest s = b'_' ∷ b'_' ∷ b'_' ∷ s.name

unfoldable pub encode_package_name : Str → Segment → Bool → Str
unfolding encode_segment
encode_package_name raw s is_group =
    if is_group then str "_g_" ++ trim_ends 1 raw else encode_segment s.kind s

-- internal/routescan/scan.go, `patternShape`.
abbrev pub matcher_tag : Str → Str
matcher_tag m = if is_empty m then [] else b'=' ∷ m

unfoldable pub shape_of : SegmentKind → Segment → Str
shape_of static s = s.value
shape_of param s = str "[*]" ++ matcher_tag s.matcher
shape_of optional s = str "[[*]]" ++ matcher_tag s.matcher
shape_of rest s = str "[...*]" ++ matcher_tag s.matcher

unfoldable pub shapes : List Segment → Str
unfolding shape_of
shapes [] = []
shapes (s ∷ ss) = b'/' ∷ (shape_of s.kind s ++ shapes ss)

unfoldable pub pattern_shape : List Segment → Str
unfolding shapes
pattern_shape ss = let b = shapes ss in if is_empty b then str "/" else b
