-- ===== src/Routescan/Segments/Tests.antt =====
-- Runs of the parser of directory names over ASCII names, whose runes are their bytes.
use sveltego.Router.Segment.{Segment, static, param, string}
use sveltego.Routescan.Segments.{
  SegmentError, err_group, keyword_parameter, nested_brackets, parse_segment, has, pattern_shape,
  encode_package_name,
}
use sveltego.Routescan.Segments.Accepted.{WellFormed}
use sveltego.Routescan.Segments.Stable.{parse_segment-string}
use sveltego.Routescan.Segments.Collide.{encode_package_name-matcher}
use sveltego.Base.{
  Result, ok, err, ℕ, ◌<◌, ◌≡◌, refl, ◌≢◌, Bool, true, false, ◌&&◌, ◌||◌, [], ◌∷◌, List, leb, Str,
  str, arith,
}

abbrev bytes : Str → List ℕ
bytes s = s

abbrev is_letter : ℕ → Bool
is_letter b = (leb b'a' b && leb b b'z') || (leb b'A' b && leb b b'Z')

abbrev is_digit : ℕ → Bool
is_digit b = leb b'0' b && leb b b'9'

abbrev parse : Str → Result SegmentError Segment
parse = parse_segment bytes is_letter is_digit

abbrev id_param : Segment
id_param = record { kind = param; name = str "id"; value = []; matcher = str "int" }

bytes_ascii : (b : ℕ) (s : Str) → b < 128 → has b s ≡ true → has b (bytes s) ≡ true
bytes_ascii b s low h = h

marks_none : (b : ℕ) → has b (str "[]()=.") ≡ true → (is_letter b || is_digit b) ≡ false
marks_none b h = ground (arith, h)

parse_test :
    (parse (str "[id=int]") ≡ ok id_param)
    × (parse (str "(app)") ≡ err err_group)
    × (parse (str "[go]") ≡ err keyword_parameter)
    × (parse (str "[[a]b]]") ≡ err nested_brackets)
    × (parse (str "about-us")
        ≡ ok (record { kind = static; name = []; value = str "about-us"; matcher = [] }))
unfolding parse_segment
parse_test = (refl, refl, refl, refl, refl)

-- A name that ends in `=` is accepted, and printed without it.
parse_empty_matcher : parse (str "[x=]") ≡ parse (str "[x]")
unfolding parse_segment
parse_empty_matcher = refl

id_read : parse (str "[id=int]") ≡ ok id_param
id_read = parse_test.0

parse_segment-string_example :
    WellFormed bytes is_letter is_digit id_param × (parse (string id_param) ≡ ok id_param)
parse_segment-string_example =
    parse_segment-string bytes is_letter is_digit bytes_ascii marks_none (str "[id=int]") id_param
      id_read

encode_package_name-matcher_example :
    (pattern_shape (id_param ∷ []) ≢ pattern_shape (record id_param { matcher = str "uuid" } ∷ []))
    × (encode_package_name (str "[id=int]") id_param false
        ≡ encode_package_name (str "[id=uuid]") (record id_param { matcher = str "uuid" }) false)
encode_package_name-matcher_example =
    encode_package_name-matcher id_param (str "uuid") (str "[id=int]") (str "[id=uuid]")
      (ground arith) (ground arith)
