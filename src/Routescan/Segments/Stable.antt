-- ===== src/Routescan/Segments/Stable.antt =====
-- internal/routescan/segments.go: a name that is accepted and what it is printed as are one segment.
use sveltego.Router.Segment.{Segment, SegmentKind, static, param, optional, rest, is_empty, string}
use sveltego.Router.Segment.{string_of}
use sveltego.Routescan.Segments.{SegmentError, has, contains_any}
use sveltego.Routescan.Segments.{parse_segment}
use sveltego.Routescan.Segments.Accepted.{
  Static, WellFormed, WellFormedOf, gives_ok, parse_segment-Gives,
}
use sveltego.Routescan.Segments.Inverse.{param_printed, optional_printed, rest_printed}
use sveltego.Base.{
  Result, ok, ℕ, ◌<◌, ◌≡◌, if_case, refl, sym, ap, ◌∙◌, Bool, true, false, ◌||◌, List, [], ◌∷◌,
  arith, ◌==◌, Str, str,
}

module _ (runes : Str → List ℕ) (is_letter is_digit : ℕ → Bool)
    (ascii : (b : ℕ) (s : Str) → b < 128 → has b s ≡ true → has b (runes s) ≡ true)
    (marks : (b : ℕ) → has b (str "[]()=.") ≡ true → (is_letter b || is_digit b) ≡ false) where
  static_printed :
      (s : Segment)
      → s.kind ≡ static
      → Static runes is_letter is_digit s
      → parse_segment runes is_letter is_digit s.value ≡ ok s
  unfolding parse_segment
  static_printed s is w = go s.value refl
    where
      Ok : Result SegmentError Segment → Type 0
      Ok r = r ≡ ok s

      go : (v : Str) → s.value ≡ v → parse_segment runes is_letter is_digit v ≡ ok s
      go [] e = absurd (ground (arith, ap is_empty e, w.some_value))
      go (c ∷ v) e =
          let clean : contains_any (c ∷ v) (str "[]()") ≡ false =
            ap (λ t. contains_any t (str "[]()")) (sym e) ∙ w.no_brackets in
          let no_group : (c == b'(') ≡ false = ground (arith, clean) in
          let no_bracket : (c == b'[') ≡ false = ground (arith, clean) in
          let kinds = sym is in
          let names = sym w.no_name in
          let values = sym e in
          let matchers = sym w.no_matcher in
          let whole : ◌≡◌ {A = Segment}
              (record { kind = static; name = []; value = c ∷ v; matcher = [] }) s =
            λ i. record {
              kind = kinds i;
              name = names i;
              value = values i;
              matcher = matchers i;
            } in
          if_case Ok (c == b'(') (λ h. absurd (ground (arith, h, no_group)))
            λ _.
              if_case Ok (c == b'[') (λ h. absurd (ground (arith, h, no_bracket)))
                λ _.
                  if_case Ok (contains_any (c ∷ v) (str "[]()"))
                    (λ h. absurd (ground (arith, h, clean))) λ _. ap ok whole

  printed :
      (kind : SegmentKind) (s : Segment)
      → s.kind ≡ kind
      → WellFormedOf runes is_letter is_digit kind s
      → parse_segment runes is_letter is_digit (string_of kind s) ≡ ok s
  unfolding string_of
  printed static s is w = static_printed s is w
  printed param s is w = param_printed runes is_letter is_digit ascii marks s w is
  printed optional s is w = optional_printed runes is_letter is_digit ascii marks s w is
  printed rest s is w = rest_printed runes is_letter is_digit ascii marks s w is

  -- A segment that a directory name is read as is well-formed: a static one has a value without
  -- brackets and no name, any other has a Go identifier that is no keyword for its name, no matcher
  -- or one that is an identifier, and no value. The text that `Segment.String` prints for it is read
  -- as the same segment. The runes of a text have its ASCII bytes, and no bracket, dot or equals
  -- sign is a letter or a digit.
  pub parse_segment-string :
      (name : Str) (s : Segment)
      → parse_segment runes is_letter is_digit name ≡ ok s
      → WellFormed runes is_letter is_digit s
        × (parse_segment runes is_letter is_digit (string s) ≡ ok s)
  parse_segment-string name s e =
      let w =
        gives_ok runes is_letter is_digit (WellFormed runes is_letter is_digit)
          (parse_segment runes is_letter is_digit name) s
          (parse_segment-Gives runes is_letter is_digit name) e in
      (w, printed s.kind s refl w)
