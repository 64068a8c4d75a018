-- ===== src/Routescan/Segments/Accepted.antt =====
-- What the parser of internal/routescan/segments.go accepts: segments of one form for each kind.
use sveltego.Router.Segment.{Segment, SegmentKind, static, param, optional, rest, is_empty}
use sveltego.Routescan.Segments.{SegmentError, contains_any, trim_ends}
use sveltego.Routescan.Segments.{
  cut_prefix, is_go_keyword, is_go_ident, cut_matcher, checked, split_name_matcher, bracket_segment,
  parse_bracketed, parse_group, parse_segment,
}
use sveltego.Base.{
  Result, ok, err, ◌>>=◌, ℕ, ◌≡◌, refl, sym, subst, ◌≢◌, inl, inr, Bool, true, false, ◌&&◌, not,
  List, [], ◌∷◌, arith, if_case, ◌==◌, Option-cases, Str, str, has_suffix,
}

module _ (runes : Str → List ℕ) (is_letter is_digit : ℕ → Bool) where
  abbrev pub ident : Str → Bool
  ident = is_go_ident runes is_letter is_digit

  -- What the parser makes of a name in brackets, by the parts of the segment.
  pub record Named (s : Segment) : Type 0 where
    pub name_ok : ident s.name ≡ true
    pub no_keyword : is_go_keyword s.name ≡ false
    pub matcher_ok : (not (is_empty s.matcher) && not (ident s.matcher)) ≡ false
    pub no_value : s.value ≡ []

  pub record Static (s : Segment) : Type 0 where
    pub some_value : is_empty s.value ≡ false
    pub no_brackets : contains_any s.value (str "[]()") ≡ false
    pub no_name : s.name ≡ []
    pub no_matcher : s.matcher ≡ []

  abbrev pub WellFormedOf : SegmentKind → Segment → Type 0
  WellFormedOf static s = Static s
  WellFormedOf _ s = Named s

  abbrev pub WellFormed : Segment → Type 0
  WellFormed s = WellFormedOf s.kind s

  -- What holds of the value, if there is one.
  abbrev pub Gives {ℓ} : {A : Type ℓ} → (A → Type 0) → Result SegmentError A → Type 0
  Gives P (err _) = Unit {0}
  Gives P (ok a) = P a

  Gives-bind :
      {A B : Type 0} (P : A → Type 0) (Q : B → Type 0) (m : Result SegmentError A)
      (next : A → Result SegmentError B)
      → Gives P m
      → ((a : A) → P a → Gives Q (next a))
      → Gives Q (m >>= next)
  Gives-bind P Q (err e) next p q = tt
  Gives-bind P Q (ok a) next p q = q a p

  pub gives_ok :
      {A : Type 0} (P : A → Type 0) (m : Result SegmentError A) (a : A) → Gives P m → m ≡ ok a → P a
  gives_ok P m a g e = subst (Gives P) e g

  abbrev pub Checked : Str × Str → Type 0
  Checked p =
      (ident p.0 ≡ true)
      × (is_go_keyword p.0 ≡ false)
      × ((not (is_empty p.1) && not (ident p.1)) ≡ false)

  split-Gives : (s : Str) → Gives Checked (split_name_matcher runes is_letter is_digit s)
  unfolding split_name_matcher checked
  split-Gives s =
      let p = cut_matcher runes is_letter is_digit s in
      if_case (Gives Checked) (is_empty s) (λ _. tt)
        λ _.
          if_case (Gives Checked) (not (ident p.0)) (λ _. tt)
            λ name.
              if_case (Gives Checked) (is_go_keyword p.0) (λ _. tt)
                λ word.
                  if_case (Gives Checked) (not (is_empty p.1) && not (ident p.1)) (λ _. tt)
                    λ matcher. (ground (arith, name), word, matcher)

  bracket_segment-Gives :
      (kind : SegmentKind) (s : Str)
      → ((t : Segment) → t.kind ≡ kind → Named t → WellFormed t)
      → Gives WellFormed (bracket_segment runes is_letter is_digit kind s)
  unfolding bracket_segment
  bracket_segment-Gives kind s well =
      Gives-bind Checked WellFormed (split_name_matcher runes is_letter is_digit s) _
        (split-Gives s)
        λ p ok_p.
          well _ refl
            (record { name_ok = ok_p.0; no_keyword = ok_p.1; matcher_ok = ok_p.2; no_value = refl })

  kind_well :
      (kind : SegmentKind) → kind ≢ static → (t : Segment) → t.kind ≡ kind → Named t → WellFormed t
  kind_well static ne t e n = absurd (ne refl)
  kind_well param ne t e n = subst (λ k. WellFormedOf k t) (sym e) n
  kind_well optional ne t e n = subst (λ k. WellFormedOf k t) (sym e) n
  kind_well rest ne t e n = subst (λ k. WellFormedOf k t) (sym e) n

  bracketed-Gives : (s : Str) → Gives WellFormed (parse_bracketed runes is_letter is_digit s)
  unfolding parse_bracketed
  bracketed-Gives s = elim (Option-cases (cut_prefix s (str "[["))) [
    | inr (t, e) ↦
        rw (parse_bracketed, e)
          (if_case (Gives WellFormed) (not (has_suffix s (str "]]"))) (λ _. tt)
            λ _.
              if_case (Gives WellFormed) (contains_any (trim_ends 2 s) (str "[]")) (λ _. tt)
                λ _.
                  bracket_segment-Gives optional (trim_ends 2 s)
                    (kind_well optional (ground arith)))
    | inl e ↦
        rw (parse_bracketed, e)
          (if_case (Gives WellFormed) (not (has_suffix s (str "]"))) (λ _. tt)
            λ _.
              if_case (Gives WellFormed) (contains_any (trim_ends 1 s) (str "[]")) (λ _. tt)
                λ _. (elim (Option-cases (cut_prefix (trim_ends 1 s) (str "..."))) [
                  | inl d ↦
                      rw d (
                        bracket_segment-Gives param (trim_ends 1 s)
                          (kind_well param (ground arith)))
                  | inr (t, d) ↦ rw d (bracket_segment-Gives rest t (kind_well rest (ground arith)))
                ]))
  ]

  pub parse_segment-Gives : (s : Str) → Gives WellFormed (parse_segment runes is_letter is_digit s)
  unfolding parse_segment parse_group
  parse_segment-Gives [] = tt
  parse_segment-Gives (c ∷ s) =
      if_case (Gives WellFormed) (c == b'(')
        (λ _.
          if_case (Gives WellFormed) (not (has_suffix (c ∷ s) (str ")"))) (λ _. tt)
            λ _.
              if_case (Gives WellFormed) (is_empty (trim_ends 1 (c ∷ s))) (λ _. tt)
                λ _.
                  if_case (Gives WellFormed) (not (ident (trim_ends 1 (c ∷ s)))) (λ _. tt)
                    (λ _. tt))
        λ _.
          if_case (Gives WellFormed) (c == b'[') (λ _. bracketed-Gives (c ∷ s))
            λ _.
              if_case (Gives WellFormed) (contains_any (c ∷ s) (str "[]()")) (λ _. tt)
                λ clean. record {
                  some_value = refl;
                  no_brackets = clean;
                  no_name = refl;
                  no_matcher = refl;
                }
