-- ===== src/Routescan/Segments/Inverse.antt =====
-- internal/routescan/segments.go reads what `Segment.String` of runtime/router/segment.go prints.
use sveltego.Router.Segment.{Segment, SegmentKind, param, optional, rest, is_empty, named}
use sveltego.Routescan.Segments.{has, contains_any, trim_ends}
use sveltego.Routescan.Segments.{
  cut_prefix, cut, ident_tail, ident_runes, is_go_ident, cut_matcher, checked, split_name_matcher,
  bracket_segment, parse_bracketed, parse_segment,
}
use sveltego.Routescan.Segments.Accepted.{ident, Named}
use sveltego.Base.{
  ok, ◌>>=◌, ℕ, ◌<◌, ◌≡◌, refl, sym, ap, ◌∙◌, subst, inl, inr, Bool, true, false, ◌||◌, not, none,
  some, List, [], ◌∷◌, ◌++◌, arith, append-nil, if_case, ◌==◌, Bool-cases, Str, str,
  has_suffix-append, has_suffix,
}
use sveltego.Routescan.Segments.Cuts.{has-append, trim-around, cut-none, cut_at, cut_prefix-none}

module _ (runes : Str → List ℕ) (is_letter is_digit : ℕ → Bool)
    (ascii : (b : ℕ) (s : Str) → b < 128 → has b s ≡ true → has b (runes s) ≡ true)
    (marks : (b : ℕ) → has b (str "[]()=.") ≡ true → (is_letter b || is_digit b) ≡ false) where
  tail_has :
      (b : ℕ) (rs : List ℕ)
      → ident_tail runes is_letter is_digit rs ≡ true
      → has b rs ≡ true
      → (is_letter b || is_digit b || b == b'_') ≡ true
  unfolding ident_tail
  tail_has b [] h t = absurd (ground (arith, t))
  tail_has b (r ∷ rs) h t = elim (Bool-cases (r == b)) [
    | inl e ↦
        let same : r ≡ b = ground (arith, e) in
        subst (λ k. (is_letter k || is_digit k || k == b'_') ≡ true) same (ground (arith, h))
    | inr e ↦ tail_has b rs (ground (arith, h)) (ground (arith, t, e))
  ]

  ident_has :
      (b : ℕ) (rs : List ℕ)
      → ident_runes runes is_letter is_digit rs ≡ true
      → has b rs ≡ true
      → (is_letter b || is_digit b || b == b'_') ≡ true
  unfolding ident_runes
  ident_has b [] h t = absurd (ground (arith, t))
  ident_has b (r ∷ rs) h t = elim (Bool-cases (r == b)) [
    | inl e ↦
        let same : r ≡ b = ground (arith, e) in
        subst (λ k. (is_letter k || is_digit k || k == b'_') ≡ true) same (ground (arith, h))
    | inr e ↦ tail_has b rs (ground (arith, h)) (ground (arith, t, e))
  ]

  -- No mark is in a name.
  free :
      (b : ℕ) (s : Str)
      → has b (str "[]()=.") ≡ true
      → ident runes is_letter is_digit s ≡ true
      → has b s ≡ false
  unfolding is_go_ident
  free b [] m h = refl
  free b (c ∷ s) m h = elim (Bool-cases (has b (c ∷ s))) [
    | inr e ↦ e
    | inl e ↦
        let low : b < 128 = ground (arith, m) in
        let other : (b == b'_') ≡ false = ground (arith, m) in
        absurd
          (ground (arith, marks b m, other, ident_has b (runes (c ∷ s)) h (ascii b (c ∷ s) low e)))
  ]

  ident_some : (s : Str) → ident runes is_letter is_digit s ≡ true → is_empty s ≡ false
  unfolding is_go_ident
  ident_some [] h = absurd (ground (arith, h))
  ident_some (c ∷ s) h = refl

  cut_matcher-none :
      (t : Str) → cut b'=' t ≡ none → cut_matcher runes is_letter is_digit t ≡ (t, [])
  unfolding cut_matcher
  cut_matcher-none t h = rw (cut_matcher, h) refl

  cut_matcher-some :
      (t : Str) (p : Str × Str) → cut b'=' t ≡ some p → cut_matcher runes is_letter is_digit t ≡ p
  unfolding cut_matcher
  cut_matcher-some t p h = rw (cut_matcher, h) refl

  -- The branches of `parseBracketed` that do not fail.
  double_brackets :
      (t u : Str)
      → cut_prefix t (str "[[") ≡ some u
      → has_suffix t (str "]]") ≡ true
      → contains_any (trim_ends 2 t) (str "[]") ≡ false
      → parse_bracketed runes is_letter is_digit t
        ≡ bracket_segment runes is_letter is_digit optional (trim_ends 2 t)
  unfolding parse_bracketed
  double_brackets t u p e c = rw (parse_bracketed, p, e, c) refl

  single_brackets :
      (t : Str)
      → cut_prefix t (str "[[") ≡ none
      → has_suffix t (str "]") ≡ true
      → contains_any (trim_ends 1 t) (str "[]") ≡ false
      → parse_bracketed runes is_letter is_digit t ≡ elim (cut_prefix (trim_ends 1 t) (str "...")) [
        | some tail ↦ bracket_segment runes is_letter is_digit rest tail
        | none ↦ bracket_segment runes is_letter is_digit param (trim_ends 1 t)
      ]
  unfolding parse_bracketed
  single_brackets t p e c = rw (parse_bracketed, p, e, c) refl

  module _ (s : Segment) (n : Named runes is_letter is_digit s) where
    matcher_free : (b : ℕ) → has b (str "[]()=.") ≡ true → has b s.matcher ≡ false
    matcher_free b m = elim (Bool-cases (is_empty s.matcher)) [
      | inl e ↦ empty_has s.matcher e
      | inr e ↦ free b s.matcher m (ground (arith, n.matcher_ok, e))
    ]
      where
        empty_has : (t : Str) → is_empty t ≡ true → has b t ≡ false
        empty_has [] h = refl
        empty_has (c ∷ t) h = absurd (ground (arith, h))

    -- What stands between the brackets has no bracket, and its first byte no dot.
    named_free : (b : ℕ) → has b (str "[]") ≡ true → has b (named s) ≡ false
    named_free b m =
        let all : has b (str "[]()=.") ≡ true = ground (arith, m) in
        let one = free b s.name all n.name_ok in
        let two = matcher_free b all in
        if_case (λ t. has b t ≡ false) (is_empty s.matcher) (λ _. one)
          λ _. has-append b s.name (b'=' ∷ s.matcher) ∙ ground (arith, one, two, m)

    named_clean : contains_any (named s) (str "[]") ≡ false
    named_clean = ground (arith, named_free b'[' refl, named_free b']' refl)

    cut_matcher-named : cut_matcher runes is_letter is_digit (named s) ≡ (s.name, s.matcher)
    cut_matcher-named =
        let no_equals = free b'=' s.name refl n.name_ok in
        elim (Bool-cases (is_empty s.matcher)) [
          | inl e ↦
              let plain : named s ≡ s.name = rw e refl in
              cut_matcher-none (named s) (ap (cut b'=') plain ∙ cut-none b'=' s.name no_equals)
              ∙ ap (λ t. (t, [])) plain
              ∙ ap (λ m. (s.name, m)) (empty s.matcher e)
          | inr e ↦
              let full : named s ≡ s.name ++ b'=' ∷ s.matcher = rw e refl in
              cut_matcher-some (named s) (s.name, s.matcher)
                (ap (cut b'=') full ∙ cut_at b'=' s.name s.matcher no_equals)
        ]
      where
        empty : (t : Str) → is_empty t ≡ true → [] ≡ t
        empty [] h = refl
        empty (c ∷ t) h = absurd (ground (arith, h))

    named_some : is_empty (named s) ≡ false
    named_some =
        if_case (λ t. is_empty t ≡ false) (is_empty s.matcher) (λ _. ident_some s.name n.name_ok)
          λ _. append_some s.name (b'=' ∷ s.matcher) (ident_some s.name n.name_ok)
      where
        append_some : (t u : Str) → is_empty t ≡ false → is_empty (t ++ u) ≡ false
        append_some [] u h = absurd (ground (arith, h))
        append_some (c ∷ t) u h = refl

    split_name_matcher-named :
        split_name_matcher runes is_letter is_digit (named s) ≡ ok (s.name, s.matcher)
    unfolding split_name_matcher checked
    split_name_matcher-named =
        let good : not (ident runes is_letter is_digit s.name) ≡ false =
          ground (arith, n.name_ok) in
        rw
          (
            split_name_matcher, named_some, cut_matcher-named, checked, good, n.no_keyword,
            n.matcher_ok,
          )
          refl

    bracket_segment-named :
        (kind : SegmentKind)
        → s.kind ≡ kind
        → bracket_segment runes is_letter is_digit kind (named s) ≡ ok s
    unfolding bracket_segment
    bracket_segment-named kind is =
        let kinds : kind ≡ s.kind = sym is in
        let values : [] ≡ s.value = sym n.no_value in
        let whole : ◌≡◌ {A = Segment}
            (record { kind = kind; name = s.name; value = []; matcher = s.matcher }) s =
          λ i. record { kind = kinds i; name = s.name; value = values i; matcher = s.matcher } in
        ap (λ m. m >>= λ p. ok (record { kind = kind; name = p.0; value = []; matcher = p.1 }))
          split_name_matcher-named
        ∙ ap ok whole

    pub optional_printed :
        s.kind ≡ optional
        → parse_segment runes is_letter is_digit (b'[' ∷ b'[' ∷ (named s ++ str "]]")) ≡ ok s
    unfolding parse_segment cut_prefix
    optional_printed is =
        let t = b'[' ∷ b'[' ∷ (named s ++ str "]]") in
        let inner : trim_ends 2 t ≡ named s =
          trim-around 2 (str "[[") (named s) (str "]]") refl refl in
        double_brackets t (named s ++ str "]]") refl
          (has_suffix-append (b'[' ∷ b'[' ∷ named s) (str "]]"))
          (ap (λ u. contains_any u (str "[]")) inner ∙ named_clean)
        ∙ ap (bracket_segment runes is_letter is_digit optional) inner
        ∙ bracket_segment-named optional is

    single_printed :
        (u : Str)
        → contains_any u (str "[]") ≡ false
        → parse_segment runes is_letter is_digit (b'[' ∷ (u ++ str "]"))
          ≡ elim (cut_prefix u (str "...")) [
            | some tail ↦ bracket_segment runes is_letter is_digit rest tail
            | none ↦ bracket_segment runes is_letter is_digit param u
          ]
    unfolding parse_segment cut_prefix
    single_printed u clean =
        let t = b'[' ∷ (u ++ str "]") in
        let inner : trim_ends 1 t ≡ u = trim-around 1 (str "[") u (str "]") refl refl in
        single_brackets t (not_double u clean) (has_suffix-append (b'[' ∷ u) (str "]"))
          (ap (λ v. contains_any v (str "[]")) inner ∙ clean)
        ∙ ap
            (λ v. elim (cut_prefix v (str "...")) [
              | some tail ↦ bracket_segment runes is_letter is_digit rest tail
              | none ↦ bracket_segment runes is_letter is_digit param v
            ])
            inner
      where
        not_double :
            (v : Str)
            → contains_any v (str "[]") ≡ false
            → cut_prefix (b'[' ∷ (v ++ str "]")) (str "[[") ≡ none
        not_double [] h = refl
        not_double (c ∷ v) h =
            let other : (c == b'[') ≡ false = ground (arith, h) in rw (cut_prefix, other) refl

    pub param_printed :
        s.kind ≡ param → parse_segment runes is_letter is_digit (b'[' ∷ (named s ++ str "]")) ≡ ok s
    param_printed is =
        single_printed (named s) named_clean ∙ rw no_dots (bracket_segment-named param is)
      where
        dotless :
            (t u : Str)
            → is_empty t ≡ false
            → has b'.' t ≡ false
            → cut_prefix (t ++ u) (str "...") ≡ none
        dotless [] u h d = absurd (ground (arith, h))
        dotless (c ∷ t) u h d = cut_prefix-none c b'.' (t ++ u) (str "..") (ground (arith, d))

        no_dots : cut_prefix (named s) (str "...") ≡ none
        no_dots =
            let some_name = ident_some s.name n.name_ok in
            let plain = free b'.' s.name refl n.name_ok in
            if_case (λ t. cut_prefix t (str "...") ≡ none) (is_empty s.matcher)
              (λ _.
                subst (λ t. cut_prefix t (str "...") ≡ none) (append-nil s.name)
                  (dotless s.name [] some_name plain))
              (λ _. dotless s.name (b'=' ∷ s.matcher) some_name plain)

    pub rest_printed :
        s.kind ≡ rest
        → parse_segment runes is_letter is_digit (b'[' ∷ b'.' ∷ b'.' ∷ b'.' ∷ (named s ++ str "]"))
          ≡ ok s
    unfolding cut_prefix
    rest_printed is =
        single_printed (b'.' ∷ b'.' ∷ b'.' ∷ named s) (ground (arith, named_clean))
        ∙ bracket_segment-named rest is
