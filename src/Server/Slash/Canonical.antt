-- ===== src/Server/Slash/Canonical.antt =====
-- The redirect ends, and where it leads.
use sveltego.Kit.PageOptions.{TrailingSlash, default, never, always, ignore}
use sveltego.Server.Slash.{
  Url, ends_with_slash, keep_unless_slash, trim_slashes, is_blank, escape_path, query_part,
  request_uri, canonical_redirect, trailing_slash_redirect,
}
use sveltego.Router.Split.{path_unescape}
use sveltego.Server.Slash.Location.{
  AllBytes, All-append, All-trim_slashes, before_query, after_query, query_of,
  canonical_redirect-read,
}
use sveltego.Base.{
  ℕ, ◌≡◌, refl, sym, ap, ◌∙◌, subst, inl, inr, true, false, ◌&&◌, not, some, [], ◌∷◌, ◌++◌, arith,
  if◌then◌else◌, Bool-cases, length, length-append, Str, str, str_eq, str_eq_iff, str_eq_refl,
  str_eq_ne, ◌≢◌, ◌⊎◌,
}

ends-trim_slashes : (s : Str) → ends_with_slash (trim_slashes s) ≡ false
unfolding ends_with_slash trim_slashes
ends-trim_slashes [] = refl
ends-trim_slashes (b ∷ s) = kept b (trim_slashes s) (ends-trim_slashes s)
  where
    kept :
        (b : ℕ) (t : Str)
        → ends_with_slash t ≡ false
        → ends_with_slash (keep_unless_slash b t) ≡ false
    kept b [] h = ground arith
    kept b (c ∷ t) h = h

ends-append_slash : (s : Str) → ends_with_slash (s ++ str "/") ≡ true
unfolding ends_with_slash
ends-append_slash [] = refl
ends-append_slash (b ∷ []) = refl
ends-append_slash (b ∷ c ∷ s) = ends-append_slash (c ∷ s)

trim-bare : (s : Str) → ends_with_slash s ≡ false → trim_slashes s ≡ s
unfolding ends_with_slash trim_slashes
trim-bare [] h = refl
trim-bare (b ∷ []) h = ground arith
trim-bare (b ∷ c ∷ s) h = ap (keep_unless_slash b) (trim-bare (c ∷ s) h)

trim-append_slash : (s : Str) → trim_slashes (s ++ str "/") ≡ trim_slashes s
unfolding trim_slashes
trim-append_slash [] = refl
trim-append_slash (b ∷ s) = ap (keep_unless_slash b) (trim-append_slash s)

-- The path that a policy asks for.
abbrev pub canonical : TrailingSlash → Str → Str
canonical always path = if ends_with_slash path then path else path ++ str "/"
canonical never path =
    if is_blank path
    then path
    else if is_blank (trim_slashes path)
    then str "/"
    else trim_slashes path
canonical default path = path
canonical ignore path = path

-- The canonical path under Never has no slash at its end, or is the root or empty.
never-shape :
    (path : Str)
    → (not (str_eq (canonical never path) (str "/")) && ends_with_slash (canonical never path))
      ≡ false
unfolding ends_with_slash str_eq trim_slashes
never-shape [] = refl
never-shape (b ∷ s) = elim (Bool-cases (is_blank (trim_slashes (b ∷ s)))) [
  | inl all_slashes ↦ rw all_slashes refl
  | inr some_other ↦ ground (arith, some_other, ends-trim_slashes (b ∷ s))
]

blank_nil : (s : Str) → is_blank s ≡ true → s ≡ []
blank_nil [] h = refl
blank_nil (b ∷ s) h = cc

-- The browser asks for the root where the path has become empty.
redirect_to_root : (u : Url) → canonical_redirect u [] ≡ canonical_redirect u (str "/")
unfolding canonical_redirect request_uri escape_path str_eq
redirect_to_root u = refl

never-decided :
    (u : Url) (p : Str)
    → (if not (str_eq p (str "/")) && ends_with_slash p
        then canonical_redirect u (trim_slashes p)
        else [])
      ≡ (if str_eq (canonical never p) p then [] else canonical_redirect u (canonical never p))
unfolding ends_with_slash trim_slashes str_eq
never-decided u [] = refl
never-decided u (b ∷ s) =
    let p : Str = b ∷ s in
    elim (Bool-cases (ends_with_slash p)) [
      | inr bare ↦ let same = trim-bare p bare in ground (arith, bare, same, str_eq_refl p)
      | inl ends ↦ elim (Bool-cases (str_eq p (str "/"))) [
        | inl root ↦ let is = (str_eq_iff p (str "/")).0 root in ground (arith, ends, is)
        | inr deeper ↦ elim (Bool-cases (is_blank (trim_slashes p))) [
          | inl slashes ↦
              let nothing = blank_nil (trim_slashes p) slashes in
              let apart : str_eq (str "/") p ≡ false = ground (arith, deeper) in
              let root = redirect_to_root u in ground (arith, ends, deeper, nothing, root)
          | inr some_other ↦
              let ends' = ends-trim_slashes p in
              let apart : str_eq (trim_slashes p) p ≡ false =
                str_eq_ne (trim_slashes p) p (λ e. let again = ap ends_with_slash e in cc) in
              ground (arith, ends, deeper, some_other, apart)
        ]
      ]
    ]

-- The redirect is to the path that the policy asks for, and none if the path is that one.
redirect_decided :
    (u : Url) (policy : TrailingSlash)
    → (trailing_slash_redirect (some u) policy ≡ (
        if str_eq (canonical policy u.path) u.path
        then []
        else canonical_redirect u (canonical policy u.path)))
      × (trailing_slash_redirect (some (record u { path = canonical policy u.path })) policy ≡ [])
unfolding trailing_slash_redirect
redirect_decided u default = (rw (str_eq_refl u.path) refl, refl)
redirect_decided u ignore = (rw (str_eq_refl u.path) refl, refl)
redirect_decided u always = elim (Bool-cases (ends_with_slash u.path)) [
  | inl ends ↦ (rw (ends, str_eq_refl u.path) refl, rw (ends, ends) refl)
  | inr bare ↦
      let longer : str_eq (u.path ++ str "/") u.path ≡ false =
        str_eq_ne (u.path ++ str "/") u.path (λ e.
          let sized = ap length e in let size = length-append u.path (str "/") in omega arith) in
      (rw (bare, longer) refl, rw (bare, ends-append_slash u.path) refl)
]
redirect_decided u never = (never-decided u u.path, rw (never-shape u.path) refl)

All-canonical : (policy : TrailingSlash) (s : Str) → AllBytes s → AllBytes (canonical policy s)
All-canonical default s a = a
All-canonical ignore s a = a
All-canonical always s a = elim (Bool-cases (ends_with_slash s)) [
  | inl ends ↦ rw ends a
  | inr bare ↦ rw bare (All-append s (str "/") a (omega arith, tt))
]
All-canonical never [] a = a
All-canonical never (b ∷ s) a = elim (Bool-cases (is_blank (trim_slashes (b ∷ s)))) [
  | inl slashes ↦ rw slashes (omega arith, tt)
  | inr other ↦ rw other (All-trim_slashes (b ∷ s) a)
]

-- A policy asks for the empty path only where the path is empty.
canonical_some :
    (policy : TrailingSlash) (s : Str)
    → str_eq (canonical policy s) s ≡ false
    → is_blank (canonical policy s) ≡ false
unfolding ends_with_slash str_eq
canonical_some default s h = absurd (let same = str_eq_refl s in cc)
canonical_some ignore s h = absurd (let same = str_eq_refl s in cc)
canonical_some always [] h = refl
canonical_some always (b ∷ s) h = ground arith
canonical_some never [] h = cc
canonical_some never (b ∷ s) h = ground arith

-- If the path of bytes is the one that the policy asks for, there is no redirect. If it is another,
-- there is one: a reader of its location, who cuts it at the first `?` and undoes the
-- percent-encoding before that, gets the path that the policy asks for, and the query of the
-- request. A request for that path is not redirected again.
pub trailing_slash_redirect-canonical :
    (u : Url) (policy : TrailingSlash)
    → AllBytes u.path
    → let asked = canonical policy u.path in
      let location = trailing_slash_redirect (some u) policy in
      (((asked ≡ u.path) × (location ≡ []))
        ⊎ ((asked ≢ u.path)
            × (is_blank location ≡ false)
            × (path_unescape (before_query location) ≡ some asked)
            × (after_query location ≡ query_of u)))
      × (trailing_slash_redirect (some (record u { path = asked })) policy ≡ [])
trailing_slash_redirect-canonical u policy bytes =
    let asked = canonical policy u.path in
    let (decided, again) = redirect_decided u policy in
    elim (Bool-cases (str_eq asked u.path)) [
      | inl same ↦
          let nowhere : trailing_slash_redirect (some u) policy ≡ [] =
            ground (arith, decided, same) in
          (inl ((str_eq_iff asked u.path).0 same, nowhere), again)
      | inr other ↦
          let there : trailing_slash_redirect (some u) policy ≡ canonical_redirect u asked =
            ground (arith, decided, other) in
          let read =
            canonical_redirect-read u asked (All-canonical policy u.path bytes)
              (canonical_some policy u.path other) in
          let apart : asked ≢ u.path = λ e. let z = (str_eq_iff asked u.path).1 e in cc in
          let (somewhere, path, query) = read in
          (
            inr (
              apart,
              ap is_blank there ∙ somewhere,
              ap (λ l. path_unescape (before_query l)) there ∙ path,
              ap after_query there ∙ query,
            ),
            again,
          )
    ]

trim-two_slashes :
    (b : ℕ) (h : Str)
    → ends_with_slash (b ∷ h) ≡ false
    → trim_slashes (str "//" ++ ((b ∷ h) ++ str "/")) ≡ str "//" ++ (b ∷ h)
unfolding trim_slashes
trim-two_slashes b h bare =
    let same : trim_slashes ((b ∷ h) ++ str "/") ≡ b ∷ h =
      trim-append_slash (b ∷ h) ∙ trim-bare (b ∷ h) bare in
    ap (λ t. keep_unless_slash 47 (keep_unless_slash 47 t)) same

-- Under Never, a path of two slashes, any host that does not end in a slash, and a slash is
-- redirected to a location that starts with two slashes and that host: a browser follows it to the
-- other host.
pub trailing_slash_redirect-open :
    (u : Url) (b : ℕ) (host : Str)
    → u.path ≡ str "//" ++ ((b ∷ host) ++ str "/")
    → ends_with_slash (b ∷ host) ≡ false
    → trailing_slash_redirect (some u) never ≡ str "//" ++ (escape_path (b ∷ host) ++ query_part u)
unfolding trailing_slash_redirect canonical_redirect request_uri escape_path str_eq
trailing_slash_redirect-open u b host e bare =
    let ends : ends_with_slash u.path ≡ true =
      subst (λ p. ends_with_slash p ≡ true) (sym e) (ends-append_slash (str "//" ++ (b ∷ host))) in
    let deep : str_eq u.path (str "/") ≡ false =
      str_eq_ne u.path (str "/") (λ z. let y = sym e ∙ z in cc) in
    let trimmed : trim_slashes u.path ≡ str "//" ++ (b ∷ host) =
      ap trim_slashes e ∙ trim-two_slashes b host bare in
    simp (ends, deep) (ap (canonical_redirect u) trimmed)
