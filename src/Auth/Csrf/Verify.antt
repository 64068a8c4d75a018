-- ===== src/Auth/Csrf/Verify.antt =====
-- Which requests reach the handler.
use mathlib.Core.List.{Memᴰ}
use sveltego.Base.Map.{lookup}
use sveltego.Http.{SetCookie}
use sveltego.Auth.Csrf.{
  Csrf, Request, is_blank, state_mutating, issued_cookie, issue, contains, forbidden, issue_failed,
  served, submitted, has_origins, origin_of, check_origin, verify, middleware,
}
use sveltego.Base.{
  ◌≡◌, refl, sym, ap, ◌∙◌, ◌≢◌, ◌↔◌, ◌⊎◌, inl, inr, Bool, true, false, ◌&&◌, not, Option, none,
  some, List, [], ◌∷◌, arith, if◌then◌else◌, Bool-cases, Str, str, str_eq, str_eq_iff,
}

contains_iff : (o : Str) (ts : List Str) → (contains o ts ≡ true) ↔ Memᴰ o ts
unfolding contains
contains_iff o [] = ((λ h. cc), (λ m. elim m [ ]))
contains_iff o (t ∷ ts) =
    let (to, from) = contains_iff o ts in
    (
      (λ h. elim (Bool-cases (str_eq o t)) [
        | inl same ↦ Memᴰ.head ((str_eq_iff o t).0 same)
        | inr other ↦ Memᴰ.tail (to (rw other at h))
      ]),
      first from,
    )
  where
    first :
        (Memᴰ o ts → contains o ts ≡ true)
        → Memᴰ o (t ∷ ts)
        → (if str_eq o t then true else contains o ts) ≡ true
    first from (Memᴰ.head e) = rw ((str_eq_iff o t).1 e) refl
    first from (Memᴰ.tail m) = let later = from m in ground arith

-- The origin is trusted, where there are trusted origins at all.
abbrev pub OriginPasses : (Str → Option (Str × Str)) → Csrf → Request → Type 0
OriginPasses parse c r =
    (c.trusted_origins ≡ [])
    ⊎ ((origin_of parse r ≢ []) × Memᴰ (origin_of parse r) c.trusted_origins)

-- The CSRF cookie holds what the request submits, which is not empty.
abbrev pub TokenPasses : Csrf → Request → Type 0
TokenPasses c r =
    (t : Str) × (lookup c.cookie_name r.cookies ≡ some t) × (t ≢ []) × (submitted c r ≡ t)

origin_iff :
    (ts : List Str) (o : Str)
    → ((elim ts [ [] ↦ false | _ ∷ _ ↦ true ] && not (if is_blank o then false else contains o ts))
        ≡ false)
      ↔ ((ts ≡ []) ⊎ ((o ≢ []) × Memᴰ o ts))
origin_iff [] o = ((λ _. inl refl), (λ _. ground arith))
origin_iff (t ∷ ts) [] =
    ((λ h. absurd (ground arith)), (λ h. elim h [ inl e ↦ cc | inr (ne, _) ↦ absurd (ne refl) ]))
origin_iff (t ∷ ts) (b ∷ o) =
    let (to, from) = contains_iff (b ∷ o) (t ∷ ts) in
    (
      (λ h. inr ((λ e. cc), to (ground (arith, h)))),
      (λ h. elim h [ inl e ↦ cc | inr (_, m) ↦ let found = from m in ground arith ]),
    )

token_iff :
    (o : Option Str) (s : Str)
    → (elim o [ none ↦ false | some cookie ↦ if is_blank s then false else str_eq cookie s ] ≡ true)
      ↔ ((t : Str) × (o ≡ some t) × (t ≢ []) × (s ≡ t))
token_iff none s = ((λ h. cc), (λ (t, e, _, _). cc))
token_iff (some t) [] = ((λ h. cc), (λ (u, e, ne, same). absurd (ne (sym same))))
token_iff (some t) (b ∷ s) = (
  (λ h.
      let same : t ≡ b ∷ s = (str_eq_iff t (b ∷ s)).0 h in
      (t, refl, (λ e. let y = sym same ∙ e in cc), sym same)),
  (λ (u, e, ne, same). let t_is : t ≡ u = cc in (str_eq_iff t (b ∷ s)).1 (t_is ∙ sym same)),
)

-- The decision of `Verify` on a method that changes state.
verify_iff :
    (parse : Str → Option (Str × Str)) (c : Csrf) (r : Request)
    → state_mutating r.method ≡ true
    → (verify parse c r ≡ true) ↔ (OriginPasses parse c r × TokenPasses c r)
unfolding verify check_origin
verify_iff parse c r mutating =
    let (origin_to, origin_from) = origin_iff c.trusted_origins (origin_of parse r) in
    let (token_to, token_from) = token_iff (lookup c.cookie_name r.cookies) (submitted c r) in
    elim (Bool-cases (has_origins c && not (check_origin parse c r))) [
      | inl bad ↦
          let is : verify parse c r ≡ false = rw (verify, mutating, bad) refl in
          ((λ h. cc), (λ (o, t). let good = origin_from o in cc))
      | inr good ↦
          let is : verify parse c r ≡ elim (lookup c.cookie_name r.cookies) [
            | none ↦ false
            | some cookie ↦
                if is_blank (submitted c r) then false else str_eq cookie (submitted c r)
          ] =
            rw (verify, mutating, good) refl in
          ((λ h. (origin_to good, token_to (sym is ∙ h))), (λ (o, t). is ∙ token_from t))
    ]

on_mutating :
    (parse : Str → Option (Str × Str)) (c : Csrf) (token : Option Str) (r : Request) (passed : Bool)
    → state_mutating r.method ≡ true
    → verify parse c r ≡ passed
    → middleware parse c token r ≡ (if not passed then forbidden else served none)
unfolding middleware
on_mutating parse c token r passed mutating e =
    let asked : middleware parse c token r
        ≡ (if not (verify parse c r) then forbidden else served none) =
      rw mutating refl in
    asked ∙ ap (λ v. if not v then forbidden else served none) e

-- A request with a method that changes state reaches the handler if and only if its origin is
-- trusted, where there are trusted origins, and the CSRF cookie holds the token that the request
-- submits, which is not empty; all others of these methods are forbidden.
pub middleware-mutating :
    (parse : Str → Option (Str × Str)) (c : Csrf) (token : Option Str) (r : Request)
    → state_mutating r.method ≡ true
    → ((middleware parse c token r ≡ served none) ↔ (OriginPasses parse c r × TokenPasses c r))
      × ((middleware parse c token r ≡ served none) ⊎ (middleware parse c token r ≡ forbidden))
middleware-mutating parse c token r mutating =
    let (to, from) = verify_iff parse c r mutating in
    elim (Bool-cases (verify parse c r)) [
      | inl passed ↦
          let is : middleware parse c token r ≡ served none =
            on_mutating parse c token r true mutating passed in
          (((λ _. to passed), (λ _. is)), inl is)
      | inr refused ↦
          let is : middleware parse c token r ≡ forbidden =
            on_mutating parse c token r false mutating refused in
          (((λ h. cc), (λ h. let passed = from h in cc)), inr is)
    ]

-- A GET is served with a new cookie, which scripts can read, or fails where there is no token; a
-- later request with a method that changes state passes if it returns this cookie and submits its
-- value, its origin passes, and the token is not empty.
pub middleware-double_submit :
    (parse : Str → Option (Str × Str)) (c : Csrf) (token : Str) (again : Option Str)
    (r later : Request)
    → r.method ≡ str "GET"
    → state_mutating later.method ≡ true
    → OriginPasses parse c later
    → token ≢ []
    → lookup c.cookie_name later.cookies ≡ some token
    → submitted c later ≡ token
    → ((k : SetCookie) × (middleware parse c (some token) r ≡ served (some k))
        × (k.name ≡ c.cookie_name)
        × (k.value ≡ token)
        × (k.http_only ≡ false))
      × (middleware parse c none r ≡ issue_failed)
      × (middleware parse c again later ≡ served none)
unfolding middleware issue state_mutating str_eq
middleware-double_submit parse c token again r later is_get mutating origin ne held same = (
  (issued_cookie c token, simp (middleware, is_get), refl, refl, refl),
  simp (middleware, is_get),
  (middleware-mutating parse c again later mutating).0.1 (origin, (token, held, ne, same)),
)
