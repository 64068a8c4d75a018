-- ===== src/Auth/Csrf.antt =====
-- packages/auth/csrf.go. The token is an argument, `none` when crypto/rand fails; the parser of a
-- referring URL is one too, with the scheme and host that it returns.
pub mod Verify
mod Tests
use sveltego.Base.Map.{lookup}
use sveltego.Http.{unset, SetCookie}
use sveltego.Base.{
  ℕ, Bool, true, false, ◌&&◌, ◌||◌, not, Option, none, some, List, [], ◌∷◌, ◌++◌, if◌then◌else◌,
  ◌==◌, Str, str, str_eq,
}

pub record Csrf : Type 0 where
  pub cookie_name : Str
  pub header_name : Str
  pub field_name : Str
  pub trusted_origins : List Str
  pub token_size : ℕ
  pub allow_insecure : Bool

abbrev pub new_csrf : Csrf
new_csrf = record {
  cookie_name = str "__Host-sveltego-csrf";
  header_name = str "X-CSRF-Token";
  field_name = str "csrf_token";
  trusted_origins = [];
  token_size = 32;
  allow_insecure = false;
}

-- The parts of a request that are read; the functions are those of its header and form, with the
-- empty text for what is missing.
pub record Request : Type 0 where
  pub method : Str
  pub cookies : List (Str × Str)
  pub header : Str → Str
  pub form : Str → Str

abbrev pub is_blank : Str → Bool
is_blank [] = true
is_blank (_ ∷ _) = false

unfoldable pub state_mutating : Str → Bool
state_mutating m =
    str_eq m (str "POST")
    || str_eq m (str "PUT")
    || str_eq m (str "PATCH")
    || str_eq m (str "DELETE")

abbrev pub issued_cookie : Csrf → Str → SetCookie
issued_cookie c token = record {
  name = c.cookie_name;
  value = token;
  path = str "/";
  domain = [];
  max_age = unset;
  expires = none;
  http_only = false;
  secure = not c.allow_insecure;
  same_site = 3;
}

-- The cookie and the token, or an error.
unfoldable pub issue : Csrf → Option Str → Option (SetCookie × Str)
issue c none = none
issue c (some token) = some (issued_cookie c token, token)

-- `strings.TrimSuffix(s, "/")`
unfoldable pub trim_slash : Str → Str
trim_slash [] = []
trim_slash (b ∷ []) = if b == 47 then [] else b ∷ []
trim_slash (b ∷ c ∷ s) = b ∷ trim_slash (c ∷ s)

unfoldable pub contains : Str → List Str → Bool
contains o [] = false
contains o (t ∷ ts) = if str_eq o t then true else contains o ts

-- What the middleware answers itself, or the call of the handler with the cookie it has set.
pub data Outcome : Type 0 where
  forbidden issue_failed : Outcome
  served : Option SetCookie → Outcome

unfoldable pub submitted : Csrf → Request → Str
submitted c r =
    if is_blank (r.header c.header_name) then r.form c.field_name else r.header c.header_name

abbrev pub has_origins : Csrf → Bool
has_origins c = elim c.trusted_origins [ [] ↦ false | _ ∷ _ ↦ true ]

module _ (parse_url : Str → Option (Str × Str)) where
  -- The Origin header, or the origin of the Referer.
  unfoldable pub origin_of : Request → Str
  unfolding trim_slash
  origin_of r =
      if not (is_blank (r.header (str "Origin")))
      then r.header (str "Origin")
      else if is_blank (r.header (str "Referer"))
      then []
      else elim (parse_url (r.header (str "Referer"))) [
        | none ↦ []
        | some (scheme, host) ↦ trim_slash (scheme ++ (str "://" ++ host))
      ]

  -- Whether the error is nil.
  unfoldable pub check_origin : Csrf → Request → Bool
  unfolding origin_of contains
  check_origin c r =
      let origin = origin_of r in
      if is_blank origin then false else contains origin c.trusted_origins

  -- Whether the error is nil.
  unfoldable pub verify : Csrf → Request → Bool
  unfolding state_mutating check_origin submitted
  verify c r =
      if not (state_mutating r.method)
      then true
      else if has_origins c && not (check_origin c r)
      then false
      else elim (lookup c.cookie_name r.cookies) [
        | none ↦ false
        | some cookie ↦ if is_blank (submitted c r) then false else str_eq cookie (submitted c r)
      ]

  unfoldable pub middleware : Csrf → Option Str → Request → Outcome
  unfolding verify issue
  middleware c token r =
      if state_mutating r.method
      then if not (verify c r) then forbidden else served none
      else if str_eq r.method (str "GET")
      then elim (issue c token) [ none ↦ issue_failed | some (cookie, _) ↦ served (some cookie) ]
      else served none
