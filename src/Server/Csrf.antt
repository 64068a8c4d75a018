-- ===== src/Server/Csrf.antt =====
-- server/csrf.go and exports/kit/csrf.go: the double-submit token. Of an event's Locals only the
-- token is kept. A fresh token is an argument, empty when crypto/rand fails.
pub mod Gate
mod Tests
use sveltego.Base.Map.{lookup}
use sveltego.Http.{SetCookie}
use sveltego.Kit.Cookies.{Cookies, CookieOpts, forward, get, set_cookie}
use sveltego.Router.Segment.{Route}
use sveltego.Base.{
  ℕ, Bool, true, false, ◌||◌, not, Option, none, some, List, [], ◌∷◌, if◌then◌else◌, Str, str,
  str_eq,
}

abbrev pub cookie_name : Str
cookie_name = str "_csrf"

abbrev pub field_name : Str
field_name = str "_csrf_token"

-- 24 hours in nanoseconds
abbrev pub token_max_age : ℕ
token_max_age = 86400000000000

-- The parts of a request that are read; `headers` are under their canonical names.
pub record Request : Type 0 where
  pub method : Str
  pub form : List (Str × Str)
  pub headers : List (Str × Str)

pub record Event : Type 0 where
  pub cookies : Cookies
  pub token : Option Str

pub record Response : Type 0 where
  pub status : ℕ
  pub headers : List (Str × Str)
  pub body : Str

abbrev pub text_or_empty : Option Str → Str
text_or_empty none = []
text_or_empty (some s) = s

abbrev pub is_empty : Str → Bool
is_empty [] = true
is_empty (_ ∷ _) = false

unfoldable pub csrf_token : Option Event → Str
csrf_token none = []
csrf_token (some ev) = text_or_empty ev.token

unfoldable pub set_csrf_token : Event → Str → Event
set_csrf_token ev t = record ev { token = some t }

unfoldable pub csrf_token_equal : Str → Str → Bool
csrf_token_equal cookie submitted =
    if is_empty cookie || is_empty submitted then false else str_eq cookie submitted

unfoldable pub csrf_applies : Option Route → Bool
csrf_applies none = false
csrf_applies (some r) = if not r.actions then false else r.options.csrf

unfoldable pub forbidden_response : Str → Response
forbidden_response msg = record {
  status = 403;
  headers = (str "Content-Type", str "text/plain; charset=utf-8") ∷ [];
  body = msg;
}

-- The form field, or the header where the field is missing or empty.
unfoldable pub submitted_token : Request → Str
submitted_token r =
    let field = text_or_empty (lookup field_name r.form) in
    if is_empty field then text_or_empty (lookup (str "X-Csrf-Token") r.headers) else field

abbrev pub token_opts : CookieOpts
token_opts = record {
  path = [];
  domain = [];
  max_age = forward token_max_age;
  expires = none;
  http_only = none;
  secure = none;
  same_site = 2;
}

-- The tail of `applyCSRF`, on a request that is not a POST.
unfoldable pub seed : Str → Event → Str → Event
unfolding set_csrf_token
seed fresh ev cookie_token =
    if is_empty cookie_token
    then if is_empty fresh
      then ev
      else set_csrf_token
          (record ev { cookies = set_cookie ev.cookies cookie_name fresh token_opts }) fresh
    else set_csrf_token ev cookie_token

-- The event as the call leaves it, and the response that cuts the request short.
unfoldable pub apply_csrf : Str → Request → Event → Option Route → Event × Option Response
unfolding csrf_applies csrf_token_equal set_csrf_token forbidden_response submitted_token seed
apply_csrf fresh r ev route =
    let cookie_token = text_or_empty (get ev.cookies cookie_name) in
    if not (csrf_applies route)
    then (ev, none)
    else if str_eq r.method (str "POST")
    then if not (csrf_token_equal cookie_token (submitted_token r))
      then (ev, some (forbidden_response (str "forbidden: csrf token missing or invalid")))
      else (set_csrf_token ev cookie_token, none)
    else (seed fresh ev cookie_token, none)
