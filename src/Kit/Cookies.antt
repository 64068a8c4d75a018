-- ===== src/Kit/Cookies.antt =====
-- exports/kit/cookies.go: the cookie jar of one request. A nil jar, which has no cookie and queues
-- none, is left out. A duration is a number of nanoseconds and a direction.
pub mod Jar
use sveltego.Base.Map.{lookup, insert}
use sveltego.Http.{MaxAge, unset, delete_now, seconds, SetCookie}
use sveltego.Base.{
  ℕ, ◌/◌, Bool, true, false, Option, none, some, List, [], ◌∷◌, ◌++◌, if◌then◌else◌, ◌==◌, Str, str,
}

pub data Duration : Type 0 where
  forward backward : ℕ → Duration

pub record CookieOpts : Type 0 where
  pub path : Str
  pub domain : Str
  pub max_age : Duration
  pub expires : Option ℕ
  pub http_only : Option Bool
  pub secure : Option Bool
  pub same_site : ℕ

pub record Cookies : Type 0 where
  pub inbox : List (Str × Str)
  pub out : List SetCookie
  pub https : Bool

-- The loop over the request's cookies: a later one of a name replaces an earlier one.
unfoldable pub collect : List (Str × Str) → List (Str × Str) → List (Str × Str)
collect m [] = m
collect m ((name, value) ∷ cookies) = collect (insert name value m) cookies

-- The request is given by its cookies and its TLS flag; `none` is nil.
unfoldable pub new_cookies : Option (List (Str × Str) × Bool) → Cookies
unfolding collect
new_cookies none = record { inbox = []; out = []; https = false }
new_cookies (some (cookies, tls)) = record { inbox = collect [] cookies; out = []; https = tls }

unfoldable pub get : Cookies → Str → Option Str
get c name = lookup name c.inbox

-- `int(d.Seconds())`, cut towards zero.
abbrev pub whole_seconds : Duration → MaxAge
whole_seconds (forward d) = if d / 1000000000 == 0 then unset else seconds (d / 1000000000)
whole_seconds (backward d) = if d / 1000000000 == 0 then unset else delete_now

abbrev pub or_default {ℓ} : {A : Type ℓ} → A → Option A → A
or_default d none = d
or_default d (some a) = a

abbrev pub path_or_root : Str → Str
path_or_root [] = str "/"
path_or_root (b ∷ p) = b ∷ p

-- http.SameSiteLaxMode is 2.
unfoldable pub build : Cookies → Str → Str → CookieOpts → Bool → SetCookie
build c name value opts http_only_default = record {
  name = name;
  value = value;
  path = path_or_root opts.path;
  domain = opts.domain;
  max_age = whole_seconds opts.max_age;
  expires = opts.expires;
  http_only = or_default http_only_default opts.http_only;
  secure = or_default c.https opts.secure;
  same_site = if opts.same_site == 0 then 2 else opts.same_site;
}

unfoldable pub set_cookie : Cookies → Str → Str → CookieOpts → Cookies
unfolding build
set_cookie c name value opts = record c { out = c.out ++ build c name value opts true ∷ [] }

unfoldable pub set_exposed : Cookies → Str → Str → CookieOpts → Cookies
unfolding build
set_exposed c name value opts = record c { out = c.out ++ build c name value opts false ∷ [] }

unfoldable pub delete_cookie : Cookies → Str → CookieOpts → Cookies
delete_cookie c name opts = record c {
  out =
      c.out
      ++ record {
        name = name;
        value = [];
        path = path_or_root opts.path;
        domain = opts.domain;
        max_age = delete_now;
        expires = some 0;
        http_only = false;
        secure = false;
        same_site = 0;
      }
        ∷ [];
}
