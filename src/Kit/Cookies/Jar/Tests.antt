-- ===== src/Kit/Cookies/Jar/Tests.antt =====
-- A jar with a cookie that is sent twice.
use sveltego.Kit.Cookies.{CookieOpts, forward, new_cookies}
unfoldable use sveltego.Kit.Cookies.{get}
unfoldable use sveltego.Base.{str_eq}
use sveltego.Kit.Cookies.Jar.{Write, set_it, delete_it, writes, get-new_cookies}
use sveltego.Base.{◌≡◌, true, none, some, List, [], ◌∷◌, Str, str}

abbrev plain : CookieOpts
plain = record {
  path = [];
  domain = [];
  max_age = forward 0;
  expires = none;
  http_only = none;
  secure = none;
  same_site = 0;
}

abbrev sent_twice : List (Str × Str)
sent_twice = (str "a", str "1") ∷ (str "a", str "2") ∷ []

abbrev two_writes : List Write
two_writes = set_it (str "a") (str "3") plain ∷ delete_it (str "b") plain ∷ []

first_of_request :
    get (writes (new_cookies (some (sent_twice, true))) two_writes) (str "a") ≡ some (str "2")
unfolding get str_eq
first_of_request = get-new_cookies sent_twice true (str "a") two_writes
