-- ===== src/Server/Handle/Writer.antt =====
-- The http.ResponseWriter of a request, and what server/errors.go and exports/kit/cookies.go put
-- into it. How net/http prints a cookie is a parameter.
use sveltego.Base.Map.{lookup, insert}
use sveltego.Http.{SetCookie}
use sveltego.Kit.Cookies.{Cookies}
use sveltego.Base.{
  Bool, ◌&&◌, ◌||◌, not, is_some, if◌then◌else◌, str_eq, ℕ, Option, none, some, List, [], ◌∷◌, ◌++◌,
  Str, str,
}

abbrev pub Header : Type 0
Header = List (Str × List Str)

-- The status and the body that were written, or a call of http.Redirect.
pub data Written : Type 0 where
  wrote : ℕ → Str → Written
  redirected : ℕ → Str → Written

pub record Writer : Type 0 where
  pub header : Header
  pub response : Option Written

-- What a RequestEvent holds for the response: its jar and `ResponseHeader`.
pub record Pending : Type 0 where
  pub cookies : Cookies
  pub header : Header

-- `w.Header().Set`
abbrev pub header_set : Str → Str → Writer → Writer
header_set k v w = record w { header = insert k (v ∷ []) w.header }

abbrev pub values_or_nil : Option (List Str) → List Str
values_or_nil none = []
values_or_nil (some vs) = vs

-- `w.Header().Add`
abbrev pub header_add : Str → Str → Writer → Writer
header_add k v w = record w {
  header = insert k (values_or_nil (lookup k w.header) ++ v ∷ []) w.header;
}

-- `for k, vs := range header { w.Header()[k] = vs }`
unfoldable pub copy_header : Header → Writer → Writer
copy_header [] w = w
copy_header ((k, vs) ∷ h) w = copy_header h (record w { header = insert k vs w.header })

abbrev pub answer : Written → Writer → Writer
answer a w = record w { response = some a }

unfoldable pub write_plain : ℕ → Str → Writer → Writer
write_plain status body w = answer (wrote status body) (
    header_set (str "X-Content-Type-Options") (str "nosniff")
      (header_set (str "Content-Type") (str "text/plain; charset=utf-8") w))

-- What http.Redirect reads of the request: its method, and what it makes of a location, which it
-- takes relative to the request's path where it has no scheme and no leading slash, and escapes.
pub record Asker : Type 0 where
  pub method : Str
  pub resolved : Str → Str

abbrev pub is_get_or_head : Str → Bool
is_get_or_head m = str_eq m (str "GET") || str_eq m (str "HEAD")

-- `http.Redirect`; it writes a link as the body where it sets the type.
unfoldable pub http_redirect : Asker → Str → ℕ → Writer → Writer
unfolding lookup insert str_eq
http_redirect asker location code w =
    let located = header_set (str "Location") (asker.resolved location) w in
    answer (redirected code location) (
      if not (is_some (lookup (str "Content-Type") w.header)) && is_get_or_head asker.method
      then header_set (str "Content-Type") (str "text/html; charset=utf-8") located
      else located)

-- http.SetCookie of a printed cookie, which adds nothing for a cookie that cannot be printed.
abbrev pub add_cookie_line : Str → Writer → Writer
add_cookie_line [] w = w
add_cookie_line (b ∷ s) w = header_add (str "Set-Cookie") (b ∷ s) w

module _ (print : SetCookie → Str) where
  -- `Cookies.Apply`
  unfoldable pub apply : List SetCookie → Writer → Writer
  apply [] w = w
  apply (c ∷ out) w = apply out (add_cookie_line (print c) w)

  -- `if ev != nil { ev.Cookies.Apply(w) }`
  unfoldable pub apply_cookies : Option Pending → Writer → Writer
  unfolding apply
  apply_cookies none w = w
  apply_cookies (some ev) w = apply ev.cookies.out w

  -- The same with the headers of the event.
  unfoldable pub apply_event : Option Pending → Writer → Writer
  unfolding apply copy_header
  apply_event none w = w
  apply_event (some ev) w = copy_header ev.header (apply ev.cookies.out w)
