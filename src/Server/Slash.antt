-- ===== src/Server/Slash.antt =====
-- server/pipeline.go: the policy on trailing slashes. The empty location stands for no redirect.
pub mod Canonical
pub mod Location
mod Tests
use sveltego.Kit.PageOptions.{TrailingSlash, default, never, always, ignore}
use sveltego.Base.{
  ℕ, ◌+◌, ◌/◌, ◌%◌, Bool, true, false, ◌&&◌, ◌||◌, not, Option, none, some, [], ◌∷◌, ◌++◌, ltb, leb,
  if◌then◌else◌, ◌==◌, Str, str, str_eq,
}

-- What is read of a request's URL. Its opaque part is empty, as that of each request with a path is.
pub record Url : Type 0 where
  pub path : Str
  pub raw_query : Str
  pub force_query : Bool
  pub scheme : Str
  pub host : Str

abbrev slash : ℕ
slash = 47

-- `strings.HasSuffix(path, "/")`
unfoldable pub ends_with_slash : Str → Bool
ends_with_slash [] = false
ends_with_slash (b ∷ []) = b == 47
ends_with_slash (b ∷ c ∷ s) = ends_with_slash (c ∷ s)

abbrev pub keep_unless_slash : ℕ → Str → Str
keep_unless_slash b [] = if b == 47 then [] else b ∷ []
keep_unless_slash b (c ∷ s) = b ∷ c ∷ s

-- `strings.TrimRight(path, "/")`
unfoldable pub trim_slashes : Str → Str
trim_slashes [] = []
trim_slashes (b ∷ s) = keep_unless_slash b (trim_slashes s)

abbrev pub is_blank : Str → Bool
is_blank [] = true
is_blank (_ ∷ _) = false

-- net/url leaves these bytes of a path as they are.
abbrev pub is_plain : ℕ → Bool
is_plain b =
    (leb 97 b && leb b 122)
    || (leb 65 b && leb b 90)
    || (leb 48 b && leb b 57)
    || b == 45
    || b == 95
    || b == 46
    || b == 126
    || b == 36
    || b == 38
    || b == 43
    || b == 44
    || b == 47
    || b == 58
    || b == 59
    || b == 61
    || b == 64

abbrev pub upper_hex : ℕ → ℕ
upper_hex d = if ltb d 10 then 48 + d else 55 + d

abbrev pub escape_byte : ℕ → Str
escape_byte b = if is_plain b then b ∷ [] else 37 ∷ upper_hex (b / 16) ∷ upper_hex (b % 16) ∷ []

unfoldable pub escape_path : Str → Str
escape_path [] = []
escape_path (b ∷ s) = escape_byte b ++ escape_path s

unfoldable pub query_part : Url → Str
query_part u = if u.force_query || not (is_blank u.raw_query) then str "?" ++ u.raw_query else []

unfoldable pub toggle_path_slash : Str → Str
unfolding ends_with_slash trim_slashes
toggle_path_slash path =
    if str_eq path (str "/") || is_blank path
    then path
    else if ends_with_slash path
    then trim_slashes path
    else path ++ str "/"

-- `u.RequestURI()` after the path has changed. `EscapedPath` ignores a raw path that is not an encoding
-- of the path, as that of the path before the change is not.
unfoldable pub request_uri : Url → Str
unfolding escape_path query_part
request_uri u =
    let p = if str_eq u.path (str "*") then str "*" else escape_path u.path in
    (if is_blank p then str "/" else p) ++ query_part u

unfoldable pub canonical_redirect : Url → Str → Str
unfolding request_uri
canonical_redirect u path = request_uri (record u { path = path; scheme = []; host = [] })

unfoldable pub trailing_slash_redirect : Option Url → TrailingSlash → Str
unfolding canonical_redirect ends_with_slash trim_slashes
trailing_slash_redirect none policy = []
trailing_slash_redirect (some u) always =
    if not (ends_with_slash u.path) then canonical_redirect u (u.path ++ str "/") else []
trailing_slash_redirect (some u) never =
    if not (str_eq u.path (str "/")) && ends_with_slash u.path
    then canonical_redirect u (trim_slashes u.path)
    else []
trailing_slash_redirect (some u) default = []
trailing_slash_redirect (some u) ignore = []
