-- ===== src/Server/Slash/Tests.antt =====
-- Redirects of small paths.
use sveltego.Kit.PageOptions.{never}
use sveltego.Server.Slash.{
  Url, ends_with_slash, trim_slashes, escape_path, query_part, request_uri, canonical_redirect,
  trailing_slash_redirect,
}
use sveltego.Server.Slash.Canonical.{
  canonical, trailing_slash_redirect-canonical, trailing_slash_redirect-open,
}
use sveltego.Router.Split.{path_unescape}
use sveltego.Server.Slash.{is_blank}
use sveltego.Server.Slash.Location.{before_query, after_query}
use sveltego.Base.{arith, ◌≢◌, ◌⊎◌, String, ◌≡◌, refl, false, some, [], ◌++◌, str, str_eq}

abbrev at_path : String → Url
at_path p = record {
  path = str p;
  raw_query = str "q=1";
  force_query = false;
  scheme = [];
  host = [];
}

stripped : trailing_slash_redirect (some (at_path "/a b/")) never ≡ str "/a%20b?q=1"
unfolding trailing_slash_redirect ends_with_slash trim_slashes canonical_redirect request_uri
    escape_path query_part str_eq
stripped = refl

trailing_slash_redirect-canonical_example :
    let asked = canonical never (str "/a b/") in
    let location = trailing_slash_redirect (some (at_path "/a b/")) never in
    (((asked ≡ str "/a b/") × (location ≡ []))
      ⊎ ((asked ≢ str "/a b/")
          × (is_blank location ≡ false)
          × (path_unescape (before_query location) ≡ some asked)
          × (after_query location ≡ some (str "q=1"))))
    × (trailing_slash_redirect (some (record (at_path "/a b/") { path = asked })) never ≡ [])
trailing_slash_redirect-canonical_example =
    trailing_slash_redirect-canonical (at_path "/a b/") never (ground arith)

trailing_slash_redirect-open_example :
    trailing_slash_redirect (some (at_path "//h.x/")) never
    ≡ str "//" ++ (escape_path (str "h.x") ++ query_part (at_path "//h.x/"))
unfolding ends_with_slash
trailing_slash_redirect-open_example =
    trailing_slash_redirect-open (at_path "//h.x/") 104 (str ".x") refl refl
