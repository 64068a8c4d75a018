-- ===== src/Server/Handle/Fields.antt =====
-- server/errors.go: what one name holds in the header of a writer.
use sveltego.Base.Map.{lookup-insert, IsFunctional}
unfoldable use sveltego.Base.Map.{lookup, insert}
use sveltego.Http.{SetCookie}
use sveltego.Server.Handle.Writer.{
  Writer, Pending, Asker, redirected, Header, values_or_nil, header_set, add_cookie_line,
}
unfoldable use sveltego.Server.Handle.Writer.{
  http_redirect, apply, apply_cookies, apply_event, copy_header, write_plain,
}
unfoldable use sveltego.Base.{str_eq}
use sveltego.Base.{
  ℕ, ◌≡◌, refl, ap, ◌∙◌, false, Option, none, some, List, [], ◌∷◌, ◌++◌, arith, Str, str,
  str_eq_iff,
}

abbrev pub reload_header : Str
reload_header = str "X-Sveltego-Reload"

-- What one key holds after a header was set.
pub lookup-set :
    (k j : Str) (vs : List Str) (w : Writer)
    → str_eq j k ≡ false
    → lookup k (insert j vs w.header) ≡ lookup k w.header
lookup-set k j vs w other = ground (arith, lookup-insert j k vs w.header, other)

pub lookup-add_cookie_line :
    (k s : Str) (w : Writer)
    → str_eq (str "Set-Cookie") k ≡ false
    → lookup k (add_cookie_line s w).header ≡ lookup k w.header
lookup-add_cookie_line k [] w other = refl
lookup-add_cookie_line k (b ∷ s) w other =
    lookup-set k (str "Set-Cookie")
      (values_or_nil (lookup (str "Set-Cookie") w.header) ++ (b ∷ s) ∷ []) w other

abbrev pub or_first {ℓ} : {A : Type ℓ} → Option A → Option A → Option A
or_first none b = b
or_first (some a) b = some a

-- The copy of a header ends with that header's values.
pub lookup-copy_header :
    (k : Str) (h : Header) (w : Writer)
    → IsFunctional h
    → lookup k (copy_header h w).header ≡ or_first (lookup k h) (lookup k w.header)
unfolding copy_header lookup
lookup-copy_header k [] w f = refl
lookup-copy_header k ((j, us) ∷ h) w (fresh, f) = ground (
  arith,
  str_eq_iff j k,
  lookup-insert j k us w.header,
  lookup-copy_header k h (record w { header = insert j us w.header }) f,
)

-- The names that the error paths set themselves.
abbrev pub IsFree : Str → Type 0
IsFree k =
    (str_eq (str "Content-Type") k ≡ false)
    × (str_eq (str "X-Content-Type-Options") k ≡ false)
    × (str_eq (str "Content-Length") k ≡ false)
    × (str_eq reload_header k ≡ false)
    × (str_eq (str "Location") k ≡ false)

pub lookup-write_plain :
    (k : Str) (status : ℕ) (body : Str) (w : Writer)
    → IsFree k
    → lookup k (write_plain status body w).header ≡ lookup k w.header
unfolding write_plain
lookup-write_plain k status body w free =
    lookup-set k (str "X-Content-Type-Options") (str "nosniff" ∷ [])
      (header_set (str "Content-Type") (str "text/plain; charset=utf-8") w) free.1
    ∙ lookup-set k (str "Content-Type") (str "text/plain; charset=utf-8" ∷ []) w free.0

module _ (asker : Asker) (location : Str) (code : ℕ) (w : Writer) where
  pub lookup-http_redirect :
      (k : Str)
      → str_eq (str "Content-Type") k ≡ false
      → str_eq (str "Location") k ≡ false
      → lookup k (http_redirect asker location code w).header ≡ lookup k w.header
  unfolding http_redirect
  lookup-http_redirect k typed located =
      let located_w = header_set (str "Location") (asker.resolved location) w in
      let one = lookup-set k (str "Location") (asker.resolved location ∷ []) w located in
      let two =
        lookup-set k (str "Content-Type") (str "text/html; charset=utf-8" ∷ []) located_w typed in
      ground (arith, one, two)

  -- The header and the call that a redirect leaves.
  pub location-http_redirect :
      (lookup (str "Location") (http_redirect asker location code w).header
        ≡ some (asker.resolved location ∷ []))
      × ((http_redirect asker location code w).response ≡ some (redirected code location))
  unfolding http_redirect str_eq
  location-http_redirect =
      let located_w = header_set (str "Location") (asker.resolved location) w in
      let one =
        lookup-insert (str "Location") (str "Location") (asker.resolved location ∷ []) w.header in
      let two =
        lookup-set (str "Location") (str "Content-Type") (str "text/html; charset=utf-8" ∷ [])
          located_w refl in
      (ground (arith, one, two), ground arith)

module _ (print : SetCookie → Str) where
  -- Cookies go into one header and leave the others.
  lookup-apply :
      (k : Str)
      → str_eq (str "Set-Cookie") k ≡ false
      → (out : List SetCookie) (w : Writer)
      → lookup k (apply print out w).header ≡ lookup k w.header
  unfolding apply
  lookup-apply k other [] w = refl
  lookup-apply k other (c ∷ out) w =
      lookup-apply k other out (add_cookie_line (print c) w)
      ∙ lookup-add_cookie_line k (print c) w other

  pub lookup-apply_cookies :
      (k : Str)
      → str_eq (str "Set-Cookie") k ≡ false
      → (ev : Option Pending) (w : Writer)
      → lookup k (apply_cookies print ev w).header ≡ lookup k w.header
  unfolding apply_cookies
  lookup-apply_cookies k other none w = refl
  lookup-apply_cookies k other (some ev) w = lookup-apply k other ev.cookies.out w

  pub lookup-apply_event :
      (k : Str) (vs : List Str) (ev : Pending) (w : Writer)
      → IsFunctional ev.header
      → lookup k ev.header ≡ some vs
      → lookup k (apply_event print (some ev) w).header ≡ some vs
  unfolding apply_event
  lookup-apply_event k vs ev w f found =
      lookup-copy_header k ev.header (apply print ev.cookies.out w) f
      ∙ ap (λ o. or_first o (lookup k (apply print ev.cookies.out w).header)) found
