-- ===== src/Server/Resolve/Data.antt =====
-- server/pipeline.go, `resolve`: a data request to a route whose paths end in a slash.
use sveltego.Kit.PageOptions.{TrailingSlash, always}
use sveltego.Router.Segment.{Route}
use sveltego.Router.Table.{Tree}
use sveltego.Router.Resolve.{Params}
use sveltego.Server.Csrf.{Event, is_empty}
use sveltego.Server.Slash.{Url, is_blank}
use sveltego.Server.Slash.{
  trailing_slash_redirect, canonical_redirect, request_uri, escape_path, ends_with_slash,
}
use sveltego.Server.Actions.{ActionResult, redirect_response}
use sveltego.Server.Resolve.{Incoming, respond, is_data_path, data_suffix}
use sveltego.Server.Resolve.{path_to_match, find_route, serve_route, resolve}
use sveltego.Base.{
  ℕ, ◌-◌, ◌≡◌, refl, sym, ap, ◌∙◌, inl, inr, true, false, some, List, [], ◌∷◌, ◌++◌, if◌then◌else◌,
  Bool-cases, if_case, and_parts, length, take, drop, take-append-drop, Str, str, str_eq_iff, arith,
}
unfoldable use sveltego.Base.{str_eq, has_suffix}

ends_with_slash-append :
    (s : Str) (c : ℕ) (t : Str) → ends_with_slash (s ++ c ∷ t) ≡ ends_with_slash (c ∷ t)
unfolding ends_with_slash
ends_with_slash-append [] c t = refl
ends_with_slash-append (b ∷ []) c t = refl
ends_with_slash-append (b ∷ d ∷ s) c t = ends_with_slash-append (d ∷ s) c t

-- A data path does not end in a slash, and a path that does is no data path.
data_path_open : (p : Str) → is_data_path p ≡ true → ends_with_slash p ≡ false
unfolding has_suffix
data_path_open p h =
    let k = length p - length data_suffix in
    let same = (str_eq_iff (drop k p) data_suffix).0 (and_parts _ _ h).1 in
    let whole : p ≡ take k p ++ data_suffix =
      sym (take-append-drop k p) ∙ ap (λ t. take k p ++ t) same in
    ap ends_with_slash whole
    ∙ ends_with_slash-append (take k p) b'/' (str "__data.json")
    ∙ unfold ends_with_slash in refl

no_data_with_slash : (p : Str) → is_data_path (p ++ str "/") ≡ false
no_data_with_slash p = elim (Bool-cases (is_data_path (p ++ str "/"))) [
  | inr e ↦ e
  | inl e ↦
      let closed : ends_with_slash (p ++ str "/") ≡ true =
        ends_with_slash-append p b'/' [] ∙ unfold ends_with_slash in refl in
      absurd (ground (arith, closed, data_path_open (p ++ str "/") e))
]

some_append : (t q : Str) → is_empty t ≡ false → is_empty (t ++ q) ≡ false
some_append [] q h = absurd (ground (arith, h))
some_append (c ∷ t) q h = refl

location_some : (u : Url) (p : Str) → is_empty (canonical_redirect u p) ≡ false
unfolding canonical_redirect request_uri
location_some u p =
    let path = if str_eq p (str "*") then str "*" else escape_path p in
    some_append (if is_blank path then str "/" else path) _
      (if_case (λ t. is_empty t ≡ false) (is_blank path) (λ _. refl) (λ e. some_path path e))
  where
    some_path : (t : Str) → is_blank t ≡ false → is_empty t ≡ false
    some_path [] h = absurd (ground (arith, h))
    some_path (c ∷ t) h = refl

always_closes :
    (u : Url) (policy : TrailingSlash)
    → policy ≡ always
    → ends_with_slash u.path ≡ false
    → trailing_slash_redirect (some u) policy ≡ canonical_redirect u (u.path ++ str "/")
unfolding trailing_slash_redirect
always_closes u policy is h =
    ap (trailing_slash_redirect (some u)) is ∙ rw (trailing_slash_redirect, h) refl

module _ {D : Type 0} (tree : Tree) (fresh : Str) (names : Route → List Str)
    (run : Event → Str → ActionResult D) where
  route_redirects :
      (i : Incoming) (ev : Event) (r : Route)
      → is_empty (trailing_slash_redirect (some i.url) r.options.trailing_slash) ≡ false
      → (serve_route tree fresh names run i r ev).outcome
        ≡ respond
            (redirect_response 308 (trailing_slash_redirect (some i.url) r.options.trailing_slash))
  unfolding serve_route
  route_redirects i ev r h = rw (serve_route, h) refl

  -- A data request to a route with the policy Always is answered by status 308 and the location that
  -- has a slash behind its path, which is no data path: the data is not served.
  pub resolve-data_always :
      (i : Incoming) (ev : Event) (r : Route) (ps : Params)
      → find_route tree (path_to_match i.rewritten i.url) ≡ some (r, ps)
      → r.options.trailing_slash ≡ always
      → is_data_path i.url.path ≡ true
      → ((resolve tree fresh names run i ev).outcome
          ≡ respond (redirect_response 308 (canonical_redirect i.url (i.url.path ++ str "/"))))
        × (is_data_path (i.url.path ++ str "/") ≡ false)
  unfolding resolve
  resolve-data_always i ev r ps found policy data_path =
      let to =
        always_closes i.url r.options.trailing_slash policy (data_path_open i.url.path data_path) in
      let away = ap is_empty to ∙ location_some i.url (i.url.path ++ str "/") in
      let same : (resolve tree fresh names run i ev).outcome
          ≡ (serve_route tree fresh names run i r ev).outcome =
        rw (resolve, found) refl in
      (
        same ∙ route_redirects i ev r away ∙ ap (λ t. respond (redirect_response 308 t)) to,
        no_data_with_slash i.url.path,
      )
