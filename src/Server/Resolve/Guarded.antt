-- ===== src/Server/Resolve/Guarded.antt =====
-- server/pipeline.go, `resolve`: which requests come to an action.
use sveltego.Router.Segment.{Route}
use sveltego.Router.Table.{Tree}
use sveltego.Router.Resolve.{Params}
use sveltego.Server.Csrf.{Event, is_empty}
use sveltego.Server.Csrf.{apply_csrf, csrf_applies}
use sveltego.Server.Csrf.Gate.{Carries, apply_csrf-post}
use sveltego.Server.Slash.{trailing_slash_redirect}
use sveltego.Server.Actions.{ActionResult, Dispatched, is_nil}
use sveltego.Server.Actions.{action_name_from_query, is_listed, dispatch_action}
use sveltego.Server.Resolve.{Incoming, Resolved, is_data_path, is_svelte}
use sveltego.Server.Resolve.{
  path_to_match, find_route, after_csrf, serve_page, serve_route, resolve,
}
use sveltego.Base.{
  ◌≡◌, refl, ap, ◌≢◌, ◌⊎◌, inl, inr, true, false, ◌&&◌, not, none, some, List, [], ◌∷◌, if_case,
  Bool-cases, Option-cases, Str, str, str_eq_iff, arith,
}
unfoldable use sveltego.Base.{str_eq}

-- What holds of a request whose action was called: `r` is the route and `ran` the actions.
pub record Guarded (names : Route → List Str) (i : Incoming) (ev : Event) (r : Route)
    (ran : List Str) : Type 0 where
  pub is_post : i.request.method ≡ str "POST"
  pub is_page : is_data_path i.url.path ≡ false
  pub one : ran ≡ action_name_from_query i.url.raw_query ∷ []
  pub listed : is_listed (action_name_from_query i.url.raw_query) (names r) ≡ true
  pub actions : r.actions ≡ true
  pub csrf : (csrf_applies (some r) ≡ false) ⊎ ((t : Str) × Carries ev i.request t)

module _ {D : Type 0} (tree : Tree) (fresh : Str) (names : Route → List Str)
    (run : Event → Str → ActionResult D) where
  dispatch_ran :
      (ns : List Str) (act : Str → ActionResult D) (query : Str) (r : Route)
      → (dispatch_action ns act query r).1 ≢ []
      → ((dispatch_action ns act query r).1 ≡ action_name_from_query query ∷ [])
        × (is_listed (action_name_from_query query) ns ≡ true)
        × (r.actions ≡ true)
  unfolding dispatch_action
  dispatch_ran ns act query r =
      if_case Ran (not r.actions) (λ _ ne. absurd (ne refl))
        λ has.
          if_case Ran (is_nil ns) (λ _ ne. absurd (ne refl))
            λ _.
              if_case Ran (is_listed name ns) (λ listed _. (refl, listed, ground (arith, has)))
                (λ _ ne. absurd (ne refl))
    where
      name : Str
      name = action_name_from_query query

      Ran : Dispatched D × List Str → Type 0
      Ran d = d.1 ≢ [] → (d.1 ≡ name ∷ []) × (is_listed name ns ≡ true) × (r.actions ≡ true)

  checked-Carries :
      (i : Incoming) (ev : Event) (r : Route)
      → i.request.method ≡ str "POST"
      → (apply_csrf fresh i.request ev (some r)).1 ≡ none
      → (csrf_applies (some r) ≡ false) ⊎ ((t : Str) × Carries ev i.request t)
  checked-Carries i ev r post passed = elim (Bool-cases (csrf_applies (some r))) [
    | inr e ↦ inl e
    | inl e ↦ elim (apply_csrf-post fresh i.request ev (some r) e post) [
      | inl (t, carries, _) ↦ inr (t, carries)
      | inr (_, cut) ↦ absurd (let done = ap (λ q. q.1) cut.1 in ground (arith, done, passed))
    ]
  ]

  page_Guarded :
      (i : Incoming) (ev : Event) (r : Route)
      → (serve_page tree fresh names run i r ev).ran ≢ []
      → Guarded names i ev r (serve_page tree fresh names run i r ev).ran
  unfolding serve_page after_csrf
  page_Guarded i ev r =
      let checked = apply_csrf fresh i.request ev (some r) in
      if_case Safe (is_data_path i.url.path)
        (λ _. if_case Safe r.options.ssr_only (λ _ ne. absurd (ne refl)) (λ _ ne. absurd (ne refl)))
        λ page. (elim (Option-cases checked.1) [
          | inr (p, e) ↦ rw e (λ ne. absurd (ne refl))
          | inl e ↦ rw e (
              if_case Safe (str_eq i.request.method (str "POST"))
                (λ post ne.
                  let is_post = (str_eq_iff i.request.method (str "POST")).0 post in
                  let d = dispatch_ran (names r) (run checked.0) i.url.raw_query r ne in
                  record {
                    is_post = is_post;
                    is_page = page;
                    one = d.0;
                    listed = d.1;
                    actions = d.2;
                    csrf = checked-Carries i ev r is_post e;
                  })
                (λ _ ne. absurd (ne refl)))
        ])
    where
      Safe : Resolved D → Type 0
      Safe res = res.ran ≢ [] → Guarded names i ev r res.ran

  route_Guarded :
      (i : Incoming) (ev : Event) (r : Route)
      → (serve_route tree fresh names run i r ev).ran ≢ []
      → Guarded names i ev r (serve_route tree fresh names run i r ev).ran
        × (trailing_slash_redirect (some i.url) r.options.trailing_slash ≡ [])
        × (r.server ≡ [])
  unfolding serve_route
  route_Guarded i ev r =
      if_case Safe (not (is_empty location)) (λ _ ne. absurd (ne refl))
        λ stays.
          if_case Safe (not (is_nil r.server)) (λ _ ne. absurd (ne refl))
            λ bare.
              if_case Safe (not (is_svelte r) && not r.page) (λ _ ne. absurd (ne refl))
                λ _ ne. (
                  page_Guarded i ev r ne,
                  empty location (ground (arith, stays)),
                  nil r.server (ground (arith, bare)),
                )
    where
      location : Str
      location = trailing_slash_redirect (some i.url) r.options.trailing_slash

      Safe : Resolved D → Type 0
      Safe res = res.ran ≢ [] → Guarded names i ev r res.ran × (location ≡ []) × (r.server ≡ [])

      nil : (ms : List Str) → is_nil ms ≡ true → ms ≡ []
      nil [] h = refl
      nil (m ∷ ms) h = absurd (ground (arith, h))

      empty : (t : Str) → is_empty t ≡ true → t ≡ []
      empty [] h = refl
      empty (c ∷ t) h = absurd (ground (arith, h))

  -- An action is called only for a POST, that is no data request, to a matched route that asks for no
  -- redirect of the path, has actions and no handlers of its own for methods. It is one action, that
  -- which the query names, and the route lists it. If the route has the CSRF check, the request
  -- carries one token that is not empty both in the cookie and as the submitted one.
  pub resolve-Guarded :
      (i : Incoming) (ev : Event)
      → (resolve tree fresh names run i ev).ran ≢ []
      → (r : Route) × (ps : Params) × (find_route tree (path_to_match i.rewritten i.url)
          ≡ some (r, ps))
        × Guarded names i ev r (resolve tree fresh names run i ev).ran
        × (trailing_slash_redirect (some i.url) r.options.trailing_slash ≡ [])
        × (r.server ≡ [])
  unfolding resolve
  resolve-Guarded i ev = elim (Option-cases (find_route tree (path_to_match i.rewritten i.url))) [
    | inl e ↦ rw (resolve, e) (λ ne. absurd (ne refl))
    | inr (found, e) ↦
        rw (resolve, e)
          (λ ne. (
            found.0,
            found.1,
            refl,
            (route_Guarded i ev found.0 ne).0,
            (route_Guarded i ev found.0 ne).1,
            (route_Guarded i ev found.0 ne).2,
          ))
  ]
