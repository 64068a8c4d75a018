-- ===== src/Server/Csrf/Gate.antt =====
-- Which requests the check lets through, and what it hands to the renderer.
use sveltego.Base.Map.{lookup}
use sveltego.Http.{SetCookie, seconds}
use sveltego.Kit.Cookies.{get, build, set_cookie}
use sveltego.Router.Segment.{Route}
use sveltego.Server.Csrf.{
  cookie_name, field_name, Request, Event, Response, text_or_empty, csrf_token, set_csrf_token,
  csrf_token_equal, csrf_applies, forbidden_response, submitted_token, token_opts, seed, apply_csrf,
}
use sveltego.Base.{
  ℕ, ◌≡◌, refl, sym, ap, ◌∙◌, ◌≢◌, ◌↔◌, ◌⊎◌, inl, inr, Bool, true, false, not, Option, none, some,
  [], ◌∷◌, ◌++◌, arith, if◌then◌else◌, Bool-cases, Str, str, str_eq, str_eq_iff,
}

equal_iff :
    (cookie submitted : Str)
    → (csrf_token_equal cookie submitted ≡ true) ↔ ((cookie ≢ []) × (cookie ≡ submitted))
unfolding csrf_token_equal
equal_iff [] submitted = ground arith
equal_iff (b ∷ cookie) [] = ground arith
equal_iff (b ∷ cookie) (c ∷ submitted) = ground (arith, str_eq_iff (b ∷ cookie) (c ∷ submitted))

-- The decision, in terms of the cookie as it is stored.
decides :
    (o : Option Str) (submitted : Str)
    → (csrf_token_equal (text_or_empty o) submitted ≡ true)
      ↔ ((t : Str) × (o ≡ some t) × (t ≢ []) × (submitted ≡ t))
decides none submitted = (λ h. absurd (((equal_iff [] submitted).0 h).0 refl), λ (t, e, _, _). cc)
decides (some t) submitted = (
  λ h. let (ne, same) = (equal_iff t submitted).0 h in (t, refl, ne, sym same),
  λ (u, e, ne, same).
      let t_is : t ≡ u = cc in
      (equal_iff t submitted).1 ((λ z. ne (sym t_is ∙ z)), t_is ∙ sym same),
)

module _ (fresh : Str) (r : Request) (ev : Event) (route : Option Route) where
  on_post :
      (same : Bool)
      → csrf_applies route ≡ true
      → r.method ≡ str "POST"
      → csrf_token_equal (text_or_empty (get ev.cookies cookie_name)) (submitted_token r) ≡ same
      → apply_csrf fresh r ev route ≡ (
          if not same
          then (ev, some (forbidden_response (str "forbidden: csrf token missing or invalid")))
          else (set_csrf_token ev (text_or_empty (get ev.cookies cookie_name)), none))
  unfolding apply_csrf
  on_post same applies post e =
      simp (apply_csrf, applies, (str_eq_iff r.method (str "POST")).1 post, e)

-- The request has the token `t`, which is not empty, both in the CSRF cookie and as the submitted
-- one, which is the form field or, where that is missing or empty, the header.
abbrev pub Carries : Event → Request → Str → Type 0
Carries ev r t = (get ev.cookies cookie_name ≡ some t) × (t ≢ []) × (submitted_token r ≡ t)

-- On a route with actions and CSRF enabled, a POST passes, with the token handed to the renderer, if
-- cookie and submission carry the same token that is not empty. If there is no such token it is
-- answered with status 403 and the event stays as it was.
pub apply_csrf-post :
    (fresh : Str) (r : Request) (ev : Event) (route : Option Route)
    → csrf_applies route ≡ true
    → r.method ≡ str "POST"
    → ((t : Str) × Carries ev r t
        × (apply_csrf fresh r ev route ≡ (record ev { token = some t }, none)))
      ⊎ (((t : Str) → Carries ev r t → ⊥)
          × ((p : Response) × (apply_csrf fresh r ev route ≡ (ev, some p)) × (p.status ≡ 403)))
unfolding set_csrf_token forbidden_response
apply_csrf-post fresh r ev route applies post =
    let o = get ev.cookies cookie_name in
    let sub = submitted_token r in
    elim (Bool-cases (csrf_token_equal (text_or_empty o) sub)) [
      | inl same ↦
          let (t, held, ne, e) = (decides o sub).0 same in
          let value : text_or_empty o ≡ t = ap text_or_empty held in
          inl (
            t,
            (held, ne, e),
            on_post fresh r ev route true applies post same
                ∙ ap (λ v. (record ev { token = some v }, none)) value,
          )
      | inr differ ↦ inr (
        (λ t h. let same = (decides o sub).1 (t, h.0, h.1, h.2) in cc),
        (
          forbidden_response (str "forbidden: csrf token missing or invalid"),
          on_post fresh r ev route false applies post differ,
          refl,
        ),
      )
    ]

-- A request that is not a POST, or that goes to a route without the check, is never cut short.
pub apply_csrf-passes :
    (fresh : Str) (r : Request) (ev : Event) (route : Option Route)
    → (csrf_applies route ≡ false) ⊎ (r.method ≢ str "POST")
    → (apply_csrf fresh r ev route).1 ≡ none
unfolding apply_csrf
apply_csrf-passes fresh r ev route h = ground (arith, str_eq_iff r.method (str "POST"))

seeded :
    (b : ℕ) (fresh : Str) (r : Request) (ev : Event) (route : Option Route)
    → csrf_applies route ≡ true
    → r.method ≡ str "GET"
    → get ev.cookies cookie_name ≡ none
    → apply_csrf (b ∷ fresh) r ev route ≡ (
      record ev {
        cookies = set_cookie ev.cookies cookie_name (b ∷ fresh) token_opts;
        token = some (b ∷ fresh);
      },
      none,
    )
unfolding apply_csrf seed set_csrf_token str_eq
seeded b fresh r ev route applies is_get absent =
    simp (apply_csrf, applies, is_get, absent, seed, set_csrf_token)

submitted_field :
    (b : ℕ) (t : Str) (r : Request)
    → lookup field_name r.form ≡ some (b ∷ t)
    → submitted_token r ≡ b ∷ t
unfolding submitted_token
submitted_field b t r e = rw (submitted_token, e) refl

-- The double submit works: where a GET on a route with the check finds no cookie and a fresh token
-- (b ∷ rest) is to be had, it queues one cookie with that token, which scripts cannot read, and gives the renderer
-- the token; a later POST that returns the cookie and puts the renderer's token in the form passes.
pub apply_csrf-double_submit :
    (b : ℕ) (rest again : Str) (r post : Request) (ev later : Event) (route : Option Route)
    → csrf_applies route ≡ true
    → r.method ≡ str "GET"
    → get ev.cookies cookie_name ≡ none
    → post.method ≡ str "POST"
    → get later.cookies cookie_name ≡ some (b ∷ rest)
    → lookup field_name post.form ≡ some (csrf_token (some (apply_csrf (b ∷ rest) r ev route).0))
    → ((c : SetCookie) × ((apply_csrf (b ∷ rest) r ev route).0.cookies.out
          ≡ ev.cookies.out ++ c ∷ [])
        × (c.name ≡ cookie_name)
        × (c.value ≡ (b ∷ rest))
        × (c.http_only ≡ true)
        × (c.max_age ≡ seconds 86400))
      × ((apply_csrf again post later route).1 ≡ none)
unfolding set_cookie build csrf_token
apply_csrf-double_submit b rest again r post ev later route applies is_get absent is_post returned
      form =
    let done = seeded b rest r ev route applies is_get absent in
    let field : lookup field_name post.form ≡ some (b ∷ rest) =
      form ∙ ap (λ q. some (csrf_token (some q.0))) done in
    (
      (
        build ev.cookies cookie_name (b ∷ rest) token_opts true,
        ap (λ q. q.0.cookies.out) done,
        refl,
        refl,
        refl,
        refl,
      ),
      elim (apply_csrf-post again post later route applies is_post) [
        | inl (t, _, passed) ↦ ap (λ q. q.1) passed
        | inr (never, _) ↦
            absurd (never (b ∷ rest) (returned, (λ e. cc), submitted_field b rest post field))
      ],
    )
