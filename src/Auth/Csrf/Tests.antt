-- ===== src/Auth/Csrf/Tests.antt =====
-- A form that is posted with the token of its page.
use mathlib.Core.List.{Memᴰ}
use sveltego.Base.Map.{lookup}
use sveltego.Http.{SetCookie}
use sveltego.Auth.Csrf.{
  Csrf, new_csrf, Request, state_mutating, forbidden, issue_failed, served, submitted, origin_of,
  middleware,
}
use sveltego.Auth.Csrf.Verify.{
  OriginPasses, TokenPasses, middleware-mutating, middleware-double_submit,
}
use sveltego.Base.{
  ◌≡◌, refl, ◌↔◌, ◌⊎◌, inr, false, Option, none, some, [], ◌∷◌, if◌then◌else◌, Str, str, str_eq,
}

abbrev no_url : Str → Option (Str × Str)
no_url s = none

abbrev visit : Request
visit = record { method = str "GET"; cookies = []; header = λ _. []; form = λ _. [] }

abbrev post : Request
post = record {
  method = str "POST";
  cookies = (str "__Host-sveltego-csrf", str "t1") ∷ [];
  header = λ h. if str_eq h (str "Origin") then str "https://a.b" else [];
  form = λ _. str "t1";
}

abbrev guarded : Csrf
guarded = record new_csrf { trusted_origins = str "https://a.b" ∷ [] }

middleware-mutating_example :
    ((middleware no_url guarded none post ≡ served none)
      ↔ (OriginPasses no_url guarded post × TokenPasses guarded post))
    × ((middleware no_url guarded none post ≡ served none)
        ⊎ (middleware no_url guarded none post ≡ forbidden))
unfolding state_mutating str_eq
middleware-mutating_example = middleware-mutating no_url guarded none post refl

middleware-double_submit_example :
    ((k : SetCookie) × (middleware no_url guarded (some (str "t1")) visit ≡ served (some k))
      × (k.name ≡ str "__Host-sveltego-csrf")
      × (k.value ≡ str "t1")
      × (k.http_only ≡ false))
    × (middleware no_url guarded none visit ≡ issue_failed)
    × (middleware no_url guarded none post ≡ served none)
unfolding state_mutating str_eq lookup submitted origin_of
middleware-double_submit_example =
    middleware-double_submit no_url guarded (str "t1") none visit post refl refl
      (inr ((λ e. cc), Memᴰ.head refl)) (λ e. cc) refl refl
