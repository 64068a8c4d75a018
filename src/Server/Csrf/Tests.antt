-- ===== src/Server/Csrf/Tests.antt =====
-- Requests with and without the token.
use sveltego.Base.Map.{lookup}
use sveltego.Http.{SetCookie, seconds}
use sveltego.Kit.PageOptions.{default_page_options}
use sveltego.Kit.Cookies.{get}
use sveltego.Router.Segment.{Route}
use sveltego.Server.Csrf.{
  cookie_name, Request, Event, Response, csrf_token, csrf_applies, apply_csrf, seed, set_csrf_token,
}
use sveltego.Server.Csrf.Gate.{Carries, apply_csrf-post, apply_csrf-double_submit}
use sveltego.Base.{◌≡◌, refl, ◌⊎◌, true, false, none, some, [], ◌∷◌, ◌++◌, Str, str, str_eq}

abbrev form_route : Route
form_route = record {
  id = [];
  pattern = str "/form";
  segments = [];
  page = true;
  server = [];
  load = false;
  actions = true;
  options = default_page_options;
}

abbrev visit : Request
visit = record { method = str "GET"; form = []; headers = [] }

abbrev submit : Request
submit = record { method = str "POST"; form = (str "_csrf_token", str "t1") ∷ []; headers = [] }

abbrev first_event : Event
first_event = record { cookies = record { inbox = []; out = []; https = true }; token = none }

abbrev event : Event
event = record {
  cookies = record { inbox = (str "_csrf", str "t1") ∷ []; out = []; https = true };
  token = none;
}

apply_csrf-post_example :
    ((t : Str) × Carries event submit t
      × (apply_csrf (str "f") submit event (some form_route)
          ≡ (record event { token = some t }, none)))
    ⊎ (((t : Str) → Carries event submit t → ⊥)
        × ((p : Response) × (apply_csrf (str "f") submit event (some form_route) ≡ (event, some p))
            × (p.status ≡ 403)))
unfolding csrf_applies
apply_csrf-post_example = apply_csrf-post (str "f") submit event (some form_route) refl refl

apply_csrf-double_submit_example :
    ((c : SetCookie) × ((apply_csrf (str "t1") visit first_event (some form_route)).0.cookies.out
        ≡ [] ++ c ∷ [])
      × (c.name ≡ cookie_name)
      × (c.value ≡ str "t1")
      × (c.http_only ≡ true)
      × (c.max_age ≡ seconds 86400))
    × ((apply_csrf (str "x") submit event (some form_route)).1 ≡ none)
unfolding csrf_applies get lookup str_eq apply_csrf seed set_csrf_token csrf_token
apply_csrf-double_submit_example =
    apply_csrf-double_submit 116 (str "1") (str "x") visit submit first_event event
      (some form_route) refl refl refl refl refl refl
