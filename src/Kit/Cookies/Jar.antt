-- ===== src/Kit/Cookies/Jar.antt =====
-- What the jar answers, and what it queues.
mod Tests
use sveltego.Base.Map.{lookup, insert, lookup-insert}
use sveltego.Http.{SetCookie, delete_now}
use sveltego.Kit.Cookies.{
  Cookies, CookieOpts, new_cookies, collect, get, build, set_cookie, set_exposed, delete_cookie,
  or_default,
}
use sveltego.Base.{
  ◌≡◌, refl, sym, ap, ◌∙◌, Bool, true, false, Option, none, some, List, [], ◌∷◌, ◌++◌, map,
  append-nil, arith, if◌then◌else◌, Str, str_eq,
}

-- The last cookie of a name in the request.
abbrev pub last_named : Str → List (Str × Str) → Option Str
last_named name [] = none
last_named name ((n, v) ∷ cookies) = elim (last_named name cookies) [
  | some w ↦ some w
  | none ↦ if str_eq n name then some v else none
]

lookup-collect :
    (name : Str) (cookies m : List (Str × Str))
    → lookup name (collect m cookies)
      ≡ elim (last_named name cookies) [ some w ↦ some w | none ↦ lookup name m ]
unfolding collect
lookup-collect name [] m = refl
lookup-collect name ((n, v) ∷ cookies) m =
    lookup-collect name cookies (insert n v m) ∙ ground (arith, lookup-insert n name v m)

-- One write to the jar, as a handler asks for it.
pub data Write : Type 0 where
  set_it exposed_it : Str → Str → CookieOpts → Write
  delete_it : Str → CookieOpts → Write

abbrev pub write : Cookies → Write → Cookies
write c (set_it name value opts) = set_cookie c name value opts
write c (exposed_it name value opts) = set_exposed c name value opts
write c (delete_it name opts) = delete_cookie c name opts

abbrev pub writes : Cookies → List Write → Cookies
writes c [] = c
writes c (w ∷ ws) = writes (write c w) ws

get-writes : (c : Cookies) (name : Str) (ws : List Write) → get (writes c ws) name ≡ get c name
unfolding get set_cookie set_exposed delete_cookie
get-writes c name [] = refl
get-writes c name (set_it n v o ∷ ws) = get-writes (set_cookie c n v o) name ws
get-writes c name (exposed_it n v o ∷ ws) = get-writes (set_exposed c n v o) name ws
get-writes c name (delete_it n o ∷ ws) = get-writes (delete_cookie c n o) name ws

-- Whatever a handler has written, Get answers the last cookie of the name in the request.
pub get-new_cookies :
    (cookies : List (Str × Str)) (tls : Bool) (name : Str) (ws : List Write)
    → get (writes (new_cookies (some (cookies, tls))) ws) name ≡ last_named name cookies
unfolding get new_cookies lookup
get-new_cookies cookies tls name ws =
    get-writes (new_cookies (some (cookies, tls))) name ws
    ∙ lookup-collect name cookies []
    ∙ ground arith

-- What one write queues: its name, its value, and whether scripts may read it, with the flag of the
-- options before the default.
abbrev pub queued : Write → Str × Str × Bool
queued (set_it name value opts) = (name, value, or_default true opts.http_only)
queued (exposed_it name value opts) = (name, value, or_default false opts.http_only)
queued (delete_it name opts) = (name, [], false)

abbrev pub summary : SetCookie → Str × Str × Bool
summary c = (c.name, c.value, c.http_only)

map_append_one :
    (out : List SetCookie) (q : SetCookie) (rest : List (Str × Str × Bool))
    → map summary (out ++ q ∷ []) ++ rest ≡ map summary out ++ summary q ∷ rest
map_append_one [] q rest = refl
map_append_one (p ∷ out) q rest = ap (◌∷◌ (summary p)) (map_append_one out q rest)

-- The queue holds one cookie for each write, in order, behind what it held before.
pub out-writes :
    (c : Cookies) (ws : List Write)
    → map summary (writes c ws).out ≡ map summary c.out ++ map queued ws
unfolding set_cookie set_exposed delete_cookie build
out-writes c [] = sym (append-nil (map summary c.out))
out-writes c (set_it n v o ∷ ws) =
    out-writes (set_cookie c n v o) ws ∙ map_append_one c.out (build c n v o true) (map queued ws)
out-writes c (exposed_it n v o ∷ ws) =
    out-writes (set_exposed c n v o) ws ∙ map_append_one c.out (build c n v o false) (map queued ws)
out-writes c (delete_it n o ∷ ws) =
    out-writes (delete_cookie c n o) ws ∙ map_append_one c.out _ (map queued ws)
