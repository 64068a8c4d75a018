-- ===== src/Server/Actions.antt =====
-- server/actions.go and server/enhance.go: a form's action, and its answer to a script. What the
-- action returns is a parameter, `D` is what it hands to the page, and an envelope is not encoded.
use sveltego.Router.Segment.{Route}
use sveltego.Server.Csrf.{Request, Response, text_or_empty, is_empty}
use sveltego.Base.Map.{lookup}
use sveltego.Base.{
  ℕ, Bool, true, false, not, Option, none, some, List, [], ◌∷◌, ◌++◌, leb, if◌then◌else◌, ◌==◌, Str,
  str, String,
}
unfoldable use sveltego.Base.{str_eq}

-- The variants of kit.ActionResult, nil, and a value that is none of them.
pub data ActionResult (D : Type 0) : Type 0 where
  action_redirect : ℕ → Str → ActionResult D
  action_data : ℕ → D → ActionResult D
  action_fail : ℕ → D → ActionResult D
  action_nil : ActionResult D
  action_unknown : ActionResult D

pub record FormData (D : Type 0) : Type 0 where
  pub code : ℕ
  pub data_of : D

-- What is sent as JSON to a form that was sent by script.
pub data EnvelopeData (D : Type 0) : Type 0 where
  no_data : EnvelopeData D
  message : Str → EnvelopeData D
  payload : D → EnvelopeData D

pub record Envelope (D : Type 0) : Type 0 where
  pub type_of : Str
  pub status : ℕ
  pub content : EnvelopeData D
  pub location : Str

-- The return values of `dispatchAction`.
pub data Dispatched (D : Type 0) : Type 0 where
  answered : Response → Dispatched D
  fell_through : Option (FormData D) → Dispatched D
  unknown_result : Dispatched D

abbrev pub code_or : ℕ → ℕ → ℕ
code_or code fallback = if code == 0 then fallback else code

abbrev pub redirect_response : ℕ → Str → Response
redirect_response code location = record {
  status = code;
  headers = (str "Location", location) ∷ [];
  body = [];
}

-- kit.MethodNotAllowed for GET alone, through kit.Text.
abbrev pub only_get : Response
only_get = record {
  status = 405;
  headers =
      (str "Content-Type", str "text/plain; charset=utf-8")
      ∷ (str "Content-Length", str "23")
      ∷ (str "Allow", str "GET")
      ∷ [];
  body = str "405 method not allowed" ++ 10 ∷ [];
}

abbrev pub action_not_found : Str → Response
action_not_found name = record {
  status = 404;
  headers = (str "Content-Type", str "text/plain; charset=utf-8") ∷ [];
  body = str "action not found: " ++ name;
}

-- The parts of a query between the `&`.
unfoldable pub query_parts : Str → List Str
query_parts [] = [] ∷ []
query_parts (b ∷ s) = elim (query_parts s) [
  | [] ↦ (b ∷ []) ∷ []
  | part ∷ parts ↦ if b == b'&' then [] ∷ part ∷ parts else (b ∷ part) ∷ parts
]

unfoldable pub before_equals : Str → Str
before_equals [] = []
before_equals (b ∷ s) = let rest = before_equals s in if b == b'=' then [] else b ∷ rest

abbrev pub name_or_default : Str → Str
name_or_default name = if is_empty name then str "default" else name

-- The loop of `actionNameFromQuery`: the first part with a slash in front.
unfoldable pub first_action : List Str → Str
unfolding before_equals
first_action [] = str "default"
first_action ([] ∷ parts) = first_action parts
first_action ((b ∷ name) ∷ parts) =
    let rest = first_action parts in
    if b == b'/' then name_or_default (before_equals name) else rest

unfoldable pub action_name_from_query : Str → Str
unfolding query_parts first_action
action_name_from_query raw = first_action (query_parts raw)

abbrev pub is_nil : List Str → Bool
is_nil [] = true
is_nil (_ ∷ _) = false

unfoldable pub is_listed : Str → List Str → Bool
unfolding str_eq
is_listed n [] = false
is_listed n (m ∷ ms) = let rest = is_listed n ms in if str_eq m n then true else rest

module _ {D : Type 0} where
  -- The switch of `dispatchAction`.
  unfoldable pub dispatched : ActionResult D → Dispatched D
  dispatched (action_redirect code location) =
      answered (redirect_response (code_or code 303) location)
  dispatched (action_data code d) =
      fell_through (some (record { code = code_or code 200; data_of = d }))
  dispatched (action_fail code d) =
      fell_through (some (record { code = code_or code 400; data_of = d }))
  dispatched action_nil = fell_through none
  dispatched action_unknown = unknown_result

  -- `names` are the keys of the route's action map, none if it is no map; the second part is the
  -- actions that were called.
  unfoldable pub dispatch_action :
      List Str → (Str → ActionResult D) → Str → Route → Dispatched D × List Str
  unfolding dispatched action_name_from_query is_listed
  dispatch_action names run raw_query route =
      let name = action_name_from_query raw_query in
      if not route.actions
      then (answered only_get, [])
      else if is_nil names
      then (answered only_get, [])
      else if is_listed name names
      then (dispatched (run name), name ∷ [])
      else (answered (action_not_found name), [])

  abbrev pub envelope : String → ℕ → EnvelopeData D → Str → Envelope D
  envelope kind status content location = record {
    type_of = str kind;
    status = status;
    content = content;
    location = location;
  }

  -- `enhanceResponse`, and the answer where the CSRF check fails.
  unfoldable pub enhance_response : Response → Envelope D
  enhance_response r =
      let location = text_or_empty (lookup (str "Location") r.headers) in
      if is_empty location
      then envelope "error" r.status (message r.body) []
      else envelope "redirect" r.status no_data location

  unfoldable pub enhance_form : Option (FormData D) → Envelope D
  enhance_form none = envelope "success" 200 no_data []
  enhance_form (some f) =
      envelope (if leb 400 f.code then "failure" else "success") f.code (payload f.data_of) []

  abbrev pub enhance_forbidden : Envelope D
  enhance_forbidden = envelope "error" 403 (message (str "csrf token missing or invalid")) []

unfoldable pub is_enhance_request : Request → Bool
unfolding str_eq
is_enhance_request r = str_eq (text_or_empty (lookup (str "X-Sveltego-Action") r.headers)) (str "1")
