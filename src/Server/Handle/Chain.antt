-- ===== src/Server/Handle/Chain.antt =====
-- Go's errors as the pipeline reads them: an error is the list of the errors that errors.As and
-- errors.Is visit, itself first. exports/kit/sentinels.go and exports/kit/hooks.go have the types.
use sveltego.Base.Decimal.{itoa}
use sveltego.Base.{
  ℕ, Bool, true, Option, none, some, List, [], ◌∷◌, ◌++◌, if◌then◌else◌, ◌==◌, Str, str,
}

pub record SafeError : Type 0 where
  pub code : ℕ
  pub message : Str
  pub id : Str

-- `RedirectErr`: the code, the location and whether the client has to reload.
pub record RedirectErr : Type 0 where
  pub code : ℕ
  pub location : Str
  pub force_reload : Bool

-- The data of a `FailErr` is not read. A user's error may implement kit.HTTPError, with its status
-- and its public text, and `httpStatuser`; its own text is the last part.
pub data Link : Type 0 where
  redirect_err : RedirectErr → Link
  http_err : ℕ → Str → Link
  fail_err : ℕ → Link
  safe_error : SafeError → Link
  server_route_wrote streaming_wrote : Link
  user_error : Option (ℕ × Str) → Option ℕ → Str → Link

abbrev pub Chain : Type 0
Chain = List Link

-- errors.As: the first error of a type; which one is of the type, a test says.
unfoldable pub errors_as {ℓ} : {A : Type ℓ} → (Link → Option A) → Chain → Option A
errors_as test [] = none
errors_as test (l ∷ e) = elim (test l) [ some a ↦ some a | none ↦ errors_as test e ]

abbrev pub redirect_of : Link → Option RedirectErr
redirect_of (redirect_err r) = some r
redirect_of _ = none

abbrev pub http_err_of : Link → Option (ℕ × Str)
http_err_of (http_err code message) = some (code, message)
http_err_of _ = none

abbrev pub fail_of : Link → Option ℕ
fail_of (fail_err code) = some code
fail_of _ = none

abbrev pub safe_of : Link → Option SafeError
safe_of (safe_error s) = some s
safe_of _ = none

-- kit.HTTPError
abbrev pub public_of : Link → Option (ℕ × Str)
public_of (user_error p _ _) = p
public_of _ = none

-- `errServerRouteWrote` and `errStreamingWrote`
abbrev pub wrote_of : Link → Option Bool
wrote_of server_route_wrote = some true
wrote_of streaming_wrote = some true
wrote_of _ = none

-- `SafeError.HTTPStatus`
unfoldable pub safe_status : SafeError → ℕ
safe_status s = if s.code == 0 then 500 else s.code

-- `httpStatuser`: the types of kit implement it too.
unfoldable pub status_of : Link → Option ℕ
unfolding safe_status
status_of (redirect_err r) = some r.code
status_of (http_err code _) = some code
status_of (fail_err code) = some code
status_of (safe_error s) = some (safe_status s)
status_of (user_error _ status _) = status
status_of _ = none

-- `Error` of each type; `status_text` is http.StatusText.
module _ (status_text : ℕ → Str) where
  -- `s` unless it is empty
  abbrev pub text_or : Str → Str → Str
  text_or [] fallback = fallback
  text_or (b ∷ s) fallback = b ∷ s

  unfoldable pub error_text : Link → Str
  unfolding itoa
  error_text (redirect_err r) = str "redirect " ++ itoa r.code ++ str " -> " ++ r.location
  error_text (http_err _ message) = message
  error_text (fail_err code) = str "fail " ++ itoa code
  error_text (safe_error s) = text_or s.message (text_or (status_text s.code) (status_text 500))
  error_text server_route_wrote = str "server: server route wrote response"
  error_text streaming_wrote = str "server: streaming response wrote"
  error_text (user_error _ _ text) = text

  -- fmt.Errorf around an error: a new error in front of its chain.
  unfoldable pub wrap : Str → Chain → Chain
  unfolding error_text
  wrap prefix [] = user_error none none prefix ∷ []
  wrap prefix (l ∷ e) = user_error none none (prefix ++ error_text l) ∷ l ∷ e
