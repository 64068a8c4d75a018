-- ===== src/Server/Handle/Hidden.antt =====
-- What the text of an error may do to the answer of server/errors.go: nothing.
use sveltego.Http.{SetCookie}
use sveltego.Server.Handle.Writer.{Writer, Pending, Asker}
use sveltego.Server.Handle.Chain.{
  Chain, Link, redirect_err, http_err, fail_err, safe_error, server_route_wrote, streaming_wrote,
  user_error, SafeError, redirect_of, http_err_of, fail_of, safe_of, public_of, wrote_of,
}
unfoldable use sveltego.Server.Handle.Chain.{errors_as, status_of, wrap}
use sveltego.Server.Handle.Errors.{Hooked, Boundary}
unfoldable use sveltego.Server.Handle.Errors.{
  handle_pipeline_error, handle_unmarked, after_hook, with_status,
}
use sveltego.Server.Handle.Entry.{failed, panicked_error}
unfoldable use sveltego.Server.Handle.Entry.{handle, run_handle, settle}
use sveltego.Base.{ℕ, ◌≡◌, refl, ap, true, Option, [], ◌∷◌, map, arith, Str, str}

-- An error without its own text.
abbrev pub redact : Link → Link
redact (user_error p status text) = user_error p status []
redact (redirect_err r) = redirect_err r
redact (http_err code message) = http_err code message
redact (fail_err code) = fail_err code
redact (safe_error s) = safe_error s
redact server_route_wrote = server_route_wrote
redact streaming_wrote = streaming_wrote

-- A test that reads no texts finds the same error without them.
module _ {ℓ} {A : Type ℓ} (test : Link → Option A)
    (same : (p : Option (ℕ × Str)) (s : Option ℕ) (t : Str)
      → test (user_error p s []) ≡ test (user_error p s t)) where
  test-redact : (l : Link) → test (redact l) ≡ test l
  test-redact (user_error p s t) = same p s t
  test-redact (redirect_err r) = refl
  test-redact (http_err code message) = refl
  test-redact (fail_err code) = refl
  test-redact (safe_error s) = refl
  test-redact server_route_wrote = refl
  test-redact streaming_wrote = refl

  pub errors_as-redact : (e : Chain) → errors_as test (map redact e) ≡ errors_as test e
  unfolding errors_as
  errors_as-redact [] = refl
  errors_as-redact (l ∷ e) = ground (arith, test-redact l, errors_as-redact e)

module _ (status_text : ℕ → Str) (print : SetCookie → Str) (head tail : Str) (asker : Asker)
    (hook : Option Pending → Chain → Hooked) (boundary : Option Boundary) where
  with_status-redact :
      (s : SafeError) (e : Chain)
      → with_status status_text print head tail asker hook boundary s (map redact e)
        ≡ with_status status_text print head tail asker hook boundary s e
  unfolding with_status status_of
  with_status-redact s e = ground (arith, errors_as-redact status_of (λ p s t. refl) e)

  handle_unmarked-redact :
      (ev : Option Pending) (e : Chain) (w : Writer)
      → hook ev (map redact e) ≡ hook ev e
      → handle_unmarked status_text print head tail asker hook boundary ev (map redact e) w
        ≡ handle_unmarked status_text print head tail asker hook boundary ev e w
  unfolding handle_unmarked after_hook
  handle_unmarked-redact ev e w answered = ground (
    arith,
    errors_as-redact safe_of (λ p s t. refl) e,
    errors_as-redact public_of (λ p s t. refl) e,
    with_status-redact (hook ev e).safe e,
  )

  pub handle_pipeline_error-redact :
      (ev : Option Pending) (e : Chain) (w : Writer)
      → hook ev (map redact e) ≡ hook ev e
      → handle_pipeline_error status_text print head tail asker hook boundary ev (map redact e) w
        ≡ handle_pipeline_error status_text print head tail asker hook boundary ev e w
  unfolding handle_pipeline_error
  handle_pipeline_error-redact ev e w answered = ground (
    arith,
    errors_as-redact redirect_of (λ p s t. refl) e,
    errors_as-redact http_err_of (λ p s t. refl) e,
    errors_as-redact fail_of (λ p s t. refl) e,
    handle_unmarked-redact ev e w answered,
  )

  -- The answer to a failed request does not depend on the texts of the user's own errors in the
  -- chain, if the HandleError hook answers the same without them.
  pub handle-redact :
      (ev : Option Pending) (e : Chain) (w : Writer)
      → hook ev (map redact e) ≡ hook ev e
      → handle status_text print head tail asker hook boundary ev (failed (map redact e)) w
        ≡ handle status_text print head tail asker hook boundary ev (failed e) w
  unfolding handle run_handle settle
  handle-redact ev e w answered = ground (
    arith,
    errors_as-redact wrote_of (λ p s t. refl) e,
    handle_pipeline_error-redact ev e w answered,
  )

  -- A panic with an error is answered as the return of that error is, if the HandleError hook
  -- answers the same to the error that `runHandle` wraps around it.
  pub handle-panicked :
      (ev : Option Pending) (e : Chain) (w : Writer)
      → hook ev (wrap status_text (str "server: pipeline panic: ") e) ≡ hook ev e
      → handle status_text print head tail asker hook boundary ev (panicked_error e) w
        ≡ handle status_text print head tail asker hook boundary ev (failed e) w
  unfolding handle run_handle settle wrap handle_pipeline_error handle_unmarked after_hook
      with_status errors_as status_of
  handle-panicked ev [] w answered =
      ap
        (λ h. record {
          writer = after_hook status_text print head tail asker hook boundary h [] w;
          drained = true;
        })
        answered
  handle-panicked ev (l ∷ e) w answered = ground (arith, answered)
