-- ===== src/Server/Handle/Signals.antt =====
-- server/errors.go: an error that the HandleError hook returns, against the same error out of Load.
use sveltego.Base.Map.{lookup-insert}
unfoldable use sveltego.Base.Map.{lookup}
use sveltego.Http.{SetCookie}
use sveltego.Server.Handle.Writer.{Writer, Pending, Asker, redirected, header_set}
unfoldable use sveltego.Server.Handle.Writer.{http_redirect, apply_cookies, apply_event}
use sveltego.Server.Handle.Chain.{
  Chain, RedirectErr, redirect_of, http_err_of, fail_of, safe_of, public_of,
}
unfoldable use sveltego.Server.Handle.Chain.{errors_as}
use sveltego.Server.Handle.Errors.{Hooked, Boundary}
unfoldable use sveltego.Server.Handle.Errors.{
  handle_pipeline_error, handle_unmarked, after_hook, short_circuit_with, redirect_to,
}
use sveltego.Server.Handle.Fields.{
  lookup-apply_cookies, lookup-http_redirect, location-http_redirect, reload_header,
}
unfoldable use sveltego.Base.{str_eq}
use sveltego.Base.{ℕ, ◌≡◌, refl, ap, ◌∙◌, true, false, Option, none, some, [], ◌∷◌, arith, Str, str}

module _ (status_text : ℕ → Str) (print : SetCookie → Str) (head tail : Str) (asker : Asker)
    (hook : Option Pending → Chain → Hooked) (boundary : Option Boundary) where
  -- An error without a mark of kit is answered by the hook's own error where there is one.
  handle_pipeline_error-asked :
      (ev : Option Pending) (e e' : Chain) (w : Writer)
      → errors_as redirect_of e ≡ none
      → errors_as http_err_of e ≡ none
      → errors_as fail_of e ≡ none
      → errors_as safe_of e ≡ none
      → errors_as public_of e ≡ none
      → (hook ev e).short_circuit ≡ some e'
      → handle_pipeline_error status_text print head tail asker hook boundary ev e w
        ≡ short_circuit_with status_text print head tail asker hook boundary (hook ev e).event e' w
  unfolding handle_pipeline_error handle_unmarked after_hook
  handle_pipeline_error-asked ev e e' w n0 n1 n2 n3 n4 asked = ground arith

  module _ (ev : Option Pending) (e : Chain) (r : RedirectErr) (w : Writer)
      (found : errors_as redirect_of e ≡ some r) where
    -- A redirect out of the hook takes the cookies alone.
    short_circuit_with-redirect :
        short_circuit_with status_text print head tail asker hook boundary ev e w
        ≡ http_redirect asker r.location r.code (apply_cookies print ev w)
    unfolding short_circuit_with
    short_circuit_with-redirect = ground arith

    handle_pipeline_error-redirect :
        handle_pipeline_error status_text print head tail asker hook boundary ev e w
        ≡ redirect_to status_text print head tail asker hook boundary ev r w
    unfolding handle_pipeline_error
    handle_pipeline_error-redirect = ground arith

    redirect_to-reload :
        r.force_reload ≡ true
        → redirect_to status_text print head tail asker hook boundary ev r w
          ≡ http_redirect asker r.location r.code
              (header_set reload_header (str "1") (apply_event print ev w))
    unfolding redirect_to
    redirect_to-reload reload = ground arith

  -- `r` is a redirect that asks the client to reload, found first in the error `e'`. If the hook
  -- returns `e'` for an error without a mark of kit, the response redirects as `r` says, but every
  -- header other than Set-Cookie, Location and Content-Type, the reload header among them, is as the
  -- writer had it before; the same `e'` out of the pipeline, with the event as the hook left it,
  -- redirects to the same place with the reload header set. Both set Location.
  pub handle_pipeline_error-reload :
      (ev : Option Pending) (e e' : Chain) (r : RedirectErr) (w : Writer) (k : Str)
      → errors_as redirect_of e ≡ none
      → errors_as http_err_of e ≡ none
      → errors_as fail_of e ≡ none
      → errors_as safe_of e ≡ none
      → errors_as public_of e ≡ none
      → (hook ev e).short_circuit ≡ some e'
      → errors_as redirect_of e' ≡ some r
      → r.force_reload ≡ true
      → str_eq (str "Set-Cookie") k ≡ false
      → str_eq (str "Location") k ≡ false
      → str_eq (str "Content-Type") k ≡ false
      → let handle_error = handle_pipeline_error status_text print head tail asker hook boundary in
        let asked = handle_error ev e w in
        let direct = handle_error (hook ev e).event e' w in
        (asked.response ≡ some (redirected r.code r.location))
        × (lookup (str "Location") asked.header ≡ some (asker.resolved r.location ∷ []))
        × (lookup k asked.header ≡ lookup k w.header)
        × (direct.response ≡ some (redirected r.code r.location))
        × (lookup (str "Location") direct.header ≡ some (asker.resolved r.location ∷ []))
        × (lookup reload_header direct.header ≡ some (str "1" ∷ []))
  unfolding str_eq
  handle_pipeline_error-reload ev e e' r w k n0 n1 n2 n3 n4 asked found reload other located typed =
      let after = (hook ev e).event in
      let p =
        handle_pipeline_error-asked ev e e' w n0 n1 n2 n3 n4 asked
        ∙ short_circuit_with-redirect after e' r w found in
      let q =
        handle_pipeline_error-redirect after e' r w found
        ∙ redirect_to-reload after e' r w found reload in
      let cookies = apply_cookies print after w in
      let marked = header_set reload_header (str "1") (apply_event print after w) in
      let asked_left = location-http_redirect asker r.location r.code cookies in
      let direct_left = location-http_redirect asker r.location r.code marked in
      (
        ap (λ v. v.response) p ∙ asked_left.1,
        ap (λ v. lookup (str "Location") v.header) p ∙ asked_left.0,
        ap (λ v. lookup k v.header) p
            ∙ lookup-http_redirect asker r.location r.code cookies k typed located
            ∙ lookup-apply_cookies print k other after w,
        ap (λ v. v.response) q ∙ direct_left.1,
        ap (λ v. lookup (str "Location") v.header) q ∙ direct_left.0,
        ap (λ v. lookup reload_header v.header) q
            ∙ lookup-http_redirect asker r.location r.code marked reload_header refl refl
            ∙ lookup-insert reload_header reload_header (str "1" ∷ [])
                (apply_event print after w).header,
      )
