-- ===== src/Server/Handle/Errors.antt =====
-- server/errors.go: an error that came out of the pipeline becomes a response. The logger is left
-- out. A status is a number that `WriteHeader` takes.
use sveltego.Http.{SetCookie}
use sveltego.Server.Handle.Writer.{Writer, Pending, Asker, wrote, header_set, answer}
unfoldable use sveltego.Server.Handle.Writer.{
  write_plain, http_redirect, apply_cookies, apply_event,
}
use sveltego.Server.Handle.Chain.{
  Chain, SafeError, RedirectErr, redirect_of, http_err_of, fail_of, safe_of, public_of, text_or,
}
unfoldable use sveltego.Server.Handle.Chain.{errors_as, safe_status, status_of}
unfoldable use sveltego.Base.Decimal.{itoa}
unfoldable use sveltego.Base.{str_eq}
use sveltego.Base.{
  ℕ, ◌&&◌, Option, none, some, [], ◌∷◌, ◌++◌, length, if◌then◌else◌, ◌==◌, Str, str,
}

-- What `HandleError` returns, with the event as the hook left it.
pub record Hooked : Type 0 where
  pub safe : SafeError
  pub short_circuit : Option Chain
  pub event : Option Pending

-- `IdentityHandleError`, the hook of a server without one.
unfoldable pub identity_handle_error : (ℕ → Str) → Option Pending → Chain → Hooked
identity_handle_error status_text ev e = record {
  safe = record { code = 500; message = status_text 500; id = [] };
  short_circuit = none;
  event = ev;
}

-- A route's `RenderError`: the text that it wrote, or its failure, and the event as it left it.
abbrev pub Boundary : Type 0
Boundary = Option Pending → SafeError → Option Str × Option Pending

abbrev pub newline : Str
newline = 10 ∷ []

-- `status_text` is http.StatusText, `print` prints a cookie, and `head` and `tail` are the parts of
-- the page around an error.
module _ (status_text : ℕ → Str) (print : SetCookie → Str) (head tail : Str) (asker : Asker)
    (hook : Option Pending → Chain → Hooked) (boundary : Option Boundary) where
  unfoldable pub write_safe_error : Option Pending → SafeError → Writer → Writer
  unfolding apply_event write_plain safe_status
  write_safe_error ev s w =
      let status = safe_status s in
      write_plain status (text_or status_text s.message (status_text status) ++ newline)
        (apply_event print ev w)

  -- The rest of `renderErrorBoundary`, where the body is complete.
  unfoldable pub write_boundary : Option Pending → SafeError → Str → Writer → Writer
  unfolding apply_event safe_status itoa
  write_boundary ev s body w = answer (wrote (safe_status s) body) (
      header_set (str "Content-Length") (itoa (length body))
        (header_set (str "Content-Type") (str "text/html; charset=utf-8") (apply_event print ev w)))

  -- After `RenderError`, which may fail.
  unfoldable pub after_render : Option Str × Option Pending → SafeError → Writer → Writer
  unfolding write_safe_error write_boundary
  after_render (none, ev) s w = write_safe_error ev s w
  after_render (some text, ev) s w = write_boundary ev s (head ++ text ++ tail) w

  unfoldable pub respond_with_error : Option Pending → SafeError → Writer → Writer
  unfolding write_safe_error after_render
  respond_with_error ev s w = elim boundary [
    | none ↦ write_safe_error ev s w
    | some render ↦ after_render (render ev s) s w
  ]

  -- A redirect of the pipeline, which tells the client to reload where that is asked for.
  unfoldable pub redirect_to : Option Pending → RedirectErr → Writer → Writer
  unfolding apply_event http_redirect
  redirect_to ev r w =
      let flushed = apply_event print ev w in
      http_redirect asker r.location r.code
        (if r.force_reload then header_set (str "X-Sveltego-Reload") (str "1") flushed else flushed)

  abbrev pub internal_error : Writer → Writer
  internal_error w = write_plain 500 (status_text 500 ++ newline) w

  -- The error that `HandleError` returned.
  unfoldable pub short_circuit_with : Option Pending → Chain → Writer → Writer
  unfolding apply_cookies errors_as write_plain http_redirect
  short_circuit_with ev e w = elim (errors_as redirect_of e) [
    | some r ↦ http_redirect asker r.location r.code (apply_cookies print ev w)
    | none ↦ elim (errors_as http_err_of e) [
      | some h ↦ write_plain h.0 (h.1 ++ newline) (apply_cookies print ev w)
      | none ↦ internal_error w
    ]
  ]

  -- The status that an error has by itself, where the hook gave the default answer.
  unfoldable pub with_status : SafeError → Chain → SafeError
  unfolding errors_as status_of str_eq
  with_status s e =
      if s.code == 500 && str_eq s.message (status_text 500)
      then elim (errors_as status_of e) [
        | some code ↦ record s { code = code; message = status_text code }
        | none ↦ s
      ]
      else s

  unfoldable pub after_hook : Hooked → Chain → Writer → Writer
  unfolding short_circuit_with respond_with_error with_status
  after_hook h e w = elim h.short_circuit [
    | some e' ↦ short_circuit_with h.event e' w
    | none ↦ respond_with_error h.event (with_status h.safe e) w
  ]

  -- From the test for a SafeError on.
  unfoldable pub handle_unmarked : Option Pending → Chain → Writer → Writer
  unfolding errors_as respond_with_error after_hook
  handle_unmarked ev e w = elim (errors_as safe_of e) [
    | some s ↦ respond_with_error ev s w
    | none ↦ elim (errors_as public_of e) [
      | some p ↦ respond_with_error ev (record { code = p.0; message = p.1; id = [] }) w
      | none ↦ after_hook (hook ev e) e w
    ]
  ]

  unfoldable pub handle_pipeline_error : Option Pending → Chain → Writer → Writer
  unfolding errors_as redirect_to write_plain apply_event handle_unmarked
  handle_pipeline_error ev e w = elim (errors_as redirect_of e) [
    | some r ↦ redirect_to ev r w
    | none ↦ elim (errors_as http_err_of e) [
      | some h ↦ write_plain h.0 (h.1 ++ newline) (apply_event print ev w)
      | none ↦ elim (errors_as fail_of e) [
        | some _ ↦ internal_error w
        | none ↦ handle_unmarked ev e w
      ]
    ]
  ]
