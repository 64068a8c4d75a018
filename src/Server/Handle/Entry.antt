-- ===== src/Server/Handle/Entry.antt =====
-- server/pipeline.go: `handle`, `runHandle` and `writeResponse`. What the Handle hook does, with
-- the calls of `resolve` that it makes, is a parameter; the policy on content is left out.
use sveltego.Http.{SetCookie}
use sveltego.Server.Handle.Writer.{Writer, Pending, Asker, Header, wrote, answer}
unfoldable use sveltego.Server.Handle.Writer.{apply_cookies, copy_header}
use sveltego.Server.Handle.Chain.{Chain, user_error, wrote_of}
unfoldable use sveltego.Server.Handle.Chain.{errors_as, wrap}
use sveltego.Server.Handle.Errors.{Hooked, Boundary}
unfoldable use sveltego.Server.Handle.Errors.{handle_pipeline_error}
use sveltego.Base.{
  ℕ, Bool, true, false, Option, none, some, [], ◌∷◌, ◌++◌, if◌then◌else◌, ◌==◌, Str, str,
}

-- kit.Response
pub record Reply : Type 0 where
  pub status : ℕ
  pub header : Header
  pub body : Str

-- How a call of the Handle hook ends; `none` is a nil response. A panic carries an error or a value
-- that fmt prints.
pub data HandleEnd : Type 0 where
  returned : Option Reply → HandleEnd
  failed : Chain → HandleEnd
  panicked_error : Chain → HandleEnd
  panicked_value : Str → HandleEnd

-- The values that `runHandle` returns.
pub data RunHandle : Type 0 where
  response : Option Reply → RunHandle
  error : Chain → RunHandle

-- The writer in the end, and whether `drainAfter` was called.
pub record Served : Type 0 where
  pub writer : Writer
  pub drained : Bool

module _ (status_text : ℕ → Str) (print : SetCookie → Str) (head tail : Str) (asker : Asker)
    (hook : Option Pending → Chain → Hooked) (boundary : Option Boundary) where
  unfoldable pub run_handle : HandleEnd → RunHandle
  unfolding wrap
  run_handle (returned r) = response r
  run_handle (failed e) = error e
  run_handle (panicked_error e) = error (wrap status_text (str "server: pipeline panic: ") e)
  run_handle (panicked_value v) =
      error (user_error none none (str "server: pipeline panic: " ++ v) ∷ [])

  unfoldable pub write_response : Option Pending → Reply → Writer → Writer
  unfolding apply_cookies copy_header
  write_response ev r w =
      answer (wrote (if r.status == 0 then 200 else r.status) r.body)
        (copy_header r.header (apply_cookies print ev w))

  -- An error after which the response was written already, or one to answer.
  unfoldable pub settle : Option Pending → Chain → Writer → Writer
  unfolding errors_as handle_pipeline_error
  settle ev e w = elim (errors_as wrote_of e) [
    | some _ ↦ w
    | none ↦ handle_pipeline_error status_text print head tail asker hook boundary ev e w
  ]

  unfoldable pub handle : Option Pending → HandleEnd → Writer → Served
  unfolding run_handle settle write_response
  handle ev end w = elim (run_handle end) [
    | error e ↦ record { writer = settle ev e w; drained = true }
    | response none ↦ record { writer = w; drained = false }
    | response (some r) ↦ record { writer = write_response ev r w; drained = true }
  ]
