-- ===== src/Server/Handle/Headers.antt =====
-- server/errors.go: what of an event's headers reaches the response.
use sveltego.Base.Map.{IsFunctional}
unfoldable use sveltego.Base.Map.{lookup}
use sveltego.Http.{SetCookie}
use sveltego.Server.Handle.Writer.{Writer, Pending, Asker, header_set}
unfoldable use sveltego.Server.Handle.Writer.{apply_event}
use sveltego.Server.Handle.Chain.{
  Chain, SafeError, RedirectErr, text_or, redirect_of, http_err_of, fail_of, safe_of, public_of,
}
unfoldable use sveltego.Server.Handle.Chain.{errors_as, safe_status}
unfoldable use sveltego.Base.Decimal.{itoa}
use sveltego.Server.Handle.Errors.{Hooked, Boundary, newline}
unfoldable use sveltego.Server.Handle.Errors.{
  handle_pipeline_error, handle_unmarked, after_hook, redirect_to, with_status, write_safe_error,
  write_boundary, respond_with_error, after_render,
}
use sveltego.Base.{
  ℕ, ◌≡◌, refl, ap, ◌∙◌, inl, inr, Bool, true, false, Option, none, some, List, [], ◌∷◌, ◌++◌,
  arith, if◌then◌else◌, Option-cases, length, Str, str,
}
use sveltego.Server.Handle.Fields.{
  reload_header, lookup-set, IsFree, lookup-write_plain, lookup-http_redirect, lookup-apply_event,
}

module _ (status_text : ℕ → Str) (print : SetCookie → Str) (head tail : Str) (asker : Asker)
    (hook : Option Pending → Chain → Hooked) (boundary : Option Boundary) where
  module _ (k : Str) (vs : List Str) (ev : Pending) (free : IsFree k) (f : IsFunctional ev.header)
      (found : lookup k ev.header ≡ some vs) where
    lookup-marked :
        (b : Bool) (w : Writer)
        → lookup k (if b then header_set reload_header (str "1") w else w).header
          ≡ lookup k w.header
    lookup-marked true w = lookup-set k reload_header (str "1" ∷ []) w free.3
    lookup-marked false w = refl

    lookup-redirect_to :
        (r : RedirectErr) (w : Writer)
        → lookup k
            (redirect_to status_text print head tail asker hook boundary (some ev) r w).header
          ≡ some vs
    unfolding redirect_to apply_event
    lookup-redirect_to r w =
        let marked =
          if r.force_reload
          then header_set reload_header (str "1") (apply_event print (some ev) w)
          else apply_event print (some ev) w in
        lookup-http_redirect asker r.location r.code marked k free.0 free.4
        ∙ lookup-marked r.force_reload (apply_event print (some ev) w)
        ∙ lookup-apply_event print k vs ev w f found

    lookup-write_safe_error :
        (s : SafeError) (w : Writer)
        → lookup k
            (write_safe_error status_text print head tail asker hook boundary (some ev) s w).header
          ≡ some vs
    unfolding write_safe_error apply_event
    lookup-write_safe_error s w =
        lookup-write_plain k (safe_status s)
          (text_or status_text s.message (status_text (safe_status s)) ++ newline)
          (apply_event print (some ev) w) free
        ∙ lookup-apply_event print k vs ev w f found

    lookup-write_boundary :
        (s : SafeError) (body : Str) (w : Writer)
        → lookup k
            (write_boundary status_text print head tail asker hook boundary
              (some ev)
              s
              body
              w).header
          ≡ some vs
    unfolding write_boundary apply_event
    lookup-write_boundary s body w =
        lookup-set k (str "Content-Length") (itoa (length body) ∷ [])
          (header_set (str "Content-Type") (str "text/html; charset=utf-8")
            (apply_event print (some ev) w))
          free.2
        ∙ lookup-set k (str "Content-Type") (str "text/html; charset=utf-8" ∷ [])
            (apply_event print (some ev) w) free.0
        ∙ lookup-apply_event print k vs ev w f found

    lookup-after_render :
        (s : SafeError) (w : Writer) (o : Option Str × Option Pending)
        → o.1 ≡ some ev
        → lookup k (after_render status_text print head tail asker hook boundary o s w).header
          ≡ some vs
    unfolding after_render
    lookup-after_render s w (none, p) kept =
        ap
          (λ q.
            lookup k
              (write_safe_error status_text print head tail asker hook boundary q s w).header)
          kept
        ∙ lookup-write_safe_error s w
    lookup-after_render s w (some text, p) kept =
        ap
          (λ q.
            lookup k
              (write_boundary status_text print head tail asker hook boundary q s
                (head ++ text ++ tail) w).header)
          kept
        ∙ lookup-write_boundary s (head ++ text ++ tail) w

    module _
        (same : (render : Boundary)
          → boundary ≡ some render
          → (s : SafeError) → (render (some ev) s).1 ≡ some ev) where
      lookup-respond_with_error :
          (s : SafeError) (w : Writer)
          → lookup k
              (respond_with_error status_text print head tail asker hook boundary
                (some ev)
                s
                w).header
            ≡ some vs
      unfolding respond_with_error
      lookup-respond_with_error s w = elim (Option-cases boundary) [
        | inl h ↦ ground (arith, h, lookup-write_safe_error s w)
        | inr (render, h) ↦
            ground (arith, h, lookup-after_render s w (render (some ev) s) (same render h s))
      ]

      lookup-after_hook :
          (h : Hooked) (e : Chain) (w : Writer)
          → h.short_circuit ≡ none
          → h.event ≡ some ev
          → lookup k (after_hook status_text print head tail asker hook boundary h e w).header
            ≡ some vs
      unfolding after_hook
      lookup-after_hook h e w asked kept =
          let s = with_status status_text print head tail asker hook boundary h.safe e in
          ground (arith, lookup-respond_with_error s w)

      lookup-handle_unmarked :
          (e : Chain) (w : Writer)
          → (hook (some ev) e).short_circuit ≡ none
          → (hook (some ev) e).event ≡ some ev
          → lookup k
              (handle_unmarked status_text print head tail asker hook boundary (some ev) e w).header
            ≡ some vs
      unfolding handle_unmarked
      lookup-handle_unmarked e w asked kept = elim (Option-cases (errors_as safe_of e)) [
        | inr (s, h) ↦ ground (arith, h, lookup-respond_with_error s w)
        | inl h ↦ elim (Option-cases (errors_as public_of e)) [
          | inr (p, j) ↦
              let s : SafeError = record { code = p.0; message = p.1; id = [] } in
              ground (arith, h, j, lookup-respond_with_error s w)
          | inl j ↦ ground (arith, h, j, lookup-after_hook (hook (some ev) e) e w asked kept)
        ]
      ]

      -- Where the pipeline finds no kit.Fail in an error and the HandleError hook returns no error
      -- of its own, the answer carries what the event's header has under any name that the error
      -- paths do not set, if the hook and the boundary leave the event as it was.
      pub handle_pipeline_error-header :
          (e : Chain) (w : Writer)
          → errors_as fail_of e ≡ none
          → (hook (some ev) e).short_circuit ≡ none
          → (hook (some ev) e).event ≡ some ev
          → lookup k
              (handle_pipeline_error status_text print head tail asker hook boundary
                (some ev)
                e
                w).header
            ≡ some vs
      unfolding handle_pipeline_error handle_unmarked after_hook apply_event
      handle_pipeline_error-header e w no_fail asked kept =
          elim (Option-cases (errors_as redirect_of e)) [
            | inr (r, h) ↦ ground (arith, h, lookup-redirect_to r w)
            | inl h ↦ elim (Option-cases (errors_as http_err_of e)) [
              | inr (m, j) ↦ ground (
                arith,
                h,
                j,
                lookup-apply_event print k vs ev w f found,
                lookup-write_plain k m.0 (m.1 ++ newline) (apply_event print (some ev) w) free,
              )
              | inl j ↦ ground (arith, h, j, no_fail, lookup-handle_unmarked e w asked kept)
            ]
          ]
