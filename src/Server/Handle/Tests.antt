-- ===== src/Server/Handle/Tests.antt =====
-- server/errors.go and `handle` of server/pipeline.go on small requests.
unfoldable use sveltego.Base.Map.{lookup}
use sveltego.Http.{SetCookie, unset}
use sveltego.Server.Handle.Writer.{Writer, Pending, Asker, wrote, redirected}
unfoldable use sveltego.Server.Handle.Writer.{write_plain}
use sveltego.Server.Handle.Chain.{Chain, RedirectErr, redirect_err, user_error}
unfoldable use sveltego.Server.Handle.Chain.{errors_as, status_of, safe_status}
use sveltego.Server.Handle.Errors.{Hooked}
unfoldable use sveltego.Server.Handle.Errors.{
  handle_pipeline_error, handle_unmarked, after_hook, with_status, respond_with_error,
  write_safe_error, identity_handle_error,
}
use sveltego.Server.Handle.Entry.{failed, panicked_error}
unfoldable use sveltego.Server.Handle.Entry.{handle, run_handle, settle}
use sveltego.Server.Handle.Hidden.{redact, handle-redact, handle-panicked}
use sveltego.Server.Handle.Headers.{handle_pipeline_error-header}
use sveltego.Server.Handle.Signals.{handle_pipeline_error-reload}
unfoldable use sveltego.Base.{str_eq}
use sveltego.Base.{
  ℕ, ◌≡◌, refl, true, false, Option, none, some, [], ◌∷◌, ◌++◌, map, if◌then◌else◌, ◌==◌, Str, str,
}

abbrev status_text : ℕ → Str
status_text n = if n == 404 then str "Not Found" else str "Internal Server Error"

abbrev print : SetCookie → Str
print c = c.name ++ str "=" ++ c.value

abbrev theme : SetCookie
theme = record {
  name = str "theme";
  value = str "dark";
  path = str "/";
  domain = [];
  max_age = unset;
  expires = none;
  http_only = true;
  secure = false;
  same_site = 2;
}

abbrev pending : Pending
pending = record {
  cookies = record { inbox = []; out = theme ∷ []; https = false };
  header = (str "WWW-Authenticate", str "Basic" ∷ []) ∷ [];
}

-- Net/http's rule for a location that starts with a slash.
abbrev asker : Asker
asker = record { method = str "GET"; resolved = λ l. l }

abbrev writer : Writer
writer = record { header = []; response = none }

-- A user's error that asks for status 404, around one of the database.
abbrev lost_page : Chain
lost_page =
    user_error none (some 404) (str "page 7 of tenant 3")
    ∷ user_error none none (str "sql: no rows")
    ∷ []

abbrev to_login : RedirectErr
to_login = record { code = 303; location = str "/login"; force_reload = true }

abbrev login_hook : Option Pending → Chain → Hooked
login_hook ev e = record {
  safe = record { code = 0; message = []; id = [] };
  short_circuit = some (redirect_err to_login ∷ []);
  event = ev;
}

lost_page_response :
    (handle status_text print [] [] asker
      (identity_handle_error status_text)
      none
      (some pending)
      (failed lost_page)
      writer).writer.response
    ≡ some (wrote 404 (str "Not Found\n"))
unfolding handle run_handle settle errors_as handle_pipeline_error handle_unmarked after_hook
    with_status respond_with_error write_safe_error identity_handle_error status_of str_eq
    write_plain safe_status
lost_page_response = refl

handle-redact_example :
    handle status_text print [] [] asker
      (identity_handle_error status_text)
      none
      (some pending)
      (failed (map redact lost_page))
      writer
    ≡ handle status_text print [] [] asker
        (identity_handle_error status_text)
        none
        (some pending)
        (failed lost_page)
        writer
unfolding identity_handle_error
handle-redact_example =
    handle-redact status_text print [] [] asker (identity_handle_error status_text) none
      (some pending) lost_page writer refl

handle-panicked_example :
    handle status_text print [] [] asker
      (identity_handle_error status_text)
      none
      (some pending)
      (panicked_error lost_page)
      writer
    ≡ handle status_text print [] [] asker
        (identity_handle_error status_text)
        none
        (some pending)
        (failed lost_page)
        writer
unfolding identity_handle_error
handle-panicked_example =
    handle-panicked status_text print [] [] asker (identity_handle_error status_text) none
      (some pending) lost_page writer refl

handle_pipeline_error-header_example :
    lookup
      (str "WWW-Authenticate")
      (handle_pipeline_error status_text print [] [] asker
        (identity_handle_error status_text)
        none
        (some pending)
        lost_page
        writer).header
    ≡ some (str "Basic" ∷ [])
unfolding identity_handle_error errors_as str_eq lookup
handle_pipeline_error-header_example =
    handle_pipeline_error-header status_text print [] [] asker (identity_handle_error status_text)
      none (str "WWW-Authenticate") (str "Basic" ∷ []) pending (refl, refl, refl, refl, refl)
      (refl, tt) refl (λ render h s. cc) lost_page writer refl refl refl

handle_pipeline_error-reload_example :
    let handle_error = handle_pipeline_error status_text print [] [] asker login_hook none in
    let asked = handle_error (some pending) lost_page writer in
    let direct = handle_error (some pending) (redirect_err to_login ∷ []) writer in
    (asked.response ≡ some (redirected 303 (str "/login")))
    × (lookup (str "Location") asked.header ≡ some (str "/login" ∷ []))
    × (lookup (str "X-Sveltego-Reload") asked.header ≡ none)
    × (direct.response ≡ some (redirected 303 (str "/login")))
    × (lookup (str "Location") direct.header ≡ some (str "/login" ∷ []))
    × (lookup (str "X-Sveltego-Reload") direct.header ≡ some (str "1" ∷ []))
unfolding errors_as str_eq lookup
handle_pipeline_error-reload_example =
    handle_pipeline_error-reload status_text print [] [] asker login_hook none (some pending)
      lost_page (redirect_err to_login ∷ []) to_login writer (str "X-Sveltego-Reload") refl refl
      refl refl refl refl refl refl refl refl refl
