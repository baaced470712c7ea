-- ===== src/Server/Recovery.antt =====
-- internal/server/middleware.go: the log line, the security headers, and the recovery of panics, around a
-- handler that is the list of its writes and how it ends.
pub mod Answers
mod Examples
use owlwatch.Prelude.{
  ℕ, Bool, true, false, List, [], ◌∷◌, ◌++◌, Option, none, some, ◌==◌, if◌then◌else◌, Bytes, bytes,
}

-- What a handler does with its response: WriteHeader with a code, or Write.
pub data Write : Type 0 where
  header : ℕ → Write
  body : Write

-- A handler returns, panics, or raises http.ErrAbortHandler.
pub data End : Type 0 where
  returns panics aborts : End

-- `statusRecorder`, with what it passes on; 0 is no status yet.
pub record Recorder : Type 0 where
  pub status : ℕ
  pub sent : List Write

abbrev pub internal_server_error : ℕ
internal_server_error = 500

unfoldable pub first_status : ℕ → ℕ → ℕ
first_status status code = if status == 0 then code else status

unfoldable pub write : Write → Recorder → Recorder
unfolding first_status
write (header code) r = record {
  status = first_status r.status code;
  sent = r.sent ++ header code ∷ [];
}
write body r = record { status = first_status r.status 200; sent = r.sent ++ body ∷ [] }

unfoldable pub write_all : List Write → Recorder → Recorder
unfolding write
write_all [] r = r
write_all (w ∷ ws) r = write_all ws (write w r)

-- `writeJSONError`
unfoldable pub write_error : ℕ → Recorder → Recorder
unfolding write
write_error code r = write body (write (header code) r)

-- `withRecovery`, after the writes of the handler: what is written then, whether the stack is logged,
-- and whether the panic goes on.
unfoldable pub recovered : End → Recorder → Recorder × Bool × Bool
unfolding write_error
recovered returns r = (r, false, false)
recovered aborts r = (r, false, true)
recovered panics r = (if r.status == 0 then write_error internal_server_error r else r, true, false)

-- `withSecurityHeaders`: the headers set before the handler runs.
abbrev pub security_headers : List (Bytes × Bytes)
security_headers =
    (
      bytes "Content-Security-Policy",
      bytes
          "default-src 'self'; script-src 'self'; style-src 'self' 'unsafe-inline'; img-src 'self' data:; connect-src 'self'; object-src 'none'; base-uri 'none'; frame-ancestors 'none'; form-action 'self'",
    )
    ∷ (bytes "Cross-Origin-Opener-Policy", bytes "same-origin")
    ∷ (bytes "Cross-Origin-Resource-Policy", bytes "same-origin")
    ∷ (bytes "Permissions-Policy", bytes "camera=(), geolocation=(), microphone=()")
    ∷ (bytes "Referrer-Policy", bytes "no-referrer")
    ∷ (bytes "X-Content-Type-Options", bytes "nosniff")
    ∷ (bytes "X-Frame-Options", bytes "DENY")
    ∷ []

-- One request through the three: the headers, the writes, the status of its log line, whether a stack is
-- logged, and whether a panic leaves the chain.
pub record Served : Type 0 where
  pub headers : List (Bytes × Bytes)
  pub sent : List Write
  pub logged_status : ℕ
  pub stack_logged : Bool
  pub raised : Bool

-- What `withLogging` and `withRecovery` make of the recorder when the handler ends; a handler that wrote
-- nothing is a 200.
unfoldable pub finish : End → Recorder → Served
unfolding recovered
finish end_of written =
    let (r, stack, raised) = recovered end_of written in
    record {
      headers = security_headers;
      sent = r.sent;
      logged_status = if r.status == 0 then 200 else r.status;
      stack_logged = stack;
      raised = raised;
    }

-- The three in the order of `New`.
unfoldable pub served : List Write → End → Served
unfolding finish write_all
served writes end_of = finish end_of (write_all writes (record { status = 0; sent = [] }))
