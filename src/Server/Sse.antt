-- ===== src/Server/Sse.antt =====
-- internal/server/sse.go: the event streams. What reaches the connection is a list of frames; a
-- write that fails, or a deadline that cannot be armed, ends the stream. json.Marshal is an
-- argument: `none` is its error.
use owlwatch.Prelude.{
  ℕ, Bool, true, false, List, [], ◌∷◌, ◌++◌, Option, none, some, if◌then◌else◌, Bytes, bytes,
}
use owlwatch.Metrics.{Snapshot}

pub data Frame : Type 0 where
  event : Bytes → Bytes → Frame
  ping : Frame

-- The bytes that `event` and `heartbeat` write.
unfoldable pub wire : Frame → Bytes
wire (event name body) =
    bytes "event: " ++ (name ++ 10 ∷ (bytes "data: " ++ (body ++ 10 ∷ 10 ∷ [])))
wire ping = bytes ": ping" ++ 10 ∷ 10 ∷ []

unfoldable pub written : List Frame → Bytes
written [] = []
written (f ∷ fs) = wire f ++ written fs

-- What wakes the loop of `handleLive`: the request's context is done, the collector has dropped the
-- subscriber or stopped, a snapshot, the ticker.
pub data Wake (F : Type 0) : Type 0 where
  done : Wake F
  closed : Wake F
  sample : Snapshot F → Wake F
  tick : Wake F

-- `startSSE`, by whether the response writer is a Flusher: the status that it answers.
unfoldable pub start_sse : Bool → ℕ × Bool
start_sse flusher = if flusher then (200, true) else (500, false)

-- `event`: the frame that is written, and whether to keep serving. A value that cannot be marshalled
-- is skipped.
unfoldable pub send_event : Bytes → Option Bytes → Bool → List Frame × Bool
send_event name none writable = ([], true)
send_event name (some body) true = (event name body ∷ [], true)
send_event name (some body) false = ([], false)

-- `heartbeat`
unfoldable pub send_ping : Bool → List Frame × Bool
send_ping true = (ping ∷ [], true)
send_ping false = ([], false)

-- What a write left, followed by the rest of the stream if it is to go on.
unfoldable pub go_on : List Frame × Bool → List Frame → List Frame
go_on (sent, keep) rest = if keep then sent ++ rest else sent

module _ {F H : Type 0} (marshal_hello : H → Option Bytes)
    (marshal : Snapshot F → Option Bytes) where
  -- The loop of `handleLive`; each wake-up comes with whether a write succeeds.
  unfoldable pub live_loop : List (Wake F × Bool) → List Frame
  unfolding send_event send_ping go_on
  live_loop [] = []
  live_loop ((done, w) ∷ rest) = []
  live_loop ((closed, w) ∷ rest) = []
  live_loop ((sample s, w) ∷ rest) =
      let more = live_loop rest in go_on (send_event (bytes "snapshot") (marshal s) w) more
  live_loop ((tick, w) ∷ rest) = let more = live_loop rest in go_on (send_ping w) more

  -- `handleLive`: the status, and the frames.
  unfoldable pub handle_live : Bool → H → Bool → List (Wake F × Bool) → ℕ × List Frame
  unfolding start_sse send_event go_on live_loop
  handle_live flusher hello writable wakes =
      if (start_sse flusher).1
      then (
        (start_sse flusher).0,
        go_on (send_event (bytes "hello") (marshal_hello hello) writable) (live_loop wakes),
      )
      else ((start_sse flusher).0, [])
