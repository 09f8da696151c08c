-- ===== src/Control/Relay.antt =====
-- cmd/control/ws_handler.go: the live feed of a console. Messages of NATS come in on their own
-- goroutine, and one writer takes the frames from a channel of 64.
use sense_grid.Common.{
  ℕ, ◌*◌, ◌/◌, Bool, true, false, not, ◌||◌, Option, none, some, List, [], ◌∷◌, ◌++◌, ltb,
  if◌then◌else◌, Text, codes, length,
}
use sense_grid.Control.Auth.{Jwt, role_viewer, role_allows, verify_token}

abbrev pub ws_send_buffer : ℕ
ws_send_buffer = 64

-- 60 seconds, and nine tenths of them, in nanoseconds.
abbrev pub ws_pong_wait : ℕ
ws_pong_wait = 60000000000

abbrev pub ws_ping_period : ℕ
ws_ping_period = (ws_pong_wait * 9) / 10

abbrev pub ws_relay_subjects : List (Text × Text)
ws_relay_subjects =
    (codes "metric", codes "metrics.>")
    ∷ (codes "alert", codes "alerts.>")
    ∷ (codes "rollout", codes "rollout.>")
    ∷ []

-- The payload is the text of the message.
pub record WsFrame : Type 0 where
  pub kind : Text
  pub subject : Text
  pub payload : Text
  pub ts : ℕ

-- GET /v1/ws: the role of the token in the query.
unfoldable pub may_connect : Jwt → Text → Text → Text → ℕ → Bool
unfolding role_allows
may_connect jwt token issuer signing_key now =
    elim (verify_token jwt token issuer signing_key now) [
      | none ↦ false
      | some (role, subject) ↦ role_allows role role_viewer
    ]

-- A connection: the channel, what was written to the socket, whether `closed` was closed, and
-- whether the writer has returned.
pub record Conn : Type 0 where
  pub queue : List Text
  pub written : List Text
  pub closed : Bool
  pub ended : Bool

unfoldable pub new_conn : Conn
new_conn = record { queue = []; written = []; closed = false; ended = false }

-- The handler of relay: a frame that does not marshal, or finds the channel full, is dropped.
unfoldable pub relay : (WsFrame → Option Text) → WsFrame → Conn → Conn
relay marshal f c = elim (marshal f) [
  | none ↦ c
  | some frame ↦
      if ltb (length c.queue) ws_send_buffer then record c { queue = c.queue ++ frame ∷ [] } else c
]

-- The case of the select for a frame; `ok` says whether the socket takes it.
unfoldable pub write_frame : Bool → Conn → Conn
write_frame ok c = elim c.queue [
  | [] ↦ c
  | frame ∷ frames ↦
      if ok
      then record c { queue = frames; written = c.written ++ frame ∷ [] }
      else record c { queue = frames; ended = true }
]

pub data Event : Type 0 where
  message : WsFrame → Event
  reader_stops : Event
  writes : Bool → Event
  pings : Bool → Event
  sees_closed : Event

-- A turn of the writer's loop, or what another goroutine does; the writer that has returned does
-- nothing more.
unfoldable pub step : (WsFrame → Option Text) → Event → Conn → Conn
unfolding relay write_frame
step marshal (message f) c = relay marshal f c
step marshal reader_stops c = record c { closed = true }
step marshal (writes ok) c = if c.ended then c else write_frame ok c
step marshal (pings ok) c = if c.ended || ok then c else record c { ended = true }
step marshal sees_closed c = if c.ended || not c.closed then c else record c { ended = true }

unfoldable pub run : (WsFrame → Option Text) → List Event → Conn → Conn
unfolding step
run marshal [] c = c
run marshal (event ∷ events) c = run marshal events (step marshal event c)
