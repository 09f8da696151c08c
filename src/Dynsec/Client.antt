-- ===== src/Dynsec/Client.antt =====
-- Client of internal/dynsec/client.go: commands whose answers come back on one topic and are told
-- apart by their correlation id. A goroutine in `do` is a caller, with the channel it waits on; the
-- channels are numbered in the order in which they are made, and hold one response at most.
use sense_grid.Common.{
  ℕ, Bool, true, false, Option, none, some, List, [], ◌∷◌, ◌++◌, text_Eq, Text, length, get_elem?,
  set, lookup, insert, delete, Result, ok, err,
}

pub record Response : Type 0 where
  pub command : Text
  pub correlation_data : Text
  pub error : Text

pub record Caller : Type 0 where
  pub id : Text
  pub inbox : Option Response

-- `blocked`: a send that finds its channel full, and waits with the mutex held.
pub record Client : Type 0 where
  pub pending : List (Text × ℕ)
  pub callers : List Caller
  pub blocked : Bool

unfoldable pub new_client : Client
new_client = record { pending = []; callers = []; blocked = false }

-- `ch <- r`.
unfoldable pub send : ℕ → Response → Client → Client
send n r c = elim (get_elem? c.callers n) [
  | none ↦ c
  | some caller ↦ elim caller.inbox [
    | some earlier ↦ record c { blocked = true }
    | none ↦ record c { callers = set c.callers n (record caller { inbox = some r }) }
  ]
]

-- One turn of the loop of handleResponse.
unfoldable pub deliver : Response → Client → Client
unfolding send
deliver r c = elim (lookup r.correlation_data c.pending) [
  | none ↦ c
  | some n ↦ let c1 = send n r c in record c1 { pending = delete r.correlation_data c1.pending }
]

unfoldable pub deliver_all : List Response → Client → Client
deliver_all [] c = c
deliver_all (r ∷ rs) c = deliver_all rs (deliver r c)

-- `none` is a payload that is no JSON of an envelope.
unfoldable pub handle_response : Option (List Response) → Client → Client
unfolding deliver_all
handle_response none c = c
handle_response (some rs) c = deliver_all rs c

-- `do`, up to the entry in `pending`.
unfoldable pub register : Text → Client → Client
register id c = record c {
  pending = insert id (length c.callers) c.pending;
  callers = c.callers ++ record { id = id; inbox = none } ∷ [];
}

-- How `do` ends: before the select, or by one of its cases.
pub data Ending : Type 0 where
  marshal_failed publish_timed_out publish_failed received no_response cancelled : Ending

pub data Error : Type 0 where
  failed : Ending → Error

-- The deferred function takes the entry away in every case.
unfoldable pub close : Caller → Client → Client
close caller c = record c { pending = delete caller.id c.pending }

-- `do` from there on; `none` where the case of the select is not ready.
unfoldable pub end_call : Ending → Caller → Client → Option (Result Error Response) × Client
unfolding close
end_call received caller c = elim caller.inbox [
  | none ↦ (none, c)
  | some r ↦ (some (ok r), close caller c)
]
end_call ending caller c = (some (err (failed ending)), close caller c)

unfoldable pub finish : ℕ → Ending → Client → Option (Result Error Response) × Client
unfolding end_call
finish n ending c = elim (get_elem? c.callers n) [
  | none ↦ (none, c)
  | some caller ↦ end_call ending caller c
]

-- What happens to a client, in any order: a call of `do` begins, a message comes in, a call ends.
pub data Event : Type 0 where
  registers : Text → Event
  responds : Option (List Response) → Event
  finishes : ℕ → Ending → Event

unfoldable pub step : Event → Client → Client
unfolding register handle_response finish
step (registers id) c = register id c
step (responds payload) c = handle_response payload c
step (finishes n ending) c = (finish n ending c).1

unfoldable pub run : List Event → Client → Client
unfolding step
run [] c = c
run (event ∷ events) c = run events (step event c)
