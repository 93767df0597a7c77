-- ===== src/Socket/Queue.antt =====
-- packages/socket/src/queueingstreamingsocket.ts: the queue of requests. The code runs to its next
-- `await` without interruption; what happens between two of these points is one event.
pub mod Conserved
pub mod Order
pub mod Stuck
mod Tests
use cosmjs.Prelude.{
  ℕ, zero, suc, ◌+◌, Bool, true, false, not, ◌||◌, Option, none, some, List, [], ◌∷◌, ◌++◌,
  if◌then◌else◌, get_elem?, Text,
}

pub data ConnectionStatus : Type 0 where
  unconnected connecting connected disconnected : ConnectionStatus

-- `in_flight` are the requests whose `socket.send` is awaited, one for each running call of
-- `processQueue`; `calls` are all the requests given to `socket.send`, and `sent` those whose send
-- has resolved, each in order.
pub record Socket : Type 0 where
  pub status : ConnectionStatus
  pub queue : List Text
  pub is_processing_queue : Bool
  pub in_flight : List Text
  pub calls : List Text
  pub sent : List Text

abbrev pub initial : Socket
initial = record {
  status = unconnected;
  queue = [];
  is_processing_queue = false;
  in_flight = [];
  calls = [];
  sent = [];
}

abbrev pub is_connected : ConnectionStatus → Bool
is_connected connected = true
is_connected other = false

-- `while ((request = this.queue.shift()))` up to the `await`: the empty text ends the loop as the
-- end of the queue does.
unfoldable pub next_request : List Text → Socket → Socket
next_request [] s = record s { queue = [] }
next_request ([] ∷ queue) s = record s { queue = queue }
next_request ((c ∷ request) ∷ queue) s = record s {
  queue = queue;
  in_flight = s.in_flight ++ (c ∷ request) ∷ [];
  calls = s.calls ++ (c ∷ request) ∷ [];
}

abbrev pub set_processing : Bool → Socket → Socket
set_processing b s = record s { is_processing_queue = b }

abbrev pub set_status : ConnectionStatus → Socket → Socket
set_status status s = record s { status = status }

-- `processQueue` up to its first `await`.
unfoldable pub process_queue : Socket → Socket
process_queue s =
    if s.is_processing_queue || not (is_connected s.status)
    then s
    else next_request s.queue (set_processing true s)

unfoldable pub queue_request : Text → Socket → Socket
queue_request request s = process_queue (record s { queue = s.queue ++ request ∷ [] })

-- `connect` and `reconnect`, as far as the status goes.
unfoldable pub connect : Socket → Socket
connect s = set_status connecting s

unfoldable pub disconnect : Socket → Socket
disconnect s = set_status disconnected s

-- The promise `connected` of the socket resolves.
unfoldable pub on_connected : Socket → Socket
on_connected s = process_queue (set_status connected s)

abbrev pub remove_at : ℕ → List Text → List Text
remove_at i [] = []
remove_at zero (x ∷ xs) = xs
remove_at (suc i) (x ∷ xs) = x ∷ remove_at i xs

-- The send of the request at `i` resolves: its loop goes on.
unfoldable pub on_resolved : ℕ → Option Text → Socket → Socket
on_resolved i none s = s
on_resolved i (some request) s = next_request s.queue (record s {
  is_processing_queue = false;
  in_flight = remove_at i s.in_flight;
  sent = s.sent ++ request ∷ [];
})

-- The send of the request at `i` rejects: it goes back to the front, and its loop ends.
unfoldable pub on_rejected : ℕ → Option Text → Socket → Socket
on_rejected i none s = s
on_rejected i (some request) s = record s {
  queue = request ∷ s.queue;
  is_processing_queue = false;
  in_flight = remove_at i s.in_flight;
}

pub data Event : Type 0 where
  requested : Text → Event
  connect_called : Event
  -- `disconnect`, an error of the socket, or a connection that fails
  lost : Event
  opened : Event
  resolved : ℕ → Event
  rejected : ℕ → Event

unfoldable pub handle : Event → Socket → Socket
handle (requested request) s = queue_request request s
handle connect_called s = connect s
handle lost s = disconnect s
handle opened s = on_connected s
handle (resolved i) s = on_resolved i (get_elem? s.in_flight i) s
handle (rejected i) s = on_rejected i (get_elem? s.in_flight i) s

-- Any events, one after another.
unfoldable pub run : List Event → Socket → Socket
run [] s = s
run (e ∷ es) s = run es (handle e s)

-- The requests among the events.
unfoldable pub requests : List Event → List Text
requests [] = []
requests (requested request ∷ es) = request ∷ requests es
requests (e ∷ es) = requests es
