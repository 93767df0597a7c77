-- ===== src/Socket/Queue/Stuck.antt =====
-- A connection that opens while no request waits.
use cosmjs.Prelude.{ℕ, ◌≡◌, refl, true, false, List, [], ◌∷◌, get_elem?, Text}
use cosmjs.Socket.Queue.{
  Socket, next_request, process_queue, queue_request, connect, disconnect, on_connected,
  on_resolved, on_rejected, Event, requested, connect_called, lost, opened, resolved, rejected,
  handle, run,
}

-- A loop is said to run, but none does.
abbrev IsStuck : Socket → List Text → Type 0
IsStuck s calls = (s.is_processing_queue ≡ true) × (s.in_flight ≡ []) × (s.calls ≡ calls)

process_queue-IsStuck :
    (s : Socket) (calls : List Text) → IsStuck s calls → IsStuck (process_queue s) calls
unfolding process_queue
process_queue-IsStuck s calls h = rw h.0 (refl, h.1, h.2)

on_resolved-IsStuck :
    (i : ℕ) (s : Socket) (flight calls : List Text)
    → flight ≡ []
    → IsStuck s calls
    → IsStuck (on_resolved i (get_elem? flight i) s) calls
unfolding on_resolved
on_resolved-IsStuck i s flight calls e h = rw e h

on_rejected-IsStuck :
    (i : ℕ) (s : Socket) (flight calls : List Text)
    → flight ≡ []
    → IsStuck s calls
    → IsStuck (on_rejected i (get_elem? flight i) s) calls
unfolding on_rejected
on_rejected-IsStuck i s flight calls e h = rw e h

handle-IsStuck :
    (e : Event) (s : Socket) (calls : List Text) → IsStuck s calls → IsStuck (handle e s) calls
unfolding handle queue_request connect disconnect on_connected
handle-IsStuck (requested request) s calls h = process_queue-IsStuck _ calls h
handle-IsStuck connect_called s calls h = h
handle-IsStuck lost s calls h = h
handle-IsStuck opened s calls h = process_queue-IsStuck _ calls h
handle-IsStuck (resolved i) s calls h = on_resolved-IsStuck i s s.in_flight calls h.1 h
handle-IsStuck (rejected i) s calls h = on_rejected-IsStuck i s s.in_flight calls h.1 h

run-IsStuck :
    (es : List Event) (s : Socket) (calls : List Text) → IsStuck s calls → IsStuck (run es s) calls
unfolding run
run-IsStuck [] s calls h = h
run-IsStuck (e ∷ es) s calls h = run-IsStuck es (handle e s) calls (handle-IsStuck e s calls h)

-- Once a connection opens while the queue is empty, no request in flight and no loop running, no
-- request is ever given to the socket again, whatever happens: the flag of the loop stays set.
pub opened_while_empty :
    (s : Socket) (es : List Event)
    → s.queue ≡ []
    → s.in_flight ≡ []
    → s.is_processing_queue ≡ false
    → (run es (handle opened s)).calls ≡ s.calls
unfolding handle on_connected process_queue next_request
opened_while_empty s es queue flight free =
    (run-IsStuck es (handle opened s) s.calls (rw (free, queue) (refl, flight, refl))).2
