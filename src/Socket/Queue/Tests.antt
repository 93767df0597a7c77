-- ===== src/Socket/Queue/Tests.antt =====
-- The queue at concrete events.
use cosmjs.Prelude.{◌+◌, ◌≡◌, refl, List, [], ◌∷◌, ◌++◌, length, codes}
use cosmjs.Socket.Queue.{
  initial, next_request, process_queue, queue_request, connect, on_connected, on_resolved,
  on_rejected, Event, requested, connect_called, opened, resolved, rejected, handle, run, requests,
}
use cosmjs.Socket.Queue.Conserved.{total, requests_conserved}
use cosmjs.Socket.Queue.Order.{sendable, calls_in_order}
use cosmjs.Socket.Queue.Stuck.{opened_while_empty}

abbrev some_events : List Event
some_events =
    requested (codes "a")
    ∷ connect_called
    ∷ opened
    ∷ requested (codes "b")
    ∷ resolved 0
    ∷ requested (codes "c")
    ∷ []

-- The third request overtakes the wait for the second send.
two_in_flight : (run some_events initial).in_flight ≡ codes "b" ∷ codes "c" ∷ []
unfolding run handle queue_request connect on_connected on_resolved process_queue next_request
two_in_flight = refl

-- If both sends fail, in order, the requests have changed places.
swapped :
    (run (rejected 0 ∷ rejected 0 ∷ []) (run some_events initial)).queue
    ≡ codes "c" ∷ codes "b" ∷ []
unfolding run handle queue_request connect on_connected on_resolved on_rejected process_queue
    next_request
swapped = refl

requests_conserved_example :
    total length (run some_events initial).queue
      + total length (run some_events initial).in_flight
      + total length (run some_events initial).sent
    ≡ total length (requests some_events)
requests_conserved_example = requests_conserved length refl some_events

calls_in_order_example :
    (run some_events initial).calls ++ sendable (run some_events initial).queue
    ≡ sendable (requests some_events)
calls_in_order_example = calls_in_order some_events (tt, (tt, (tt, (tt, (tt, (tt, tt))))))

opened_while_empty_example : (run some_events (handle opened initial)).calls ≡ []
opened_while_empty_example = opened_while_empty initial some_events refl refl refl
