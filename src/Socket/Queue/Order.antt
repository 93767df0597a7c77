-- ===== src/Socket/Queue/Order.antt =====
-- Requests go out in the order in which they were queued.
use cosmjs.Prelude.{
  ℕ, ◌≡◌, refl, sym, ap, ◌∙◌, inl, inr, true, not, ◌||◌, Option, none, some, List, [], ◌∷◌, ◌++◌,
  append_assoc, append-nil, Bool-cases, All, Text,
}
use cosmjs.Socket.Queue.{
  Socket, connected, initial, is_connected, next_request, set_processing, set_status, process_queue,
  queue_request, connect, disconnect, on_connected, on_resolved, Event, requested, connect_called,
  lost, opened, resolved, rejected, handle, run, requests,
}

-- All but the empty texts, which are never sent.
unfoldable pub sendable : List Text → List Text
sendable [] = []
sendable ([] ∷ xs) = sendable xs
sendable ((c ∷ x) ∷ xs) = (c ∷ x) ∷ sendable xs

-- What was given to the socket, and what is to follow.
abbrev outgoing : Socket → List Text
outgoing s = s.calls ++ sendable s.queue

sendable-append : (xs ys : List Text) → sendable (xs ++ ys) ≡ sendable xs ++ sendable ys
unfolding sendable
sendable-append [] ys = refl
sendable-append ([] ∷ xs) ys = sendable-append xs ys
sendable-append ((c ∷ x) ∷ xs) ys = ap (λ t. (c ∷ x) ∷ t) (sendable-append xs ys)

next_request_order :
    (queue : List Text) (s : Socket) → outgoing (next_request queue s) ≡ s.calls ++ sendable queue
unfolding next_request sendable
next_request_order [] s = refl
next_request_order ([] ∷ queue) s = refl
next_request_order ((c ∷ request) ∷ queue) s =
    append_assoc s.calls ((c ∷ request) ∷ []) (sendable queue)

process_queue_order : (s : Socket) → outgoing (process_queue s) ≡ outgoing s
unfolding process_queue
process_queue_order s = elim (Bool-cases (s.is_processing_queue || not (is_connected s.status))) [
  | inl busy ↦ rw busy refl
  | inr free ↦ rw free (next_request_order s.queue (set_processing true s))
]

queue_request_order :
    (request : Text) (s : Socket)
    → outgoing (queue_request request s) ≡ outgoing s ++ sendable (request ∷ [])
unfolding queue_request
queue_request_order request s =
    process_queue_order _
    ∙ rw (sendable-append s.queue (request ∷ []))
        (sym (append_assoc s.calls (sendable s.queue) (sendable (request ∷ []))))

on_resolved_order :
    (i : ℕ) (found : Option Text) (s : Socket) → outgoing (on_resolved i found s) ≡ outgoing s
unfolding on_resolved
on_resolved_order i none s = refl
on_resolved_order i (some request) s = next_request_order s.queue _

-- No send fails.
abbrev pub IsKept : Event → Type 0
IsKept (rejected i) = ⊥
IsKept other = Unit

handle_order :
    (e : Event) (s : Socket)
    → IsKept e
    → outgoing (handle e s) ≡ outgoing s ++ sendable (requests (e ∷ []))
unfolding handle requests connect disconnect on_connected
handle_order (requested request) s h = queue_request_order request s
handle_order connect_called s h = unfold sendable in sym (append-nil (outgoing s))
handle_order lost s h = unfold sendable in sym (append-nil (outgoing s))
handle_order opened s h =
    process_queue_order (set_status connected s)
    ∙ (unfold sendable in sym (append-nil (outgoing s)))
handle_order (resolved i) s h =
    on_resolved_order i _ s ∙ (unfold sendable in sym (append-nil (outgoing s)))
handle_order (rejected i) s h = absurd h

requests_cons : (e : Event) (es : List Event) → requests (e ∷ es) ≡ requests (e ∷ []) ++ requests es
unfolding requests
requests_cons (requested request) es = refl
requests_cons connect_called es = refl
requests_cons lost es = refl
requests_cons opened es = refl
requests_cons (resolved i) es = refl
requests_cons (rejected i) es = refl

run_order :
    (es : List Event) (s : Socket)
    → All IsKept es
    → outgoing (run es s) ≡ outgoing s ++ sendable (requests es)
unfolding run
run_order [] s h = unfold requests sendable in sym (append-nil (outgoing s))
run_order (e ∷ es) s (he, h) =
    rw
      (
        run_order es (handle e s) h,
        handle_order e s he,
        requests_cons e es,
        sendable-append (requests (e ∷ [])) (requests es),
      )
      (append_assoc (outgoing s) (sendable (requests (e ∷ []))) (sendable (requests es)))

-- As long as no send fails, the requests given to the socket, followed by those that wait, are the
-- requests in the order in which they were made, the empty ones left out.
pub calls_in_order :
    (es : List Event)
    → All IsKept es
    → (run es initial).calls ++ sendable (run es initial).queue ≡ sendable (requests es)
calls_in_order es h = run_order es initial h ∙ (unfold sendable in refl)
