-- ===== src/Socket/Queue/Conserved.antt =====
-- No request is lost or sent twice.
use cosmjs.Prelude.{
  ℕ, zero, suc, ◌+◌, ◌≡◌, refl, ◌∙◌, inl, inr, true, not, ◌||◌, Option, none, some, List, [], ◌∷◌,
  ◌++◌, arith, Bool-cases, get_elem?, Text,
}
use cosmjs.Socket.Queue.{
  Socket, connected, initial, is_connected, next_request, set_processing, set_status, process_queue,
  queue_request, connect, disconnect, on_connected, remove_at, on_resolved, on_rejected, Event,
  requested, connect_called, lost, opened, resolved, rejected, handle, run, requests,
}

module _ (w : Text → ℕ) where
  unfoldable pub total : List Text → ℕ
  total [] = 0
  total (x ∷ xs) = w x + total xs

  -- The weight of what waits, what is in flight and what is sent.
  abbrev pub weight : Socket → ℕ
  weight s = total s.queue + total s.in_flight + total s.sent

  total-append : (xs ys : List Text) → total (xs ++ ys) ≡ total xs + total ys
  unfolding total
  total-append [] ys = omega arith
  total-append (x ∷ xs) ys = omega (arith, total-append xs ys)

  total-remove_at :
      (i : ℕ) (xs : List Text) (x : Text)
      → get_elem? xs i ≡ some x
      → total xs ≡ w x + total (remove_at i xs)
  unfolding total
  total-remove_at i [] x h = ground arith
  total-remove_at zero (y ∷ xs) x h = let e : y ≡ x = ground arith in rw e refl
  total-remove_at (suc i) (y ∷ xs) x h = omega (arith, total-remove_at i xs x h)

  module _ (empty : w [] ≡ 0) where
    weight-next_request :
        (queue : List Text) (s : Socket)
        → weight (next_request queue s) ≡ total queue + total s.in_flight + total s.sent
    unfolding next_request total
    weight-next_request [] s = omega arith
    weight-next_request ([] ∷ queue) s = omega (arith, empty)
    weight-next_request ((c ∷ request) ∷ queue) s =
        omega (arith, total-append s.in_flight ((c ∷ request) ∷ []))

    weight-process_queue : (s : Socket) → weight (process_queue s) ≡ weight s
    unfolding process_queue
    weight-process_queue s =
        elim (Bool-cases (s.is_processing_queue || not (is_connected s.status))) [
          | inl busy ↦ rw busy refl
          | inr free ↦ rw free (weight-next_request s.queue (set_processing true s))
        ]

    weight-queue_request :
        (request : Text) (s : Socket) → weight (queue_request request s) ≡ w request + weight s
    unfolding queue_request total
    weight-queue_request request s =
        weight-process_queue _ ∙ omega (arith, total-append s.queue (request ∷ []))

    weight-on_resolved :
        (i : ℕ) (found : Option Text) (s : Socket)
        → get_elem? s.in_flight i ≡ found
        → weight (on_resolved i found s) ≡ weight s
    unfolding on_resolved total
    weight-on_resolved i none s h = refl
    weight-on_resolved i (some request) s h =
        weight-next_request s.queue _
        ∙ omega (arith, total-remove_at i s.in_flight request h, total-append s.sent (request ∷ []))

    weight-on_rejected :
        (i : ℕ) (found : Option Text) (s : Socket)
        → get_elem? s.in_flight i ≡ found
        → weight (on_rejected i found s) ≡ weight s
    unfolding on_rejected total
    weight-on_rejected i none s h = refl
    weight-on_rejected i (some request) s h = omega (arith, total-remove_at i s.in_flight request h)

    weight-handle :
        (e : Event) (s : Socket) → weight (handle e s) ≡ total (requests (e ∷ [])) + weight s
    unfolding handle requests total connect disconnect on_connected
    weight-handle (requested request) s = weight-queue_request request s ∙ omega arith
    weight-handle connect_called s = omega arith
    weight-handle lost s = omega arith
    weight-handle opened s = weight-process_queue (set_status connected s) ∙ omega arith
    weight-handle (resolved i) s = weight-on_resolved i _ s refl ∙ omega arith
    weight-handle (rejected i) s = weight-on_rejected i _ s refl ∙ omega arith

    requests_cons :
        (e : Event) (es : List Event)
        → total (requests (e ∷ es)) ≡ total (requests (e ∷ [])) + total (requests es)
    unfolding requests total
    requests_cons (requested request) es = omega arith
    requests_cons connect_called es = omega arith
    requests_cons lost es = omega arith
    requests_cons opened es = omega arith
    requests_cons (resolved i) es = omega arith
    requests_cons (rejected i) es = omega arith

    weight-run : (es : List Event) (s : Socket) → weight (run es s) ≡ total (requests es) + weight s
    unfolding run
    weight-run [] s = unfold requests total in omega arith
    weight-run (e ∷ es) s =
        weight-run es (handle e s) ∙ omega (arith, weight-handle e s, requests_cons e es)

    -- Whatever happens in whatever order, each request is at each time in exactly one place: in
    -- the queue, in flight or sent, as often as it was requested. It is stated with the sums of
    -- any weights of texts, the empty text weighing nothing since the loop drops it.
    pub requests_conserved :
        (es : List Event)
        → total (run es initial).queue
            + total (run es initial).in_flight
            + total (run es initial).sent
          ≡ total (requests es)
    requests_conserved es = weight-run es initial ∙ (unfold total in omega arith)
