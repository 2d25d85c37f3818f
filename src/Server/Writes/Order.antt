-- ===== src/Server/Writes/Order.antt =====
-- A session's writes (backend/signaling_server/src/ws_server.cpp) over any events.
use driscord.Common.{
  ℕ, suc, ◌+◌, ◌≤◌, ◌==◌, leb, ◌≡◌, refl, sym, ap, ◌∙◌, subst, Bool, true, false, List, [], ◌∷◌,
  ◌++◌, length, length-append, if◌then◌else◌, if_cases, arith,
}
use driscord.Queue.{
  QueuePushResult, accepted, dropped_full, closed_already, BoundedQueue, new_queue, push_back,
  front, pop_front, close_queue,
}
use driscord.Queue.Order.{append_assoc, append-nil}
use driscord.Server.Writes.{
  Writer, new_writer, enqueue, do_write, run_posted, on_close, on_write, Event, sends, runs, closes,
  ends, step, run_events,
}

-- What is posted and written, by what waits in the queue and whether that is closed.
pub data IsPhase {A : Type 0} : List A → Bool → ℕ → List A → Type 0 where
  idle : (c : Bool) → IsPhase [] c 0 []
  waiting : (x : A) (xs : List A) (c : Bool) → IsPhase (x ∷ xs) c 1 []
  writing : (x : A) (xs : List A) (c : Bool) → IsPhase (x ∷ xs) c 0 (x ∷ [])
  broken : (xs : List A) → IsPhase xs true 0 []

pub record IsOrderly {A : Type 0} (w : Writer A) : Type 0 where
  pub order : w.written ++ w.write_queue.items ≡ w.let_in
  pub phase : IsPhase w.write_queue.items w.write_queue.closed w.posted w.in_flight
  pub shut : w.closed ≡ true → w.write_queue.closed ≡ true

module _ {A : Type 0} where
  closed_phase :
      (xs : List A) (c : Bool) (n : ℕ) (ys : List A) → IsPhase xs c n ys → IsPhase xs true n ys
  closed_phase xs c n ys (idle _) = idle true
  closed_phase xs c n ys (waiting x zs _) = waiting x zs true
  closed_phase xs c n ys (writing x zs _) = writing x zs true
  closed_phase xs c n ys (broken _) = broken xs

  on_close-IsOrderly : (w : Writer A) → IsOrderly w → IsOrderly (on_close w)
  unfolding on_close close_queue
  on_close-IsOrderly w h =
      if_cases IsOrderly w.closed _ _ (λ _. h)
        (λ _. record {
          order = h.order;
          phase =
              closed_phase w.write_queue.items w.write_queue.closed w.posted w.in_flight h.phase;
          shut = λ _. refl;
        })

  posted_phase :
      (x : A) (xs : List A) (n : ℕ) (ys : List A)
      → IsPhase xs false n ys
      → IsPhase (xs ++ x ∷ []) false (if length (xs ++ x ∷ []) == 1 then suc n else n) ys
  posted_phase x xs n ys (idle c) = waiting x [] false
  posted_phase x xs n ys (waiting y zs c) =
      if_cases (λ m. IsPhase (y ∷ (zs ++ x ∷ [])) false m []) (length ((y ∷ zs) ++ x ∷ []) == 1) _ _
        (λ e. absurd (ground (arith, e, length-append zs (x ∷ []))))
        (λ _. waiting y (zs ++ x ∷ []) false)
  posted_phase x xs n ys (writing y zs c) =
      if_cases (λ m. IsPhase (y ∷ (zs ++ x ∷ [])) false m (y ∷ []))
        (length ((y ∷ zs) ++ x ∷ []) == 1) _ _
        (λ e. absurd (ground (arith, e, length-append zs (x ∷ []))))
        (λ _. writing y (zs ++ x ∷ []) false)

  -- A writer by its fields.
  abbrev at : ℕ → List A → Bool → ℕ → List A → List A → List A → Bool → Writer A
  at capacity items c n flying written let_in closed = record {
    write_queue = record { capacity = capacity; closed = c; items = items };
    posted = n;
    in_flight = flying;
    written = written;
    let_in = let_in;
    closed = closed;
  }

  enqueue-IsOrderly : (w : Writer A) (x : A) → IsOrderly w → IsOrderly (enqueue w x)
  unfolding enqueue push_back
  enqueue-IsOrderly w x h =
      let q = w.write_queue in
      if_cases (Queued w x) q.closed _ _ (λ _. h)
        (λ c.
          if_cases (Queued w x) (leb q.capacity (length q.items)) _ _ (λ _. h)
            (λ _. record {
              order = sym (append_assoc w.written q.items (x ∷ [])) ∙ ap (λ l. l ++ x ∷ []) h.order;
              phase =
                  subst
                    (λ b.
                      IsPhase (q.items ++ x ∷ []) b
                        (if length (q.items ++ x ∷ []) == 1 then suc w.posted else w.posted)
                        w.in_flight)
                    (sym c)
                    (posted_phase x q.items w.posted w.in_flight
                      (subst (λ b. IsPhase q.items b w.posted w.in_flight) c h.phase));
              shut = h.shut;
            }))
    where
      Queued : Writer A → A → QueuePushResult × BoundedQueue A → Type 0
      Queued w x pushed = IsOrderly (elim pushed.0 as (λ _. Writer A) [
        | accepted ↦ record w {
          write_queue = pushed.1;
          posted = if length pushed.1.items == 1 then suc w.posted else w.posted;
          let_in = w.let_in ++ x ∷ [];
        }
        | dropped_full ↦ w
        | closed_already ↦ w
      ])

  run_posted-IsOrderly :
      (capacity : ℕ) (items : List A) (c : Bool) (n : ℕ) (flying written let_in : List A)
      (closed : Bool)
      → written ++ items ≡ let_in
      → (closed ≡ true → c ≡ true)
      → IsPhase items c n flying
      → IsOrderly (run_posted (at capacity items c n flying written let_in closed))
  unfolding run_posted do_write front
  run_posted-IsOrderly capacity items c n flying written let_in closed e s (idle _) = record {
    order = e;
    phase = idle c;
    shut = s;
  }
  run_posted-IsOrderly capacity items c n flying written let_in closed e s (waiting x xs _) =
      record { order = e; phase = writing x xs c; shut = s }
  run_posted-IsOrderly capacity items c n flying written let_in closed e s (writing x xs _) =
      record { order = e; phase = writing x xs c; shut = s }
  run_posted-IsOrderly capacity items c n flying written let_in closed e s (broken _) = record {
    order = e;
    phase = broken items;
    shut = s;
  }

  on_write-IsOrderly :
      (failed : Bool) (capacity : ℕ) (items : List A) (c : Bool) (n : ℕ)
      (flying written let_in : List A) (closed : Bool)
      → written ++ items ≡ let_in
      → (closed ≡ true → c ≡ true)
      → IsPhase items c n flying
      → IsOrderly (on_write failed (at capacity items c n flying written let_in closed))
  unfolding on_write do_write on_close front pop_front close_queue
  on_write-IsOrderly failed capacity items c n flying written let_in closed e s (idle _) = record {
    order = e;
    phase = idle c;
    shut = s;
  }
  on_write-IsOrderly failed capacity items c n flying written let_in closed e s (waiting x xs _) =
      record { order = e; phase = waiting x xs c; shut = s }
  on_write-IsOrderly failed capacity items c n flying written let_in closed e s (broken _) =
      record { order = e; phase = broken items; shut = s }
  on_write-IsOrderly true capacity items c n flying written let_in closed e s (writing x xs _) =
      if_cases IsOrderly closed _ _
        (λ yes. record {
          order = e;
          phase = subst (λ b. IsPhase (x ∷ xs) b 0 []) (sym (s yes)) (broken (x ∷ xs));
          shut = s;
        })
        (λ no. record { order = e; phase = broken (x ∷ xs); shut = λ _. refl })
  on_write-IsOrderly false capacity items c n flying written let_in closed e s (writing x [] _) =
      record { order = append-nil (written ++ x ∷ []) ∙ e; phase = idle c; shut = s }
  on_write-IsOrderly false capacity items c n flying written let_in closed e s
        (writing x (y ∷ ys) _) =
      if_cases IsOrderly (length (y ∷ ys) == 0) _ _
        (λ none_left. absurd (ground (arith, none_left)))
        (λ _. record {
          order = append_assoc written (x ∷ []) (y ∷ ys) ∙ e;
          phase = writing y ys c;
          shut = s;
        })

  step-IsOrderly : (event : Event A) (w : Writer A) → IsOrderly w → IsOrderly (step event w)
  unfolding step
  step-IsOrderly (sends x) w h = enqueue-IsOrderly w x h
  step-IsOrderly runs w h =
      run_posted-IsOrderly w.write_queue.capacity w.write_queue.items w.write_queue.closed w.posted
        w.in_flight w.written w.let_in w.closed h.order h.shut h.phase
  step-IsOrderly closes w h = on_close-IsOrderly w h
  step-IsOrderly (ends failed) w h =
      on_write-IsOrderly failed w.write_queue.capacity w.write_queue.items w.write_queue.closed
        w.posted w.in_flight w.written w.let_in w.closed h.order h.shut h.phase

  run_events-IsOrderly :
      (events : List (Event A)) (w : Writer A) → IsOrderly w → IsOrderly (run_events events w)
  unfolding run_events
  run_events-IsOrderly [] w h = h
  run_events-IsOrderly (event ∷ events) w h =
      run_events-IsOrderly events (step event w) (step-IsOrderly event w h)

  new_writer-IsOrderly : IsOrderly (new_writer {A = A})
  unfolding new_writer new_queue
  new_writer-IsOrderly = record { order = refl; phase = idle false; shut = λ e. absurd cc }

  -- What a phase says of the number of writes.
  at_most_one :
      (xs : List A) (c : Bool) (n : ℕ) (ys : List A) → IsPhase xs c n ys → n + length ys ≤ 1
  at_most_one xs c n ys (idle _) = omega arith
  at_most_one xs c n ys (waiting x zs _) = omega arith
  at_most_one xs c n ys (writing x zs _) = omega arith
  at_most_one xs c n ys (broken _) = omega arith

  exactly_one :
      (xs : List A) (c : Bool) (n : ℕ) (ys : List A)
      → IsPhase xs c n ys
      → c ≡ false
      → 1 ≤ length xs
      → n + length ys ≡ 1
  exactly_one xs c n ys (idle _) e h = absurd (omega (arith, h))
  exactly_one xs c n ys (waiting x zs _) e h = omega arith
  exactly_one xs c n ys (writing x zs _) e h = omega arith
  exactly_one xs c n ys (broken _) e h = absurd cc

  -- Over any events of a new session (messages that it sends, posted calls that run, writes
  -- that end well or with an error, closing): the messages that were written, followed by those
  -- in the queue, are those that the queue took, in order; at most one write is posted or in
  -- flight; and exactly one is while the queue is open and not empty.
  pub run_events-IsInOrder :
      (events : List (Event A))
      → let w = run_events events new_writer in
        (w.written ++ w.write_queue.items ≡ w.let_in)
        × (w.posted + length w.in_flight ≤ 1)
        × (w.write_queue.closed ≡ false
            → 1 ≤ length w.write_queue.items
            → w.posted + length w.in_flight ≡ 1)
  run_events-IsInOrder events =
      let w = run_events events new_writer in
      let h = run_events-IsOrderly events new_writer new_writer-IsOrderly in
      (
        h.order,
        at_most_one w.write_queue.items w.write_queue.closed w.posted w.in_flight h.phase,
        exactly_one w.write_queue.items w.write_queue.closed w.posted w.in_flight h.phase,
      )
