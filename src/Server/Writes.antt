-- ===== src/Server/Writes.antt =====
-- How a session writes its messages (`Session::enqueue`, `do_write`, `on_write` and `on_close` of
-- backend/signaling_server/src/ws_server.cpp). The queue's mutex makes each access one step; `posted`
-- counts the calls of `do_write` that are posted to the executor and have not run, and `in_flight` has
-- the messages of the writes that Boost has begun and not ended. Nobody but `on_write` takes messages
-- out, so that its call of `do_write` is part of its step.
pub mod Order
use driscord.Common.{
  ℕ, zero, suc, ◌+◌, ◌==◌, Bool, true, false, List, [], ◌∷◌, ◌++◌, Option, none, some, length,
  if◌then◌else◌,
}
use driscord.Queue.{
  QueuePushResult, accepted, dropped_full, closed_already, BoundedQueue, new_queue, push_back,
  front, pop_front, close_queue,
}

-- `kMaxWriteQueueSize`.
abbrev pub max_write_queue_size : ℕ
max_write_queue_size = 128

-- `let_in` and `written` are the messages that the queue took and those whose writes have ended well.
pub record Writer (A : Type 0) : Type 0 where
  pub write_queue : BoundedQueue A
  pub posted : ℕ
  pub in_flight : List A
  pub written : List A
  pub let_in : List A
  pub closed : Bool

module _ {A : Type 0} where
  unfoldable pub new_writer : Writer A
  unfolding new_queue
  new_writer = record {
    write_queue = new_queue max_write_queue_size;
    posted = 0;
    in_flight = [];
    written = [];
    let_in = [];
    closed = false;
  }

  unfoldable pub enqueue : Writer A → A → Writer A
  enqueue w x =
      let (result, queue) = push_back w.write_queue x in
      let start_write = length queue.items == 1 in
      elim result [
        | accepted ↦ record w {
          write_queue = queue;
          posted = if start_write then suc w.posted else w.posted;
          let_in = w.let_in ++ x ∷ [];
        }
        | dropped_full ↦ w
        | closed_already ↦ w
      ]

  unfoldable pub do_write : Writer A → Writer A
  do_write w = elim (front w.write_queue) [
    | none ↦ w
    | some x ↦ record w { in_flight = w.in_flight ++ x ∷ [] }
  ]

  -- The executor runs a call that is posted.
  unfoldable pub run_posted : Writer A → Writer A
  run_posted w = elim w.posted [ zero ↦ w | suc n ↦ do_write (record w { posted = n }) ]

  unfoldable pub on_close : Writer A → Writer A
  on_close w =
      if w.closed then w else record w { closed = true; write_queue = close_queue w.write_queue }

  -- The first write ends, well or with an error.
  unfoldable pub on_write : Bool → Writer A → Writer A
  on_write failed w = elim w.in_flight [
    | [] ↦ w
    | x ∷ rest ↦
        let queue : BoundedQueue A = elim (pop_front w.write_queue) [
          | none ↦ w.write_queue
          | some q ↦ q
        ] in
        let ended = record w {
          in_flight = rest;
          written = w.written ++ x ∷ [];
          write_queue = queue;
        } in
        let more = if length queue.items == 0 then ended else do_write ended in
        if failed then on_close (record w { in_flight = rest }) else more
  ]

-- What happens to a session: it sends a message, a posted call runs, a write ends, it is closed.
pub data Event (A : Type 0) : Type 0 where
  sends : A → Event A
  runs closes : Event A
  ends : Bool → Event A

module _ {A : Type 0} where
  unfoldable pub step : Event A → Writer A → Writer A
  step (sends x) w = enqueue w x
  step runs w = run_posted w
  step closes w = on_close w
  step (ends failed) w = on_write failed w

  unfoldable pub run_events : List (Event A) → Writer A → Writer A
  run_events [] w = w
  run_events (e ∷ es) w = run_events es (step e w)
