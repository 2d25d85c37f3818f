-- ===== src/Tests/Queue.antt =====
-- core/src/utils/bounded_queue.hpp over a short run of calls.
use driscord.Common.{ℕ, ◌≡◌, refl, List, [], ◌∷◌, arith}
use driscord.Queue.{BoundedQueue, new_queue, push_back, front, pop_front, close_queue}
use driscord.Queue.Order.{Call, push, take_front, shut, IsInOrder, run_calls, run_calls-IsInOrder}

abbrev small : BoundedQueue ℕ
unfolding new_queue
small = new_queue 2

-- The third push finds the queue full, and the last one finds it closed.
abbrev session : List (Call ℕ)
session = push 1 ∷ push 2 ∷ push 3 ∷ take_front ∷ push 4 ∷ shut ∷ push 5 ∷ take_front ∷ []

let_in_session : (run_calls small session).let_in ≡ 1 ∷ 2 ∷ 4 ∷ []
unfolding run_calls push_back front pop_front close_queue small
let_in_session = refl

run_calls-IsInOrder_example : IsInOrder small (run_calls small session)
unfolding small
run_calls-IsInOrder_example = run_calls-IsInOrder small session (omega arith)
