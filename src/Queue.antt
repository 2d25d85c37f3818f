-- ===== src/Queue.antt =====
-- The bounded queue of outgoing messages (core/src/utils/bounded_queue.hpp). `front` and `pop_front`
-- of an empty deque are undefined in C++: here they are `none`.
pub mod Order
use driscord.Common.{
  ℕ, Bool, true, false, List, [], ◌∷◌, ◌++◌, Option, none, some, length, leb, if◌then◌else◌,
}

pub data QueuePushResult : Type 0 where
  accepted dropped_full closed_already : QueuePushResult

pub record BoundedQueue (A : Type 0) : Type 0 where
  pub capacity : ℕ
  pub closed : Bool
  pub items : List A

module _ {A : Type 0} where
  unfoldable pub new_queue : ℕ → BoundedQueue A
  new_queue capacity = record { capacity = capacity; closed = false; items = [] }

  unfoldable pub push_back : BoundedQueue A → A → QueuePushResult × BoundedQueue A
  push_back q value =
      if q.closed
      then (closed_already, q)
      else if leb q.capacity (length q.items)
      then (dropped_full, q)
      else (accepted, record q { items = q.items ++ value ∷ [] })

  unfoldable pub front : BoundedQueue A → Option A
  front q = elim q.items [ [] ↦ none | x ∷ xs ↦ some x ]

  unfoldable pub pop_front : BoundedQueue A → Option (BoundedQueue A)
  pop_front q = elim q.items [ [] ↦ none | x ∷ xs ↦ some record q { items = xs } ]

  unfoldable pub close_queue : BoundedQueue A → BoundedQueue A
  close_queue q = record q { closed = true }
