-- ===== src/Queue/Order.antt =====
-- The queue over any sequence of calls.
use driscord.Common.{
  ◌⊎◌, if_cases, ◌≤◌, ◌≡◌, refl, sym, ap, ◌∙◌, true, false, List, [], ◌∷◌, ◌++◌, none, some, length,
  leb, leb-false, length-append, arith, inl, inr,
}
use driscord.Queue.{
  QueuePushResult, accepted, dropped_full, closed_already, BoundedQueue, push_back, front,
  pop_front, close_queue,
}

module _ {A : Type 0} where
  pub append_assoc : (xs ys zs : List A) → (xs ++ ys) ++ zs ≡ xs ++ (ys ++ zs)
  append_assoc [] ys zs = refl
  append_assoc (x ∷ xs) ys zs = ap (λ l. x ∷ l) (append_assoc xs ys zs)

  pub append-nil : (xs : List A) → xs ++ [] ≡ xs
  append-nil [] = refl
  append-nil (x ∷ xs) = ap (λ l. x ∷ l) (append-nil xs)

-- A call of the queue. `take_front` is what the writer does: it reads `front`, and removes it.
pub data Call (A : Type 0) : Type 0 where
  push : A → Call A
  take_front shut : Call A

-- What the calls let in, what they took out, and the queue that they leave.
pub record Trace (A : Type 0) : Type 0 where
  pub let_in : List A
  pub taken : List A
  pub queue : BoundedQueue A

abbrev collect : {A : Type 0} → QueuePushResult → A → Trace A → Trace A
collect accepted x t = record t { let_in = x ∷ t.let_in }
collect dropped_full x t = t
collect closed_already x t = t

-- The calls in order; `take_front` of an empty queue is passed over, as the callers test `empty`.
unfoldable pub run_calls : {A : Type 0} → BoundedQueue A → List (Call A) → Trace A
run_calls q [] = record { let_in = []; taken = []; queue = q }
run_calls q (push x ∷ calls) =
    let (result, q') = push_back q x in collect result x (run_calls q' calls)
run_calls q (take_front ∷ calls) = elim (front q) [
  | none ↦ run_calls q calls
  | some x ↦ elim (pop_front q) [
    | none ↦ run_calls q calls
    | some q' ↦ let later = run_calls q' calls in record later { taken = x ∷ later.taken }
  ]
]
run_calls q (shut ∷ calls) = run_calls (close_queue q) calls

-- First in, first out.
abbrev pub IsInOrder : {A : Type 0} → BoundedQueue A → Trace A → Type 0
IsInOrder q t =
    (t.taken ++ t.queue.items ≡ q.items ++ t.let_in)
    × (length t.queue.items ≤ t.queue.capacity)
    × (t.queue.capacity ≡ q.capacity)
    × (q.closed ≡ true → t.let_in ≡ [])

module _ {A : Type 0} where
  List-cases : (xs : List A) → (xs ≡ []) ⊎ ((y : A) × (ys : List A) × (xs ≡ y ∷ ys))
  List-cases [] = inl refl
  List-cases (x ∷ xs) = inr (x, xs, refl)

  -- A call that lets `x` in, and one that takes the head out.
  IsInOrder-push :
      (q : BoundedQueue A) (x : A) (t : Trace A)
      → q.closed ≡ false
      → IsInOrder (record q { items = q.items ++ x ∷ [] }) t
      → IsInOrder q (record t { let_in = x ∷ t.let_in })
  IsInOrder-push q x t open_ (order, bound, same, shut_) =
      (order ∙ append_assoc q.items (x ∷ []) t.let_in, bound, same, λ h. absurd (ground arith))

  IsInOrder-take :
      (q : BoundedQueue A) (x : A) (xs : List A) (t : Trace A)
      → q.items ≡ x ∷ xs
      → IsInOrder (record q { items = xs }) t
      → IsInOrder q (record t { taken = x ∷ t.taken })
  IsInOrder-take q x xs t e (order, bound, same, shut_) =
      (ap (λ l. x ∷ l) order ∙ ap (λ l. l ++ t.let_in) (sym e), bound, same, shut_)

  -- Over any sequence of pushes, removals of the front and closings of a queue that holds no
  -- more than its capacity: what was taken out, followed by what is left, is what was there,
  -- followed by what was let in, in order; the queue holds no more than its capacity, which is
  -- unchanged; and a queue that was closed lets nothing in.
  pub run_calls-IsInOrder :
      (q : BoundedQueue A) (calls : List (Call A))
      → length q.items ≤ q.capacity
      → IsInOrder q (run_calls q calls)
  unfolding run_calls push_back close_queue
  run_calls-IsInOrder q [] h = (sym (append-nil q.items), h, refl, λ c. refl)
  run_calls-IsInOrder q (shut ∷ calls) h =
      let (order, bound, same, shut_) = run_calls-IsInOrder (close_queue q) calls h in
      (order, bound, same, λ c. shut_ refl)
  run_calls-IsInOrder q (push x ∷ calls) h =
      if_cases After q.closed _ _ (λ c. run_calls-IsInOrder q calls h)
        (λ c.
          if_cases After (leb q.capacity (length q.items)) _ _
            (λ full. run_calls-IsInOrder q calls h)
            (λ room.
              let q' : BoundedQueue A = record q { items = q.items ++ x ∷ [] } in
              IsInOrder-push q x (run_calls q' calls) c (
                run_calls-IsInOrder q' calls (
                  omega (
                    arith,
                    leb-false q.capacity (length q.items) room,
                    length-append q.items (x ∷ []),
                  )))))
    where
      After : QueuePushResult × BoundedQueue A → Type 0
      After pushed = IsInOrder q (collect pushed.0 x (run_calls pushed.1 calls))
  run_calls-IsInOrder q (take_front ∷ calls) h = elim (List-cases q.items) [
    | inl e ↦
        let nothing : front q ≡ none = unfold front in rw e refl in
        rw (nothing, run_calls) (run_calls-IsInOrder q calls h)
    | inr (x, xs, e) ↦
        let head : front q ≡ some x = unfold front in rw e refl in
        let tail : pop_front q ≡ some (record q { items = xs }) = unfold pop_front in rw e refl in
        rw (head, tail, run_calls)
          (IsInOrder-take q x xs (run_calls (record q { items = xs }) calls) e (
            run_calls-IsInOrder (record q { items = xs }) calls
              (omega (arith, h, ap (λ (l : List A). length l) e))))
  ]
