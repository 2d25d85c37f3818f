-- ===== src/Voice/Fill.antt =====
-- The inner loop of `assign_available_locked`: whom it binds, and when it stops.
use driscord.Common.{
  ℕ, ◌<◌, ◌≤◌, ◌≡◌, refl, ◌⊎◌, inl, inr, Bool, true, false, not, ◌||◌, List, [], ◌∷◌, Option, none,
  some, str_eq, eq_iff, arith, Option-cases, Bool-cases, ◌∙◌, subst, str_eq_refl,
}
use native.Mathlib.Nat.{le_refl, le_trans}
use driscord.Common.Assoc.{contains}
use driscord.Signaling.{PeerId}
use driscord.Voice.{Track, OutputSlot, BindingNotice, bind_first}
use driscord.Voice.Slots.{
  count, has_free, bind_first-none, bind_first-count, Extends, Extends-refl, Extends-trans,
  bind_first-Extends, AllCurrent, bind_first-AllCurrent,
}
use driscord.Voice.Assign.{Filled, fill}

module _ (alive : Track → Bool) (send : Option ℕ) (audible : PeerId → Bool) where
  -- A loop's property, by its three ways on: over a publisher, to the end, or past a binding.
  fill_cases {ℓ} :
      (P : Filled → Type ℓ) (p : PeerId) (rest assigned : List PeerId) (outputs : List OutputSlot)
      → (not (audible p) || contains assigned p ≡ true
          → P (fill alive send audible rest assigned outputs))
      → (not (audible p) || contains assigned p ≡ false
          → bind_first alive send p outputs ≡ none
          → P (record { outputs = outputs; notices = [] }))
      → ((outputs' : List OutputSlot) (notice : BindingNotice)
          → not (audible p) || contains assigned p ≡ false
          → bind_first alive send p outputs ≡ some (outputs', notice)
          → let later = fill alive send audible rest (p ∷ assigned) outputs' in
            P (record { outputs = later.outputs; notices = notice ∷ later.notices }))
      → P (fill alive send audible (p ∷ rest) assigned outputs)
  unfolding fill
  fill_cases P p rest assigned outputs skip stop go =
      elim (Bool-cases (not (audible p) || contains assigned p)) [
        | inl t ↦ rw t (skip t)
        | inr t ↦ elim (Option-cases (bind_first alive send p outputs)) [
          | inl e ↦ rw (t, e) (stop t e)
          | inr ((outputs', notice), e) ↦ rw (t, e) (go outputs' notice t e)
        ]
      ]

  -- Binding a publisher that is not collected yet, as counts.
  bound_once :
      (q p : PeerId) (assigned : List PeerId) (outputs outputs' : List OutputSlot)
      (notice : BindingNotice)
      → count q outputs ≤ 1
      → (contains assigned q ≡ false → count q outputs ≡ 0)
      → not (audible p) || contains assigned p ≡ false
      → bind_first alive send p outputs ≡ some (outputs', notice)
      → (count q outputs' ≤ 1) × (contains (p ∷ assigned) q ≡ false → count q outputs' ≡ 0)
  unfolding contains
  bound_once q p assigned outputs outputs' notice h k t e = (
    ground (arith, bind_first-count alive send p q outputs outputs' notice e, eq_iff p q),
    ground (arith, bind_first-count alive send p q outputs outputs' notice e, eq_iff p q),
  )

  -- Nobody is bound twice.
  pub fill-count_le :
      (q : PeerId) (ps assigned : List PeerId) (outputs : List OutputSlot)
      → count q outputs ≤ 1
      → (contains assigned q ≡ false → count q outputs ≡ 0)
      → count q (fill alive send audible ps assigned outputs).outputs ≤ 1
  fill-count_le q [] assigned outputs h k = unfold fill in h
  fill-count_le q (p ∷ ps) assigned outputs h k =
      fill_cases (λ f. count q f.outputs ≤ 1) p ps assigned outputs
        (λ t. fill-count_le q ps assigned outputs h k) (λ t e. h)
        (λ outputs' notice t e.
          let next = bound_once q p assigned outputs outputs' notice h k t e in
          fill-count_le q ps (p ∷ assigned) outputs' next.0 next.1)

  count-bind_ne :
      (q p : PeerId) (assigned : List PeerId) (outputs outputs' : List OutputSlot)
      (notice : BindingNotice)
      → audible q ≡ false
      → not (audible p) || contains assigned p ≡ false
      → bind_first alive send p outputs ≡ some (outputs', notice)
      → count q outputs' ≡ count q outputs
  count-bind_ne q p assigned outputs outputs' notice h t e =
      ground (arith, bind_first-count alive send p q outputs outputs' notice e, eq_iff p q)

  -- A publisher that is not to be heard is not bound.
  pub fill-count_inaudible :
      (q : PeerId) (ps assigned : List PeerId) (outputs : List OutputSlot)
      → audible q ≡ false
      → count q (fill alive send audible ps assigned outputs).outputs ≡ count q outputs
  fill-count_inaudible q [] assigned outputs h = unfold fill in refl
  fill-count_inaudible q (p ∷ ps) assigned outputs h =
      fill_cases (λ f. count q f.outputs ≡ count q outputs) p ps assigned outputs
        (λ t. fill-count_inaudible q ps assigned outputs h) (λ t e. refl)
        (λ outputs' notice t e.
          fill-count_inaudible q ps (p ∷ assigned) outputs' h
          ∙ count-bind_ne q p assigned outputs outputs' notice h t e)

  count-bind_ge :
      (q p : PeerId) (outputs outputs' : List OutputSlot) (notice : BindingNotice)
      → bind_first alive send p outputs ≡ some (outputs', notice)
      → count q outputs ≤ count q outputs'
  count-bind_ge q p outputs outputs' notice e =
      ground (arith, bind_first-count alive send p q outputs outputs' notice e)

  pub fill-count_ge :
      (q : PeerId) (ps assigned : List PeerId) (outputs : List OutputSlot)
      → count q outputs ≤ count q (fill alive send audible ps assigned outputs).outputs
  fill-count_ge q [] assigned outputs = unfold fill in le_refl _
  fill-count_ge q (p ∷ ps) assigned outputs =
      fill_cases (λ f. count q outputs ≤ count q f.outputs) p ps assigned outputs
        (λ t. fill-count_ge q ps assigned outputs) (λ t e. le_refl _)
        (λ outputs' notice t e.
          le_trans (count-bind_ge q p outputs outputs' notice e)
            (fill-count_ge q ps (p ∷ assigned) outputs'))

  count-bind_self :
      (p : PeerId) (outputs outputs' : List OutputSlot) (notice : BindingNotice)
      → bind_first alive send p outputs ≡ some (outputs', notice)
      → 0 < count p outputs'
  count-bind_self p outputs outputs' notice e =
      ground (arith, bind_first-count alive send p p outputs outputs' notice e, str_eq_refl p)

  -- A publisher to be heard is found bound already, or bound by the loop, unless no slot is free.
  abbrev pub IsServed : PeerId → List PeerId → Filled → Type 0
  IsServed q assigned f =
      (has_free alive f.outputs ≡ false) ⊎ ((contains assigned q ≡ true) ⊎ (0 < count q f.outputs))

  IsServed-later :
      (q p : PeerId) (assigned : List PeerId) (f : Filled)
      → 0 < count p f.outputs
      → IsServed q (p ∷ assigned) f
      → IsServed q assigned f
  unfolding contains
  IsServed-later q p assigned f h (inl e) = inl e
  IsServed-later q p assigned f h (inr (inr e)) = inr (inr e)
  IsServed-later q p assigned f h (inr (inl e)) = elim (Bool-cases (str_eq p q)) [
    | inl same ↦ inr (inr (subst (λ x. 0 < count x f.outputs) ((eq_iff p q).0 same) h))
    | inr other ↦ inr (inl (ground arith))
  ]

  pub fill-IsServed :
      (q : PeerId) (ps assigned : List PeerId) (outputs : List OutputSlot)
      → audible q ≡ true
      → contains ps q ≡ true
      → IsServed q assigned (fill alive send audible ps assigned outputs)
  unfolding contains
  fill-IsServed q [] assigned outputs h k = absurd (ground arith)
  fill-IsServed q (p ∷ ps) assigned outputs h k =
      fill_cases (IsServed q assigned) p ps assigned outputs
        (λ t. elim (Bool-cases (str_eq p q)) [
          | inl same ↦ inr (inl (ground (arith, eq_iff p q)))
          | inr other ↦ fill-IsServed q ps assigned outputs h (ground arith)
        ])
        (λ t e. inl (bind_first-none alive send p outputs e))
        (λ outputs' notice t e.
          let later = fill alive send audible ps (p ∷ assigned) outputs' in
          let bound_now =
            le_trans (count-bind_self p outputs outputs' notice e)
              (fill-count_ge p ps (p ∷ assigned) outputs') in
          elim (Bool-cases (str_eq p q)) [
            | inl same ↦
                inr (inr (subst (λ x. 0 < count x later.outputs) ((eq_iff p q).0 same) bound_now))
            | inr other ↦
                IsServed-later q p assigned later bound_now
                  (fill-IsServed q ps (p ∷ assigned) outputs' h (ground arith))
          ])

  -- Taken slots are left alone.
  pub fill-Extends :
      (ps assigned : List PeerId) (outputs : List OutputSlot)
      → Extends outputs (fill alive send audible ps assigned outputs).outputs
  fill-Extends [] assigned outputs = unfold fill in Extends-refl outputs
  fill-Extends (p ∷ ps) assigned outputs =
      fill_cases (λ f. Extends outputs f.outputs) p ps assigned outputs
        (λ t. fill-Extends ps assigned outputs) (λ t e. Extends-refl outputs)
        (λ outputs' notice t e.
          Extends-trans outputs outputs' _
            (bind_first-Extends alive send p outputs outputs' notice e)
            (fill-Extends ps (p ∷ assigned) outputs'))

  pub fill-AllCurrent :
      (ps assigned : List PeerId) (outputs : List OutputSlot)
      → AllCurrent outputs
      → AllCurrent (fill alive send audible ps assigned outputs).outputs
  fill-AllCurrent [] assigned outputs c = unfold fill in c
  fill-AllCurrent (p ∷ ps) assigned outputs c =
      fill_cases (λ f. AllCurrent f.outputs) p ps assigned outputs
        (λ t. fill-AllCurrent ps assigned outputs c) (λ t e. c)
        (λ outputs' notice t e.
          fill-AllCurrent ps (p ∷ assigned) outputs'
            (bind_first-AllCurrent alive send p outputs outputs' notice c e))
