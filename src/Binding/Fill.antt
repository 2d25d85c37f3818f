-- ===== src/Binding/Fill.antt =====
-- The inner loop of the assignment: whom it binds, and when it stops.
use driscord.Common.{
  ◌<◌, ◌≤◌, ◌≡◌, ◌⊎◌, inl, inr, Bool, true, false, not, ◌||◌, List, [], ◌∷◌, none, some, str_eq,
  eq_iff, arith, Option-cases, Bool-cases, subst, str_eq_refl,
}
use native.Mathlib.Nat.{le_refl, le_trans}
use driscord.Common.Assoc.{contains}
use driscord.Signaling.{PeerId}
use driscord.Binding.{Kind, bind_first, fill}
use driscord.Binding.Slots.{
  count, has_free, IsSound, All, Extends, bind_first-none, bind_first-All, bind_first-count,
  Extends-refl, bind_first-Extends, Extends-trans,
}

module _ {Slot Peer Notice : Type 0} (K : Kind Slot Peer Notice) (may : PeerId → Bool)
    (tell : PeerId → Slot → List Notice) where
  open K use {take_slot, is_free}

  -- A property of what the loop leaves, by its ways on: over a publisher, to the end, past a binding.
  fill_cases :
      (P : List Slot → Type 0) (p : PeerId) (rest assigned : List PeerId) (ss : List Slot)
      → (not (may p) || contains assigned p ≡ true → P (fill K may tell rest assigned ss).0)
      → (not (may p) || contains assigned p ≡ false → bind_first K p ss ≡ none → P ss)
      → ((ts : List Slot) (t : Slot)
          → not (may p) || contains assigned p ≡ false
          → bind_first K p ss ≡ some (ts, t)
          → P (fill K may tell rest (p ∷ assigned) ts).0)
      → P (fill K may tell (p ∷ rest) assigned ss).0
  unfolding fill
  fill_cases P p rest assigned ss skip stop go =
      elim (Bool-cases (not (may p) || contains assigned p)) [
        | inl t ↦ rw t (skip t)
        | inr t ↦ elim (Option-cases (bind_first K p ss)) [
          | inl e ↦ rw (t, e) (stop t e)
          | inr ((ts, x), e) ↦ rw (t, e) (go ts x t e)
        ]
      ]

  pub fill-All :
      (Q : Slot → Type 0)
      → ((p : PeerId) (s : Slot) → is_free s ≡ true → Q (take_slot p s))
      → (ps assigned : List PeerId) (ss : List Slot) → All K Q ss
      → All K Q (fill K may tell ps assigned ss).0
  fill-All Q h [] assigned ss a = unfold fill in a
  fill-All Q h (p ∷ ps) assigned ss a =
      fill_cases (All K Q) p ps assigned ss (λ _. fill-All Q h ps assigned ss a) (λ _ _. a)
        (λ ts t _ e. fill-All Q h ps (p ∷ assigned) ts (bind_first-All K Q p (h p) ss ts t e a))

  module _ (sound : IsSound K) where
    -- Binding a publisher that is not collected yet, as counts.
    bound_once :
        (q p : PeerId) (assigned : List PeerId) (ss ts : List Slot) (t : Slot)
        → count K q ss ≤ 1
        → (contains assigned q ≡ false → count K q ss ≡ 0)
        → not (may p) || contains assigned p ≡ false
        → bind_first K p ss ≡ some (ts, t)
        → (count K q ts ≤ 1) × (contains (p ∷ assigned) q ≡ false → count K q ts ≡ 0)
    unfolding contains
    bound_once q p assigned ss ts t h k f e =
        let counted = bind_first-count K sound p q ss ts t e in
        (ground (arith, counted, eq_iff p q), ground (arith, counted, eq_iff p q))

    -- Nobody is bound twice.
    pub fill-count_le :
        (q : PeerId) (ps assigned : List PeerId) (ss : List Slot)
        → count K q ss ≤ 1
        → (contains assigned q ≡ false → count K q ss ≡ 0)
        → count K q (fill K may tell ps assigned ss).0 ≤ 1
    fill-count_le q [] assigned ss h k = unfold fill in h
    fill-count_le q (p ∷ ps) assigned ss h k =
        fill_cases (λ us. count K q us ≤ 1) p ps assigned ss
          (λ _. fill-count_le q ps assigned ss h k) (λ _ _. h)
          (λ ts t f e.
            let next = bound_once q p assigned ss ts t h k f e in
            fill-count_le q ps (p ∷ assigned) ts next.0 next.1)

    -- A publisher that is bound was bound before, or is a candidate that is available.
    pub fill-count_new :
        (q : PeerId) (ps assigned : List PeerId) (ss : List Slot)
        → 0 < count K q (fill K may tell ps assigned ss).0
        → (0 < count K q ss) ⊎ ((may q ≡ true) × (contains ps q ≡ true))
    unfolding contains
    fill-count_new q [] assigned ss h = inl (unfold fill in h)
    fill-count_new q (p ∷ ps) assigned ss given =
        fill_cases
          (λ us.
            0 < count K q us → (0 < count K q ss) ⊎ ((may q ≡ true) × (contains (p ∷ ps) q ≡ true)))
          p ps assigned ss (λ _ h. ground (arith, fill-count_new q ps assigned ss h))
          (λ _ _ h. inl h)
          (λ ts t f e h. ground (
            arith,
            fill-count_new q ps (p ∷ assigned) ts h,
            bind_first-count K sound p q ss ts t e,
            eq_iff p q,
          ))
          given

    count-bind_ge :
        (q p : PeerId) (ss ts : List Slot) (t : Slot)
        → bind_first K p ss ≡ some (ts, t)
        → count K q ss ≤ count K q ts
    count-bind_ge q p ss ts t e = ground (arith, bind_first-count K sound p q ss ts t e)

    pub fill-count_ge :
        (q : PeerId) (ps assigned : List PeerId) (ss : List Slot)
        → count K q ss ≤ count K q (fill K may tell ps assigned ss).0
    fill-count_ge q [] assigned ss = unfold fill in le_refl _
    fill-count_ge q (p ∷ ps) assigned ss =
        fill_cases (λ us. count K q ss ≤ count K q us) p ps assigned ss
          (λ _. fill-count_ge q ps assigned ss) (λ _ _. le_refl _)
          (λ ts t _ e.
            le_trans (count-bind_ge q p ss ts t e) (fill-count_ge q ps (p ∷ assigned) ts))

    count-bind_self :
        (p : PeerId) (ss ts : List Slot) (t : Slot)
        → bind_first K p ss ≡ some (ts, t)
        → 0 < count K p ts
    count-bind_self p ss ts t e =
        ground (arith, bind_first-count K sound p p ss ts t e, str_eq_refl p)

    -- An available publisher is found bound already, or is bound, unless no slot is free.
    abbrev pub IsServed : PeerId → List PeerId → List Slot → Type 0
    IsServed q assigned ss =
        (has_free K ss ≡ false) ⊎ ((contains assigned q ≡ true) ⊎ (0 < count K q ss))

    IsServed-later :
        (q p : PeerId) (assigned : List PeerId) (ss : List Slot)
        → 0 < count K p ss
        → IsServed q (p ∷ assigned) ss
        → IsServed q assigned ss
    unfolding contains
    IsServed-later q p assigned ss h (inl e) = inl e
    IsServed-later q p assigned ss h (inr (inr e)) = inr (inr e)
    IsServed-later q p assigned ss h (inr (inl e)) = elim (Bool-cases (str_eq p q)) [
      | inl same ↦ inr (inr (subst (λ x. 0 < count K x ss) ((eq_iff p q).0 same) h))
      | inr other ↦ inr (inl (ground arith))
    ]

    pub fill-IsServed :
        (q : PeerId) (ps assigned : List PeerId) (ss : List Slot)
        → may q ≡ true
        → contains ps q ≡ true
        → IsServed q assigned (fill K may tell ps assigned ss).0
    unfolding contains
    fill-IsServed q [] assigned ss h k = absurd (ground arith)
    fill-IsServed q (p ∷ ps) assigned ss h k =
        fill_cases (IsServed q assigned) p ps assigned ss
          (λ f. elim (Bool-cases (str_eq p q)) [
            | inl same ↦ inr (inl (ground (arith, eq_iff p q)))
            | inr other ↦ fill-IsServed q ps assigned ss h (ground arith)
          ])
          (λ f e. inl (bind_first-none K p ss e))
          (λ ts t f e.
            let later = (fill K may tell ps (p ∷ assigned) ts).0 in
            let bound_now =
              le_trans (count-bind_self p ss ts t e) (fill-count_ge p ps (p ∷ assigned) ts) in
            elim (Bool-cases (str_eq p q)) [
              | inl same ↦
                  inr (inr (subst (λ x. 0 < count K x later) ((eq_iff p q).0 same) bound_now))
              | inr other ↦
                  IsServed-later q p assigned later bound_now
                    (fill-IsServed q ps (p ∷ assigned) ts h (ground arith))
            ])

    -- Taken slots are left alone.
    pub fill-Extends :
        (Same : Slot → Slot → Type 0)
        → ((s : Slot) → Same s s)
        → ((s t u : Slot) → Same s t → Same t u → Same s u)
        → ((p : PeerId) (s : Slot) → Same s (take_slot p s))
        → (ps assigned : List PeerId) (ss : List Slot)
        → Extends K Same ss (fill K may tell ps assigned ss).0
    fill-Extends Same same_refl same_trans kept [] assigned ss =
        unfold fill in Extends-refl K sound Same same_refl ss
    fill-Extends Same same_refl same_trans kept (p ∷ ps) assigned ss =
        fill_cases (Extends K Same ss) p ps assigned ss
          (λ _. fill-Extends Same same_refl same_trans kept ps assigned ss)
          (λ _ _. Extends-refl K sound Same same_refl ss)
          (λ ts t _ e.
            Extends-trans K sound Same same_refl same_trans ss ts _
              (bind_first-Extends K sound Same same_refl p (kept p) ss ts t e)
              (fill-Extends Same same_refl same_trans kept ps (p ∷ assigned) ts))
