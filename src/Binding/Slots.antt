-- ===== src/Binding/Slots.antt =====
-- Taking slots: how often a publisher is bound, and which slots stay as they were.
use driscord.Common.{
  ℕ, suc, ◌<◌, ◌≤◌, ◌≡◌, refl, ◌⊎◌, inl, inr, Bool, true, false, ◌||◌, List, [], ◌∷◌, none, some,
  str_eq, if◌then◌else◌, arith, Option-cases, Bool-cases, subst, ap, sym, ◌∙◌,
}
use driscord.Common.Assoc.{contains}
use driscord.Signaling.{PeerId}
use driscord.Binding.{Kind, bound, bind_first}

module _ {Slot Peer Notice : Type 0} (K : Kind Slot Peer Notice) where
  open K use {publisher, is_free, take_slot}

  abbrev pub is_bound_to : PeerId → Slot → Bool
  is_bound_to p slot = elim (publisher slot) [ none ↦ false | some q ↦ str_eq q p ]

  unfoldable pub count : PeerId → List Slot → ℕ
  count p [] = 0
  count p (slot ∷ slots) = if is_bound_to p slot then suc (count p slots) else count p slots

  unfoldable pub has_free : List Slot → Bool
  has_free [] = false
  has_free (slot ∷ slots) = is_free slot || has_free slots

  -- What a kind of slot promises: a free slot has no publisher, and a slot that is taken has it.
  pub record IsSound : Type 0 where
    pub free : (s : Slot) → is_free s ≡ true → publisher s ≡ none
    pub taken : (p : PeerId) (s : Slot) → publisher (take_slot p s) ≡ some p

  -- A property of each slot.
  abbrev pub All : (Slot → Type 0) → List Slot → Type 0
  All Q [] = Unit {0}
  All Q (s ∷ ss) = Q s × All Q ss

  -- Slot by slot, a taken slot is unchanged, and a free one keeps its identity.
  abbrev pub Extends : (Slot → Slot → Type 0) → List Slot → List Slot → Type 0
  Extends Same [] [] = Unit {0}
  Extends Same [] (t ∷ ts) = ⊥
  Extends Same (s ∷ ss) [] = ⊥
  Extends Same (s ∷ ss) (t ∷ ts) = (((is_free s ≡ true) × Same s t) ⊎ (t ≡ s)) × Extends Same ss ts

  pub contains-bound :
      (p : PeerId) (slots : List Slot) → contains (bound K slots) p ≡ false → count p slots ≡ 0
  unfolding contains bound count
  contains-bound p [] h = refl
  contains-bound p (slot ∷ slots) h = ground (arith, contains-bound p slots)

  pub bound-contains :
      (p : PeerId) (slots : List Slot) → contains (bound K slots) p ≡ true → 0 < count p slots
  unfolding contains bound count
  bound-contains p [] h = absurd cc
  bound-contains p (slot ∷ slots) h = ground (arith, bound-contains p slots)

  pub bind_first-none :
      (p : PeerId) (slots : List Slot) → bind_first K p slots ≡ none → has_free slots ≡ false
  unfolding bind_first has_free
  bind_first-none p [] h = refl
  bind_first-none p (slot ∷ slots) h = ground (arith, bind_first-none p slots)

  -- Binding takes one free slot: here, or further on.
  bind_first_here :
      (p : PeerId) (s : Slot) (ss ss' : List Slot) (t : Slot)
      → is_free s ≡ true
      → bind_first K p (s ∷ ss) ≡ some (ss', t)
      → take_slot p s ∷ ss ≡ ss'
  unfolding bind_first
  bind_first_here p s ss ss' t f h = ground arith

  bind_first_later :
      (p : PeerId) (s : Slot) (ss ss' : List Slot) (t : Slot)
      → is_free s ≡ false
      → bind_first K p (s ∷ ss) ≡ some (ss', t)
      → (ss0 : List Slot) × (t0 : Slot) × (bind_first K p ss ≡ some (ss0, t0)) × (s ∷ ss0 ≡ ss')
  unfolding bind_first
  bind_first_later p s ss ss' t f h = elim (Option-cases (bind_first K p ss)) [
    | inl e ↦ absurd (ground arith)
    | inr ((ss0, t0), e) ↦ (ss0, t0, e, ground arith)
  ]

  -- A property of the slots, by the slot that binding takes.
  pub bind_first_cases :
      (p : PeerId) (R : List Slot → List Slot → Type 0)
      → ((s : Slot) (ss : List Slot) → is_free s ≡ true → R (s ∷ ss) (take_slot p s ∷ ss))
      → ((s : Slot) (ss ts : List Slot) → R ss ts → R (s ∷ ss) (s ∷ ts))
      → (ss ts : List Slot) (t : Slot) → bind_first K p ss ≡ some (ts, t)
      → R ss ts
  bind_first_cases p R hit over [] ts t h = absurd (unfold bind_first in cc)
  bind_first_cases p R hit over (s ∷ ss) ts t h = elim (Bool-cases (is_free s)) [
    | inl f ↦ subst (R (s ∷ ss)) (bind_first_here p s ss ts t f h) (hit s ss f)
    | inr f ↦
        let (ss0, t0, e, join) = bind_first_later p s ss ts t f h in
        subst (R (s ∷ ss)) join (over s ss ss0 (bind_first_cases p R hit over ss ss0 t0 e))
  ]

  pub bind_first-All :
      (Q : Slot → Type 0) (p : PeerId)
      → ((s : Slot) → is_free s ≡ true → Q (take_slot p s))
      → (ss ts : List Slot) (t : Slot) → bind_first K p ss ≡ some (ts, t)
      → All Q ss
      → All Q ts
  bind_first-All Q p h =
      bind_first_cases p (λ ss ts. All Q ss → All Q ts) (λ s ss f a. (h s f, a.1))
        (λ s ss ts k a. (a.0, k a.1))

  module _ (sound : IsSound) where
    pub bind_first-count :
        (p q : PeerId) (ss ts : List Slot) (t : Slot)
        → bind_first K p ss ≡ some (ts, t)
        → count q ts ≡ (if str_eq p q then suc (count q ss) else count q ss)
    unfolding count
    bind_first-count p q =
        bind_first_cases p
          (λ ss ts. count q ts ≡ (if str_eq p q then suc (count q ss) else count q ss))
          (λ s ss f. let e = sound.free s f in let e' = sound.taken p s in ground arith)
          (λ s ss ts k. ground arith)

    module _ (Same : Slot → Slot → Type 0) (same_refl : (s : Slot) → Same s s) where
      pub Extends-refl : (ss : List Slot) → Extends Same ss ss
      Extends-refl [] = tt
      Extends-refl (s ∷ ss) = (inr refl, Extends-refl ss)

      pub bind_first-Extends :
          (p : PeerId)
          → ((s : Slot) → Same s (take_slot p s))
          → (ss ts : List Slot) (t : Slot) → bind_first K p ss ≡ some (ts, t)
          → Extends Same ss ts
      bind_first-Extends p kept =
          bind_first_cases p (Extends Same) (λ s ss f. (inl (f, kept s), Extends-refl ss))
            (λ s ss ts k. (inr refl, k))

      pub Extends-trans :
          ((s t u : Slot) → Same s t → Same t u → Same s u)
          → (ss ts us : List Slot) → Extends Same ss ts
          → Extends Same ts us
          → Extends Same ss us
      Extends-trans same_trans [] [] us h k = k
      Extends-trans same_trans [] (t ∷ ts) us h k = absurd h
      Extends-trans same_trans (s ∷ ss) [] us h k = absurd h
      Extends-trans same_trans (s ∷ ss) (t ∷ ts) [] h k = absurd k
      Extends-trans same_trans (s ∷ ss) (t ∷ ts) (u ∷ us) h k =
          (step h.0 k.0, Extends-trans same_trans ss ts us h.1 k.1)
        where
          step :
              ((is_free s ≡ true) × Same s t) ⊎ (t ≡ s)
              → ((is_free t ≡ true) × Same t u) ⊎ (u ≡ t)
              → ((is_free s ≡ true) × Same s u) ⊎ (u ≡ s)
          step (inl a) (inl b) = inl (a.0, same_trans s t u a.1 b.1)
          step (inl a) (inr e) = inl (a.0, subst (Same s) (sym e) a.1)
          step (inr e) (inl b) =
              inl (subst (λ x. is_free x ≡ true) e b.0, subst (λ x. Same x u) e b.1)
          step (inr e) (inr e') = inr (e' ∙ e)

    -- What stays while taken slots stay.
    pub Extends-count :
        (Same : Slot → Slot → Type 0) (p : PeerId) (ss ts : List Slot)
        → Extends Same ss ts
        → count p ss ≤ count p ts
    unfolding count
    Extends-count Same p [] [] h = omega arith
    Extends-count Same p [] (t ∷ ts) h = absurd h
    Extends-count Same p (s ∷ ss) [] h = absurd h
    Extends-count Same p (s ∷ ss) (t ∷ ts) (inl (f, _), h) =
        let e = sound.free s f in ground (arith, Extends-count Same p ss ts h)
    Extends-count Same p (s ∷ ss) (t ∷ ts) (inr e, h) =
        let same : is_bound_to p t ≡ is_bound_to p s = ap (is_bound_to p) e in
        ground (arith, Extends-count Same p ss ts h)

    pub Extends-has_free :
        (Same : Slot → Slot → Type 0) (ss ts : List Slot)
        → Extends Same ss ts
        → has_free ss ≡ false
        → has_free ts ≡ false
    unfolding has_free
    Extends-has_free Same [] [] h f = refl
    Extends-has_free Same [] (t ∷ ts) h f = absurd h
    Extends-has_free Same (s ∷ ss) [] h f = absurd h
    Extends-has_free Same (s ∷ ss) (t ∷ ts) (inl (e, _), h) f = absurd (ground arith)
    Extends-has_free Same (s ∷ ss) (t ∷ ts) (inr e, h) f =
        let same : is_free t ≡ is_free s = ap is_free e in
        ground (arith, Extends-has_free Same ss ts h)
