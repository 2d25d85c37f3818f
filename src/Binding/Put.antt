-- ===== src/Binding/Put.antt =====
-- A change of the first slot of a kind.
use driscord.Common.{
  ◌+◌, ◌≤◌, ◌≡◌, subst, ◌⊎◌, inl, inr, Bool, true, false, List, [], ◌∷◌, ◌++◌, Option, none, some,
  if◌then◌else◌, arith, Option-cases, Bool-cases,
}
use driscord.Signaling.{PeerId}
use driscord.Binding.{Kind}
use driscord.Binding.Slots.{count, All}

module _ {Slot Notice : Type 0} (test : Slot → Bool) (change : Slot → Slot × List Notice) where
  -- `none` if no slot passes the test.
  unfoldable pub change_first : List Slot → Option (List Slot × List Notice)
  change_first [] = none
  change_first (slot ∷ slots) =
      let rest : Option (List Slot × List Notice) = elim (change_first slots) [
        | none ↦ none
        | some (slots', notices) ↦ some (slot ∷ slots', notices)
      ] in
      let (changed, told) = change slot in if test slot then some (changed ∷ slots, told) else rest

  changed_here :
      (s : Slot) (ss ts : List Slot) (told : List Notice)
      → test s ≡ true
      → change_first (s ∷ ss) ≡ some (ts, told)
      → (change s).0 ∷ ss ≡ ts
  unfolding change_first
  changed_here s ss ts told e h = ground arith

  changed_later :
      (s : Slot) (ss ts : List Slot) (told : List Notice)
      → test s ≡ false
      → change_first (s ∷ ss) ≡ some (ts, told)
      → (us : List Slot) × (rest : List Notice) × (change_first ss ≡ some (us, rest))
        × (s ∷ us ≡ ts)
  unfolding change_first
  changed_later s ss ts told e h = elim (Option-cases (change_first ss)) [
    | inl n ↦ absurd (ground arith)
    | inr ((us, rest), f) ↦ (us, rest, f, ground arith)
  ]

  -- A relation of the slots before and after, by the slot that changes.
  pub change_first_cases :
      (R : List Slot → List Slot → Type 0)
      → ((s : Slot) (ss : List Slot) → test s ≡ true → R (s ∷ ss) ((change s).0 ∷ ss))
      → ((s : Slot) (ss ts : List Slot) → R ss ts → R (s ∷ ss) (s ∷ ts))
      → (ss ts : List Slot) (told : List Notice) → change_first ss ≡ some (ts, told)
      → R ss ts
  change_first_cases R hit over [] ts told h = absurd (unfold change_first in cc)
  change_first_cases R hit over (s ∷ ss) ts told h = elim (Bool-cases (test s)) [
    | inl e ↦ subst (R (s ∷ ss)) (changed_here s ss ts told e h) (hit s ss e)
    | inr e ↦
        let (us, rest, f, join) = changed_later s ss ts told e h in
        subst (R (s ∷ ss)) join (over s ss us (change_first_cases R hit over ss us rest f))
  ]

  module _ {Peer : Type 0} (K : Kind Slot Peer Notice) where
    -- A slot that is released, or that keeps its publisher.
    pub change_first-count :
        ((s : Slot)
          → (K.publisher (change s).0 ≡ none) ⊎ (K.publisher (change s).0 ≡ K.publisher s))
        → (q : PeerId) (ss ts : List Slot) (told : List Notice) → change_first ss ≡ some (ts, told)
        → count K q ts ≤ count K q ss
    unfolding count
    change_first-count cleared q =
        change_first_cases (λ ss ts. count K q ts ≤ count K q ss)
          (λ s ss e. elim (cleared s) [
            | inl gone ↦ ground (arith, gone)
            | inr same ↦ ground (arith, same)
          ])
          (λ s ss ts h. ground arith)

    pub change_first-All :
        (Q : Slot → Type 0)
        → ((s : Slot) → test s ≡ true → Q s → Q (change s).0)
        → (ss ts : List Slot) (told : List Notice) → change_first ss ≡ some (ts, told)
        → All K Q ss
        → All K Q ts
    change_first-All Q step =
        change_first_cases (λ ss ts. All K Q ss → All K Q ts) (λ s ss e a. (step s e a.0, a.1))
          (λ s ss ts h a. (a.0, h a.1))

module _ {Slot Peer Notice : Type 0} (K : Kind Slot Peer Notice) where
  pub count_append :
      (q : PeerId) (ss ts : List Slot) → count K q (ss ++ ts) ≡ count K q ss + count K q ts
  unfolding count
  count_append q [] ts = omega arith
  count_append q (s ∷ ss) ts = ground (arith, count_append q ss ts)

  pub count_unbound : (q : PeerId) (s : Slot) → K.publisher s ≡ none → count K q (s ∷ []) ≡ 0
  unfolding count
  count_unbound q s e = ground arith

  pub All-append :
      (Q : Slot → Type 0) (ss ts : List Slot) → All K Q ss → All K Q ts → All K Q (ss ++ ts)
  All-append Q [] ts a b = b
  All-append Q (s ∷ ss) ts a b = (a.0, All-append Q ss ts a.1 b)
