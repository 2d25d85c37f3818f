-- ===== src/Voice/Slots.antt =====
-- How often a publisher is bound in a list of slots, and what binding a slot does to it.
use driscord.Common.{
  ℕ, suc, ◌<◌, ◌≤◌, ◌≡◌, refl, ◌⊎◌, inl, inr, Bool, true, false, ◌||◌, List, [], ◌∷◌, Option, none,
  some, str_eq, if◌then◌else◌, arith, Option-cases, Bool-cases, subst, ap, sym, ◌∙◌,
}
use driscord.Common.Assoc.{contains}
use driscord.Rtp.Slot.{begin_source}
use driscord.Signaling.{PeerId}
use driscord.Voice.{
  Track, OutputSlot, BindingNotice, is_free, is_bound_to, bound, take_slot, bind_first,
}

unfoldable pub count : PeerId → List OutputSlot → ℕ
count p [] = 0
count p (slot ∷ slots) = if is_bound_to p slot then suc (count p slots) else count p slots

unfoldable pub has_free : (Track → Bool) → List OutputSlot → Bool
has_free alive [] = false
has_free alive (slot ∷ slots) = is_free alive slot || has_free alive slots

-- Slot by slot, a taken slot is unchanged, and every slot keeps its identity.
abbrev pub Extends : List OutputSlot → List OutputSlot → Type 0
Extends [] [] = Unit {0}
Extends [] (t ∷ ts) = ⊥
Extends (s ∷ ss) [] = ⊥
Extends (s ∷ ss) (t ∷ ts) =
    ((s.publisher ≡ none) ⊎ (t ≡ s))
    × (t.mid ≡ s.mid)
    × (t.ssrc ≡ s.ssrc)
    × (t.track ≡ s.track)
    × Extends ss ts

pub Extends-refl : (ss : List OutputSlot) → Extends ss ss
Extends-refl [] = tt
Extends-refl (s ∷ ss) = (inr refl, refl, refl, refl, Extends-refl ss)

-- A taken slot carries the generation that its rewriter accepts.
abbrev pub IsCurrent : OutputSlot → Type 0
IsCurrent s = (s.publisher ≡ none) ⊎ (s.rewriter.generation ≡ s.source_generation)

abbrev pub AllCurrent : List OutputSlot → Type 0
AllCurrent [] = Unit {0}
AllCurrent (s ∷ ss) = IsCurrent s × AllCurrent ss

pub Extends-trans : (ss ts us : List OutputSlot) → Extends ss ts → Extends ts us → Extends ss us
Extends-trans [] [] [] h k = tt
Extends-trans [] [] (u ∷ us) h k = k
Extends-trans [] (t ∷ ts) us h k = absurd h
Extends-trans (s ∷ ss) [] us h k = absurd h
Extends-trans (s ∷ ss) (t ∷ ts) [] h k = absurd k
Extends-trans (s ∷ ss) (t ∷ ts) (u ∷ us) h k =
    (step h.0 k.0, k.1 ∙ h.1, k.2 ∙ h.2, k.3 ∙ h.3, Extends-trans ss ts us h.4 k.4)
  where
    step :
        (s.publisher ≡ none) ⊎ (t ≡ s)
        → (t.publisher ≡ none) ⊎ (u ≡ t)
        → (s.publisher ≡ none) ⊎ (u ≡ s)
    step (inl e) b = inl e
    step (inr e) (inl f) = inl (ap (λ (x : OutputSlot). x.publisher) (sym e) ∙ f)
    step (inr e) (inr f) = inr (f ∙ e)

-- The slots' publishers as the code collects them.
pub contains-bound :
    (p : PeerId) (slots : List OutputSlot) → contains (bound slots) p ≡ false → count p slots ≡ 0
unfolding contains bound count
contains-bound p [] h = refl
contains-bound p (slot ∷ slots) h = ground (arith, contains-bound p slots)

pub bound-contains :
    (p : PeerId) (slots : List OutputSlot) → contains (bound slots) p ≡ true → 0 < count p slots
unfolding contains bound count
bound-contains p [] h = absurd cc
bound-contains p (slot ∷ slots) h = ground (arith, bound-contains p slots)

-- What stays while taken slots stay.
pub Extends-count : (p : PeerId) (ss ts : List OutputSlot) → Extends ss ts → count p ss ≤ count p ts
unfolding count
Extends-count p [] [] h = omega arith
Extends-count p [] (t ∷ ts) h = absurd h
Extends-count p (s ∷ ss) [] h = absurd h
Extends-count p (s ∷ ss) (t ∷ ts) (inl e, _, _, _, h) = ground (arith, Extends-count p ss ts h)
Extends-count p (s ∷ ss) (t ∷ ts) (inr e, _, _, _, h) =
    let same : is_bound_to p t ≡ is_bound_to p s = ap (is_bound_to p) e in
    ground (arith, Extends-count p ss ts h)

pub Extends-has_free :
    (alive : Track → Bool) (ss ts : List OutputSlot)
    → Extends ss ts
    → has_free alive ss ≡ false
    → has_free alive ts ≡ false
unfolding has_free
Extends-has_free alive [] [] h f = refl
Extends-has_free alive [] (t ∷ ts) h f = absurd h
Extends-has_free alive (s ∷ ss) [] h f = absurd h
Extends-has_free alive (s ∷ ss) (t ∷ ts) (inl e, _, _, k, h) f =
    ground (arith, Extends-has_free alive ss ts h)
Extends-has_free alive (s ∷ ss) (t ∷ ts) (inr e, _, _, k, h) f =
    let same : is_free alive t ≡ is_free alive s = ap (is_free alive) e in
    ground (arith, Extends-has_free alive ss ts h)

module _ (alive : Track → Bool) (send : Option ℕ) (publisher : PeerId) where
  pub bind_first-none :
      (slots : List OutputSlot)
      → bind_first alive send publisher slots ≡ none
      → has_free alive slots ≡ false
  unfolding bind_first has_free
  bind_first-none [] h = refl
  bind_first-none (slot ∷ slots) h = ground (arith, bind_first-none slots)

  pub bind_first-count :
      (q : PeerId) (slots slots' : List OutputSlot) (notice : BindingNotice)
      → bind_first alive send publisher slots ≡ some (slots', notice)
      → count q slots' ≡ (if str_eq publisher q then suc (count q slots) else count q slots)
  unfolding bind_first count
  bind_first-count q [] slots' notice h = cc
  bind_first-count q (slot ∷ slots) slots' notice h =
      elim (Option-cases (bind_first alive send publisher slots)) [
        | inl e ↦ ground arith
        | inr ((slots0, notice0), e) ↦ ground (arith, bind_first-count q slots slots0 notice0 e)
      ]

  -- What binding does to the slots, in two steps: here or further on.
  bind_first_here :
      (slot : OutputSlot) (slots slots' : List OutputSlot) (notice : BindingNotice)
      → is_free alive slot ≡ true
      → bind_first alive send publisher (slot ∷ slots) ≡ some (slots', notice)
      → take_slot publisher slot ∷ slots ≡ slots'
  unfolding bind_first
  bind_first_here slot slots slots' notice f h = ground arith

  bind_first_later :
      (slot : OutputSlot) (slots slots' : List OutputSlot) (notice : BindingNotice)
      → is_free alive slot ≡ false
      → bind_first alive send publisher (slot ∷ slots) ≡ some (slots', notice)
      → (slots0 : List OutputSlot) × (notice0 : BindingNotice) × (bind_first alive send publisher
            slots
          ≡ some (slots0, notice0))
        × (slot ∷ slots0 ≡ slots')
  unfolding bind_first
  bind_first_later slot slots slots' notice f h =
      elim (Option-cases (bind_first alive send publisher slots)) [
        | inl e ↦ absurd (ground arith)
        | inr ((slots0, notice0), e) ↦ (slots0, notice0, e, ground arith)
      ]

  is_free-none : (slot : OutputSlot) → is_free alive slot ≡ true → slot.publisher ≡ none
  is_free-none slot f = ground arith

  -- Binding leaves every taken slot as it was.
  pub bind_first-Extends :
      (slots slots' : List OutputSlot) (notice : BindingNotice)
      → bind_first alive send publisher slots ≡ some (slots', notice)
      → Extends slots slots'
  bind_first-Extends [] slots' notice h = absurd (unfold bind_first in cc)
  bind_first-Extends (slot ∷ slots) slots' notice h = elim (Bool-cases (is_free alive slot)) [
    | inl f ↦
        subst (Extends (slot ∷ slots)) (bind_first_here slot slots slots' notice f h)
          (inl (is_free-none slot f), refl, refl, refl, Extends-refl slots)
    | inr f ↦
        let (slots0, notice0, e, join) = bind_first_later slot slots slots' notice f h in
        subst (Extends (slot ∷ slots)) join
          (inr refl, refl, refl, refl, bind_first-Extends slots slots0 notice0 e)
  ]

  take_slot-IsCurrent : (slot : OutputSlot) → IsCurrent (take_slot publisher slot)
  unfolding begin_source
  take_slot-IsCurrent slot = inr refl

  pub bind_first-AllCurrent :
      (slots slots' : List OutputSlot) (notice : BindingNotice)
      → AllCurrent slots
      → bind_first alive send publisher slots ≡ some (slots', notice)
      → AllCurrent slots'
  bind_first-AllCurrent [] slots' notice c h = absurd (unfold bind_first in cc)
  bind_first-AllCurrent (slot ∷ slots) slots' notice c h = elim (Bool-cases (is_free alive slot)) [
    | inl f ↦
        subst AllCurrent (bind_first_here slot slots slots' notice f h)
          (take_slot-IsCurrent slot, c.1)
    | inr f ↦
        let (slots0, notice0, e, join) = bind_first_later slot slots slots' notice f h in
        subst AllCurrent join (c.0, bind_first-AllCurrent slots slots0 notice0 c.1 e)
  ]
