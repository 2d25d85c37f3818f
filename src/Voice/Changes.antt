-- ===== src/Voice/Changes.antt =====
-- What the loops over a subscriber's outputs do to its bindings.
use driscord.Common.{
  ℕ, ◌≤◌, ◌≡◌, refl, subst, inl, inr, true, false, List, [], ◌∷◌, ◌++◌, Option, none, some, str_eq,
  eq_iff, if◌then◌else◌, arith, Option-cases, Bool-cases,
}
use driscord.Rtp.Slot.{begin_source, new}
use driscord.Signaling.{PeerId}
use driscord.Voice.{OutputSlot, is_bound_to}
use driscord.Voice.Slots.{count, IsCurrent, AllCurrent}
use driscord.Voice.Assign.{Filled}
use driscord.Voice.Register.{
  TrackInfo, sweep_slots, restart_slot, clear_slot, replace_output, new_output, put_output,
}

module _ (owner : PeerId) (told : Option PeerId) (send : Option ℕ) where
  pub restart-count :
      (q : PeerId) (slots : List OutputSlot)
      → count q (sweep_slots owner restart_slot told send slots).outputs ≡ count q slots
  unfolding count sweep_slots
  restart-count q [] = refl
  restart-count q (slot ∷ slots) = ground (arith, restart-count q slots)

  pub clear-count :
      (q : PeerId) (slots : List OutputSlot)
      → count q (sweep_slots owner clear_slot told send slots).outputs
        ≡ (if str_eq owner q then 0 else count q slots)
  unfolding count sweep_slots
  clear-count q [] = ground arith
  clear-count q (slot ∷ slots) = elim (Option-cases slot.publisher) [
    | inl e ↦ ground (arith, clear-count q slots)
    | inr (p, e) ↦ ground (arith, clear-count q slots, eq_iff owner q, eq_iff p q, eq_iff p owner)
  ]

  sweep-AllCurrent :
      (change : OutputSlot → OutputSlot)
      → ((slot : OutputSlot) → IsCurrent (change slot))
      → (slots : List OutputSlot) → AllCurrent slots
      → AllCurrent (sweep_slots owner change told send slots).outputs
  unfolding sweep_slots
  sweep-AllCurrent change h [] c = tt
  sweep-AllCurrent change h (slot ∷ slots) c = elim (Bool-cases (is_bound_to owner slot)) [
    | inl e ↦ rw e (h slot, sweep-AllCurrent change h slots c.1)
    | inr e ↦ rw e (c.0, sweep-AllCurrent change h slots c.1)
  ]

  restart_slot-IsCurrent : (slot : OutputSlot) → IsCurrent (restart_slot slot)
  unfolding begin_source
  restart_slot-IsCurrent slot = inr refl

  pub restart-AllCurrent :
      (slots : List OutputSlot)
      → AllCurrent slots
      → AllCurrent (sweep_slots owner restart_slot told send slots).outputs
  restart-AllCurrent slots c = sweep-AllCurrent restart_slot restart_slot-IsCurrent slots c

  pub clear-AllCurrent :
      (slots : List OutputSlot)
      → AllCurrent slots
      → AllCurrent (sweep_slots owner clear_slot told send slots).outputs
  clear-AllCurrent slots c = sweep-AllCurrent clear_slot (λ slot. inl refl) slots c

module _ (track : TrackInfo) (ssrc : ℕ) (send : Option ℕ) where
  replace-count :
      (q : PeerId) (slots : List OutputSlot) (f : Filled)
      → replace_output track ssrc send slots ≡ some f
      → count q f.outputs ≤ count q slots
  unfolding count replace_output
  replace-count q [] f h = cc
  replace-count q (slot ∷ slots) f h = elim (Option-cases (replace_output track ssrc send slots)) [
    | inl e ↦ ground arith
    | inr (f0, e) ↦ ground (arith, replace-count q slots f0 e)
  ]

  append-count :
      (q : PeerId) (slots : List OutputSlot)
      → count q (slots ++ new_output track ssrc ∷ []) ≤ count q slots
  unfolding count
  append-count q [] = ground arith
  append-count q (slot ∷ slots) = ground (arith, append-count q slots)

  pub put-count :
      (q : PeerId) (slots : List OutputSlot)
      → count q (put_output track ssrc send slots).outputs ≤ count q slots
  unfolding put_output
  put-count q slots = elim (Option-cases (replace_output track ssrc send slots)) [
    | inl e ↦ rw (e, put_output) (append-count q slots)
    | inr (f, e) ↦ rw (e, put_output) (replace-count q slots f e)
  ]

  append-AllCurrent :
      (slots : List OutputSlot)
      → AllCurrent slots
      → AllCurrent (slots ++ new_output track ssrc ∷ [])
  append-AllCurrent [] c = (inl refl, tt)
  append-AllCurrent (slot ∷ slots) c = (c.0, append-AllCurrent slots c.1)

  replaced_here :
      (slot : OutputSlot) (slots : List OutputSlot) (f : Filled)
      → str_eq slot.mid track.mid ≡ true
      → replace_output track ssrc send (slot ∷ slots) ≡ some f
      → record slot {
        ssrc = ssrc;
        track = some track.id;
        publisher = none;
        rewriter = new 48000 960;
        source_generation = 0;
      }
          ∷ slots
        ≡ f.outputs
  unfolding replace_output
  replaced_here slot slots f t h = ground arith

  replaced_later :
      (slot : OutputSlot) (slots : List OutputSlot) (f : Filled)
      → str_eq slot.mid track.mid ≡ false
      → replace_output track ssrc send (slot ∷ slots) ≡ some f
      → (f0 : Filled) × (replace_output track ssrc send slots ≡ some f0)
        × (slot ∷ f0.outputs ≡ f.outputs)
  unfolding replace_output
  replaced_later slot slots f t h = elim (Option-cases (replace_output track ssrc send slots)) [
    | inl e ↦ absurd (ground arith)
    | inr (f0, e) ↦ (f0, e, ground arith)
  ]

  replace-AllCurrent :
      (slots : List OutputSlot) (f : Filled)
      → AllCurrent slots
      → replace_output track ssrc send slots ≡ some f
      → AllCurrent f.outputs
  replace-AllCurrent [] f c h = absurd (unfold replace_output in cc)
  replace-AllCurrent (slot ∷ slots) f c h = elim (Bool-cases (str_eq slot.mid track.mid)) [
    | inl t ↦ subst AllCurrent (replaced_here slot slots f t h) (inl refl, c.1)
    | inr t ↦
        let (f0, e, join) = replaced_later slot slots f t h in
        subst AllCurrent join (c.0, replace-AllCurrent slots f0 c.1 e)
  ]

  pub put-AllCurrent :
      (slots : List OutputSlot)
      → AllCurrent slots
      → AllCurrent (put_output track ssrc send slots).outputs
  unfolding put_output
  put-AllCurrent slots c = elim (Option-cases (replace_output track ssrc send slots)) [
    | inl e ↦ rw (e, put_output) (append-AllCurrent slots c)
    | inr (f, e) ↦ rw (e, put_output) (replace-AllCurrent slots f c e)
  ]
