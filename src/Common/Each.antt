-- ===== src/Common/Each.antt =====
-- A property of every entry of an association list.
use Prim.Native.String.{String}
use mathlib.Core.Path.{◌≡◌, subst, sym}
use mathlib.Core.Logic.{inl, inr}
use mathlib.Core.Bool.{false}
use mathlib.Core.Option.{some}
use mathlib.Core.List.{[], ◌∷◌}
use native.Mathlib.Omega.{arith}
use text.Mathlib.Text.{◌==◌ as str_eq}
use text.Mathlib.TextEquality.{eq_iff}
use driscord.Common.Tests.{if_cases, Bool-cases}
use driscord.Common.Assoc.{Entries, lookup, insert, erase}

module _ {V : Type 0} where
  abbrev pub Each : (String → V → Type 0) → Entries V → Type 0
  Each P [] = Unit {0}
  Each P ((k, v) ∷ m) = P k v × Each P m

module _ {V : Type 0} (P : String → V → Type 0) where
  some_injective : (a b : V) → some a ≡ some b → a ≡ b
  some_injective a b e = ground (arith, e)

  pub Each-lookup : (k : String) (m : Entries V) (v : V) → Each P m → lookup k m ≡ some v → P k v
  unfolding lookup
  Each-lookup k [] v h e = absurd cc
  Each-lookup k ((j, w) ∷ m) v h e = elim (Bool-cases (str_eq j k)) [
    | inl same ↦ subst (λ x. P x v) ((eq_iff j k).0 same) (subst (P j) (ground (arith, same)) h.0)
    | inr other ↦ Each-lookup k m v h.1 (ground arith)
  ]

  pub Each-insert :
      (k : String) (new : V) (m : Entries V) → P k new → Each P m → Each P (insert k new m)
  unfolding insert
  Each-insert k new [] p h = (p, tt)
  Each-insert k new ((j, w) ∷ m) p h =
      let later = Each-insert k new m p h.1 in
      if_cases (Each P) (str_eq j k) _ _
        (λ same. (subst (λ x. P x new) (sym ((eq_iff j k).0 same)) p, h.1)) (λ other. (h.0, later))

  pub Each-erase : (k : String) (m : Entries V) → Each P m → Each P (erase k m)
  unfolding erase
  Each-erase k [] h = tt
  Each-erase k ((j, w) ∷ m) h =
      let later = Each-erase k m h.1 in
      if_cases (Each P) (str_eq j k) _ _ (λ same. later) (λ other. (h.0, later))

  -- What is left has another key.
  pub Each-erased :
      (k : String) (m : Entries V)
      → Each P m
      → Each (λ j v. (str_eq j k ≡ false) × P j v) (erase k m)
  unfolding erase
  Each-erased k [] h = tt
  Each-erased k ((j, w) ∷ m) h =
      let later = Each-erased k m h.1 in
      if_cases (Each (λ j v. (str_eq j k ≡ false) × P j v)) (str_eq j k) _ _ (λ same. later)
        (λ other. ((other, h.0), later))

  pub Each-weaken :
      (Q : String → V → Type 0)
      → ((k : String) (v : V) → P k v → Q k v)
      → (m : Entries V) → Each P m
      → Each Q m
  Each-weaken Q step [] h = tt
  Each-weaken Q step ((j, w) ∷ m) h = (step j w h.0, Each-weaken Q step m h.1)
