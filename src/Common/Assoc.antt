-- ===== src/Common/Assoc.antt =====
-- Association lists with text keys.
use Prim.Native.String.{String}
use mathlib.Core.Path.{◌≡◌, refl}
use mathlib.Core.Bool.{Bool, true, false, ◌||◌}
use mathlib.Core.Option
use mathlib.Core.List.{List, [], ◌∷◌}
use mathlib.Core.Option.{Option, none, some}
use native.Mathlib.Omega.{arith}
use text.Mathlib.Text.{◌==◌ as str_eq}
use text.Mathlib.TextEquality.{eq_iff}
use text.Mathlib.TextPositions.{eq_refl as str_eq_refl}
use driscord.Common.Tests.{if◌then◌else◌}

abbrev pub Entries {ℓ} : Type ℓ → Type ℓ
Entries V = List (String × V)

module _ {ℓ} {V : Type ℓ} where
  unfoldable pub lookup : String → Entries V → Option V
  lookup wanted [] = none
  lookup wanted ((name, value) ∷ rest) =
      if str_eq name wanted then some value else lookup wanted rest

  unfoldable pub erase : String → Entries V → Entries V
  erase gone [] = []
  erase gone ((name, value) ∷ rest) =
      let others = erase gone rest in if str_eq name gone then others else (name, value) ∷ others

  unfoldable pub insert : String → V → Entries V → Entries V
  insert key new [] = (key, new) ∷ []
  insert key new ((name, value) ∷ rest) =
      if str_eq name key then (name, new) ∷ rest else (name, value) ∷ insert key new rest

  pub lookup-erase :
      (gone wanted : String) (entries : Entries V)
      → lookup wanted (erase gone entries)
        ≡ (if str_eq gone wanted then none else lookup wanted entries)
  unfolding lookup erase
  lookup-erase gone wanted [] = ground arith
  lookup-erase gone wanted ((name, value) ∷ rest) = ground (
    arith,
    eq_iff gone wanted,
    eq_iff name gone,
    eq_iff name wanted,
    lookup-erase gone wanted rest,
  )

  pub lookup-insert :
      (key wanted : String) (new : V) (entries : Entries V)
      → lookup wanted (insert key new entries)
        ≡ (if str_eq key wanted then some new else lookup wanted entries)
  unfolding lookup insert
  lookup-insert key wanted new [] = refl
  lookup-insert key wanted new ((name, value) ∷ rest) =
      let agree = lookup-insert key wanted new rest in
      ground (arith, agree, eq_iff name wanted, eq_iff name key, eq_iff key wanted)

  unfoldable pub keys : List (String × V) → List String
  keys [] = []
  keys ((j, v) ∷ m) = j ∷ keys m

  -- A change of every value, by key.
  unfoldable pub map_values : (String → V → V) → List (String × V) → List (String × V)
  map_values f [] = []
  map_values f ((j, v) ∷ m) = (j, f j v) ∷ map_values f m

unfoldable pub contains : List String → String → Bool
contains [] k = false
contains (j ∷ js) k = str_eq j k || contains js k

module _ {ℓ} {V : Type ℓ} where
  pub lookup-contains :
      (k : String) (m : List (String × V)) (v : V)
      → lookup k m ≡ some v
      → contains (keys m) k ≡ true
  unfolding lookup contains keys
  lookup-contains k [] v e = cc
  lookup-contains k ((j, w) ∷ m) v e = ground (arith, lookup-contains k m v)

  pub lookup-map_values :
      (k : String) (f : String → V → V) (m : List (String × V))
      → lookup k (map_values f m) ≡ Option.map (f k) (lookup k m)
  unfolding lookup map_values
  lookup-map_values k f [] = refl
  lookup-map_values k f ((j, w) ∷ m) = ground (arith, eq_iff j k, lookup-map_values k f m)

  pub contains-keys-insert :
      (k q : String) (v : V) (m : List (String × V))
      → contains (keys (insert k v m)) q ≡ (str_eq k q || contains (keys m) q)
  unfolding insert contains keys
  contains-keys-insert k q v [] = refl
  contains-keys-insert k q v ((j, w) ∷ m) =
      ground (arith, eq_iff j k, eq_iff j q, eq_iff k q, contains-keys-insert k q v m)

  pub contains-keys-erase :
      (k q : String) (m : List (String × V))
      → contains (keys (erase k m)) q ≡ (if str_eq k q then false else contains (keys m) q)
  unfolding erase contains keys
  contains-keys-erase k q [] = ground arith
  contains-keys-erase k q ((j, w) ∷ m) =
      ground (arith, eq_iff j k, eq_iff j q, eq_iff k q, contains-keys-erase k q m)

  pub lookup-insert_self :
      (k : String) (v : V) (m : List (String × V)) → lookup k (insert k v m) ≡ some v
  unfolding lookup insert
  lookup-insert_self k v [] = ground (arith, str_eq_refl k)
  lookup-insert_self k v ((j, w) ∷ m) = ground (arith, lookup-insert_self k v m)
