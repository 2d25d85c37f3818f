-- ===== src/Common/Sort.antt =====
-- Lists of texts in an order.
use Prim.Native.Nat.{ℕ}
use Prim.Native.String.{String}
use mathlib.Core.Path.{◌≡◌, refl}
use mathlib.Core.Bool.{Bool, true, false, ◌||◌}
use mathlib.Core.List.{List, [], ◌∷◌}
use native.Mathlib.Omega.{arith}
use text.Mathlib.Text.{◌==◌ as str_eq}
use driscord.Common.Tests.{if◌then◌else◌, ltb, ◌==◌}
use driscord.Common.Assoc.{contains}

-- `std::string`'s order, by code points.
unfoldable pub str_ltb : List ℕ → List ℕ → Bool
str_ltb cs [] = false
str_ltb [] (d ∷ ds) = true
str_ltb (c ∷ cs) (d ∷ ds) =
    let rest = str_ltb cs ds in if ltb c d then true else if c == d then rest else false

-- `std::sort` by a comparison.
module _ (comes_before : String → String → Bool) where
  unfoldable pub sorted_insert : String → List String → List String
  sorted_insert id [] = id ∷ []
  sorted_insert id (other ∷ rest) =
      let later = sorted_insert id rest in
      if comes_before other id then other ∷ later else id ∷ other ∷ rest

  unfoldable pub sort_ids : List String → List String
  sort_ids [] = []
  sort_ids (id ∷ ids) = sorted_insert id (sort_ids ids)

  contains-sorted_insert :
      (id q : String) (ids : List String)
      → contains (sorted_insert id ids) q ≡ (str_eq id q || contains ids q)
  unfolding sorted_insert contains
  contains-sorted_insert id q [] = refl
  contains-sorted_insert id q (other ∷ rest) = ground (arith, contains-sorted_insert id q rest)

  pub contains-sort_ids :
      (ids : List String) (q : String) → contains (sort_ids ids) q ≡ contains ids q
  unfolding sort_ids contains
  contains-sort_ids [] q = refl
  contains-sort_ids (id ∷ ids) q =
      ground (arith, contains-sorted_insert id q (sort_ids ids), contains-sort_ids ids q)
