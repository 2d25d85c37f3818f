-- ===== src/Server/Url/RoomName.antt =====
-- The parsing of a request's target (backend/signaling_server/src/ws_server.cpp).
use driscord.Common.{
  ℕ, ◌<◌, ◌==◌, ◌≡◌, refl, ap, ◌∙◌, ◌⊎◌, inl, inr, Bool, false, ◌&&◌, List, [], ◌∷◌, ◌++◌, some,
  length, codes, if◌then◌else◌, if_cases, Option-cases, Bool-cases, arith,
}
use driscord.Queue.Order.{append_assoc}
use driscord.Server.Url.{after_prefix, before_first, strip_slashes, parse_room_id}
use driscord.Server.Url.Query.{before_first-append}
use driscord.Server.Url.Laws.{has_char}

-- The name of a room.
abbrev pub ends_with : ℕ → List ℕ → Bool
ends_with d [] = false
ends_with d (c ∷ []) = c == d
ends_with d (c ∷ x ∷ xs) = ends_with d (x ∷ xs)

after_prefix-append :
    (prefix text rest : List ℕ) → after_prefix prefix text ≡ some rest → text ≡ prefix ++ rest
unfolding after_prefix
after_prefix-append [] text rest e = ground (arith, e)
after_prefix-append (p ∷ ps) [] rest e = absurd cc
after_prefix-append (p ∷ ps) (c ∷ cs) rest e = elim (Bool-cases (c == p)) [
  | inl same ↦
      let later = after_prefix-append ps cs rest (ground (arith, same)) in
      ground (arith, same, later)
  | inr other ↦ absurd (ground (arith, other))
]

before_first-split : (d : ℕ) (xs : List ℕ) → (tail : List ℕ) × (xs ≡ before_first d xs ++ tail)
unfolding before_first
before_first-split d [] = ([], refl)
before_first-split d (x ∷ xs) =
    let (tail, e) = before_first-split d xs in
    if_cases (λ l. (tail : List ℕ) × (x ∷ xs ≡ l ++ tail)) (x == d) _ _ (λ _. (x ∷ xs, refl))
      (λ _. (tail, ap (λ l. x ∷ l) e))

has_char-before_first : (d : ℕ) (xs : List ℕ) → has_char d (before_first d xs) ≡ false
unfolding before_first
has_char-before_first d [] = refl
has_char-before_first d (x ∷ xs) = ground (arith, has_char-before_first d xs)

strip-split : (xs : List ℕ) → (tail : List ℕ) × (xs ≡ strip_slashes xs ++ tail)
unfolding strip_slashes
strip-split [] = ([], refl)
strip-split (x ∷ xs) =
    let (tail, e) = strip-split xs in
    if_cases (λ l. (tail : List ℕ) × (x ∷ xs ≡ l ++ tail))
      (length (strip_slashes xs) == 0 && x == 47) _ _ (λ _. (x ∷ xs, refl))
      (λ _. (tail, ap (λ l. x ∷ l) e))

has_char-strip :
    (d : ℕ) (xs : List ℕ) → has_char d xs ≡ false → has_char d (strip_slashes xs) ≡ false
unfolding strip_slashes
has_char-strip d [] h = refl
has_char-strip d (x ∷ xs) h = ground (arith, has_char-strip d xs, h)

ends_with-cons :
    (x : ℕ) (ys : List ℕ)
    → ends_with 47 ys ≡ false
    → (length ys == 0 && x == 47) ≡ false
    → ends_with 47 (x ∷ ys) ≡ false
ends_with-cons x [] h e = ground (arith, e)
ends_with-cons x (y ∷ ys) h e = h

ends_with-strip : (xs : List ℕ) → ends_with 47 (strip_slashes xs) ≡ false
unfolding strip_slashes
ends_with-strip [] = refl
ends_with-strip (x ∷ xs) =
    if_cases (λ l. ends_with 47 l ≡ false) (length (strip_slashes xs) == 0 && x == 47) _ _
      (λ _. refl) (λ e. ends_with-cons x (strip_slashes xs) (ends_with-strip xs) e)

-- A name: not empty, without a query, and without a slash at its end.
pub record IsRoomName (target room : List ℕ) : Type 0 where
  pub tail : List ℕ
  pub read : target ≡ codes "/channels/" ++ (room ++ tail)
  pub filled : 0 < length room
  pub no_query : has_char 63 room ≡ false
  pub no_slash : ends_with 47 room ≡ false

-- Of any target, parse_room_id gives the name of the default room, or a text that follows the
-- prefix in the target, is not empty, has no `?` and does not end with a slash.
pub parse_room_id-IsRoomName :
    (target : List ℕ)
    → (parse_room_id target ≡ codes "default") ⊎ IsRoomName target (parse_room_id target)
unfolding parse_room_id
parse_room_id-IsRoomName target = elim (Option-cases (after_prefix (codes "/channels/") target)) [
  | inl e ↦ rw (e, parse_room_id) (inl refl)
  | inr (rest, e) ↦
      let path = before_first 63 rest in
      let room = strip_slashes path in
      let (query, cut) = before_first-split 63 rest in
      let (slashes, stripped) = strip-split path in
      rw (e, parse_room_id)
        (if_cases (λ r. (r ≡ codes "default") ⊎ IsRoomName target r) (length room == 0) _ _
          (λ _. inl refl)
          (λ more. inr record {
            tail = slashes ++ query;
            read =
                after_prefix-append (codes "/channels/") target rest e
                ∙ ap (λ l. codes "/channels/" ++ l)
                    (cut ∙ ap (λ l. l ++ query) stripped ∙ append_assoc room slashes query);
            filled = ground (arith, more);
            no_query = has_char-strip 63 path (has_char-before_first 63 rest);
            no_slash = ends_with-strip path;
          }))
]

after_prefix-prefix : (prefix rest : List ℕ) → after_prefix prefix (prefix ++ rest) ≡ some rest
unfolding after_prefix
after_prefix-prefix [] rest = refl
after_prefix-prefix (p ∷ ps) rest = ground (arith, after_prefix-prefix ps rest)

before_first-none : (d : ℕ) (xs : List ℕ) → has_char d xs ≡ false → before_first d xs ≡ xs
unfolding before_first
before_first-none d [] h = refl
before_first-none d (x ∷ xs) h =
    let rest = before_first-none d xs (ground (arith, h)) in
    if_cases (λ l. l ≡ x ∷ xs) (x == d) _ _ (λ e. absurd (ground (arith, e, h)))
      (λ _. ap (λ l. x ∷ l) rest)

strip_slashes-none : (xs : List ℕ) → ends_with 47 xs ≡ false → strip_slashes xs ≡ xs
unfolding strip_slashes
strip_slashes-none [] h = refl
strip_slashes-none (x ∷ []) h = ground (arith, h)
strip_slashes-none (x ∷ y ∷ ys) h =
    let rest : strip_slashes (y ∷ ys) ≡ y ∷ ys = strip_slashes-none (y ∷ ys) h in
    let longer : length (strip_slashes (y ∷ ys)) ≡ length (y ∷ ys) = ap length rest in
    if_cases (λ l. l ≡ x ∷ y ∷ ys) (length (strip_slashes (y ∷ ys)) == 0 && x == 47) _ _
      (λ e. absurd (ground (arith, e, longer))) (λ _. ap (λ l. x ∷ l) rest)

-- parse_room_id gives back the name of a room after the prefix, alone or with a query after it,
-- if the name is not empty, has no `?` and does not end with a slash.
pub parse_room_id-named :
    (room query : List ℕ)
    → 0 < length room
    → has_char 63 room ≡ false
    → ends_with 47 room ≡ false
    → (parse_room_id (codes "/channels/" ++ room) ≡ room)
      × (parse_room_id (codes "/channels/" ++ (room ++ 63 ∷ query)) ≡ room)
unfolding parse_room_id
parse_room_id-named room query filled no_query no_slash =
    let prefix = codes "/channels/" in
    let kept : length (strip_slashes room) ≡ length room =
      ap length (strip_slashes-none room no_slash) in
    let chosen : (if length (strip_slashes room) == 0 then codes "default" else strip_slashes room)
        ≡ room =
      if_cases (λ l. l ≡ room) (length (strip_slashes room) == 0) _ _
        (λ empty. absurd (ground (arith, empty, kept, filled)))
        (λ _. strip_slashes-none room no_slash) in
    (
      rw (after_prefix-prefix prefix room, parse_room_id, before_first-none 63 room no_query)
          chosen,
      rw
          (
            after_prefix-prefix prefix (room ++ 63 ∷ query),
            parse_room_id,
            before_first-append 63 room query no_query,
          )
          chosen,
    )
