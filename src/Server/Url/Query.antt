-- ===== src/Server/Url/Query.antt =====
-- The parsing of a request's target (backend/signaling_server/src/ws_server.cpp).
use driscord.Common.{
  ℕ, ◌/◌, ◌%◌, ◌<◌, ◌==◌, ◌≡◌, refl, ap, ◌∙◌, true, false, ◌||◌, List, [], ◌∷◌, ◌++◌, some,
  if_cases, arith,
}
use driscord.Server.Url.{
  before_first, after_first, same_text, split_pairs, onto_first, find_param, parse_query_param,
}
use driscord.Server.Url.Pieces.{digit}
use driscord.Server.Url.Laws.{has_char, percent_encode, AreBytes, url_decode-percent_encode}

-- Where a text is cut.
after_first-append :
    (d : ℕ) (xs ys : List ℕ) → has_char d xs ≡ false → after_first d (xs ++ d ∷ ys) ≡ some ys
unfolding after_first
after_first-append d [] ys h = ground arith
after_first-append d (x ∷ xs) ys h = ground (arith, after_first-append d xs ys, h)

pub before_first-append :
    (d : ℕ) (xs ys : List ℕ) → has_char d xs ≡ false → before_first d (xs ++ d ∷ ys) ≡ xs
unfolding before_first
before_first-append d [] ys h = ground arith
before_first-append d (x ∷ xs) ys h =
    let rest = before_first-append d xs ys (ground (arith, h)) in
    if_cases (λ l. l ≡ x ∷ xs) (x == d) _ _ (λ e. absurd (ground (arith, e, h)))
      (λ _. ap (λ l. x ∷ l) rest)

split_pairs-one : (xs : List ℕ) → has_char 38 xs ≡ false → split_pairs xs ≡ xs ∷ []
unfolding split_pairs
split_pairs-one [] h = refl
split_pairs-one (x ∷ xs) h =
    let rest = split_pairs-one xs (ground (arith, h)) in
    if_cases (λ l. l ≡ (x ∷ xs) ∷ []) (x == 38) _ _ (λ e. absurd (ground (arith, e, h)))
      (λ _. ap (onto_first x) rest)

split_pairs-append :
    (xs ys : List ℕ) → has_char 38 xs ≡ false → split_pairs (xs ++ 38 ∷ ys) ≡ xs ∷ split_pairs ys
unfolding split_pairs
split_pairs-append [] ys h = refl
split_pairs-append (x ∷ xs) ys h =
    let rest = split_pairs-append xs ys (ground (arith, h)) in
    if_cases (λ l. l ≡ (x ∷ xs) ∷ split_pairs ys) (x == 38) _ _ (λ e. absurd (ground (arith, e, h)))
      (λ _. ap (onto_first x) rest)

has_char-append :
    (d : ℕ) (xs ys : List ℕ) → has_char d (xs ++ ys) ≡ (has_char d xs || has_char d ys)
has_char-append d [] ys = refl
has_char-append d (x ∷ xs) ys = ground (arith, has_char-append d xs ys)

digit_plain : (d : ℕ) → d < 16 → (digit false d == 38) ≡ false
digit_plain d h = ground (arith, h)

has_char-percent_encode : (bs : List ℕ) → AreBytes bs → has_char 38 (percent_encode bs) ≡ false
has_char-percent_encode [] h = refl
has_char-percent_encode (b ∷ bs) h = ground (
  arith,
  digit_plain (b / 16) (omega (arith, h.0)),
  digit_plain (b % 16) (omega arith),
  has_char-percent_encode bs h.1,
)

same_text_refl : (xs : List ℕ) → same_text xs xs ≡ true
unfolding same_text
same_text_refl [] = refl
same_text_refl (x ∷ xs) = ground (arith, same_text_refl xs)

find_param-first :
    (key value : List ℕ) (pairs : List (List ℕ))
    → has_char 61 key ≡ false
    → AreBytes value
    → find_param key ((key ++ 61 ∷ percent_encode value) ∷ pairs) ≡ value
unfolding find_param
find_param-first key value pairs h bytes =
    let cut = after_first-append 61 key (percent_encode value) h in
    let name = before_first-append 61 key (percent_encode value) h in
    let same = same_text_refl key in
    rw (cut, find_param, name, same) (url_decode-percent_encode value bytes)

-- A value of any bytes that is written as percent escapes is read back by parse_query_param,
-- where its pair is the first of the query, with nothing or with other pairs after it, the path
-- has no `?` and the key neither `=` nor `&`.
pub parse_query_param-percent_encode :
    (path key value tail : List ℕ)
    → has_char 63 path ≡ false
    → has_char 61 key ≡ false
    → has_char 38 key ≡ false
    → AreBytes value
    → let pair = key ++ 61 ∷ percent_encode value in
      (parse_query_param (path ++ 63 ∷ pair) key ≡ value)
      × (parse_query_param (path ++ 63 ∷ (pair ++ 38 ∷ tail)) key ≡ value)
unfolding parse_query_param
parse_query_param-percent_encode path key value tail no_query no_equals no_and bytes =
    let pair = key ++ 61 ∷ percent_encode value in
    let plain : has_char 38 pair ≡ false =
      has_char-append 38 key (61 ∷ percent_encode value)
      ∙ ground (arith, no_and, has_char-percent_encode value bytes) in
    let found = find_param-first key value in
    (
      rw (after_first-append 63 path pair no_query, parse_query_param, split_pairs-one pair plain)
          (found [] no_equals bytes),
      rw
          (
            after_first-append 63 path (pair ++ 38 ∷ tail) no_query,
            parse_query_param,
            split_pairs-append pair tail plain,
          )
          (found (split_pairs tail) no_equals bytes),
    )
