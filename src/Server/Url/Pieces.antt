-- ===== src/Server/Url/Pieces.antt =====
-- What `url_decode` of backend/signaling_server/src/ws_server.cpp makes of any text, told by the pieces
-- that the text is written with.
use driscord.Common.{
  ◌∙◌, ℕ, ◌+◌, ◌*◌, ◌/◌, ◌%◌, ◌^◌, ◌<◌, ltb, leb, ◌≡◌, ◌≢◌, refl, ap, Bool, false, ◌&&◌, ◌||◌, List,
  [], ◌∷◌, none, some, if◌then◌else◌, Bool-cases, Option-cases, inl, inr, arith, bit_or,
}
use driscord.Common.Bits.{bit_or_disjoint}
use driscord.Server.Url.{hex, byte_of, url_decode}

-- A character that stands for itself, a space, a byte as an escape, each of whose digits may be in lower
-- case, and a percent sign that begins no escape.
pub data Piece : Type 0 where
  plain : ℕ → Piece
  space : Piece
  escape : ℕ → Bool → Bool → Piece
  percent : Piece

abbrev pub digit : Bool → ℕ → ℕ
digit lower d = if ltb d 10 then 48 + d else if lower then 87 + d else 55 + d

abbrev pub written : List Piece → List ℕ
written [] = []
written (plain c ∷ ps) = c ∷ written ps
written (space ∷ ps) = 43 ∷ written ps
written (escape b first second ∷ ps) =
    37 ∷ digit first (b / 16) ∷ digit second (b % 16) ∷ written ps
written (percent ∷ ps) = 37 ∷ written ps

abbrev pub meant : List Piece → List ℕ
meant [] = []
meant (plain c ∷ ps) = c ∷ meant ps
meant (space ∷ ps) = 32 ∷ meant ps
meant (escape b first second ∷ ps) = b ∷ meant ps
meant (percent ∷ ps) = 37 ∷ meant ps

abbrev pub is_digit : ℕ → Bool
is_digit c = (leb 48 c && leb c 57) || (leb 65 c && leb c 70) || (leb 97 c && leb c 102)

abbrev pub begins_with_digits : List ℕ → Bool
begins_with_digits [] = false
begins_with_digits (h ∷ []) = false
begins_with_digits (h ∷ l ∷ rest) = is_digit h && is_digit l

-- A plain character is neither `%` nor `+`, an escape is of a byte, and no two digits follow a percent
-- sign that begins no escape.
abbrev pub AreWritten : List Piece → Type 0
AreWritten [] = Unit {0}
AreWritten (plain c ∷ ps) = (c ≢ 37) × (c ≢ 43) × AreWritten ps
AreWritten (space ∷ ps) = AreWritten ps
AreWritten (escape b first second ∷ ps) = (b < 2 ^ 8) × AreWritten ps
AreWritten (percent ∷ ps) = (begins_with_digits (written ps) ≡ false) × AreWritten ps

hex-digit : (lower : Bool) (d : ℕ) → d < 16 → hex (digit lower d) ≡ some d
unfolding hex
hex-digit lower d h = ground (arith, h, Bool-cases lower)

hex-none : (c : ℕ) → is_digit c ≡ false → hex c ≡ none
unfolding hex
hex-none c h = ground (arith, h)

pub byte_of-digit :
    (first second : Bool) (b : ℕ)
    → b < 2 ^ 8
    → byte_of (digit first (b / 16)) (digit second (b % 16)) ≡ some b
unfolding byte_of
byte_of-digit first second b h =
    let high : hex (digit first (b / 16)) ≡ some (b / 16) =
      hex-digit first (b / 16) (omega (arith, h)) in
    let low : hex (digit second (b % 16)) ≡ some (b % 16) =
      hex-digit second (b % 16) (omega arith) in
    let join : bit_or (b / 16 * 2 ^ 4) (b % 16) ≡ b =
      omega (arith, bit_or_disjoint 4 (b / 16) (b % 16) (omega arith)) in
    rw (high, low, byte_of, join) refl

byte_of-none : (h l : ℕ) → (is_digit h && is_digit l) ≡ false → byte_of h l ≡ none
unfolding byte_of
byte_of-none h l e = elim (Bool-cases (is_digit h)) [
  | inr other ↦ rw (hex-none h other, byte_of) refl
  | inl first ↦
      let second : hex l ≡ none = hex-none l (ground (arith, e, first)) in
      elim (Option-cases (hex h)) [
        | inl a ↦ rw (a, byte_of) refl
        | inr (hi, a) ↦ rw (a, second, byte_of) refl
      ]
]

url_decode-plain :
    (c : ℕ) (text : List ℕ) → c ≢ 37 → c ≢ 43 → url_decode (c ∷ text) ≡ c ∷ url_decode text
unfolding url_decode
url_decode-plain c [] a b = ground arith
url_decode-plain c (h ∷ []) a b = ground arith
url_decode-plain c (h ∷ l ∷ rest) a b = ground arith

url_decode-space : (text : List ℕ) → url_decode (43 ∷ text) ≡ 32 ∷ url_decode text
unfolding url_decode
url_decode-space [] = refl
url_decode-space (h ∷ []) = refl
url_decode-space (h ∷ l ∷ rest) = refl

url_decode-percent :
    (text : List ℕ)
    → begins_with_digits text ≡ false
    → url_decode (37 ∷ text) ≡ 37 ∷ url_decode text
unfolding url_decode
url_decode-percent [] e = refl
url_decode-percent (h ∷ []) e = refl
url_decode-percent (h ∷ l ∷ rest) e = rw (byte_of-none h l e, url_decode) refl

-- url_decode reads back a text that is written with any pieces: characters other than `%` and
-- `+` stand for themselves, `+` is a space, `%` and two hexadecimal digits of either case are a
-- byte, and a `%` that two digits do not follow, at the end or before anything else, stands for
-- itself.
pub url_decode-written : (ps : List Piece) → AreWritten ps → url_decode (written ps) ≡ meant ps
unfolding url_decode
url_decode-written [] h = refl
url_decode-written (plain c ∷ ps) h =
    url_decode-plain c (written ps) h.0 h.1 ∙ ap (λ l. c ∷ l) (url_decode-written ps h.2)
url_decode-written (space ∷ ps) h =
    url_decode-space (written ps) ∙ ap (λ l. 32 ∷ l) (url_decode-written ps h)
url_decode-written (escape b first second ∷ ps) h =
    rw (byte_of-digit first second b h.0, url_decode) (ap (λ l. b ∷ l) (url_decode-written ps h.1))
url_decode-written (percent ∷ ps) h =
    url_decode-percent (written ps) h.0 ∙ ap (λ l. 37 ∷ l) (url_decode-written ps h.1)
