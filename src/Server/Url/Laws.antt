-- ===== src/Server/Url/Laws.antt =====
-- The parsing of a request's target (backend/signaling_server/src/ws_server.cpp).
use driscord.Common.{ℕ, ◌/◌, ◌%◌, ◌^◌, ◌<◌, ◌==◌, ◌≡◌, refl, ap, Bool, false, ◌||◌, List, [], ◌∷◌}
use driscord.Server.Url.Pieces.{digit, byte_of-digit}
use driscord.Server.Url.{url_decode}

-- Whether a character is in a text.
abbrev pub has_char : ℕ → List ℕ → Bool
has_char d [] = false
has_char d (c ∷ cs) = c == d || has_char d cs

-- A reference encoder: every byte as `%` and two digits.
abbrev pub percent_encode : List ℕ → List ℕ
percent_encode [] = []
percent_encode (b ∷ bs) = 37 ∷ digit false (b / 16) ∷ digit false (b % 16) ∷ percent_encode bs

abbrev pub AreBytes : List ℕ → Type 0
AreBytes [] = Unit {0}
AreBytes (b ∷ bs) = (b < 2 ^ 8) × AreBytes bs

-- Every byte that is written as an escape is read back.
pub url_decode-percent_encode : (bs : List ℕ) → AreBytes bs → url_decode (percent_encode bs) ≡ bs
unfolding url_decode
url_decode-percent_encode [] h = refl
url_decode-percent_encode (b ∷ bs) h =
    let byte = byte_of-digit false false b h.0 in
    rw (byte, url_decode) (ap (λ l. b ∷ l) (url_decode-percent_encode bs h.1))
