-- ===== src/Rtp/Extension/Laws.antt =====
-- The loops over the extension's elements (backend/signaling_server/src/rtp_slot_rewriter.cpp).
use driscord.Common.{
  Bool, ℕ, zero, suc, ◌+◌, ◌/◌, ◌%◌, ◌^◌, ◌≤◌, ◌<◌, ◌≡◌, ◌≢◌, refl, ap, ◌⊎◌, inl, inr, true, false,
  length, ltb, ltb→lt, ltb-false, ◌==◌, ==_iff, if◌then◌else◌, if_true, if_false, arith,
}
use driscord.Rtp.Packet.{Packet, fill_zero}
use driscord.Rtp.Packet.Laws.{
  Returns, Returns-bind, Returns-if, Returns-weaken, read, octet, ZeroFilled, fill_zero-Returns,
}
use driscord.Rtp.Extension.{
  Cleared, blank, clear_one_byte_loop, clear_one_byte_mid, clear_two_byte_loop, clear_two_byte_mid,
}

-- What a format lays down: the identifier of the element at an offset, and the bytes that it takes
-- with its descriptor. A zero byte is padding, of one byte. An element may end the extension.
pub record Format : Type 0 where
  pub id_at : Packet → ℕ → ℕ
  pub size_at : Packet → ℕ → ℕ
  pub stops_at : Packet → ℕ → Bool

abbrev pub one_byte : Format
one_byte = record {
  id_at = λ p at. octet p at / 2 ^ 4;
  size_at = λ p at. if octet p at == 0 then 1 else 1 + (octet p at % 2 ^ 4 + 1);
  stops_at = λ p at. octet p at / 2 ^ 4 == 15;
}

abbrev pub two_byte : Format
two_byte = record {
  id_at = λ p at. octet p at;
  size_at = λ p at. if octet p at == 0 then 1 else 2 + octet p (at + 1);
  stops_at = λ p at. false;
}

-- Padding, or an element that is not of the MID and does not end the extension.
abbrev pub IsPassed : Format → Packet → ℕ → ℕ → Type 0
IsPassed format p id at =
    (octet p at ≡ 0) ⊎ ((format.id_at p at ≢ id) × (format.stops_at p at ≡ false))

-- The offset `at` is reached from `lo` by going over whole elements, none of them of the MID, and
-- each of which ends by `hi`.
pub data Walk (format : Format) (p : Packet) (hi id : ℕ) : ℕ → ℕ → Type 0 where
  here : {at : ℕ} → Walk format p hi id at at
  over :
      {lo at : ℕ} (next : ℕ)
      → next ≡ lo + format.size_at p lo
      → next ≤ hi
      → IsPassed format p id lo
      → Walk format p hi id next at
      → Walk format p hi id lo at

-- The first element of the MID, that lies between `lo` and `hi`, became zeros.
pub record Blanked (format : Format) (p : Packet) (lo hi id : ℕ) (r : Cleared) : Type 0 where
  pub at : ℕ
  pub reached : Walk format p hi id lo at
  pub of_mid : format.id_at p at ≡ id
  pub used : octet p at ≢ 0
  pub goes_on : format.stops_at p at ≡ false
  pub fits : at + format.size_at p at ≤ hi
  pub from : lo ≤ at
  pub valid : r.0 ≡ true
  pub zeros : ZeroFilled p at (format.size_at p at) r.1

-- Nothing of the MID: the walk comes to the end of the extension, or to an element in it that ends
-- it, or it fails at an element that begins in the extension and is longer than what is left of it.
pub record Kept (format : Format) (p : Packet) (lo hi id : ℕ) (r : Cleared) : Type 0 where
  pub at : ℕ
  pub reached : Walk format p hi id lo at
  pub same : r.1 ≡ p
  pub why :
      ((r.0 ≡ true) × (at ≡ hi))
      ⊎ ((r.0 ≡ true) × (at < hi) × (format.stops_at p at ≡ true))
      ⊎ ((r.0 ≡ false)
          × (at < hi)
          × (octet p at ≢ 0)
          × (format.stops_at p at ≡ false)
          × (hi < at + format.size_at p at))

abbrev pub IsCleared : Format → Packet → ℕ → ℕ → ℕ → Cleared → Type 0
IsCleared format p lo hi id r = Kept format p lo hi id r ⊎ Blanked format p lo hi id r

module _ (format : Format) (p : Packet) where
  IsCleared-over :
      (lo next hi id : ℕ) (r : Cleared)
      → next ≡ lo + format.size_at p lo
      → next ≤ hi
      → IsPassed format p id lo
      → IsCleared format p next hi id r
      → IsCleared format p lo hi id r
  IsCleared-over lo next hi id r e inside passed (inl k) = inl record {
    at = k.at;
    reached = over next e inside passed k.reached;
    same = k.same;
    why = k.why;
  }
  IsCleared-over lo next hi id r e inside passed (inr b) = inr record {
    at = b.at;
    reached = over next e inside passed b.reached;
    of_mid = b.of_mid;
    used = b.used;
    goes_on = b.goes_on;
    fits = b.fits;
    from = omega (arith, b.from);
    valid = b.valid;
    zeros = b.zeros;
  }

  -- The walk is over: at the end, at an element that ends the extension, or with an error.
  ended : (at hi id : ℕ) → at ≡ hi → IsCleared format p at hi id (true, p)
  ended at hi id h = inl record { at = at; reached = here; same = refl; why = inl (refl, h) }

  stopped :
      (at hi id : ℕ) → at < hi → format.stops_at p at ≡ true → IsCleared format p at hi id (true, p)
  stopped at hi id below h =
      inl record { at = at; reached = here; same = refl; why = inr (inl (refl, below, h)) }

  too_long :
      (at hi id : ℕ)
      → at < hi
      → octet p at ≢ 0
      → format.stops_at p at ≡ false
      → hi < at + format.size_at p at
      → IsCleared format p at hi id (false, p)
  too_long at hi id below used going h =
      inl record {
        at = at;
        reached = here;
        same = refl;
        why = inr (inr (refl, below, used, going, h));
      }

  blank-IsCleared :
      (at size hi id : ℕ)
      → size ≡ format.size_at p at
      → format.id_at p at ≡ id
      → format.stops_at p at ≡ false
      → octet p at ≢ 0
      → at + size ≤ hi
      → hi ≤ length p
      → Returns (blank p at size) (IsCleared format p at hi id)
  unfolding blank
  blank-IsCleared at size hi id e of_mid goes_on used fits inside =
      Returns-bind (fill_zero p at size) _ (ZeroFilled p at size) _
        (fill_zero-Returns p at size (omega arith))
        (λ q z. inr record {
          at = at;
          reached = here;
          of_mid = of_mid;
          used = used;
          goes_on = goes_on;
          fits = rw (← e) fits;
          from = omega arith;
          valid = refl;
          zeros = rw (← e) z;
        })

differ : (a b : ℕ) → (a == b) ≡ false → a ≢ b
differ a b h e = ground arith

nonzero : (n : ℕ) → (n == 0) ≡ false → n ≢ 0
nonzero n h e = ground arith

clear_one_byte_loop-IsCleared :
    (fuel : ℕ) (p : Packet) (cursor hi id : ℕ)
    → cursor ≤ hi
    → hi < cursor + fuel
    → hi ≤ length p
    → Returns (clear_one_byte_loop fuel p cursor hi id) (IsCleared one_byte p cursor hi id)
unfolding clear_one_byte_loop
clear_one_byte_loop-IsCleared zero p cursor hi id before enough inside = absurd (omega arith)
clear_one_byte_loop-IsCleared (suc fuel) p cursor hi id before enough inside =
    let d = octet p cursor in
    let size = 1 + (d % 2 ^ 4 + 1) in
    Returns-if (ltb cursor hi) _ _ _
      (λ more.
        let below = ltb→lt cursor hi more in
        read p cursor _ _ (omega arith) (
          Returns-if (d == 0) _ _ _
            (λ padding.
              Returns-weaken (clear_one_byte_loop fuel p (cursor + 1) hi id) _ _
                (λ r.
                  IsCleared-over one_byte p cursor (cursor + 1) hi id r
                    (ap (◌+◌ cursor) (if_true (d == 0) 1 size padding)) (omega arith)
                    (inl ((==_iff d 0).0 padding)))
                (clear_one_byte_loop-IsCleared fuel p (cursor + 1) hi id (omega arith) (omega arith)
                  inside))
            (λ used.
              let sized = if_false (d == 0) 1 size used in
              Returns-if (d / 2 ^ 4 == 15) _ _ _
                (λ stop. stopped one_byte p cursor hi id below stop)
                (λ going.
                  Returns-if (ltb hi (cursor + 1 + (d % 2 ^ 4 + 1))) _ _ _
                    (λ long.
                      too_long one_byte p cursor hi id below (nonzero d used) going (
                        rw (← sized)
                          (omega (arith, ltb→lt hi (cursor + 1 + (d % 2 ^ 4 + 1)) long))))
                    (λ fits.
                      let room = ltb-false hi (cursor + 1 + (d % 2 ^ 4 + 1)) fits in
                      Returns-if (d / 2 ^ 4 == id) _ _ _
                        (λ hit.
                          blank-IsCleared one_byte p cursor size hi id sized ((==_iff _ id).0 hit)
                            going (nonzero d used) (omega arith) inside)
                        (λ other.
                          Returns-weaken (clear_one_byte_loop fuel p (cursor + size) hi id) _ _
                            (λ r.
                              IsCleared-over one_byte p cursor (cursor + size) hi id r
                                (ap (◌+◌ cursor) sized) (omega arith)
                                (inr (differ (d / 2 ^ 4) id other, going)))
                            (clear_one_byte_loop-IsCleared fuel p (cursor + size) hi id
                              (omega arith) (omega arith) inside)))))))
      (λ past. ended one_byte p cursor hi id (omega (arith, ltb-false cursor hi past)))

-- clear_one_byte_mid, on a range that lies in the packet, reads no byte outside the packet and
-- its loop ends. Going over whole elements from the range's start, it blanks the first element
-- of the MID, which lies inside the range, and nothing else; or it meets none and leaves the
-- packet as it was, with success at the range's end or at an element of identifier 15, and
-- without success at an element, of the MID or not, that is longer than what is left of the
-- range. No element that it goes over is longer than what is left.
pub clear_one_byte_mid-IsCleared :
    (p : Packet) (begin hi id : ℕ)
    → begin ≤ hi
    → hi ≤ length p
    → Returns (clear_one_byte_mid p begin hi id) (IsCleared one_byte p begin hi id)
unfolding clear_one_byte_mid
clear_one_byte_mid-IsCleared p begin hi id h inside =
    clear_one_byte_loop-IsCleared (suc hi) p begin hi id h (omega arith) inside

clear_two_byte_loop-IsCleared :
    (fuel : ℕ) (p : Packet) (cursor hi id : ℕ)
    → cursor ≤ hi
    → hi < cursor + fuel
    → hi ≤ length p
    → Returns (clear_two_byte_loop fuel p cursor hi id) (IsCleared two_byte p cursor hi id)
unfolding clear_two_byte_loop
clear_two_byte_loop-IsCleared zero p cursor hi id before enough inside = absurd (omega arith)
clear_two_byte_loop-IsCleared (suc fuel) p cursor hi id before enough inside =
    let d = octet p cursor in
    let v = octet p (cursor + 1) in
    Returns-if (ltb cursor hi) _ _ _
      (λ more.
        let below = ltb→lt cursor hi more in
        read p cursor _ _ (omega arith) (
          Returns-if (d == 0) _ _ _
            (λ padding.
              Returns-weaken (clear_two_byte_loop fuel p (cursor + 1) hi id) _ _
                (λ r.
                  IsCleared-over two_byte p cursor (cursor + 1) hi id r
                    (ap (◌+◌ cursor) (if_true (d == 0) 1 (2 + v) padding)) (omega arith)
                    (inl ((==_iff d 0).0 padding)))
                (clear_two_byte_loop-IsCleared fuel p (cursor + 1) hi id (omega arith) (omega arith)
                  inside))
            (λ used.
              let sized = if_false (d == 0) 1 (2 + v) used in
              Returns-if (ltb hi (cursor + 2)) _ _ _
                (λ long.
                  too_long two_byte p cursor hi id below (nonzero d used) refl
                    (rw (← sized) (omega (arith, ltb→lt hi (cursor + 2) long))))
                (λ header.
                  let inner = ltb-false hi (cursor + 2) header in
                  read p (cursor + 1) _ _ (omega arith) (
                    Returns-if (ltb hi (cursor + 2 + v)) _ _ _
                      (λ long.
                        too_long two_byte p cursor hi id below (nonzero d used) refl
                          (rw (← sized) (omega (arith, ltb→lt hi (cursor + 2 + v) long))))
                      (λ fits.
                        let room = ltb-false hi (cursor + 2 + v) fits in
                        Returns-if (d == id) _ _ _
                          (λ hit.
                            blank-IsCleared two_byte p cursor (2 + v) hi id sized
                              ((==_iff _ id).0 hit) refl (nonzero d used) (omega arith) inside)
                          (λ other.
                            Returns-weaken (clear_two_byte_loop fuel p (cursor + (2 + v)) hi id) _ _
                              (λ r.
                                IsCleared-over two_byte p cursor (cursor + (2 + v)) hi id r
                                  (ap (◌+◌ cursor) sized) (omega arith)
                                  (inr (differ d id other, refl)))
                              (clear_two_byte_loop-IsCleared fuel p (cursor + (2 + v)) hi id
                                (omega arith) (omega arith) inside))))))))
      (λ past. ended two_byte p cursor hi id (omega (arith, ltb-false cursor hi past)))

-- clear_two_byte_mid, on a range that lies in the packet, reads no byte outside the packet and
-- its loop ends. Going over whole elements from the range's start, it blanks the first element
-- of the MID, which lies inside the range, and nothing else; or it meets none and leaves the
-- packet as it was, with success at the range's end, and without success at an element, of the
-- MID or not, that is longer than what is left of the range. No element that it goes over is
-- longer than what is left.
pub clear_two_byte_mid-IsCleared :
    (p : Packet) (begin hi id : ℕ)
    → begin ≤ hi
    → hi ≤ length p
    → Returns (clear_two_byte_mid p begin hi id) (IsCleared two_byte p begin hi id)
unfolding clear_two_byte_mid
clear_two_byte_mid-IsCleared p begin hi id h inside =
    clear_two_byte_loop-IsCleared (suc hi) p begin hi id h (omega arith) inside
