-- ===== src/Rtp/Rewrite/Laws.antt =====
-- `rewrite_rtp_for_slot` as a whole (backend/signaling_server/src/rtp_slot_rewriter.cpp).
use driscord.Common.{
  ℕ, ◌+◌, ◌-◌, ◌*◌, ◌/◌, ◌^◌, ◌≤◌, ◌<◌, ◌≡◌, refl, ◌∙◌, ap, inl, inr, Bool, true, false, Bool-cases,
  not, ◌||◌, Option, none, some, length, get_elem?, ltb, ltb-false, ◌==◌, if◌then◌else◌, arith,
}
use driscord.Rtp.Packet.{Packet, done, ◌>>=◌, has_bit}
use driscord.Rtp.Packet.Laws.{
  Returns, Returns-bind, Returns-if, Returns-weaken, read, octet, AgreeOutside, AgreeOutside-refl,
  AgreeOutside-widen,
}
use driscord.Rtp.Packet.Words.{network_u16_in_range}
use driscord.Rtp.Extension.{Cleared}
use driscord.Rtp.Extension.Laws.{
  Format, one_byte, two_byte, IsCleared, clear_one_byte_mid-IsCleared, clear_two_byte_mid-IsCleared,
}
use driscord.Rtp.Rewrite.{clear_mid, finish, with_extension, rewrite_rtp_for_slot}
use driscord.Rtp.Rewrite.Finish.{
  IsBytes, padding, header_size, payload_begin, Sent, IsRewritten, finish-IsRewritten,
}

IsCleared-agrees :
    (format : Format) (p : Packet) (lo hi id : ℕ) (r : Cleared)
    → IsCleared format p lo hi id r
    → AgreeOutside lo hi p r.1
IsCleared-agrees format p lo hi id r (inl k) = rw k.same (AgreeOutside-refl lo hi p)
IsCleared-agrees format p lo hi id r (inr b) = AgreeOutside-widen b.from b.fits b.zeros.0

-- Whatever the profile, only bytes of the extension's body may change.
pub clear_mid-agrees :
    (p : Packet) (profile lo hi : ℕ) (mid_id : Option ℕ)
    → lo ≤ hi
    → hi ≤ length p
    → Returns (clear_mid p profile lo hi mid_id) (λ r. AgreeOutside lo hi p r.1)
unfolding clear_mid
clear_mid-agrees p profile lo hi none h inside = AgreeOutside-refl lo hi p
clear_mid-agrees p profile lo hi (some id) h inside =
    Returns-if (profile == 0xbede) _ _ _
      (λ _.
        Returns-weaken _ _ _ (IsCleared-agrees one_byte p lo hi id)
          (clear_one_byte_mid-IsCleared p lo hi id h inside))
      (λ _.
        Returns-if (profile / 2 ^ 4 * 2 ^ 4 == 0x1000) _ _ _
          (λ _.
            Returns-weaken _ _ _ (IsCleared-agrees two_byte p lo hi id)
              (clear_two_byte_mid-IsCleared p lo hi id h inside))
          (λ _. AgreeOutside-refl lo hi p))

pub octet-agrees : (p q : Packet) (i : ℕ) → get_elem? q i ≡ get_elem? p i → octet q i ≡ octet p i
octet-agrees p q i e = ground (arith, e)

padding-agrees :
    (p q : Packet) (lo begin : ℕ)
    → 12 ≤ lo
    → AgreeOutside lo begin p q
    → (has_bit (octet q 0) 5 ≡ true → begin < length q)
    → padding q ≡ padding p
padding-agrees p q lo begin low agree room =
    let first = octet-agrees p q 0 (agree.same_bytes 0 (inl (omega arith))) in
    elim (Bool-cases (has_bit (octet q 0) 5)) [
      | inl set ↦
          let below = room set in
          let last =
            octet-agrees p q (length q - 1) (agree.same_bytes (length q - 1) (inr (omega arith))) in
          rw (set) (last ∙ rw (← first, set) (ap (octet p) (omega (arith, agree.same_length))))
      | inr unset ↦ rw (unset, ← first, unset)
    ]

-- What is sent for the packet with its MID blanked, is sent for the packet.
Sent-agrees :
    (p q r : Packet) (lo begin ssrc : ℕ)
    → 12 ≤ lo
    → AgreeOutside lo begin p q
    → Sent q begin ssrc r
    → Sent p begin ssrc r
Sent-agrees p q r lo begin ssrc low agree s =
    let first = octet-agrees p q 0 (agree.same_bytes 0 (inl (omega arith))) in
    record {
      size = omega (arith, s.size, padding-agrees p q lo begin low agree s.room, agree.same_length);
      enough = s.enough;
      flags = rw (← first) s.flags;
      header = λ i a b. s.header i a b ∙ agree.same_bytes i (inl (omega arith));
      stamped = s.stamped;
      whole = s.whole;
      room = λ h. omega (arith, s.room (rw first h), agree.same_length);
      payload = λ i a b. s.payload i a b ∙ agree.same_bytes i (inr a);
    }

Result-agrees :
    (p q : Packet) (lo begin ssrc : ℕ) (r : Cleared)
    → 12 ≤ lo
    → AgreeOutside lo begin p q
    → IsRewritten q begin ssrc r
    → IsRewritten p begin ssrc r
Result-agrees p q lo begin ssrc r low agree (inl (no_use, same)) =
    inl (no_use, same ∙ agree.same_length)
Result-agrees p q lo begin ssrc r low agree (inr (usable, s)) =
    inr (usable, Sent-agrees p q r.1 lo begin ssrc low agree s)

-- The extension's length field, in bytes.
abbrev pub extension_size : Packet → ℕ → ℕ
extension_size p at = (octet p (at + 2) * 2 ^ 8 + octet p (at + 2 + 1)) * 4

with_body :
    (p : Packet) (begin size profile ssrc : ℕ) (mid_id : Option ℕ)
    → 12 ≤ begin
    → begin + size ≤ length p
    → ssrc < 2 ^ 32
    → Returns
        (clear_mid p profile begin (begin + size) mid_id >>= λ (valid, cleared).
          if valid then finish cleared (begin + size) ssrc else done (false, cleared))
        (IsRewritten p (begin + size) ssrc)
with_body p begin size profile ssrc mid_id low inside small =
    Returns-bind (clear_mid p profile begin (begin + size) mid_id)
      (λ (r : Cleared). if r.0 then finish r.1 (begin + size) ssrc else done (false, r.1))
      (λ r. AgreeOutside begin (begin + size) p r.1) (IsRewritten p (begin + size) ssrc)
      (clear_mid-agrees p profile begin (begin + size) mid_id (omega arith) inside)
      (λ r agree.
        Returns-if r.0 (finish r.1 (begin + size) ssrc) (done (false, r.1))
          (IsRewritten p (begin + size) ssrc)
          (λ _.
            Returns-weaken (finish r.1 (begin + size) ssrc) _ _
              (λ t. Result-agrees p r.1 begin (begin + size) ssrc t low agree)
              (finish-IsRewritten r.1 (begin + size) ssrc (omega arith)
                (omega (arith, agree.same_length)) small))
          (λ _. inl (refl, agree.same_length)))

with_extension-IsRewritten :
    (p : Packet) (at ssrc : ℕ) (mid_id : Option ℕ)
    → IsBytes p
    → 12 ≤ at
    → ssrc < 2 ^ 32
    → Returns (with_extension p at ssrc mid_id) (IsRewritten p (at + 4 + extension_size p at) ssrc)
unfolding with_extension
with_extension-IsRewritten p at ssrc mid_id bytes low small =
    let size = extension_size p at in
    Returns-if (ltb (length p) (at + 4)) _ _ _ (λ _. inl (refl, refl))
      (λ header.
        let inside = ltb-false (length p) (at + 4) header in
        rw
          (
            network_u16_in_range p at (omega arith) (bytes at) (bytes (at + 1)),
            network_u16_in_range p (at + 2) (omega arith) (bytes (at + 2)) (bytes (at + 2 + 1)),
          )
          (Returns-if (ltb (length p - (at + 4)) size) _ _ _ (λ _. inl (refl, refl))
            (λ fits.
              let body = ltb-false (length p - (at + 4)) size fits in
              with_body p (at + 4) size (octet p at * 2 ^ 8 + octet p (at + 1)) ssrc mid_id
                (omega arith) (omega arith) small)))

-- rewrite_rtp_for_slot reads and writes no byte outside the packet and its loops end. It
-- refuses the packet at its length, or it accepts it: then the padding and its flag are gone,
-- the SSRC is the slot's, and the payload type, the sequence number, the timestamp and the
-- payload are the publisher's.
pub rewrite_rtp_for_slot-IsRewritten :
    (is_rtcp : Packet → Bool) (p : Packet) (ssrc : ℕ) (mid_id : Option ℕ)
    → IsBytes p
    → ssrc < 2 ^ 32
    → Returns (rewrite_rtp_for_slot is_rtcp p ssrc mid_id) (IsRewritten p (payload_begin p) ssrc)
unfolding rewrite_rtp_for_slot
rewrite_rtp_for_slot-IsRewritten is_rtcp p ssrc mid_id bytes small =
    let first = octet p 0 in
    Returns-if (ltb (length p) 12) _ _ _ (λ _. inl (refl, refl))
      (λ long.
        let fixed = ltb-false (length p) 12 long in
        read p 0 _ _ (omega arith) (
          Returns-if (not (first / 2 ^ 6 == 2) || is_rtcp p) _ _ _ (λ _. inl (refl, refl))
            (λ _.
              Returns-if (ltb (length p) (header_size p)) _ _ _ (λ _. inl (refl, refl))
                (λ csrc.
                  let inside = ltb-false (length p) (header_size p) csrc in
                  Returns-if (has_bit first 4) _ _ _
                    (λ ext. rw ext (
                      with_extension-IsRewritten p (header_size p) ssrc mid_id bytes (omega arith)
                        small))
                    (λ plain.
                      rw plain
                        (finish-IsRewritten p (header_size p) ssrc (omega arith) inside small))))))
