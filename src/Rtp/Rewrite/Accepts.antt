-- ===== src/Rtp/Rewrite/Accepts.antt =====
-- Which packets `rewrite_rtp_for_slot` accepts.
use driscord.Common.{
  ℕ, ◌+◌, ◌-◌, ◌*◌, ◌/◌, ◌^◌, ◌≤◌, ◌<◌, ◌≡◌, refl, subst, inl, inr, Bool, true, false, not, ◌||◌,
  Option, length, set, take, ltb, ltb→lt, ltb-false, leb, leb→le, ◌==◌, if◌then◌else◌, arith,
  length-take, length-set,
}
use driscord.Rtp.Packet.{
  Packet, Run, fault, spent, done, ◌>>=◌, set_network_u32, has_bit, clear_bit,
}
use driscord.Rtp.Packet.Laws.{
  Returns, Returns-bind, Returns-if, Returns-weaken, read, octet, set_byte_in_range, AgreeOutside,
}
use driscord.Rtp.Packet.Words.{set_network_u32-Returns, network_u16_in_range}
use driscord.Rtp.Extension.{Cleared}
use driscord.Rtp.Rewrite.{clear_mid, finish, with_extension, rewrite_rtp_for_slot}
use driscord.Rtp.Rewrite.Finish.{IsBytes, header_size, payload_begin, Sent, IsRewritten}
use driscord.Rtp.Rewrite.Laws.{
  extension_size, octet-agrees, clear_mid-agrees, rewrite_rtp_for_slot-IsRewritten,
}

-- The padding is there, and leaves the header alone.
abbrev pub IsPadded : Packet → ℕ → Type 0
IsPadded p begin =
    has_bit (octet p 0) 5 ≡ true
    → (0 < octet p (length p - 1)) × (octet p (length p - 1) + begin ≤ length p)

abbrev pub IsAccepted : Cleared → Type 0
IsAccepted r = r.0 ≡ true

-- A packet of RTP whose parts fit it, and whose header extension has no element that is too long.
pub record IsAcceptable (is_rtcp : Packet → Bool) (mid_id : Option ℕ) (p : Packet) : Type 0 where
  pub version : octet p 0 / 2 ^ 6 ≡ 2
  pub no_rtcp : is_rtcp p ≡ false
  pub header : 12 ≤ length p
  pub fits : payload_begin p ≤ length p
  pub padded : IsPadded p (payload_begin p)
  pub elements :
      has_bit (octet p 0) 4 ≡ true
      → Returns
          (clear_mid p
            (octet p (header_size p) * 2 ^ 8 + octet p (header_size p + 1))
            (header_size p + 4)
            (header_size p + 4 + extension_size p (header_size p))
            mid_id)
          IsAccepted

payload_after_extension :
    (p : Packet)
    → has_bit (octet p 0) 4 ≡ true
    → payload_begin p ≡ header_size p + 4 + extension_size p (header_size p)
payload_after_extension p ext = rw ext refl

payload_after_header :
    (p : Packet) → has_bit (octet p 0) 4 ≡ false → payload_begin p ≡ header_size p
payload_after_header p plain = rw plain refl

Returns-both :
    (m : Run Cleared) (P Q : Cleared → Type 0)
    → Returns m P
    → Returns m Q
    → Returns m (λ r. P r × Q r)
Returns-both (done r) P Q h k = (h, k)
Returns-both fault P Q h k = absurd h
Returns-both spent P Q h k = absurd h

-- A property of every result, and one that holds under a condition.
Returns-when :
    (A : Type 0) (m : Run Cleared) (P Q : Cleared → Type 0)
    → Returns m Q
    → (A → Returns m P)
    → Returns m (λ r. Q r × (A → P r))
Returns-when A (done r) P Q h k = (h, k)
Returns-when A fault P Q h k = absurd h
Returns-when A spent P Q h k = absurd h

stamp-IsAccepted :
    (q : Packet) (ssrc : ℕ)
    → 12 ≤ length q
    → ssrc < 2 ^ 32
    → Returns (set_network_u32 q 8 ssrc >>= λ r. done (true, r)) IsAccepted
stamp-IsAccepted q ssrc long small =
    Returns-bind (set_network_u32 q 8 ssrc) _ _ _ (set_network_u32-Returns q 8 ssrc long small)
      (λ r h. refl)

finish-IsAccepted :
    (p : Packet) (begin ssrc : ℕ)
    → 12 ≤ begin
    → begin ≤ length p
    → ssrc < 2 ^ 32
    → IsPadded p begin
    → Returns (finish p begin ssrc) IsAccepted
unfolding finish
finish-IsAccepted p begin ssrc past inside small padded =
    let last = octet p (length p - 1) in
    let n = length p - last in
    read p 0 _ _ (omega arith) (
      Returns-if (has_bit (octet p 0) 5) _ _ _
        (λ set_.
          let enough = padded set_ in
          Returns-if (leb (length p) begin) _ _ _
            (λ short. absurd (omega (arith, leb→le (length p) begin short, enough.0, enough.1)))
            (λ inner. read p (length p - 1) _ _ (omega arith) (
              Returns-if (last == 0 || ltb (length p - begin) last) _ _ _
                (λ bad. absurd (ground (arith, bad, enough.0, enough.1)))
                (λ fits. read (take n p) 0 _ _ (omega (arith, length-take n p, enough.1)) (
                  rw
                    (set_byte_in_range (take n p) 0 (clear_bit (octet (take n p) 0) 5)
                      (omega (arith, length-take n p, enough.1)))
                    (stamp-IsAccepted (set (take n p) 0 (clear_bit (octet (take n p) 0) 5)) ssrc
                      (omega (
                        arith,
                        length-take n p,
                        length-set (take n p) 0 (clear_bit (octet (take n p) 0) 5),
                        enough.1,
                      ))
                      small))))))
        (λ plain. stamp-IsAccepted p ssrc (omega arith) small))

IsPadded-agrees :
    (p q : Packet) (lo begin : ℕ)
    → 12 ≤ lo
    → AgreeOutside lo begin p q
    → IsPadded p begin
    → IsPadded q begin
IsPadded-agrees p q lo begin low agree padded set_ =
    let first = octet-agrees p q 0 (agree.same_bytes 0 (inl (omega arith))) in
    let enough = padded (rw (← first) set_) in
    let last =
      octet-agrees p q (length p - 1)
        (agree.same_bytes (length p - 1) (inr (omega (arith, enough.0, enough.1)))) in
    rw (agree.same_length, last) enough

with_body-IsAccepted :
    (p : Packet) (begin size profile ssrc : ℕ) (mid_id : Option ℕ)
    → 12 ≤ begin
    → begin + size ≤ length p
    → ssrc < 2 ^ 32
    → IsPadded p (begin + size)
    → Returns (clear_mid p profile begin (begin + size) mid_id) IsAccepted
    → Returns
        (clear_mid p profile begin (begin + size) mid_id >>= λ (valid, cleared).
          if valid then finish cleared (begin + size) ssrc else done (false, cleared))
        IsAccepted
with_body-IsAccepted p begin size profile ssrc mid_id low inside small padded elements =
    Returns-bind (clear_mid p profile begin (begin + size) mid_id)
      (λ (r : Cleared). if r.0 then finish r.1 (begin + size) ssrc else done (false, r.1))
      (λ r. IsAccepted r × AgreeOutside begin (begin + size) p r.1) IsAccepted
      (Returns-both (clear_mid p profile begin (begin + size) mid_id) _ _ elements
        (clear_mid-agrees p profile begin (begin + size) mid_id (omega arith) inside))
      (λ r both.
        Returns-if r.0 (finish r.1 (begin + size) ssrc) (done (false, r.1)) IsAccepted
          (λ _.
            finish-IsAccepted r.1 (begin + size) ssrc (omega arith)
              (omega (arith, both.1.same_length)) small
              (IsPadded-agrees p r.1 begin (begin + size) low both.1 padded))
          (λ invalid. absurd (ground (arith, invalid, both.0))))

with_extension-IsAccepted :
    (p : Packet) (at ssrc : ℕ) (mid_id : Option ℕ)
    → IsBytes p
    → 12 ≤ at
    → ssrc < 2 ^ 32
    → at + 4 + extension_size p at ≤ length p
    → IsPadded p (at + 4 + extension_size p at)
    → Returns
        (clear_mid p
          (octet p at * 2 ^ 8 + octet p (at + 1))
          (at + 4)
          (at + 4 + extension_size p at)
          mid_id)
        IsAccepted
    → Returns (with_extension p at ssrc mid_id) IsAccepted
unfolding with_extension
with_extension-IsAccepted p at ssrc mid_id bytes low small inside padded elements =
    let size = extension_size p at in
    Returns-if (ltb (length p) (at + 4)) _ _ _
      (λ short. absurd (omega (arith, ltb→lt (length p) (at + 4) short)))
      (λ _.
        rw
          (
            network_u16_in_range p at (omega arith) (bytes at) (bytes (at + 1)),
            network_u16_in_range p (at + 2) (omega arith) (bytes (at + 2)) (bytes (at + 2 + 1)),
          )
          (Returns-if (ltb (length p - (at + 4)) size) _ _ _
            (λ long. absurd (omega (arith, ltb→lt (length p - (at + 4)) size long)))
            (λ _.
              with_body-IsAccepted p (at + 4) size (octet p at * 2 ^ 8 + octet p (at + 1)) ssrc
                mid_id (omega arith) inside small padded elements)))

pub rewrite_rtp_for_slot-IsAccepted :
    (is_rtcp : Packet → Bool) (p : Packet) (ssrc : ℕ) (mid_id : Option ℕ)
    → IsBytes p
    → ssrc < 2 ^ 32
    → IsAcceptable is_rtcp mid_id p
    → Returns (rewrite_rtp_for_slot is_rtcp p ssrc mid_id) IsAccepted
unfolding rewrite_rtp_for_slot
rewrite_rtp_for_slot-IsAccepted is_rtcp p ssrc mid_id bytes small ok =
    let first = octet p 0 in
    let at = header_size p in
    Returns-if (ltb (length p) 12) _ _ _
      (λ short. absurd (omega (arith, ltb→lt (length p) 12 short, ok.header)))
      (λ _. read p 0 _ _ (omega (arith, ok.header)) (
        Returns-if (not (first / 2 ^ 6 == 2) || is_rtcp p) _ _ _
          (λ bad. absurd (ground (arith, bad, ok.version, ok.no_rtcp)))
          (λ _.
            Returns-if (ltb (length p) at) _ _ _ (λ short. absurd (ground (arith, short, ok.fits)))
              (λ csrc.
                Returns-if (has_bit first 4) _ _ _
                  (λ ext.
                    let begins = payload_after_extension p ext in
                    with_extension-IsAccepted p at ssrc mid_id bytes (omega arith) small
                      (omega (arith, begins, ok.fits)) (subst (IsPadded p) begins ok.padded)
                      (ok.elements ext))
                  (λ plain.
                    let begins = payload_after_header p plain in
                    finish-IsAccepted p at ssrc (omega arith) (ltb-false (length p) at csrc) small
                      (subst (IsPadded p) begins ok.padded))))))

-- rewrite_rtp_for_slot accepts every packet of version 2 that is no RTCP, whose fixed header,
-- CSRC list and extension fit it, whose padding, if announced, is not empty and leaves them
-- whole, and in whose extension clear_mid meets no element that is too long; what leaves is
-- then as rewrite_rtp_for_slot-IsRewritten says.
pub rewrite_rtp_for_slot-Sent :
    (is_rtcp : Packet → Bool) (p : Packet) (ssrc : ℕ) (mid_id : Option ℕ)
    → IsBytes p
    → ssrc < 2 ^ 32
    → IsAcceptable is_rtcp mid_id p
    → Returns
        (rewrite_rtp_for_slot is_rtcp p ssrc mid_id)
        (λ r. IsAccepted r × Sent p (payload_begin p) ssrc r.1)
rewrite_rtp_for_slot-Sent is_rtcp p ssrc mid_id bytes small ok =
    let run = rewrite_rtp_for_slot is_rtcp p ssrc mid_id in
    Returns-weaken run (λ r. IsAccepted r × IsRewritten p (payload_begin p) ssrc r) _
      (λ r both. accepted r both.0 both.1)
      (Returns-both run IsAccepted (IsRewritten p (payload_begin p) ssrc)
        (rewrite_rtp_for_slot-IsAccepted is_rtcp p ssrc mid_id bytes small ok)
        (rewrite_rtp_for_slot-IsRewritten is_rtcp p ssrc mid_id bytes small))
  where
    accepted :
        (r : Cleared)
        → IsAccepted r
        → IsRewritten p (payload_begin p) ssrc r
        → IsAccepted r × Sent p (payload_begin p) ssrc r.1
    accepted r h (inl (refused, _)) = absurd (ground arith)
    accepted r h (inr (usable, sent)) = (h, sent)

abbrev pub IsDecided : (Packet → Bool) → Option ℕ → Packet → ℕ → Cleared → Type 0
IsDecided is_rtcp mid_id p ssrc r =
    IsRewritten p (payload_begin p) ssrc r × (IsAcceptable is_rtcp mid_id p → IsAccepted r)

pub rewrite_rtp_for_slot-IsDecided :
    (is_rtcp : Packet → Bool) (p : Packet) (ssrc : ℕ) (mid_id : Option ℕ)
    → IsBytes p
    → ssrc < 2 ^ 32
    → Returns (rewrite_rtp_for_slot is_rtcp p ssrc mid_id) (IsDecided is_rtcp mid_id p ssrc)
rewrite_rtp_for_slot-IsDecided is_rtcp p ssrc mid_id bytes small =
    Returns-when (IsAcceptable is_rtcp mid_id p) (rewrite_rtp_for_slot is_rtcp p ssrc mid_id)
      IsAccepted (IsRewritten p (payload_begin p) ssrc)
      (rewrite_rtp_for_slot-IsRewritten is_rtcp p ssrc mid_id bytes small)
      (rewrite_rtp_for_slot-IsAccepted is_rtcp p ssrc mid_id bytes small)
