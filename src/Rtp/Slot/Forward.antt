-- ===== src/Rtp/Slot/Forward.antt =====
-- `RtpSlotRewriter::rewrite` on a whole packet.
use driscord.Common.{
  none, ℕ, ◌+◌, ◌*◌, ◌^◌, ◌<◌, ◌≤◌, ◌≡◌, refl, ◌∙◌, ap, ◌⊎◌, inl, inr, Bool, true, false, Option,
  some, length, get_elem?, arith, Option-cases, if◌then◌else◌,
}
use driscord.Rtp.Packet.{
  Packet, done, ◌>>=◌, network_u16, network_u32, set_network_u16, set_network_u32,
}
use driscord.Rtp.Packet.Laws.{
  Returns, Returns-weaken, Returns-bind, octet, AgreeOutside, AgreeOutside-trans,
  AgreeOutside-widen,
}
use driscord.Rtp.Packet.Words.{
  joined, set_network_u16-Returns, set_network_u32-Returns, network_u16-agrees, network_u32-agrees,
  network_u16_in_range, network_u32_in_range,
}
use driscord.Rtp.Extension.{Cleared}
use driscord.Rtp.Rewrite.{rewrite_rtp_for_slot}
use driscord.Rtp.Rewrite.Finish.{IsBytes, padding, payload_begin, Sent}
use driscord.Rtp.Rewrite.Accepts.{IsAcceptable, IsDecided, rewrite_rtp_for_slot-IsDecided}
use driscord.Rtp.Rewrite.Laws.{octet-agrees}
use driscord.Rtp.Slot.{RtpSlotRewriter, Emitted, Rewritten, advance, store, rewrite}

abbrev pub sequence_of : Packet → ℕ
sequence_of p = octet p 2 * 2 ^ 8 + octet p (2 + 1)

abbrev pub timestamp_of : Packet → ℕ
timestamp_of p = joined p 4

-- A packet that is passed on: numbered as `advance` says, with the slot's SSRC, without padding,
-- and with the publisher's payload.
pub record IsForwarded (s : RtpSlotRewriter) (p : Packet) (generation ssrc : ℕ) (r : Rewritten)
    : Type 0 where
  pub out : Emitted
  pub accepted : advance s generation (sequence_of p) (timestamp_of p) ≡ some out
  pub state : r.state ≡ out.state
  pub sequence : network_u16 r.packet 2 ≡ done out.sequence
  pub timestamp : network_u32 r.packet 4 ≡ done out.timestamp
  pub stamped : network_u32 r.packet 8 ≡ done ssrc
  pub size : length r.packet + padding p ≡ length p
  pub payload :
      (i : ℕ) → payload_begin p ≤ i → i < length r.packet → get_elem? r.packet i ≡ get_elem? p i

-- A packet is refused, with the state left as it was, because it is not acceptable or because its
-- source or its sequence number is too old; or it is passed on.
abbrev pub IsHandled :
    (Packet → Bool) → Option ℕ → RtpSlotRewriter → Packet → ℕ → ℕ → Rewritten → Type 0
IsHandled is_rtcp mid_id s p generation ssrc r =
    ((r.sent ≡ false)
      × (r.state ≡ s)
      × ((IsAcceptable is_rtcp mid_id p → ⊥)
          ⊎ (advance s generation (sequence_of p) (timestamp_of p) ≡ none)))
    ⊎ ((r.sent ≡ true) × IsForwarded s p generation ssrc r)

advance-lt :
    (s : RtpSlotRewriter) (generation sequence timestamp : ℕ) (out : Emitted)
    → advance s generation sequence timestamp ≡ some out
    → (out.sequence < 2 ^ 16) × (out.timestamp < 2 ^ 32)
unfolding advance
advance-lt s generation sequence timestamp out e = ground arith

payload_past : (p : Packet) → 12 ≤ payload_begin p
payload_past p = ground arith

-- Numbering a rewritten packet.
number :
    (s : RtpSlotRewriter) (p q : Packet) (generation ssrc : ℕ) (out : Emitted)
    → advance s generation (sequence_of p) (timestamp_of p) ≡ some out
    → Sent p (payload_begin p) ssrc q
    → Returns (store s q (some out)) (λ r. (r.sent ≡ true) × IsForwarded s p generation ssrc r)
unfolding store
number s p q generation ssrc out e sent =
    let bounds = advance-lt s generation (sequence_of p) (timestamp_of p) out e in
    Returns-bind (set_network_u16 q 2 out.sequence) _ _ _
      (set_network_u16-Returns q 2 out.sequence (omega (arith, sent.enough)) bounds.0)
      (λ a (agree2, read2).
        Returns-bind (set_network_u32 a 4 out.timestamp) _ _ _
          (set_network_u32-Returns a 4 out.timestamp
            (omega (arith, sent.enough, agree2.same_length)) bounds.1)
          (λ b (agree4, read4).
            let whole : AgreeOutside 2 8 q b =
              AgreeOutside-trans (AgreeOutside-widen (omega arith) (omega arith) agree2)
                (AgreeOutside-widen (omega arith) (omega arith) agree4) in
            (
              refl,
              record {
                out = out;
                accepted = e;
                state = refl;
                sequence = network_u16-agrees a b 2 4 8 (inl (omega arith)) agree4 ∙ read2;
                timestamp = read4;
                stamped = network_u32-agrees q b 8 2 8 (inr (omega arith)) whole ∙ sent.stamped;
                size = omega (arith, whole.same_length, sent.size);
                payload = λ i low high.
                    whole.same_bytes i (inr (omega (arith, payload_past p)))
                    ∙ sent.payload i low (omega (arith, whole.same_length));
              },
            )))

-- The number fields of a rewritten packet are still the publisher's.
sequence_kept :
    (p q : Packet) (ssrc : ℕ)
    → IsBytes p
    → Sent p (payload_begin p) ssrc q
    → network_u16 q 2 ≡ done (sequence_of p)
sequence_kept p q ssrc bytes sent =
    let same = λ (i : ℕ) (a : 1 ≤ i) (b : i < 8). octet-agrees p q i (sent.header i a b) in
    let e2 = same 2 (omega arith) (omega arith) in
    let e3 = same (2 + 1) (omega arith) (omega arith) in
    network_u16_in_range q 2 (omega (arith, sent.enough)) (rw e2 (bytes 2)) (rw e3 (bytes (2 + 1)))
    ∙ ap done (omega (arith, e2, e3))

timestamp_kept :
    (p q : Packet) (ssrc : ℕ)
    → IsBytes p
    → Sent p (payload_begin p) ssrc q
    → network_u32 q 4 ≡ done (timestamp_of p)
timestamp_kept p q ssrc bytes sent =
    let same = λ (i : ℕ) (a : 1 ≤ i) (b : i < 8). octet-agrees p q i (sent.header i a b) in
    let e4 = same 4 (omega arith) (omega arith) in
    let e5 = same (4 + 1) (omega arith) (omega arith) in
    let e6 = same (4 + 2) (omega arith) (omega arith) in
    let e7 = same (4 + 3) (omega arith) (omega arith) in
    network_u32_in_range q 4 (omega (arith, sent.enough)) (rw e4 (bytes 4)) (rw e5 (bytes (4 + 1)))
      (rw e6 (bytes (4 + 2))) (rw e7 (bytes (4 + 3)))
    ∙ ap done (omega (arith, e4, e5, e6, e7))

read_and_number :
    (is_rtcp : Packet → Bool) (mid_id : Option ℕ) (s : RtpSlotRewriter) (p q : Packet)
    (generation ssrc : ℕ)
    → IsBytes p
    → Sent p (payload_begin p) ssrc q
    → Returns
        (network_u16 q 2 >>= λ input_sequence. network_u32 q 4 >>= λ input_timestamp.
          store s q (advance s generation input_sequence input_timestamp))
        (IsHandled is_rtcp mid_id s p generation ssrc)
read_and_number is_rtcp mid_id s p q generation ssrc bytes sent =
    rw (sequence_kept p q ssrc bytes sent, timestamp_kept p q ssrc bytes sent)
      (elim (Option-cases (advance s generation (sequence_of p) (timestamp_of p))) [
        | inl e ↦ rw (e) (unfold store in inl (refl, refl, inr e))
        | inr (out, e) ↦ rw (e) (
            Returns-weaken (store s q (some out)) _ _ (λ r h. inr h)
              (number s p q generation ssrc out e sent))
      ])

-- rewrite stays inside the packet and returns. It refuses the packet and leaves the rewriter as
-- it was, only if the packet is not acceptable (as for rewrite_rtp_for_slot-Sent) or advance
-- refuses its numbers; or it passes it on, numbered as advance says of its sequence number and
-- timestamp, with the slot's SSRC, without the padding and with the publisher's payload.
pub rewrite-IsHandled :
    (is_rtcp : Packet → Bool) (s : RtpSlotRewriter) (p : Packet) (generation ssrc : ℕ)
    (mid_id : Option ℕ)
    → IsBytes p
    → ssrc < 2 ^ 32
    → Returns
        (rewrite is_rtcp s p generation ssrc mid_id)
        (IsHandled is_rtcp mid_id s p generation ssrc)
unfolding rewrite
rewrite-IsHandled is_rtcp s p generation ssrc mid_id bytes small =
    Returns-bind (rewrite_rtp_for_slot is_rtcp p ssrc mid_id) _ _ _
      (rewrite_rtp_for_slot-IsDecided is_rtcp p ssrc mid_id bytes small) (λ r h. handle r h)
  where
    handle :
        (r : Cleared)
        → IsDecided is_rtcp mid_id p ssrc r
        → Returns
            (if r.0
              then (network_u16 r.1 2 >>= λ input_sequence. network_u32 r.1 4 >>= λ input_timestamp.
                  store s r.1 (advance s generation input_sequence input_timestamp))
              else done record { sent = false; packet = r.1; state = s })
            (IsHandled is_rtcp mid_id s p generation ssrc)
    handle r (inl (no_use, _), accepts) =
        rw no_use (inl (refl, refl, inl (λ ok. ground (arith, no_use, accepts ok))))
    handle r (inr (usable, sent), _) =
        rw usable (read_and_number is_rtcp mid_id s p r.1 generation ssrc bytes sent)
