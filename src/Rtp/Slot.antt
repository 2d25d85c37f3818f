-- ===== src/Rtp/Slot.antt =====
-- `RtpSlotRewriter` (backend/signaling_server/src/rtp_slot_rewriter.cpp and .hpp): one outgoing
-- stream whose source changes. The mutex makes each method one step.
pub mod Laws
pub mod Order
pub mod Forward
use driscord.Common.{
  ℕ, ◌+◌, ◌-◌, ◌*◌, ◌%◌, ◌^◌, Bool, true, false, not, ◌&&◌, ◌||◌, Option, none, some, ltb, leb,
  ◌==◌, if◌then◌else◌,
}
use driscord.Rtp.Packet.{
  Packet, Run, done, ◌>>=◌, network_u16, network_u32, set_network_u16, set_network_u32,
}
use driscord.Rtp.Rewrite.{rewrite_rtp_for_slot}

pub record RtpSlotRewriter : Type 0 where
  pub clock_rate : ℕ
  pub timestamp_step : ℕ
  pub generation : ℕ
  pub source_initialized : Bool
  pub output_initialized : Bool
  pub source_anchor_sequence : ℕ
  pub latest_input_sequence : ℕ
  pub latest_output_sequence : ℕ
  pub sequence_offset : ℕ
  pub latest_input_timestamp : ℕ
  pub latest_output_timestamp : ℕ
  pub timestamp_offset : ℕ

-- The constructor.
unfoldable pub new : ℕ → ℕ → RtpSlotRewriter
new clock_rate default_timestamp_step = record {
  clock_rate = clock_rate;
  timestamp_step = default_timestamp_step;
  generation = 0;
  source_initialized = false;
  output_initialized = false;
  source_anchor_sequence = 0;
  latest_input_sequence = 0;
  latest_output_sequence = 0;
  sequence_offset = 0;
  latest_input_timestamp = 0;
  latest_output_timestamp = 0;
  timestamp_offset = 0;
}

-- `a - b` in uint16_t and uint32_t.
abbrev pub sub16 : ℕ → ℕ → ℕ
sub16 a b = (a + 2 ^ 16 - b) % 2 ^ 16

abbrev pub sub32 : ℕ → ℕ → ℕ
sub32 a b = (a + 2 ^ 32 - b) % 2 ^ 32

-- `static_cast<int16_t>(a - b) < 0`.
abbrev pub sequence_is_older : ℕ → ℕ → Bool
sequence_is_older a b = leb (2 ^ 15) (sub16 a b)

-- `static_cast<int16_t>(value - reference) > 0`.
abbrev pub sequence_is_newer : ℕ → ℕ → Bool
sequence_is_newer value reference =
    ltb 0 (sub16 value reference) && ltb (sub16 value reference) (2 ^ 15)

unfoldable pub end_source : RtpSlotRewriter → RtpSlotRewriter
end_source s = record s { generation = (s.generation + 1) % 2 ^ 64; source_initialized = false }

-- The new state, and the generation that the source's packets are to carry.
unfoldable pub begin_source : RtpSlotRewriter → RtpSlotRewriter × ℕ
begin_source s =
    let generation = (s.generation + 1) % 2 ^ 64 in
    (record s { generation = generation; source_initialized = false }, generation)

-- The first packet of a source fixes the offsets: the output goes on where it stood.
start_source : RtpSlotRewriter → ℕ → ℕ → RtpSlotRewriter
start_source s input_sequence input_timestamp =
    let next_sequence = (s.latest_output_sequence + 1) % 2 ^ 16 in
    let next_timestamp = (s.latest_output_timestamp + s.timestamp_step) % 2 ^ 32 in
    record s {
      source_anchor_sequence = input_sequence;
      sequence_offset = if s.output_initialized then sub16 next_sequence input_sequence else 0;
      timestamp_offset = if s.output_initialized then sub32 next_timestamp input_timestamp else 0;
      source_initialized = true;
      latest_input_sequence = input_sequence;
      latest_input_timestamp = input_timestamp;
    }

-- The state, the sequence number and the timestamp of a packet that is passed on.
pub record Emitted : Type 0 where
  pub state : RtpSlotRewriter
  pub sequence : ℕ
  pub timestamp : ℕ

emit : RtpSlotRewriter → Bool → ℕ → ℕ → Emitted
emit s first_for_source input_sequence input_timestamp =
    let output_sequence = (input_sequence + s.sequence_offset) % 2 ^ 16 in
    let output_timestamp = (input_timestamp + s.timestamp_offset) % 2 ^ 32 in
    let input_delta = sub32 input_timestamp s.latest_input_timestamp in
    let advanced = record s {
      timestamp_step =
          if ltb 0 input_delta && leb input_delta (s.clock_rate * 10 % 2 ^ 32)
          then input_delta
          else s.timestamp_step;
      latest_input_sequence = input_sequence;
      latest_input_timestamp = input_timestamp;
      latest_output_sequence = output_sequence;
      latest_output_timestamp = output_timestamp;
      output_initialized = true;
    } in
    record {
      state =
          if first_for_source
            || not s.output_initialized
            || sequence_is_newer input_sequence s.latest_input_sequence
          then advanced
          else s;
      sequence = output_sequence;
      timestamp = output_timestamp;
    }

-- The part of `rewrite` under the lock; `none` is a refusal, which leaves the state as it was.
unfoldable pub advance : RtpSlotRewriter → ℕ → ℕ → ℕ → Option Emitted
unfolding start_source emit
advance s source_generation input_sequence input_timestamp =
    if not (source_generation == s.generation)
    then none
    else if not s.source_initialized
    then some
        (emit (start_source s input_sequence input_timestamp) true input_sequence input_timestamp)
    else if sequence_is_older input_sequence s.source_anchor_sequence
    then none
    else some (emit s false input_sequence input_timestamp)

-- What `rewrite` leaves: whether the packet may be sent, the packet and the state.
pub record Rewritten : Type 0 where
  pub sent : Bool
  pub packet : Packet
  pub state : RtpSlotRewriter

pub store : RtpSlotRewriter → Packet → Option Emitted → Run Rewritten
unfolding set_network_u16 set_network_u32
store s packet none = done record { sent = false; packet = packet; state = s }
store s packet (some out) = set_network_u16 packet 2 out.sequence >>= λ p.
    set_network_u32 p 4 out.timestamp >>= λ q.
    done record { sent = true; packet = q; state = out.state }

module _ (is_rtcp : Packet → Bool) where
  unfoldable pub rewrite : RtpSlotRewriter → Packet → ℕ → ℕ → Option ℕ → Run Rewritten
  unfolding rewrite_rtp_for_slot network_u16 network_u32 advance store
  rewrite s packet source_generation output_ssrc mid_id =
      rewrite_rtp_for_slot is_rtcp packet output_ssrc mid_id >>= λ (usable, p).
      let read = network_u16 p 2 >>= λ input_sequence. network_u32 p 4 >>= λ input_timestamp.
      store s p (advance s source_generation input_sequence input_timestamp) in
      if usable then read else done record { sent = false; packet = p; state = s }
