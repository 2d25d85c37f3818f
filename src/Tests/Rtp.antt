-- ===== src/Tests/Rtp.antt =====
-- backend/signaling_server/src/rtp_slot_rewriter.cpp at concrete packets.
use driscord.Common.{
  List, zero, suc, ◌+◌, ◌%◌, ◌^◌, ◌<◌, ◌≡◌, ◌⊎◌, refl, Bool, true, false, none, some, [], ◌∷◌,
  arith,
}
use driscord.Rtp.Packet.{fill_zero, Packet, done}
use driscord.Rtp.Packet.Laws.{Returns}
use driscord.Rtp.Extension.{clear_one_byte_mid, clear_two_byte_mid}
use driscord.Rtp.Extension.Laws.{
  one_byte, two_byte, IsCleared, clear_one_byte_mid-IsCleared, clear_two_byte_mid-IsCleared,
}
use driscord.Rtp.Rewrite.{clear_mid, rewrite_rtp_for_slot}
use driscord.Rtp.Rewrite.Accepts.{IsAcceptable, IsAccepted, rewrite_rtp_for_slot-Sent}
use driscord.Rtp.Rewrite.Finish.{IsBytes, payload_begin, Sent, IsRewritten}
use driscord.Rtp.Rewrite.Laws.{rewrite_rtp_for_slot-IsRewritten}
use driscord.Rtp.Slot.{
  end_source, RtpSlotRewriter, Emitted, new, begin_source, advance, rewrite, sub16, sub32,
  sequence_is_newer,
}
use driscord.Rtp.Slot.Laws.{
  IsValid, begins, ends, changes, IsInRange, Call, begun, gone, packet, call, run_calls,
  run_calls-IsInRange, changes-advance,
}
use driscord.Rtp.Slot.Order.{advance-continues, advance-newest, advance-spacing, run}
use driscord.Rtp.Slot.Forward.{IsHandled, rewrite-IsHandled}

abbrev AllBytes : Packet → Type 0
AllBytes [] = Unit {0}
AllBytes (b ∷ p) = (b < 2 ^ 8) × AllBytes p

AllBytes-IsBytes : (p : Packet) → AllBytes p → IsBytes p
AllBytes-IsBytes [] h i = omega arith
AllBytes-IsBytes (b ∷ p) h zero = h.0
AllBytes-IsBytes (b ∷ p) h (suc i) = AllBytes-IsBytes p h.1 i

-- A voice packet: sequence 100, timestamp 5000, a one-byte extension with the MID under 3, two
-- bytes of payload and four of padding.
abbrev voice_packet : Packet
voice_packet =
    0xb0 ∷ 111 ∷ 0 ∷ 100 ∷ 0 ∷ 0 ∷ 0x13 ∷ 0x88 ∷ 1 ∷ 2 ∷ 3 ∷ 4 ∷ 0xbe ∷ 0xde ∷ 0 ∷ 1 ∷ 0x30 ∷ 0x37
    ∷ 0x10 ∷ 9 ∷ 0xaa ∷ 0xbb ∷ 0 ∷ 0 ∷ 0 ∷ 4 ∷ []

-- The same for a slot with SSRC 0x44520001.
abbrev slot_packet : Packet
slot_packet =
    0x90 ∷ 111 ∷ 0 ∷ 100 ∷ 0 ∷ 0 ∷ 0x13 ∷ 0x88 ∷ 0x44 ∷ 0x52 ∷ 0 ∷ 1 ∷ 0xbe ∷ 0xde ∷ 0 ∷ 1 ∷ 0 ∷ 0
    ∷ 0x10 ∷ 9 ∷ 0xaa ∷ 0xbb ∷ []

abbrev never : Packet → Bool
never p = false

rewritten : rewrite_rtp_for_slot never voice_packet 0x44520001 (some 3) ≡ done (true, slot_packet)
unfolding rewrite_rtp_for_slot
rewritten = refl

voice_packet-IsBytes : IsBytes voice_packet
voice_packet-IsBytes = AllBytes-IsBytes voice_packet (omega arith)

rewrite_rtp_for_slot-IsRewritten_example :
    Returns
      (rewrite_rtp_for_slot never voice_packet 0x44520001 (some 3))
      (IsRewritten voice_packet (payload_begin voice_packet) 0x44520001)
rewrite_rtp_for_slot-IsRewritten_example =
    rewrite_rtp_for_slot-IsRewritten never voice_packet 0x44520001 (some 3) voice_packet-IsBytes
      (omega arith)

voice_packet-IsAcceptable : IsAcceptable never (some 3) voice_packet
unfolding clear_mid fill_zero
voice_packet-IsAcceptable = record {
  version = refl;
  no_rtcp = refl;
  header = omega arith;
  fits = omega arith;
  padded = λ h. (omega arith, omega arith);
  elements = λ h. refl;
}

rewrite_rtp_for_slot-Sent_example :
    Returns
      (rewrite_rtp_for_slot never voice_packet 0x44520001 (some 3))
      (λ r. IsAccepted r × Sent voice_packet (payload_begin voice_packet) 0x44520001 r.1)
rewrite_rtp_for_slot-Sent_example =
    rewrite_rtp_for_slot-Sent never voice_packet 0x44520001 (some 3) voice_packet-IsBytes
      (omega arith) voice_packet-IsAcceptable

clear_one_byte_mid-IsCleared_example :
    Returns (clear_one_byte_mid voice_packet 16 20 3) (IsCleared one_byte voice_packet 16 20 3)
clear_one_byte_mid-IsCleared_example =
    clear_one_byte_mid-IsCleared voice_packet 16 20 3 (omega arith) (omega arith)

clear_two_byte_mid-IsCleared_example :
    Returns (clear_two_byte_mid voice_packet 16 20 3) (IsCleared two_byte voice_packet 16 20 3)
clear_two_byte_mid-IsCleared_example =
    clear_two_byte_mid-IsCleared voice_packet 16 20 3 (omega arith) (omega arith)

-- A slot whose first source has sent sequence 65535 with timestamp 5000.
abbrev running : RtpSlotRewriter
running = record {
  clock_rate = 48000;
  timestamp_step = 960;
  generation = 1;
  source_initialized = true;
  output_initialized = true;
  source_anchor_sequence = 65535;
  latest_input_sequence = 65535;
  latest_output_sequence = 65535;
  sequence_offset = 0;
  latest_input_timestamp = 5000;
  latest_output_timestamp = 5000;
  timestamp_offset = 0;
}

first_packet :
    advance (begin_source (new 48000 960)).0 1 65535 5000
    ≡ some record { state = running; sequence = 65535; timestamp = 5000 }
unfolding advance begin_source new
first_packet = refl

running-IsValid : IsValid running
running-IsValid = ground arith

-- The packet after it, which wraps.
abbrev wrapped : Emitted
wrapped = record {
  state = record running {
    latest_input_sequence = 0;
    latest_output_sequence = 0;
    latest_input_timestamp = 5960;
    latest_output_timestamp = 5960;
  };
  sequence = 0;
  timestamp = 5960;
}

wrapping : advance running 1 0 5960 ≡ some wrapped
unfolding advance
wrapping = refl

-- A source begins, sends a packet, and a late packet of another generation is refused.
abbrev some_calls : List Call
some_calls = begun ∷ packet 1 65535 5000 ∷ packet 0 7 7 ∷ gone ∷ []

some_calls_run :
    run_calls (new 48000 960) some_calls
    ≡ record running { generation = 2; source_initialized = false }
unfolding run_calls call new begin_source end_source advance
some_calls_run = refl

run_calls-IsInRange_example : IsInRange (run_calls (new 48000 960) some_calls)
run_calls-IsInRange_example =
    run_calls-IsInRange 48000 960 some_calls (omega arith) (omega arith) (omega arith)

advance-newest_example :
    (wrapped.state.latest_output_sequence ≡ 65535)
    ⊎ (sequence_is_newer wrapped.state.latest_output_sequence 65535 ≡ true)
advance-newest_example =
    advance-newest running 1 0 5960 wrapped running-IsValid (omega arith) (omega arith) refl
      wrapping

advance-spacing_example :
    (sub16 wrapped.sequence 0 ≡ sub16 0 0) × (sub32 wrapped.timestamp 5960 ≡ sub32 5960 5960)
unfolding advance run
advance-spacing_example =
    advance-spacing running 1 0 5960 [] 0 5960 wrapped wrapped wrapping refl (omega arith)
      (omega arith)

abbrev switched : RtpSlotRewriter
switched = record running { generation = 2; source_initialized = false }

switch : (begin_source running).0 ≡ switched
unfolding begin_source
switch = refl

advance-continues_example :
    (out : Emitted) × (advance switched 2 7 100 ≡ some out)
    × (out.sequence ≡ (65535 + 1) % 2 ^ 16)
    × (out.timestamp ≡ (5000 + 960) % 2 ^ 32)
advance-continues_example =
    advance-continues switched 7 100 (ground arith) (omega arith) (omega arith) refl refl

changes-advance_example : advance (changes running (ends ∷ begins ∷ [])) 1 0 5960 ≡ none
changes-advance_example =
    changes-advance running (ends ∷ begins ∷ []) 0 5960 (omega arith) (omega arith) (omega arith)

rewrite-IsHandled_example :
    Returns
      (rewrite never running voice_packet 1 0x44520001 (some 3))
      (IsHandled never (some 3) running voice_packet 1 0x44520001)
rewrite-IsHandled_example =
    rewrite-IsHandled never running voice_packet 1 0x44520001 (some 3) voice_packet-IsBytes
      (omega arith)
