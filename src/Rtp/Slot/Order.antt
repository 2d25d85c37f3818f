-- ===== src/Rtp/Slot/Order.antt =====
-- The order and the spacing of a slot's output stream.
use driscord.Common.{
  ℕ, ◌+◌, ◌%◌, ◌^◌, ◌<◌, ◌≡◌, refl, ◌⊎◌, inl, inr, true, false, Option, none, some, arith, List, [],
  ◌∷◌, Option-cases, ◌∙◌,
}
use driscord.Rtp.Slot.{
  RtpSlotRewriter, Emitted, sub16, sub32, sequence_is_newer, start_source, emit, advance,
}
use driscord.Rtp.Slot.Laws.{IsValid}

-- The first packet of a new source, with the current generation, on an output that has sent
-- before: it is passed on with the next sequence number, and with a timestamp one step after
-- the newest one.
pub advance-continues :
    (s : RtpSlotRewriter) (sequence timestamp : ℕ)
    → IsValid s
    → sequence < 2 ^ 16
    → timestamp < 2 ^ 32
    → s.source_initialized ≡ false
    → s.output_initialized ≡ true
    → (out : Emitted) × (advance s s.generation sequence timestamp ≡ some out)
      × (out.sequence ≡ (s.latest_output_sequence + 1) % 2 ^ 16)
      × (out.timestamp ≡ (s.latest_output_timestamp + s.timestamp_step) % 2 ^ 32)
unfolding advance
advance-continues s sequence timestamp v hs ht fresh running = (
  emit (start_source s sequence timestamp) true sequence timestamp,
  ground arith,
  ground arith,
  ground arith,
)

-- On an output that has sent before, a packet that is passed on leaves the newest output
-- sequence number as it was, or moves it on to one that is newer modulo 2 ^ 16.
pub advance-newest :
    (s : RtpSlotRewriter) (generation sequence timestamp : ℕ) (out : Emitted)
    → IsValid s
    → sequence < 2 ^ 16
    → timestamp < 2 ^ 32
    → s.output_initialized ≡ true
    → advance s generation sequence timestamp ≡ some out
    → (out.state.latest_output_sequence ≡ s.latest_output_sequence)
      ⊎ (sequence_is_newer out.state.latest_output_sequence s.latest_output_sequence ≡ true)
unfolding advance
advance-newest s generation sequence timestamp out v hs ht running e = ground arith

-- What a packet leaves of the source that it belongs to.
record SameSource (s t : RtpSlotRewriter) : Type 0 where
  generation : t.generation ≡ s.generation
  live : t.source_initialized ≡ true
  sequence_offset : t.sequence_offset ≡ s.sequence_offset
  timestamp_offset : t.timestamp_offset ≡ s.timestamp_offset

advance-SameSource :
    (s : RtpSlotRewriter) (generation sequence timestamp : ℕ) (out : Emitted)
    → s.source_initialized ≡ true
    → advance s generation sequence timestamp ≡ some out
    → SameSource s out.state
unfolding advance
advance-SameSource s generation sequence timestamp out live e = ground arith

advance-offset :
    (s : RtpSlotRewriter) (generation sequence timestamp : ℕ) (out : Emitted)
    → advance s generation sequence timestamp ≡ some out
    → (out.state.source_initialized ≡ true)
      × (out.sequence ≡ (sequence + out.state.sequence_offset) % 2 ^ 16)
      × (out.timestamp ≡ (timestamp + out.state.timestamp_offset) % 2 ^ 32)
unfolding advance
advance-offset s generation sequence timestamp out e = ground arith

-- Packets of one source, each with its sequence number and timestamp.
unfoldable pub after : RtpSlotRewriter → Option Emitted → RtpSlotRewriter
after s none = s
after s (some out) = out.state

unfoldable pub run : RtpSlotRewriter → ℕ → List (ℕ × ℕ) → RtpSlotRewriter
run s generation [] = s
run s generation ((sequence, timestamp) ∷ packets) =
    run (after s (advance s generation sequence timestamp)) generation packets

SameSource-trans : {s t u : RtpSlotRewriter} → SameSource s t → SameSource t u → SameSource s u
SameSource-trans a b = record {
  generation = b.generation ∙ a.generation;
  live = b.live;
  sequence_offset = b.sequence_offset ∙ a.sequence_offset;
  timestamp_offset = b.timestamp_offset ∙ a.timestamp_offset;
}

SameSource-refl : (s : RtpSlotRewriter) → s.source_initialized ≡ true → SameSource s s
SameSource-refl s live = record {
  generation = refl;
  live = live;
  sequence_offset = refl;
  timestamp_offset = refl;
}

after-SameSource :
    (s : RtpSlotRewriter) (generation sequence timestamp : ℕ)
    → s.source_initialized ≡ true
    → SameSource s (after s (advance s generation sequence timestamp))
unfolding after
after-SameSource s generation sequence timestamp live =
    elim (Option-cases (advance s generation sequence timestamp)) [
      | inl e ↦ rw (e, after) (SameSource-refl s live)
      | inr (out, e) ↦ rw (e, after) (advance-SameSource s generation sequence timestamp out live e)
    ]

run-SameSource :
    (s : RtpSlotRewriter) (generation : ℕ) (packets : List (ℕ × ℕ))
    → s.source_initialized ≡ true
    → SameSource s (run s generation packets)
unfolding run
run-SameSource s generation [] live = SameSource-refl s live
run-SameSource s generation ((sequence, timestamp) ∷ packets) live =
    let step = after-SameSource s generation sequence timestamp live in
    SameSource-trans step (
      run-SameSource (after s (advance s generation sequence timestamp)) generation packets
        step.live)

-- Two packets of one generation that are passed on, with any packets of it between them, are as
-- far apart in the output as in the input, in sequence number and in timestamp.
pub advance-spacing :
    (s : RtpSlotRewriter) (generation sequence timestamp : ℕ) (between : List (ℕ × ℕ))
    (sequence' timestamp' : ℕ) (a b : Emitted)
    → advance s generation sequence timestamp ≡ some a
    → advance (run a.state generation between) generation sequence' timestamp' ≡ some b
    → sequence < 2 ^ 16
    → timestamp < 2 ^ 32
    → (sub16 b.sequence a.sequence ≡ sub16 sequence' sequence)
      × (sub32 b.timestamp a.timestamp ≡ sub32 timestamp' timestamp)
advance-spacing s generation sequence timestamp between sequence' timestamp' a b e f hs ht =
    let first = advance-offset s generation sequence timestamp a e in
    let middle = run-SameSource a.state generation between first.0 in
    let last =
      advance-offset (run a.state generation between) generation sequence' timestamp' b f in
    let same =
      advance-SameSource (run a.state generation between) generation sequence' timestamp' b
        middle.live f in
    omega (
      arith, first.1, first.2, last.1, last.2, middle.sequence_offset, middle.timestamp_offset,
      same.sequence_offset, same.timestamp_offset,
    )
