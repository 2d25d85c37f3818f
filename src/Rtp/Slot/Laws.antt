-- ===== src/Rtp/Slot/Laws.antt =====
-- The numbering of a slot's output stream, packet by packet.
use driscord.Common.{
  Option-cases, inl, inr, subst, sym, ℕ, ◌+◌, ◌%◌, ◌^◌, ◌<◌, ◌≡◌, ◌≢◌, refl, true, none, some,
  arith, List, [], ◌∷◌, length,
}
use driscord.Rtp.Slot.{RtpSlotRewriter, Emitted, new, begin_source, end_source, advance}

-- Every field fits its type, and the last packet sent was the last packet received, moved by the
-- offsets of the source.
pub record IsValid (s : RtpSlotRewriter) : Type 0 where
  pub generation : s.generation < 2 ^ 64
  pub step : s.timestamp_step < 2 ^ 32
  pub input_sequence : s.latest_input_sequence < 2 ^ 16
  pub output_sequence : s.latest_output_sequence < 2 ^ 16
  pub sequence_offset : s.sequence_offset < 2 ^ 16
  pub input_timestamp : s.latest_input_timestamp < 2 ^ 32
  pub output_timestamp : s.latest_output_timestamp < 2 ^ 32
  pub timestamp_offset : s.timestamp_offset < 2 ^ 32
  pub started : s.source_initialized ≡ true → s.output_initialized ≡ true
  pub aligned :
      s.source_initialized ≡ true
      → s.latest_output_sequence ≡ (s.latest_input_sequence + s.sequence_offset) % 2 ^ 16
  pub aligned_time :
      s.source_initialized ≡ true
      → s.latest_output_timestamp ≡ (s.latest_input_timestamp + s.timestamp_offset) % 2 ^ 32

new-IsValid : (clock_rate step : ℕ) → step < 2 ^ 32 → IsValid (new clock_rate step)
unfolding new
new-IsValid clock_rate step h = ground arith

begin_source-IsValid : (s : RtpSlotRewriter) → IsValid s → IsValid (begin_source s).0
unfolding begin_source
begin_source-IsValid s v = ground arith

end_source-IsValid : (s : RtpSlotRewriter) → IsValid s → IsValid (end_source s)
unfolding end_source
end_source-IsValid s v = ground arith

-- Every field fits its width, the anchor's and the clock rate's as well.
pub record IsInRange (s : RtpSlotRewriter) : Type 0 where
  pub valid : IsValid s
  pub clock_rate : s.clock_rate < 2 ^ 32
  pub anchor : s.source_anchor_sequence < 2 ^ 16

new-IsInRange :
    (clock_rate step : ℕ) → clock_rate < 2 ^ 32 → step < 2 ^ 32 → IsInRange (new clock_rate step)
unfolding new
new-IsInRange clock_rate step rate h = record {
  valid = new-IsValid clock_rate step h;
  clock_rate = rate;
  anchor = omega arith;
}

advance-IsValid :
    (s : RtpSlotRewriter) (generation sequence timestamp : ℕ) (out : Emitted)
    → IsValid s
    → sequence < 2 ^ 16
    → timestamp < 2 ^ 32
    → advance s generation sequence timestamp ≡ some out
    → IsValid out.state
unfolding advance
advance-IsValid s generation sequence timestamp out v hs ht e = ground arith

advance-bounds :
    (s : RtpSlotRewriter) (generation sequence timestamp : ℕ) (out : Emitted)
    → s.source_anchor_sequence < 2 ^ 16
    → sequence < 2 ^ 16
    → advance s generation sequence timestamp ≡ some out
    → (out.state.clock_rate ≡ s.clock_rate) × (out.state.source_anchor_sequence < 2 ^ 16)
unfolding advance
advance-bounds s generation sequence timestamp out ha hs e = (ground arith, ground arith)

-- A call of the rewriter: a source that comes or goes, or a packet with its generation, sequence
-- number and timestamp.
pub data Call : Type 0 where
  begun gone : Call
  packet : ℕ → ℕ → ℕ → Call

unfoldable pub call : RtpSlotRewriter → Call → RtpSlotRewriter
unfolding begin_source end_source advance
call s begun = (begin_source s).0
call s gone = end_source s
call s (packet generation sequence timestamp) = elim (advance s generation sequence timestamp) [
  | none ↦ s
  | some out ↦ out.state
]

unfoldable pub run_calls : RtpSlotRewriter → List Call → RtpSlotRewriter
run_calls s [] = s
run_calls s (c ∷ cs) = run_calls (call s c) cs

-- The sequence number and the timestamp of a packet are read from 16 and 32 bits.
abbrev pub AreRead : List Call → Type 0
AreRead [] = Unit {0}
AreRead (begun ∷ cs) = AreRead cs
AreRead (gone ∷ cs) = AreRead cs
AreRead (packet generation sequence timestamp ∷ cs) =
    (sequence < 2 ^ 16) × (timestamp < 2 ^ 32) × AreRead cs

packet-IsInRange :
    (s : RtpSlotRewriter) (generation sequence timestamp : ℕ)
    → IsInRange s
    → sequence < 2 ^ 16
    → timestamp < 2 ^ 32
    → IsInRange (call s (packet generation sequence timestamp))
unfolding call
packet-IsInRange s generation sequence timestamp w hs ht =
    elim (Option-cases (advance s generation sequence timestamp)) [
      | inl e ↦ rw (e, call) w
      | inr (out, e) ↦
          let (rate, anchor) = advance-bounds s generation sequence timestamp out w.anchor hs e in
          rw (e, call)
            record {
              valid = advance-IsValid s generation sequence timestamp out w.valid hs ht e;
              clock_rate = subst (λ n. n < 2 ^ 32) (sym rate) w.clock_rate;
              anchor = anchor;
            }
    ]

run_calls-from :
    (s : RtpSlotRewriter) (cs : List Call) → IsInRange s → AreRead cs → IsInRange (run_calls s cs)
unfolding run_calls call begin_source end_source
run_calls-from s [] w h = w
run_calls-from s (begun ∷ cs) w h =
    run_calls-from (begin_source s).0 cs
      record {
        valid = begin_source-IsValid s w.valid;
        clock_rate = w.clock_rate;
        anchor = w.anchor;
      }
      h
run_calls-from s (gone ∷ cs) w h =
    run_calls-from (end_source s) cs
      record { valid = end_source-IsValid s w.valid; clock_rate = w.clock_rate; anchor = w.anchor }
      h
run_calls-from s (packet generation sequence timestamp ∷ cs) w h =
    run_calls-from (call s (packet generation sequence timestamp)) cs
      (packet-IsInRange s generation sequence timestamp w h.0 h.1) h.2

-- Over any calls of a new rewriter with a clock rate and a step of 32 bits (sources that begin
-- and end, packets of any generation with a sequence number of 16 bits and a timestamp of 32
-- bits, passed on or refused), each field of the state fits its width; once the current source
-- has sent, the output has been sent on, and the newest output sequence number and timestamp
-- are the newest input's, moved by the offsets of the source.
pub run_calls-IsInRange :
    (clock_rate step : ℕ) (cs : List Call)
    → clock_rate < 2 ^ 32
    → step < 2 ^ 32
    → AreRead cs
    → IsInRange (run_calls (new clock_rate step) cs)
run_calls-IsInRange clock_rate step cs rate h read =
    run_calls-from (new clock_rate step) cs (new-IsInRange clock_rate step rate h) read

-- A packet that does not carry the current generation is refused.
pub advance-stale :
    (s : RtpSlotRewriter) (generation sequence timestamp : ℕ)
    → generation ≢ s.generation
    → advance s generation sequence timestamp ≡ none
unfolding advance
advance-stale s generation sequence timestamp h = ground arith

-- A source that comes or goes.
pub data Change : Type 0 where
  begins ends : Change

unfoldable pub change : RtpSlotRewriter → Change → RtpSlotRewriter
unfolding begin_source end_source
change s begins = (begin_source s).0
change s ends = end_source s

unfoldable pub changes : RtpSlotRewriter → List Change → RtpSlotRewriter
changes s [] = s
changes s (c ∷ cs) = changes (change s c) cs

change-generation :
    (s : RtpSlotRewriter) (c : Change) → (change s c).generation ≡ (s.generation + 1) % 2 ^ 64
unfolding change
change-generation s begins = refl
change-generation s ends = refl

changes-generation :
    (s : RtpSlotRewriter) (cs : List Change)
    → s.generation < 2 ^ 64
    → (changes s cs).generation ≡ (s.generation + length cs) % 2 ^ 64
unfolding changes
changes-generation s [] h = omega arith
changes-generation s (c ∷ cs) h =
    let first = change-generation s c in
    omega (arith, changes-generation (change s c) cs (omega arith))

-- After one call or more of begin_source and end_source, and fewer than 2 ^ 64, every packet
-- that carries the generation of before is refused.
pub changes-advance :
    (s : RtpSlotRewriter) (cs : List Change) (sequence timestamp : ℕ)
    → s.generation < 2 ^ 64
    → 0 < length cs
    → length cs < 2 ^ 64
    → advance (changes s cs) s.generation sequence timestamp ≡ none
changes-advance s cs sequence timestamp h some_change few =
    advance-stale (changes s cs) s.generation sequence timestamp
      (λ e. omega (arith, changes-generation s cs h))
