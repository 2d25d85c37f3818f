-- ===== src/Screen/Pairs.antt =====
-- A subscriber's pairs of outputs (backend/signaling_server/src/screen_router.cpp): how one is found,
-- filled, made ready and released.
use driscord.Common.{
  ℕ, Bool, true, false, List, [], ◌∷◌, ◌++◌, Option, none, some, String, str_eq, ◌==◌,
  if◌then◌else◌,
}
use mathlib.Core.Option
use Prim.Native.String.{◌++◌ as append}
use driscord.Rtp.Slot.{new, end_source}
use driscord.Voice.{Track, lock}
use driscord.Binding.Put.{change_first}
use driscord.Screen.{
  OutputTrack, OutputPair, Peers, BindingNotice, append_pair_notices, start_source,
}

abbrev pub is_video : String → Bool
is_video media_type = str_eq media_type "video"

-- `media_type == "video" ? pair.video : pair.audio`.
abbrev pub output_of : String → OutputPair → Option OutputTrack
output_of media_type pair = if is_video media_type then pair.video else pair.audio

abbrev pub with_output : String → Option OutputTrack → OutputPair → OutputPair
with_output media_type output pair =
    if is_video media_type then record pair { video = output } else record pair { audio = output }

-- `output && output->mid == mid`.
abbrev pub has_mid : String → String → OutputPair → Bool
has_mid mid media_type pair = elim (output_of media_type pair) [
  | none ↦ false
  | some output ↦ str_eq output.mid mid
]

abbrev pub lacks : String → OutputPair → Bool
lacks media_type pair = elim (output_of media_type pair) [ none ↦ true | some output ↦ false ]

-- `output->source_generation = output->rewriter->begin_source()`, where there is an output.
abbrev pub restart_pair : String → OutputPair → OutputPair
restart_pair media_type pair =
    with_output media_type (Option.map start_source (output_of media_type pair)) pair

abbrev pub stop_source : OutputTrack → OutputTrack
stop_source output = record output { rewriter = end_source output.rewriter; source_generation = 0 }

abbrev pub release : OutputPair → OutputPair
release pair = record pair {
  video = Option.map stop_source pair.video;
  audio = Option.map stop_source pair.audio;
  publisher = none;
}

unfoldable pub clear_pair_locked : Peers → Option ℕ → OutputPair → OutputPair × List BindingNotice
clear_pair_locked peers send pair = elim pair.publisher [
  | none ↦ (pair, [])
  | some p ↦ (release pair, append_pair_notices peers send (release pair) none)
]

abbrev pub new_output : Track → String → ℕ → String → OutputTrack
new_output track mid ssrc media_type = record {
  mid = mid;
  ssrc = ssrc;
  track = some track;
  ready = false;
  rewriter = if is_video media_type then new 90000 3000 else new 48000 960;
  source_generation = 0;
}

-- A pair without outputs; `token` is the decimal text of a number that `allocate_slot_ssrc` returns.
abbrev pub new_pair : String → OutputPair
new_pair token = record {
  cname = append "driscord-screen-slot-" token;
  video = none;
  audio = none;
  publisher = none;
}

-- The pair that `output_pair_for` finds is changed: the one of the MID, else the first that lacks an
-- output of the type, else a new one at the end.
unfoldable pub output_pair_for :
    (OutputPair → OutputPair × List BindingNotice)
    → String
    → String
    → String
    → List OutputPair
    → List OutputPair × List BindingNotice
output_pair_for change mid media_type token pairs =
    let (fresh, told) = change (new_pair token) in
    elim (change_first (has_mid mid media_type) change pairs) [
      | some done ↦ done
      | none ↦ elim (change_first (lacks media_type) change pairs) [
        | some done ↦ done
        | none ↦ (pairs ++ fresh ∷ [], told)
      ]
    ]

-- `output->ready = true` if the output is the track's still.
abbrev pub make_ready : (Track → Bool) → Track → OutputTrack → OutputTrack
make_ready alive track output = elim (lock alive output.track) [
  | none ↦ output
  | some t ↦ if t == track then record output { ready = true } else output
]

abbrev pub ready_pair :
    (Track → Bool) → Track → String → OutputPair → OutputPair × List BindingNotice
ready_pair alive track media_type pair =
    let output = Option.map (make_ready alive track) (output_of media_type pair) in
    (with_output media_type output pair, [])

unfoldable pub mark_ready :
    (Track → Bool) → Track → String → String → List OutputPair → List OutputPair
mark_ready alive track mid media_type pairs =
    elim (change_first (has_mid mid media_type) (ready_pair alive track media_type) pairs) [
      | none ↦ pairs
      | some (pairs', _) ↦ pairs'
    ]
