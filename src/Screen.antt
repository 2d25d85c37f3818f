-- ===== src/Screen.antt =====
-- The screen router's binding of publishers to pairs of outputs
-- (backend/signaling_server/src/screen_router.cpp). Tracks, channels and owners are as in the voice
-- router: a track is a number, `alive` says which tracks still exist when the call is made, and a
-- `BindingSender` is the number of a channel. Each method holds the mutex but `register_output`,
-- which takes it twice. The assignment is that of `driscord.Binding`, for pairs.
pub mod Pairs
pub mod Methods
pub mod Regular
pub mod Restart
pub mod Valid
pub mod Changes
pub mod Tracks
pub mod Reach
pub mod Effects
pub mod Removal
pub mod Closed
pub mod Targets
use driscord.Common.{
  ℕ, ◌+◌, ◌%◌, ◌^◌, Bool, true, false, not, ◌&&◌, List, [], ◌∷◌, ◌++◌, Option, none, some, String,
  str_eq, codes, ltb, ◌==◌, if◌then◌else◌,
}
use mathlib.Core.Option
use driscord.Common.Assoc.{Entries, lookup, insert, keys}
use driscord.Common.Sort.{str_ltb, sort_ids}
use driscord.Rtp.Packet.{Packet}
use driscord.Rtp.Slot.{RtpSlotRewriter, begin_source}
use driscord.Media.{RtpFaultState, LinkModelState, fresh_fault_state, fresh_link_state}
use driscord.Signaling.{PeerId}
use driscord.Voice.{Track, is_live}
use driscord.Binding.{Kind, assign_all}

pub record OutputTrack : Type 0 where
  pub mid : String
  pub ssrc : ℕ
  pub track : Option Track
  pub ready : Bool
  pub rewriter : RtpSlotRewriter
  pub source_generation : ℕ

pub record OutputPair : Type 0 where
  pub cname : String
  pub video : Option OutputTrack
  pub audio : Option OutputTrack
  pub publisher : Option PeerId

pub record PeerState : Type 0 where
  pub order : ℕ
  pub input_video : Option Track
  pub input_audio : Option Track
  pub video_mid_extension_id : Option ℕ
  pub audio_mid_extension_id : Option ℕ
  pub video_fault_state : RtpFaultState
  pub audio_fault_state : RtpFaultState
  pub video_link_state : LinkModelState
  pub audio_link_state : LinkModelState
  pub outputs : List OutputPair
  pub send_binding : Option ℕ
  pub streaming : Bool
  pub watched_publishers : Entries ℕ
  pub next_watch_order : ℕ

pub record DelayedPacket : Type 0 where
  pub publisher : PeerId
  pub media_type : String
  pub expected_input : Option Track
  pub packet : Packet

pub record BindingNotice : Type 0 where
  pub send : Option ℕ
  pub mid : String
  pub publisher : Option PeerId
  pub output : Option Track
  pub ssrc : ℕ
  pub cname : String
  pub media_type : String
  pub publisher_video : Option Track

abbrev pub Peers : Type 0
Peers = Entries PeerState

-- The delay queue is sorted by the time of departure.
pub record ScreenRouter : Type 0 where
  pub peers : Peers
  pub next_peer_order : ℕ
  pub closed : Bool
  pub delay_queue : List (ℕ × DelayedPacket)

abbrev pub initial : ScreenRouter
initial = record { peers = []; next_peer_order = 0; closed = false; delay_queue = [] }

abbrev pub new_peer : ℕ → PeerState
new_peer order = record {
  order = order;
  input_video = none;
  input_audio = none;
  video_mid_extension_id = none;
  audio_mid_extension_id = none;
  video_fault_state = fresh_fault_state;
  audio_fault_state = fresh_fault_state;
  video_link_state = fresh_link_state;
  audio_link_state = fresh_link_state;
  outputs = [];
  send_binding = none;
  streaming = false;
  watched_publishers = [];
  next_watch_order = 0;
}

-- The peer's state, and the router in which it exists.
unfoldable pub peer_for_locked : ScreenRouter → PeerId → PeerState × ScreenRouter
peer_for_locked r peer_id = elim (lookup peer_id r.peers) [
  | some peer ↦ (peer, r)
  | none ↦
      let peer = new_peer r.next_peer_order in
      (
        peer,
        record r {
          peers = insert peer_id peer r.peers;
          next_peer_order = (r.next_peer_order + 1) % 2 ^ 64;
        },
      )
]

unfoldable pub order_of : Peers → PeerId → ℕ
order_of peers id = elim (lookup id peers) [ none ↦ 0 | some peer ↦ peer.order ]

unfoldable pub comes_before : Peers → PeerId → PeerId → Bool
comes_before peers lhs rhs =
    if not (order_of peers lhs == order_of peers rhs)
    then ltb (order_of peers lhs) (order_of peers rhs)
    else str_ltb (codes lhs) (codes rhs)

unfoldable pub ordered_peers_locked : Peers → List PeerId
ordered_peers_locked peers = sort_ids (comes_before peers) (keys peers)

abbrev watch_of : Entries ℕ → PeerId → ℕ
watch_of watched id = elim (lookup id watched) [ none ↦ 0 | some order ↦ order ]

abbrev is_known : Peers → PeerId → Bool
is_known peers id = elim (lookup id peers) [ none ↦ false | some peer ↦ true ]

unfoldable pub watched_before : Peers → Entries ℕ → PeerId → PeerId → Bool
watched_before peers watched lhs rhs =
    let both = is_known peers lhs && is_known peers rhs in
    if not (watch_of watched lhs == watch_of watched rhs)
    then ltb (watch_of watched lhs) (watch_of watched rhs)
    else if both && not (order_of peers lhs == order_of peers rhs)
    then ltb (order_of peers lhs) (order_of peers rhs)
    else str_ltb (codes lhs) (codes rhs)

unfoldable pub ordered_watches_locked : Peers → PeerState → List PeerId
ordered_watches_locked peers subscriber =
    let watched = subscriber.watched_publishers in
    sort_ids (watched_before peers watched) (keys watched)

-- The publisher exists, is another peer, streams, and has a video track.
unfoldable pub is_available : (Track → Bool) → Peers → PeerId → PeerId → Bool
is_available alive peers subscriber_id publisher_id =
    not (str_eq publisher_id subscriber_id) && elim (lookup publisher_id peers) as (λ _. Bool) [
      | none ↦ false
      | some peer ↦ peer.streaming && is_live alive peer.input_video
    ]

abbrev pub is_usable : (Track → Bool) → Option OutputTrack → Bool
is_usable alive none = false
is_usable alive (some output) = output.ready && is_live alive output.track

abbrev pub is_free : (Track → Bool) → OutputPair → Bool
is_free alive pair = elim pair.publisher as (λ _. Bool) [
  | none ↦ is_usable alive pair.video && is_usable alive pair.audio
  | some p ↦ false
]

-- `output->source_generation = output->rewriter->begin_source()`.
abbrev pub start_source : OutputTrack → OutputTrack
start_source output =
    let (rewriter, generation) = begin_source output.rewriter in
    record output { rewriter = rewriter; source_generation = generation }

abbrev pub take_slot : PeerId → OutputPair → OutputPair
take_slot publisher_id pair = record pair {
  publisher = some publisher_id;
  video = Option.map start_source pair.video;
  audio = Option.map start_source pair.audio;
}

abbrev track_notices :
    Option ℕ
    → String
    → Option PeerId
    → Option Track
    → Option OutputTrack
    → String
    → List BindingNotice
track_notices send cname publisher publisher_video none media_type = []
track_notices send cname publisher publisher_video (some output) media_type =
    let notice : BindingNotice = record {
      send = send;
      mid = output.mid;
      publisher = publisher;
      output = output.track;
      ssrc = output.ssrc;
      cname = cname;
      media_type = media_type;
      publisher_video = publisher_video;
    } in
    if output.ready then notice ∷ [] else []

abbrev video_of : Peers → Option PeerId → Option Track
video_of peers none = none
video_of peers (some p) = elim (lookup p peers) [ none ↦ none | some source ↦ source.input_video ]

unfoldable pub append_pair_notices :
    Peers → Option ℕ → OutputPair → Option PeerId → List BindingNotice
append_pair_notices peers send pair publisher =
    let publisher_video = video_of peers publisher in
    track_notices send pair.cname publisher publisher_video pair.video "video"
    ++ track_notices send pair.cname publisher publisher_video pair.audio "audio"

abbrev pub kind : (Track → Bool) → Kind OutputPair PeerState BindingNotice
kind alive = record {
  publisher = λ pair. pair.publisher;
  is_free = is_free alive;
  take_slot = take_slot;
  notify =
      λ peers subscriber p pair. append_pair_notices peers subscriber.send_binding pair (some p);
  outputs = λ peer. peer.outputs;
  with_outputs = λ peer slots. record peer { outputs = slots };
  candidates = ordered_watches_locked;
  is_available = is_available alive;
}

unfoldable pub assign_available_locked :
    (Track → Bool) → ScreenRouter → ScreenRouter × List BindingNotice
assign_available_locked alive r =
    let (peers, notices) = assign_all (kind alive) (ordered_peers_locked r.peers) r.peers in
    (record r { peers = peers }, notices)
