-- ===== src/Signaling/Sendable.antt =====
-- Which messages may be sent: those whose required texts are there.
use driscord.Common.{◌≡◌, false, List, [], ◌∷◌, Option, none, some, String}
use driscord.Signaling.{
  PeerId, PeerIdentity, Message, welcome, peer_joined, peer_left, offer, answer, candidate,
  track_binding, streaming_start, streaming_stop, watch_start, watch_stop, watch_rejected, is_empty,
}

abbrev pub NonEmpty : String → Type 0
NonEmpty s = is_empty s ≡ false

abbrev pub AllNamed : List PeerIdentity → Type 0
AllNamed [] = Unit {0}
AllNamed (peer ∷ peers) = NonEmpty peer.id × AllNamed peers

abbrev pub AllNonEmpty : List String → Type 0
AllNonEmpty [] = Unit {0}
AllNonEmpty (s ∷ ss) = NonEmpty s × AllNonEmpty ss

abbrev pub NonEmptyIfAny : Option PeerId → Type 0
NonEmptyIfAny none = Unit {0}
NonEmptyIfAny (some s) = NonEmpty s

-- The text of a message's `type` field.
abbrev pub type_of : Message → String
type_of (welcome id peers streaming_peers) = "welcome"
type_of (peer_joined id username) = "peer_joined"
type_of (peer_left id) = "peer_left"
type_of (offer sdp connection) = "offer"
type_of (answer sdp connection) = "answer"
type_of (candidate text sdp_mid connection) = "candidate"
type_of (track_binding sdp_mid peer_id connection) = "track_binding"
type_of (streaming_start from) = "streaming_start"
type_of (streaming_stop from) = "streaming_stop"
type_of (watch_start peer_id) = "watch_start"
type_of (watch_stop peer_id) = "watch_stop"
type_of (watch_rejected peer_id reason) = "watch_rejected"

-- Every text that the protocol requires is there. Names of users may be empty.
abbrev pub IsSendable : Message → Type 0
IsSendable (welcome id peers streaming_peers) =
    NonEmpty id × AllNamed peers × AllNonEmpty streaming_peers
IsSendable (peer_joined id username) = NonEmpty id
IsSendable (peer_left id) = NonEmpty id
IsSendable (offer sdp connection) = NonEmpty sdp
IsSendable (answer sdp connection) = NonEmpty sdp
IsSendable (candidate text sdp_mid connection) = NonEmpty text × NonEmpty sdp_mid
IsSendable (track_binding sdp_mid peer_id connection) = NonEmpty sdp_mid × NonEmptyIfAny peer_id
IsSendable (streaming_start from) = NonEmptyIfAny from
IsSendable (streaming_stop from) = NonEmptyIfAny from
IsSendable (watch_start peer_id) = NonEmpty peer_id
IsSendable (watch_stop peer_id) = NonEmpty peer_id
IsSendable (watch_rejected peer_id reason) = NonEmpty peer_id
