-- ===== src/Signaling.antt =====
-- The signaling protocol between client and server (core/src/utils/signaling_protocol.hpp and
-- .cpp, core/src/identity.hpp, core/src/utils/expected.hpp). A peer's identifier and its name are
-- texts, and a message is a case of the variant with the fields of its struct.
pub mod Json
pub mod Encode
pub mod Parse
pub mod Sendable
pub mod Fields
pub mod RoundTrip
pub mod Accepts
use driscord.Common.{Bool, List, Option, String, str_eq}

abbrev pub PeerId : Type 0
PeerId = String

abbrev pub Username : Type 0
Username = String

-- `value.empty()`.
abbrev pub is_empty : String → Bool
is_empty s = str_eq s ""

pub data ConnectionId : Type 0 where
  voice screen : ConnectionId

pub data WatchRejectReason : Type 0 where
  unknown_peer not_streaming capacity : WatchRejectReason

pub data ParseError : Type 0 where
  invalid_json missing_type unknown_type missing_field invalid_field : ParseError

pub record PeerIdentity : Type 0 where
  pub id : PeerId
  pub username : Username

pub data Message : Type 0 where
  welcome : PeerId → List PeerIdentity → List PeerId → Message
  peer_joined : PeerId → Username → Message
  peer_left : PeerId → Message
  offer : String → ConnectionId → Message
  answer : String → ConnectionId → Message
  candidate : String → String → ConnectionId → Message
  track_binding : String → Option PeerId → ConnectionId → Message
  streaming_start : Option PeerId → Message
  streaming_stop : Option PeerId → Message
  watch_start : PeerId → Message
  watch_stop : PeerId → Message
  watch_rejected : PeerId → WatchRejectReason → Message

-- `utils::Expected`.
pub data Expected {ℓ} (A : Type ℓ) : Type ℓ where
  value : A → Expected A
  unexpected : ParseError → Expected A

infixl 5 ◌>>=◌
abbrev pub ◌>>=◌ {ℓ κ} : {A : Type ℓ} {B : Type κ} → Expected A → (A → Expected B) → Expected B
value a >>= f = f a
unexpected e >>= f = unexpected e

abbrev pub error_to_string : ParseError → String
error_to_string invalid_json = "invalid_json"
error_to_string missing_type = "missing_type"
error_to_string unknown_type = "unknown_type"
error_to_string missing_field = "missing_field"
error_to_string invalid_field = "invalid_field"

abbrev pub connection_to_string : ConnectionId → String
connection_to_string voice = "voice"
connection_to_string screen = "screen"

abbrev pub reason_to_string : WatchRejectReason → String
reason_to_string unknown_peer = "unknown_peer"
reason_to_string not_streaming = "not_streaming"
reason_to_string capacity = "capacity"
