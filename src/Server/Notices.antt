-- ===== src/Server/Notices.antt =====
-- How a router's notices reach the sessions: `publish` of
-- backend/signaling_server/src/voice_router.cpp and screen_router.cpp, and the `send_binding` that
-- `Session::start` of ws_server.cpp gives to a router. A channel is the number of such a closure, and
-- `session_of` says which session it still finds when it is called. The media handlers and the
-- keyframe requests of `publish` are libdatachannel's.
use driscord.Common.{ℕ, List, [], ◌∷◌, ◌++◌, Option, none, some, String}
use driscord.Signaling.{PeerId, ConnectionId, voice, screen, track_binding}
use driscord.Voice
use driscord.Screen
use driscord.Server.{Delivery}

module _ (session_of : ℕ → Option PeerId) where
  unfoldable pub send_binding : ConnectionId → Option ℕ → String → Option PeerId → List Delivery
  send_binding connection none mid publisher = []
  send_binding connection (some channel) mid publisher = elim (session_of channel) [
    | none ↦ []
    | some id ↦ record { to = id; message = track_binding mid publisher connection } ∷ []
  ]

  unfoldable pub publish_voice : List Voice.BindingNotice → List Delivery
  publish_voice [] = []
  publish_voice (notice ∷ notices) =
      send_binding voice notice.send notice.mid notice.publisher ++ publish_voice notices

  unfoldable pub publish_screen : List Screen.BindingNotice → List Delivery
  publish_screen [] = []
  publish_screen (notice ∷ notices) =
      send_binding screen notice.send notice.mid notice.publisher ++ publish_screen notices
