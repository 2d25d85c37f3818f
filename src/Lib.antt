-- ===== src/Lib.antt =====
-- Driscord: the selective forwarding unit's core and the signaling protocol.
--
-- A signaling server (`backend/signaling_server/src/ws_server.cpp`) holds rooms of peers and forwards
-- their media. Peers and server exchange messages as JSON text
-- (`core/src/utils/signaling_protocol.cpp`). The server's voice router
-- (`backend/signaling_server/src/voice_router.cpp`) binds each publisher's microphone to a free
-- outgoing track of every other peer. Each outgoing track has an RTP slot rewriter
-- (`backend/signaling_server/src/rtp_slot_rewriter.cpp`), which makes one continuous stream of the
-- packets of changing publishers: it numbers them anew, sets the track's SSRC, blanks the
-- publisher's MID and cuts the padding off. The screen router
-- (`backend/signaling_server/src/screen_router.cpp`) does the same for screen shares, which a peer
-- starts and stops and which the other peers ask for.
--
-- Rtp: the slot rewriter. Rtp/Packet has the byte accessors; a packet is the list of its bytes, an
-- access outside it is a fault, and a loop that runs out of fuel is spent, so that a result says
-- that neither happens. Rtp/Extension has `clear_one_byte_mid` and `clear_two_byte_mid`, whose fuel
-- is one more than the offset where the extension ends: each round moves the cursor on by one or
-- more. Rtp/Rewrite has `rewrite_rtp_for_slot`, Rtp/Slot the class `RtpSlotRewriter`, in which
-- `advance` is the part of `rewrite` under the lock. Integers are numbers with the wrap-around of
-- their width written out; sizes are far below 2 ^ 64. `rtc::IsRtcp` is a parameter.
--
-- Signaling: the messages, with `encode`, `dump`, `parse_json` and `parse` under the names of the
-- source. The JSON library is an interface (Signaling/Json) whose laws say what is documented of
-- objects, texts, arrays and null. That a dumped value reads back is a hypothesis of the theorems
-- that need it, since it is not so for texts that are no UTF-8.
--
-- Voice: the router's bindings. A track is a number; which tracks still exist is an argument of
-- each call, as the code learns it from weak pointers. A method that takes the router's mutex is
-- one step, which returns the notices that it publishes. Voice/Assign has `assign_available_locked`,
-- Voice/Register the other methods. The SSRC that `allocate_slot_ssrc` returns and what
-- libdatachannel says of a track are arguments; a null track, which is ignored, is left out.
-- Slot rewriters are part of the slots; the sending of packets is not modelled.
--
-- Binding: the loops of the screen router's assignment over any kind of slot. Binding/Fill is about the
-- inner loop, Binding/Rounds about the outer one, Binding/Bound and Binding/Valid about valid bindings.
-- Binding/Sweep is a loop that releases or restarts the slots of a publisher, and Binding/Put a change
-- of the first slot that passes a test.
--
-- Screen: the screen router (`backend/signaling_server/src/screen_router.cpp`), whose slots are pairs
-- of a video and an audio output and whose subscribers choose whom they watch. Screen/Pairs finds and
-- changes a pair, Screen/Methods has the methods, Screen/Regular makes the pairs a kind of slot of
-- Binding, and the other files are about the methods' effects. `register_output` takes the mutex twice: its parts
-- are two steps, between which only `close` can come, since `publish_mutex` keeps the other methods
-- out. `std::to_string` of a number is an argument.
--
-- Server: the rooms of the WebSocket server (`backend/signaling_server/src/ws_server.cpp`). Server/Rooms
-- has the methods of `WebSocketServer` and the dispatch of `Session::on_read`, Server/Notices has
-- `publish` of the two routers and the `send_binding` of `Session::start`, through which a router's
-- notices become TrackBinding messages; which session a channel still finds is an argument. Server/Valid
-- says when a room is valid, Server/Members and Server/Watch are about the methods on valid rooms, and
-- Server/Reach has the states that are reached. Server/Sent is about what is sent, Server/Effects
-- about watches and Server/Leave about leaving. A method and the router's calls that follow it are one
-- step. A session is its identifier and its user's name; what is sent is the message, whose text is
-- that of Signaling. Server/Writes is how a session writes its messages, over the bounded queue.
-- Server/Url reads a room and a parameter from the target of a request, as lists of bytes; Server/Url/Pieces
-- has a reference writer of encoded texts.
--
-- Queue: the bounded queue of messages that wait to be written
-- (`core/src/utils/bounded_queue.hpp`).
--
-- Media: the states of the fault injection and of the link model that a peer carries
-- (`backend/signaling_server/src/sfu_media_utils.cpp`). Media/Link has `schedule_packet_departure`;
-- the delay that it draws in floating point is a parameter, since floating-point arithmetic is not
-- modelled, and times are numbers far below 2 ^ 63.
--
-- Common: lists and tests over the native numbers, bits, and association lists.
--
-- Tests: runs at concrete inputs, and the theorems with hypotheses at inputs that meet them.
--
-- Not modelled: the forwarding of packets in the voice and the screen router with their delay queues,
-- the fault injection itself, the networking of the WebSocket server with its HTTP requests, the media
-- connections and the authenticator, the desktop client and its WebRTC sessions, and the Python
-- service.
pub mod Common
pub mod Server
pub mod Screen
pub mod Rtp
pub mod Signaling
pub mod Media
pub mod Voice
pub mod Binding
pub mod Queue
pub mod Tests
