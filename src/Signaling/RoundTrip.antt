-- ===== src/Signaling/RoundTrip.antt =====
-- Messages written and read back (core/src/utils/signaling_protocol.cpp).
use driscord.Common.{
  ◌∙◌, inl, inr, Bool-cases, str_eq_refl, ◌≡◌, refl, ap, false, List, Option, none, some, String,
  str_eq, map, arith,
}
use driscord.Signaling.{
  PeerId, PeerIdentity, ConnectionId, WatchRejectReason, Message, welcome, peer_joined, peer_left,
  offer, answer, candidate, track_binding, streaming_start, streaming_stop, watch_start, watch_stop,
  watch_rejected, value, is_empty, missing_field, connection_to_string, reason_to_string,
}
use driscord.Signaling.Json.{JsonLibrary, ReadsBack}
use driscord.Signaling.Json.Laws.{json_laws, find-assign}
use driscord.Signaling.Encode.{
  with_type, add_from, add_connection, encode_peer, encode_binding, encode_object, encode, dump,
}
use driscord.Signaling.Parse.{
  optional_peer_id, parse_welcome, parse_peer_joined, parse_description, parse_candidate,
  parse_track_binding, parse_of_peer, parse_watch_rejected, dispatch, parse_json, parse,
}
use driscord.Signaling.Sendable.{NonEmpty, NonEmptyIfAny, IsSendable, type_of}
use driscord.Signaling.Fields.{
  required_string-found, parse_json-object, parse_connection-found, username_of-found,
  parse_peers-map, parse_streaming-map, optional_array-found, reason-found, optional_peer_id-found,
  optional_peer_id-missing, parse_binding-found,
}

module _ (J : JsonLibrary) where
  open J use {Object, object, string, find}

  -- Each message by itself.
  description-found :
      (make : String → ConnectionId → Message) (type sdp : String) (c : ConnectionId)
      → NonEmpty sdp
      → let msg = add_connection J (J.assign (with_type J type) "sdp" (string sdp)) c in
        parse_description J make msg ≡ value (make sdp c)
  unfolding parse_description add_connection with_type
  description-found make type sdp c h =
      let msg = add_connection J (J.assign (with_type J type) "sdp" (string sdp)) c in
      let at_sdp : find msg "sdp" ≡ some (string sdp) = simp json_laws in
      let at_connection : find msg "connection" ≡ some (string (connection_to_string c)) =
        simp json_laws in
      rw (
        required_string-found J msg "sdp" sdp missing_field at_sdp h,
        parse_connection-found J msg c at_connection,
      )

  of_peer-found :
      (make : PeerId → Message) (type key id : String)
      → str_eq "type" key ≡ false
      → NonEmpty id
      → let msg = J.assign (with_type J type) key (string id) in
        parse_of_peer J key make msg ≡ value (make id)
  unfolding parse_of_peer
  of_peer-found make type key id other h =
      let msg = J.assign (with_type J type) key (string id) in
      let at : find msg key ≡ some (string id) = simp (find-assign, str_eq_refl) in
      rw (required_string-found J msg key id missing_field at h)

  welcome-found :
      (id : PeerId) (peers : List PeerIdentity) (ids : List PeerId)
      → IsSendable (welcome id peers ids)
      → parse_welcome J (encode_object J (welcome id peers ids)) ≡ value (welcome id peers ids)
  unfolding parse_welcome encode_object
  welcome-found id peers ids h =
      let msg = encode_object J (welcome id peers ids) in
      let at_id : find msg "id" ≡ some (string id) = simp json_laws in
      let at_peers : find msg "peers" ≡ some (J.array (map (encode_peer J) peers)) =
        simp json_laws in
      let at_ids : find msg "streaming_peers" ≡ some (J.array (map string ids)) = simp json_laws in
      rw (
        required_string-found J msg "id" id missing_field at_id h.0,
        optional_array-found J msg "peers" (map (encode_peer J) peers) at_peers,
        parse_peers-map J peers h.1,
        optional_array-found J msg "streaming_peers" (map string ids) at_ids,
        parse_streaming-map J ids h.2,
      )

  joined-found :
      (id : PeerId) (username : String)
      → NonEmpty id
      → parse_peer_joined J (encode_object J (peer_joined id username))
        ≡ value (peer_joined id username)
  unfolding parse_peer_joined encode_object
  joined-found id username h =
      let msg = encode_object J (peer_joined id username) in
      let at_id : find msg "id" ≡ some (string id) = simp json_laws in
      let at_name : find msg "username" ≡ some (string username) = simp json_laws in
      rw (
        required_string-found J msg "id" id missing_field at_id h,
        username_of-found J msg username at_name,
      )

  candidate-found :
      (text sdp_mid : String) (c : ConnectionId)
      → NonEmpty text
      → NonEmpty sdp_mid
      → parse_candidate J (encode_object J (candidate text sdp_mid c))
        ≡ value (candidate text sdp_mid c)
  unfolding parse_candidate encode_object
  candidate-found text sdp_mid c h k =
      let msg = encode_object J (candidate text sdp_mid c) in
      let at_text : find msg "candidate" ≡ some (string text) = simp json_laws in
      let at_mid : find msg "sdpMid" ≡ some (string sdp_mid) = simp json_laws in
      let at_connection : find msg "connection" ≡ some (string (connection_to_string c)) =
        simp json_laws in
      rw (
        required_string-found J msg "candidate" text missing_field at_text h,
        required_string-found J msg "sdpMid" sdp_mid missing_field at_mid k,
        parse_connection-found J msg c at_connection,
      )

  binding-found :
      (sdp_mid : String) (peer : Option PeerId) (c : ConnectionId)
      → NonEmpty sdp_mid
      → NonEmptyIfAny peer
      → parse_track_binding J (encode_object J (track_binding sdp_mid peer c))
        ≡ value (track_binding sdp_mid peer c)
  unfolding parse_track_binding encode_object
  binding-found sdp_mid peer c h k =
      let msg = encode_object J (track_binding sdp_mid peer c) in
      let at_mid : find msg "sdpMid" ≡ some (string sdp_mid) = simp json_laws in
      let at_peer : find msg "peerId" ≡ some (encode_binding J peer) = simp json_laws in
      let at_connection : find msg "connection" ≡ some (string (connection_to_string c)) =
        simp json_laws in
      rw (
        required_string-found J msg "sdpMid" sdp_mid missing_field at_mid h,
        parse_binding-found J msg peer at_peer k,
        parse_connection-found J msg c at_connection,
      )

  rejected-found :
      (peer : PeerId) (r : WatchRejectReason)
      → NonEmpty peer
      → parse_watch_rejected J (encode_object J (watch_rejected peer r))
        ≡ value (watch_rejected peer r)
  unfolding parse_watch_rejected encode_object
  rejected-found peer r h =
      let msg = encode_object J (watch_rejected peer r) in
      let at_peer : find msg "peerId" ≡ some (string peer) = simp json_laws in
      let at_reason : find msg "reason" ≡ some (string (reason_to_string r)) = simp json_laws in
      rw (
        required_string-found J msg "peerId" peer missing_field at_peer h,
        reason-found J msg r at_reason,
      )

  streaming-found :
      (type : String) (from : Option PeerId)
      → NonEmptyIfAny from
      → optional_peer_id J (add_from J (with_type J type) from) "from" ≡ from
  unfolding add_from with_type
  streaming-found type none h = optional_peer_id-missing J _ "from" (simp json_laws)
  streaming-found type (some s) h = rw h (optional_peer_id-found J _ "from" s (simp json_laws) h)

  add_from-type :
      (type : String) (from : Option PeerId)
      → find (add_from J (with_type J type) from) "type" ≡ some (string type)
  unfolding add_from with_type
  add_from-type type none = simp json_laws
  add_from-type type (some s) = elim (Bool-cases (is_empty s)) [
    | inl e ↦ rw e (simp json_laws)
    | inr e ↦ rw e (simp json_laws)
  ]

  encode-type : (m : Message) → find (encode_object J m) "type" ≡ some (string (type_of m))
  unfolding encode_object
  encode-type (welcome id peers streaming_peers) = simp json_laws
  encode-type (streaming_start from) = add_from-type "streaming_start" from
  encode-type (streaming_stop from) = add_from-type "streaming_stop" from
  encode-type m = simp json_laws

  dispatch-type :
      (m : Message) → IsSendable m → dispatch J (type_of m) (encode_object J m) ≡ value m
  unfolding dispatch encode_object
  dispatch-type (welcome id peers ids) h = welcome-found id peers ids h
  dispatch-type (peer_joined id username) h = joined-found id username h
  dispatch-type (peer_left id) h = of_peer-found peer_left "peer_left" "id" id refl h
  dispatch-type (offer sdp c) h = description-found offer "offer" sdp c h
  dispatch-type (answer sdp c) h = description-found answer "answer" sdp c h
  dispatch-type (candidate text sdp_mid c) h = candidate-found text sdp_mid c h.0 h.1
  dispatch-type (track_binding sdp_mid peer c) h = binding-found sdp_mid peer c h.0 h.1
  dispatch-type (streaming_start from) h =
      ap (λ f. value (streaming_start f)) (streaming-found "streaming_start" from h)
  dispatch-type (streaming_stop from) h =
      ap (λ f. value (streaming_stop f)) (streaming-found "streaming_stop" from h)
  dispatch-type (watch_start peer) h = of_peer-found watch_start "watch_start" "peerId" peer refl h
  dispatch-type (watch_stop peer) h = of_peer-found watch_stop "watch_stop" "peerId" peer refl h
  dispatch-type (watch_rejected peer r) h = rejected-found peer r h

  type_of-NonEmpty : (m : Message) → NonEmpty (type_of m)
  type_of-NonEmpty (welcome id peers ids) = refl
  type_of-NonEmpty (peer_left id) = refl
  type_of-NonEmpty m = refl

  pub parse_json-encode : (m : Message) → IsSendable m → parse_json J (encode J m) ≡ value m
  unfolding encode
  parse_json-encode m h =
      parse_json-object J (encode_object J m) (type_of m) (encode-type m) (type_of-NonEmpty m)
      ∙ dispatch-type m h

  -- A message whose required texts are not empty is read back as it was from the text that dump
  -- writes, where the JSON library reads back the value that was dumped.
  pub parse-dump :
      (m : Message) → ReadsBack J (encode J m) → IsSendable m → parse J (dump J m) ≡ value m
  unfolding parse dump
  parse-dump m back h = ground (arith, back, parse_json-encode m h)
