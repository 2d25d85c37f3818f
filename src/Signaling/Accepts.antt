-- ===== src/Signaling/Accepts.antt =====
-- The messages that the parser accepts (core/src/utils/signaling_protocol.cpp).
use driscord.Common.{
  ◌≡◌, subst, Bool, true, false, List, [], ◌∷◌, Option, none, some, String, str_eq, Bool-cases,
  Option-cases, inl, inr, if◌then◌else◌,
}
use driscord.Signaling.{
  PeerId, ConnectionId, ParseError, missing_field, missing_type, invalid_field, Message, peer_left,
  offer, answer, watch_start, watch_stop, Expected, value, unexpected, ◌>>=◌, is_empty,
}
use driscord.Signaling.Json.{JsonLibrary, ReadsBack}
use driscord.Signaling.Encode.{encode, dump}
use driscord.Signaling.Parse.{
  or_fail, find_string, required_string, optional_peer_id, optional_string, parse_connection,
  parse_watch_reject_reason, parse_peer, parse_peers, parse_streaming, optional_array,
  parse_welcome, parse_peer_joined, parse_description, parse_candidate, parse_binding,
  parse_track_binding, parse_of_peer, parse_watch_rejected, dispatch, parse_json, parse,
}
use driscord.Signaling.Sendable.{NonEmpty, AllNamed, AllNonEmpty, NonEmptyIfAny, IsSendable}
use driscord.Signaling.RoundTrip.{parse-dump}

-- If there is a value, it has the property.
abbrev pub Yields : {A : Type 0} → Expected A → (A → Type 0) → Type 0
Yields (value a) P = P a
Yields (unexpected e) P = Unit

Yields-bind :
    {A B : Type 0} (m : Expected A) (f : A → Expected B) (P : A → Type 0) (Q : B → Type 0)
    → Yields m P
    → ((a : A) → P a → Yields (f a) Q)
    → Yields (m >>= f) Q
Yields-bind (value a) f P Q h k = k a h
Yields-bind (unexpected e) f P Q h k = tt

Yields-any : {A : Type 0} (m : Expected A) → Yields m (λ _. Unit {0})
Yields-any (value a) = tt
Yields-any (unexpected e) = tt

Yields-if :
    {A : Type 0} (b : Bool) (x y : Expected A) (P : A → Type 0)
    → Yields x P
    → Yields y P
    → Yields (if b then x else y) P
Yields-if true x y P h k = h
Yields-if false x y P h k = k

or_fail-NonEmpty : (o : Option String) (e : ParseError) → Yields (or_fail o e) NonEmpty
or_fail-NonEmpty none e = tt
or_fail-NonEmpty (some s) e = elim (Bool-cases (is_empty s)) [ inl h ↦ rw h tt | inr h ↦ rw h h ]

module _ (J : JsonLibrary) where
  open J use {Json, Object, find, as_object, as_string, parse_text}

  required_string-NonEmpty :
      (msg : Object) (key : String) (e : ParseError) → Yields (required_string J msg key e) NonEmpty
  unfolding required_string
  required_string-NonEmpty msg key e = or_fail-NonEmpty (find_string J msg key) e

  parse_peer-NonEmpty : (v : Json) → Yields (parse_peer J v) (λ p. NonEmpty p.id)
  unfolding parse_peer
  parse_peer-NonEmpty v = elim (Option-cases (as_object v)) [
    | inl e ↦ rw (e, parse_peer) tt
    | inr (o, e) ↦
        rw (e, parse_peer)
          (Yields-bind (required_string J o "id" invalid_field) _ NonEmpty _
            (required_string-NonEmpty o "id" invalid_field) (λ id h. h))
  ]

  parse_peers-AllNamed : (vs : List Json) → Yields (parse_peers J vs) AllNamed
  unfolding parse_peers
  parse_peers-AllNamed [] = tt
  parse_peers-AllNamed (v ∷ vs) =
      Yields-bind (parse_peer J v) _ (λ p. NonEmpty p.id) _ (parse_peer-NonEmpty v)
        (λ p h.
          Yields-bind (parse_peers J vs) _ AllNamed _ (parse_peers-AllNamed vs) (λ ps k. (h, k)))

  kept-AllNonEmpty :
      (id : String) (ids : List String)
      → AllNonEmpty ids
      → AllNonEmpty (if is_empty id then ids else id ∷ ids)
  kept-AllNonEmpty id ids h = elim (Bool-cases (is_empty id)) [
    | inl e ↦ rw e h
    | inr e ↦ rw e (e, h)
  ]

  parse_streaming-AllNonEmpty : (vs : List Json) → Yields (parse_streaming J vs) AllNonEmpty
  unfolding parse_streaming
  parse_streaming-AllNonEmpty [] = tt
  parse_streaming-AllNonEmpty (v ∷ vs) = elim (Option-cases (as_string v)) [
    | inl e ↦ rw (e, parse_streaming) tt
    | inr (id, e) ↦
        rw (e, parse_streaming)
          (Yields-bind (parse_streaming J vs) _ AllNonEmpty _ (parse_streaming-AllNonEmpty vs)
            (λ ids h. kept-AllNonEmpty id ids h))
  ]

  optional_peer_id-NonEmpty :
      (msg : Object) (key : String) → NonEmptyIfAny (optional_peer_id J msg key)
  unfolding optional_peer_id
  optional_peer_id-NonEmpty msg key = elim (Option-cases (optional_string J msg key)) [
    | inl e ↦ rw (e, optional_peer_id) tt
    | inr (s, e) ↦ elim (Bool-cases (is_empty s)) [
      | inl h ↦ rw (e, optional_peer_id, h) tt
      | inr h ↦ rw (e, optional_peer_id, h) h
    ]
  ]

  binding_text-NonEmpty :
      (s : String)
      → Yields (if is_empty s then unexpected invalid_field else value (some s)) NonEmptyIfAny
  binding_text-NonEmpty s = elim (Bool-cases (is_empty s)) [ inl h ↦ rw h tt | inr h ↦ rw h h ]

  null_or_error :
      (v : Json)
      → Yields (if J.is_null v then value none else unexpected invalid_field) NonEmptyIfAny
  null_or_error v = Yields-if (J.is_null v) (value none) (unexpected invalid_field) _ tt tt

  parse_binding-NonEmpty : (msg : Object) → Yields (parse_binding J msg) NonEmptyIfAny
  unfolding parse_binding
  parse_binding-NonEmpty msg = elim (Option-cases (find msg "peerId")) [
    | inl e ↦ rw (e, parse_binding) tt
    | inr (v, e) ↦ elim (Option-cases (as_string v)) [
      | inl t ↦ rw (e, parse_binding, t) (null_or_error v)
      | inr (s, t) ↦ rw (e, parse_binding, t) (binding_text-NonEmpty s)
    ]
  ]

  -- A parser that begins with a required text.
  after_required :
      {A : Type 0} (msg : Object) (key : String) (e : ParseError) (f : String → Expected A)
      (Q : A → Type 0)
      → ((s : String) → NonEmpty s → Yields (f s) Q)
      → Yields (required_string J msg key e >>= f) Q
  after_required msg key e f Q k =
      Yields-bind (required_string J msg key e) f NonEmpty Q (required_string-NonEmpty msg key e) k

  then_any :
      {A : Type 0} (m : Expected A) (f : A → Expected Message)
      → ((a : A) → Yields (f a) IsSendable)
      → Yields (m >>= f) IsSendable
  then_any m f k = Yields-bind m f (λ _. Unit {0}) IsSendable (Yields-any m) (λ a _. k a)

  parse_welcome-IsSendable : (msg : Object) → Yields (parse_welcome J msg) IsSendable
  unfolding parse_welcome
  parse_welcome-IsSendable msg = after_required msg "id" missing_field _ _ λ id h.
      then_any (optional_array J msg "peers") _ λ items.
        Yields-bind (parse_peers J items) _ AllNamed _ (parse_peers-AllNamed items) λ peers k.
          then_any (optional_array J msg "streaming_peers") _ λ items'.
            Yields-bind (parse_streaming J items') _ AllNonEmpty _
              (parse_streaming-AllNonEmpty items') (λ ids l. (h, k, l))

  parse_description-IsSendable :
      (make : String → ConnectionId → Message) (msg : Object)
      → ((s : String) (c : ConnectionId) → NonEmpty s → IsSendable (make s c))
      → Yields (parse_description J make msg) IsSendable
  unfolding parse_description
  parse_description-IsSendable make msg k =
      after_required msg "sdp" missing_field _ _
        λ sdp h. then_any (parse_connection J msg) _ (λ c. k sdp c h)

  parse_candidate-IsSendable : (msg : Object) → Yields (parse_candidate J msg) IsSendable
  unfolding parse_candidate
  parse_candidate-IsSendable msg = after_required msg "candidate" missing_field _ _ λ text h.
      after_required msg "sdpMid" missing_field _ _
        λ sdp_mid k. then_any (parse_connection J msg) _ (λ c. (h, k))

  parse_track_binding-IsSendable : (msg : Object) → Yields (parse_track_binding J msg) IsSendable
  unfolding parse_track_binding
  parse_track_binding-IsSendable msg = after_required msg "sdpMid" missing_field _ _ λ sdp_mid h.
      Yields-bind (parse_binding J msg) _ NonEmptyIfAny _ (parse_binding-NonEmpty msg)
        λ peer k. then_any (parse_connection J msg) _ (λ c. (h, k))

  parse_of_peer-IsSendable :
      (key : String) (make : PeerId → Message) (msg : Object)
      → ((s : String) → NonEmpty s → IsSendable (make s))
      → Yields (parse_of_peer J key make msg) IsSendable
  unfolding parse_of_peer
  parse_of_peer-IsSendable key make msg k = after_required msg key missing_field _ _ k

  parse_watch_rejected-IsSendable : (msg : Object) → Yields (parse_watch_rejected J msg) IsSendable
  unfolding parse_watch_rejected
  parse_watch_rejected-IsSendable msg =
      after_required msg "peerId" missing_field _ _
        λ peer h. then_any (parse_watch_reject_reason J msg) _ (λ r. h)

  parse_peer_joined-IsSendable : (msg : Object) → Yields (parse_peer_joined J msg) IsSendable
  unfolding parse_peer_joined
  parse_peer_joined-IsSendable msg = after_required msg "id" missing_field _ _ (λ id h. h)

  dispatch-IsSendable : (type : String) (msg : Object) → Yields (dispatch J type msg) IsSendable
  unfolding dispatch
  dispatch-IsSendable type msg =
      let by_if =
        λ (b : Bool) (x y : Expected Message) (h : Yields x IsSendable) (k : Yields y IsSendable).
          Yields-if b x y IsSendable h k in
      let from = optional_peer_id-NonEmpty msg "from" in
      by_if (str_eq type "welcome") _ _ (parse_welcome-IsSendable msg) (
        by_if (str_eq type "peer_joined") _ _ (parse_peer_joined-IsSendable msg) (
          by_if (str_eq type "peer_left") _ _
            (parse_of_peer-IsSendable "id" peer_left msg (λ s h. h))
            (by_if (str_eq type "offer") _ _ (parse_description-IsSendable offer msg (λ s c h. h)) (
              by_if (str_eq type "answer") _ _
                (parse_description-IsSendable answer msg (λ s c h. h))
                (by_if (str_eq type "candidate") _ _ (parse_candidate-IsSendable msg) (
                  by_if (str_eq type "track_binding") _ _ (parse_track_binding-IsSendable msg) (
                    by_if (str_eq type "streaming_start") _ _ from (
                      by_if (str_eq type "streaming_stop") _ _ from (
                        by_if (str_eq type "watch_start") _ _
                          (parse_of_peer-IsSendable "peerId" watch_start msg (λ s h. h))
                          (by_if (str_eq type "watch_stop") _ _
                            (parse_of_peer-IsSendable "peerId" watch_stop msg (λ s h. h))
                            (by_if (str_eq type "watch_rejected") _ _
                              (parse_watch_rejected-IsSendable msg) tt)))))))))))

  parse_json-IsSendable : (v : Json) → Yields (parse_json J v) IsSendable
  unfolding parse_json
  parse_json-IsSendable v = elim (Option-cases (as_object v)) [
    | inl e ↦ rw (e, parse_json) tt
    | inr (o, e) ↦
        rw (e, parse_json)
          (after_required o "type" missing_type _ _ (λ type h. dispatch-IsSendable type o))
  ]

  parse-IsSendable : (raw : String) → Yields (parse J raw) IsSendable
  unfolding parse
  parse-IsSendable raw = elim (Option-cases (parse_text raw)) [
    | inl e ↦ rw (e, parse) tt
    | inr (v, e) ↦ rw (e, parse) (parse_json-IsSendable v)
  ]

  -- A message that parse accepted from any text is accepted again, as the same message, from
  -- the text that dump writes of it, where the JSON library reads back the value that was
  -- dumped.
  pub parse-dump-parse :
      (raw : String) (m : Message)
      → ReadsBack J (encode J m)
      → parse J raw ≡ value m
      → parse J (dump J m) ≡ value m
  parse-dump-parse raw m back e =
      parse-dump J m back (subst (λ r. Yields r IsSendable) e (parse-IsSendable raw))
