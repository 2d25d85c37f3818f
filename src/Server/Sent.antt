-- ===== src/Server/Sent.antt =====
-- What the methods of backend/signaling_server/src/ws_server.cpp send: predicates on deliveries, and
-- what the notices of the routers and the messages of a leave become.
use driscord.Common.{
  ℕ, ◌≡◌, refl, sym, ap, subst, ◌⊎◌, inl, inr, true, List, [], ◌∷◌, ◌++◌, map, Option, none, some,
  String, str_eq, eq_iff, Bool-cases, Option-cases, arith,
}
use driscord.Common.Assoc.{contains}
use driscord.Signaling.{
  PeerId, ConnectionId, voice, screen, Message, track_binding, peer_left, streaming_stop,
}
use driscord.Voice
use driscord.Screen
use driscord.Server.{Room, Delivery}
use driscord.Server.Notices.{send_binding, publish_voice, publish_screen}
use driscord.Server.Rooms.{leave_messages, send_each}

abbrev pub IsIn : {A : Type 0} → A → List A → Type 0
IsIn x [] = ⊥
IsIn x (y ∷ ys) = (y ≡ x) ⊎ IsIn x ys

abbrev pub All : {A : Type 0} → (A → Type 0) → List A → Type 0
All P [] = Unit {0}
All P (x ∷ xs) = P x × All P xs

pub IsIn-append : {A : Type 0} (x : A) (xs ys : List A) → IsIn x ys → IsIn x (xs ++ ys)
IsIn-append x [] ys h = h
IsIn-append x (z ∷ xs) ys h = inr (IsIn-append x xs ys h)

pub IsIn-left : {A : Type 0} (x : A) (xs ys : List A) → IsIn x xs → IsIn x (xs ++ ys)
IsIn-left x [] ys h = absurd h
IsIn-left x (z ∷ xs) ys (inl e) = inl e
IsIn-left x (z ∷ xs) ys (inr h) = inr (IsIn-left x xs ys h)

pub All-append :
    {A : Type 0} (P : A → Type 0) (xs ys : List A) → All P xs → All P ys → All P (xs ++ ys)
All-append P [] ys h k = k
All-append P (x ∷ xs) ys h k = (h.0, All-append P xs ys h.1 k)

pub All-weaken :
    {A : Type 0} (P Q : A → Type 0) (xs : List A) → ((x : A) → P x → Q x) → All P xs → All Q xs
All-weaken P Q [] k h = tt
All-weaken P Q (x ∷ xs) k h = (k x h.0, All-weaken P Q xs k h.1)

-- A TrackBinding of a connection.
abbrev pub IsBinding : ConnectionId → Delivery → Type 0
IsBinding connection d =
    (mid : String) × (publisher : Option PeerId) × (d.message
      ≡ track_binding mid publisher connection)

module _ (session_of : ℕ → Option PeerId) where
  send_binding-IsBinding :
      (connection : ConnectionId) (send : Option ℕ) (mid : String) (publisher : Option PeerId)
      → All (IsBinding connection) (send_binding session_of connection send mid publisher)
  unfolding send_binding
  send_binding-IsBinding connection none mid publisher = tt
  send_binding-IsBinding connection (some channel) mid publisher =
      elim (Option-cases (session_of channel)) [
        | inl e ↦ rw (e, send_binding) tt
        | inr (id, e) ↦ rw (e, send_binding) ((mid, publisher, refl), tt)
      ]

  pub publish_voice-IsBinding :
      (notices : List Voice.BindingNotice)
      → All (IsBinding voice) (publish_voice session_of notices)
  unfolding publish_voice
  publish_voice-IsBinding [] = tt
  publish_voice-IsBinding (n ∷ notices) =
      All-append (IsBinding voice) (send_binding session_of voice n.send n.mid n.publisher) _
        (send_binding-IsBinding voice n.send n.mid n.publisher) (publish_voice-IsBinding notices)

  pub publish_screen-IsBinding :
      (notices : List Screen.BindingNotice)
      → All (IsBinding screen) (publish_screen session_of notices)
  unfolding publish_screen
  publish_screen-IsBinding [] = tt
  publish_screen-IsBinding (n ∷ notices) =
      All-append (IsBinding screen) (send_binding session_of screen n.send n.mid n.publisher) _
        (send_binding-IsBinding screen n.send n.mid n.publisher) (publish_screen-IsBinding notices)

abbrev pub delivery : PeerId → Message → Delivery
delivery to message = record { to = to; message = message }

to_one-IsIn :
    (q : PeerId) (m : Message) (messages : List Message)
    → IsIn m messages
    → IsIn (delivery q m) (map (delivery q) messages)
to_one-IsIn q m [] h = absurd h
to_one-IsIn q m (n ∷ messages) (inl e) = inl (ap (delivery q) e)
to_one-IsIn q m (n ∷ messages) (inr h) = inr (to_one-IsIn q m messages h)

-- Every session of the list is sent every message, and nothing else is sent.
pub send_each-IsIn :
    (ids : List PeerId) (messages : List Message) (q : PeerId) (m : Message)
    → contains ids q ≡ true
    → IsIn m messages
    → IsIn (delivery q m) (send_each ids messages)
unfolding send_each contains
send_each-IsIn [] messages q m h k = absurd cc
send_each-IsIn (id ∷ ids) messages q m h k = elim (Bool-cases (str_eq id q)) [
  | inl same ↦ IsIn-left (delivery q m) (map (delivery id) messages) (send_each ids messages) (
      subst (λ x. IsIn (delivery q m) (map (delivery x) messages)) (sym ((eq_iff id q).0 same))
        (to_one-IsIn q m messages k))
  | inr other ↦
      IsIn-append (delivery q m) (map (delivery id) messages) (send_each ids messages)
        (send_each-IsIn ids messages q m (ground arith) k)
]

to_one-All :
    (P : Message → Type 0) (id : PeerId) (messages : List Message)
    → All P messages
    → All (λ d. (d.to ≡ id) × P d.message) (map (delivery id) messages)
to_one-All P id [] h = tt
to_one-All P id (m ∷ messages) h = ((refl, h.0), to_one-All P id messages h.1)

pub send_each-All :
    (P : Message → Type 0) (ids : List PeerId) (messages : List Message)
    → All P messages
    → All (λ d. (contains ids d.to ≡ true) × P d.message) (send_each ids messages)
unfolding send_each contains
send_each-All P [] messages h = tt
send_each-All P (id ∷ ids) messages h =
    let Told : Delivery → Type 0 = λ d. (contains (id ∷ ids) d.to ≡ true) × P d.message in
    All-append Told (map (delivery id) messages) (send_each ids messages)
      (All-weaken (λ (d : Delivery). (d.to ≡ id) × P d.message) Told (map (delivery id) messages)
        (λ d (to, k). (ground (arith, eq_iff id d.to, to), k)) (to_one-All P id messages h))
      (All-weaken (λ (d : Delivery). (contains ids d.to ≡ true) × P d.message) Told
        (send_each ids messages) (λ d (to, k). (ground (arith, to), k))
        (send_each-All P ids messages h))

-- A message of a leave, of a peer that streamed or not.
abbrev pub IsFarewell : Room → PeerId → Message → Type 0
IsFarewell room id m =
    (m ≡ peer_left id)
    ⊎ ((contains room.streaming_peers id ≡ true) × (m ≡ streaming_stop (some id)))

pub leave_messages-farewell :
    (room : Room) (id : PeerId)
    → IsIn (peer_left id) (leave_messages room id)
      × (contains room.streaming_peers id ≡ true
          → IsIn (streaming_stop (some id)) (leave_messages room id))
      × All (IsFarewell room id) (leave_messages room id)
leave_messages-farewell room id = elim (Bool-cases (contains room.streaming_peers id)) [
  | inl e ↦
      rw (e, leave_messages)
        (inr (inl refl), (λ streams. inl refl), (inr (e, refl), (inl refl, tt)))
  | inr e ↦ rw (e, leave_messages) (inl refl, (λ streams. absurd cc), (inl refl, tt))
]
