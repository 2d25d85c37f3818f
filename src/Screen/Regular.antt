-- ===== src/Screen/Regular.antt =====
-- The screen router's pairs and peers as a kind of `driscord.Binding`
-- (backend/signaling_server/src/screen_router.cpp).
use driscord.Common.{
  ◌≡◌, ◌≢◌, refl, ◌∙◌, ap, sym, inl, inr, Bool, true, Option, none, some, Option-cases, eq_iff,
  arith,
}
use mathlib.Core.Option
use driscord.Common.Assoc.{lookup, keys, contains}
use driscord.Common.Sort.{contains-sort_ids}
use driscord.Rtp.Slot.{begin_source}
use driscord.Signaling.{PeerId}
use driscord.Voice.{Track, is_live}
use driscord.Binding.Rounds.{Related, IsRegular}
use driscord.Binding.Valid.{IsGuarded}
use driscord.Screen.{
  OutputTrack, OutputPair, PeerState, Peers, kind, take_slot, is_free, is_available, is_usable,
  start_source, ordered_watches_locked, watched_before,
}

-- The same output, with whatever source.
abbrev pub SameOutput : Option OutputTrack → Option OutputTrack → Type 0
SameOutput none none = Unit {0}
SameOutput none (some b) = ⊥
SameOutput (some a) none = ⊥
SameOutput (some a) (some b) =
    (a.mid ≡ b.mid) × (a.ssrc ≡ b.ssrc) × (a.track ≡ b.track) × (a.ready ≡ b.ready)

pub record Same (a b : OutputPair) : Type 0 where
  pub cname : a.cname ≡ b.cname
  pub video : SameOutput a.video b.video
  pub audio : SameOutput a.audio b.audio

-- Peers that differ in what their outputs carry at most.
pub record Alike (a b : PeerState) : Type 0 where
  pub order : a.order ≡ b.order
  pub streaming : a.streaming ≡ b.streaming
  pub input_video : a.input_video ≡ b.input_video
  pub watched : a.watched_publishers ≡ b.watched_publishers
  pub send : a.send_binding ≡ b.send_binding

SameOutput-refl : (o : Option OutputTrack) → SameOutput o o
SameOutput-refl none = tt
SameOutput-refl (some a) = (refl, refl, refl, refl)

SameOutput-trans : (a b c : Option OutputTrack) → SameOutput a b → SameOutput b c → SameOutput a c
SameOutput-trans none none c h k = k
SameOutput-trans none (some b) c h k = absurd h
SameOutput-trans (some a) none c h k = absurd h
SameOutput-trans (some a) (some b) none h k = absurd k
SameOutput-trans (some a) (some b) (some c) h k = (h.0 ∙ k.0, h.1 ∙ k.1, h.2 ∙ k.2, h.3 ∙ k.3)

SameOutput-start : (o : Option OutputTrack) → SameOutput o (Option.map start_source o)
unfolding begin_source
SameOutput-start none = tt
SameOutput-start (some a) = (refl, refl, refl, refl)

Alike-refl : (p : PeerState) → Alike p p
Alike-refl p = record {
  order = refl;
  streaming = refl;
  input_video = refl;
  watched = refl;
  send = refl;
}

free_unbound : (alive : Track → Bool) (s : OutputPair) → is_free alive s ≡ true → s.publisher ≡ none
free_unbound alive s h = elim (Option-cases s.publisher) [
  | inl e ↦ e
  | inr (p, e) ↦ absurd (ground arith)
]

available_kept :
    (alive : Track → Bool) (peers peers' : Peers) (s p : PeerId)
    → Related Alike peers peers'
    → is_available alive peers s p ≡ true
    → is_available alive peers' s p ≡ true
unfolding is_available
available_kept alive peers peers' s p r h = elim (Option-cases (lookup p peers)) [
  | inl e ↦ absurd (ground arith)
  | inr (before, e) ↦
      let (after, e', alike) = r.present p before e in
      let streams = alike.streaming in
      let sees : is_live alive before.input_video ≡ is_live alive after.input_video =
        ap (is_live alive) alike.input_video in
      ground arith
]

-- Whom a peer wants is whom it watches.
pub wanted_watched :
    (peers : Peers) (a : PeerState) (p : PeerId)
    → contains (ordered_watches_locked peers a) p ≡ contains (keys a.watched_publishers) p
unfolding ordered_watches_locked
wanted_watched peers a p =
    contains-sort_ids (watched_before peers a.watched_publishers) (keys a.watched_publishers) p

pub kind-IsRegular : (alive : Track → Bool) → IsRegular (kind alive) Same Alike
kind-IsRegular alive = record {
  sound = record { free = free_unbound alive; taken = λ p s. refl };
  same_refl = λ s. record {
    cname = refl;
    video = SameOutput-refl s.video;
    audio = SameOutput-refl s.audio;
  };
  same_trans = λ s t u h k. record {
    cname = h.cname ∙ k.cname;
    video = SameOutput-trans s.video t.video u.video h.video k.video;
    audio = SameOutput-trans s.audio t.audio u.audio h.audio k.audio;
  };
  same_take = λ p s. record {
    cname = refl;
    video = SameOutput-start s.video;
    audio = SameOutput-start s.audio;
  };
  outputs_with = λ p ss. refl;
  alike_refl = Alike-refl;
  alike_trans = λ p q r h k. record {
    order = h.order ∙ k.order;
    streaming = h.streaming ∙ k.streaming;
    input_video = h.input_video ∙ k.input_video;
    watched = h.watched ∙ k.watched;
    send = h.send ∙ k.send;
  };
  alike_with = λ p ss. record {
    order = refl;
    streaming = refl;
    input_video = refl;
    watched = refl;
    send = refl;
  };
  available = available_kept alive;
  wanted = λ peers peers' a b p alike h.
      wanted_watched peers' b p
      ∙ ap (λ w. contains (keys w) p) (sym alike.watched)
      ∙ sym (wanted_watched peers a p)
      ∙ h;
}

-- Whom a subscriber may be bound to: another peer that it watches and that streams.
pub record Allowed (peers : Peers) (id : PeerId) (peer : PeerState) (q : PeerId) : Type 0 where
  pub not_itself : q ≢ id
  pub watched : contains (keys peer.watched_publishers) q ≡ true
  pub source : PeerState
  pub present : lookup q peers ≡ some source
  pub streams : source.streaming ≡ true

-- An output without a source, and one with the source that its rewriter accepts.
abbrev pub IsIdle : Option OutputTrack → Type 0
IsIdle none = Unit {0}
IsIdle (some output) = output.source_generation ≡ 0

abbrev pub IsFed : Option OutputTrack → Type 0
IsFed none = ⊥
IsFed (some output) =
    (output.source_generation ≡ output.rewriter.generation) × (output.ready ≡ true)

-- A pair that carries nobody is idle, and one that carries a publisher has both outputs, fed.
abbrev pub IsCarrying : Option PeerId → Option OutputTrack → Option OutputTrack → Type 0
IsCarrying none video audio = IsIdle video × IsIdle audio
IsCarrying (some p) video audio = IsFed video × IsFed audio

abbrev pub IsCurrent : OutputPair → Type 0
IsCurrent pair = IsCarrying pair.publisher pair.video pair.audio

IsFed-start :
    (alive : Track → Bool) (o : Option OutputTrack)
    → is_usable alive o ≡ true
    → IsFed (Option.map start_source o)
unfolding begin_source
IsFed-start alive none h = absurd cc
IsFed-start alive (some a) h = (refl, ground arith)

take-IsCurrent :
    (alive : Track → Bool) (p : PeerId) (s : OutputPair)
    → is_free alive s ≡ true
    → IsCurrent (take_slot p s)
take-IsCurrent alive p s h =
    let unbound = free_unbound alive s h in
    (IsFed-start alive s.video (ground arith), IsFed-start alive s.audio (ground arith))

admits :
    (alive : Track → Bool) (peers : Peers) (id : PeerId) (peer : PeerState) (q : PeerId)
    → is_available alive peers id q ≡ true
    → contains (ordered_watches_locked peers peer) q ≡ true
    → Allowed peers id peer q
unfolding is_available
admits alive peers id peer q h k = elim (Option-cases (lookup q peers)) [
  | inl e ↦ absurd (ground arith)
  | inr (source, e) ↦ record {
    not_itself = λ same. absurd (ground (arith, eq_iff q id));
    watched = sym (wanted_watched peers peer q) ∙ k;
    source = source;
    present = e;
    streams = ground arith;
  }
]

pub kind-IsGuarded :
    (alive : Track → Bool)
    → IsGuarded (kind alive) Same Alike (kind-IsRegular alive) Allowed IsCurrent
kind-IsGuarded alive = record {
  fits = take-IsCurrent alive;
  admits = admits alive;
  stable = λ peers peers' id peer peer' q r alike a.
      let (source', e, same) = r.present q a.source a.present in
      record {
        not_itself = a.not_itself;
        watched = ap (λ w. contains (keys w) q) (sym alike.watched) ∙ a.watched;
        source = source';
        present = e;
        streams = sym same.streaming ∙ a.streams;
      };
}
