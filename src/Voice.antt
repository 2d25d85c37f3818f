-- ===== src/Voice.antt =====
-- The voice router's binding of publishers to subscriber slots
-- (backend/signaling_server/src/voice_router.cpp). A track is libdatachannel's: here it is a number,
-- and `alive` says which tracks somebody still owns when the call is made, which is what the
-- router learns from a `weak_ptr`. A `BindingSender` is the number of a channel. Each method runs
-- under the mutex, so it is one step. The map of peers has no order that the code relies on.
pub mod Slots
pub mod Assign
pub mod Fill
pub mod Register
pub mod Changes
pub mod Invariant
pub mod Reach
pub mod Saturation
pub mod Removal
use driscord.Common.{
  ℕ, zero, suc, ◌+◌, ◌%◌, ◌^◌, Bool, true, false, not, ◌&&◌, ◌||◌, List, [], ◌∷◌, ◌++◌, Option,
  none, some, String, str_eq, codes, ltb, ◌==◌, if◌then◌else◌,
}
use driscord.Common.Assoc.{lookup, insert, erase, keys, contains, map_values}
use driscord.Common.Sort.{str_ltb, sort_ids}
use driscord.Rtp.Slot.{RtpSlotRewriter, new, begin_source, end_source}
use driscord.Media.{RtpFaultState, LinkModelState, fresh_fault_state, fresh_link_state}
use driscord.Signaling.{PeerId}

abbrev pub Track : Type 0
Track = ℕ

-- `weak_ptr::lock` and `weak_ptr::expired`, where `alive` says which tracks still exist.
abbrev pub lock : (Track → Bool) → Option Track → Option Track
lock alive none = none
lock alive (some t) = if alive t then some t else none

abbrev pub is_live : (Track → Bool) → Option Track → Bool
is_live alive none = false
is_live alive (some t) = alive t

pub record OutputSlot : Type 0 where
  pub mid : String
  pub ssrc : ℕ
  pub track : Option Track
  pub publisher : Option PeerId
  pub rewriter : RtpSlotRewriter
  pub source_generation : ℕ

pub record PeerState : Type 0 where
  pub order : ℕ
  pub input : Option Track
  pub input_mid_extension_id : Option ℕ
  pub input_fault_state : RtpFaultState
  pub input_link_state : LinkModelState
  pub outputs : List OutputSlot
  pub send_binding : Option ℕ

pub record BindingNotice : Type 0 where
  pub send : Option ℕ
  pub mid : String
  pub publisher : Option PeerId
  pub output : Option Track
  pub ssrc : ℕ

abbrev pub Peers : Type 0
Peers = List (String × PeerState)

pub record VoiceRouter : Type 0 where
  pub peers : Peers
  pub next_peer_order : ℕ
  pub closed : Bool

abbrev pub initial : VoiceRouter
initial = record { peers = []; next_peer_order = 0; closed = false }

-- A default `PeerState`, as `try_emplace` makes it, with its place in the order.
abbrev pub new_peer : ℕ → PeerState
new_peer order = record {
  order = order;
  input = none;
  input_mid_extension_id = none;
  input_fault_state = fresh_fault_state;
  input_link_state = fresh_link_state;
  outputs = [];
  send_binding = none;
}

-- The peer's state, and the router in which it exists.
unfoldable pub peer_for_locked : VoiceRouter → PeerId → PeerState × VoiceRouter
peer_for_locked r owner = elim (lookup owner r.peers) [
  | some peer ↦ (peer, r)
  | none ↦
      let peer = new_peer r.next_peer_order in
      (
        peer,
        record r {
          peers = insert owner peer r.peers;
          next_peer_order = (r.next_peer_order + 1) % 2 ^ 64;
        },
      )
]

unfoldable pub order_of : Peers → PeerId → ℕ
order_of peers id = elim (lookup id peers) [ none ↦ 0 | some peer ↦ peer.order ]

unfoldable pub comes_before : Peers → PeerId → PeerId → Bool
comes_before peers lhs rhs =
    if not (order_of peers lhs == order_of peers rhs)
    then ltb (order_of peers lhs) (order_of peers rhs)
    else str_ltb (codes lhs) (codes rhs)

unfoldable pub ordered_peers_locked : Peers → List PeerId
ordered_peers_locked peers = sort_ids (comes_before peers) (keys peers)

-- `output.publisher && *output.publisher == p`.
abbrev pub is_bound_to : PeerId → OutputSlot → Bool
is_bound_to p slot = elim slot.publisher [ none ↦ false | some q ↦ str_eq q p ]

-- The publishers of the slots that are taken.
unfoldable pub bound : List OutputSlot → List PeerId
bound [] = []
bound (slot ∷ slots) = elim slot.publisher [ none ↦ bound slots | some p ↦ p ∷ bound slots ]

abbrev pub is_free : (Track → Bool) → OutputSlot → Bool
is_free alive slot = elim slot.publisher [ none ↦ is_live alive slot.track | some p ↦ false ]

abbrev pub take_slot : PeerId → OutputSlot → OutputSlot
take_slot publisher slot =
    let (rewriter, generation) = begin_source slot.rewriter in
    record slot { publisher = some publisher; rewriter = rewriter; source_generation = generation }

-- The slots with the first free one bound, and its notice; `none` if there is no free slot.
unfoldable pub bind_first :
    (Track → Bool) → Option ℕ → PeerId → List OutputSlot → Option (List OutputSlot × BindingNotice)
bind_first alive send publisher [] = none
bind_first alive send publisher (slot ∷ slots) =
    let rest : Option (List OutputSlot × BindingNotice) =
      elim (bind_first alive send publisher slots) [
        | none ↦ none
        | some (slots', notice) ↦ some (slot ∷ slots', notice)
      ] in
    if is_free alive slot
    then some (
      take_slot publisher slot ∷ slots,
      record {
        send = send;
        mid = slot.mid;
        publisher = some publisher;
        output = slot.track;
        ssrc = slot.ssrc;
      },
    )
    else rest
