-- ===== src/Binding/Rounds.antt =====
-- The outer loop of the assignment: what it leaves of each peer, and whom it serves.
use driscord.Common.{
  ◌<◌, ◌≡◌, refl, sym, ◌∙◌, subst, ◌⊎◌, inl, inr, true, false, List, [], ◌∷◌, none, some, String,
  str_eq, eq_iff, Option-cases, Bool-cases, if◌then◌else◌, if_true, if_false, arith,
}
use driscord.Common.Assoc.{Entries, lookup, insert, contains, lookup-insert}
use driscord.Signaling.{PeerId}
use driscord.Binding.{Kind, bound, fill, assign_one, assign_all}
use driscord.Binding.Slots.{
  count, has_free, IsSound, Extends, bound-contains, Extends-refl, Extends-trans, Extends-count,
  Extends-has_free,
}
use driscord.Binding.Fill.{fill-Extends, fill-IsServed, fill-count_ge}

-- Every peer is there still, changed by `R` at most, and no other is.
pub record Related {Peer : Type 0} (R : Peer → Peer → Type 0) (peers peers' : Entries Peer)
    : Type 0 where
  pub absent : (id : String) → lookup id peers ≡ none → lookup id peers' ≡ none
  pub present :
      (id : String) (p : Peer)
      → lookup id peers ≡ some p
      → (p' : Peer) × (lookup id peers' ≡ some p') × R p p'

-- What a kind of router promises of its peers: `Alike` ones differ in their outputs at most, and it
-- reads neither availability nor candidates from the outputs.
pub record IsRegular {Slot Peer Notice : Type 0} (K : Kind Slot Peer Notice)
    (Same : Slot → Slot → Type 0) (Alike : Peer → Peer → Type 0) : Type 0 where
  pub sound : IsSound K
  pub same_refl : (s : Slot) → Same s s
  pub same_trans : (s t u : Slot) → Same s t → Same t u → Same s u
  pub same_take : (p : PeerId) (s : Slot) → Same s (K.take_slot p s)
  pub outputs_with : (p : Peer) (ss : List Slot) → K.outputs (K.with_outputs p ss) ≡ ss
  pub alike_refl : (p : Peer) → Alike p p
  pub alike_trans : (p q r : Peer) → Alike p q → Alike q r → Alike p r
  pub alike_with : (p : Peer) (ss : List Slot) → Alike p (K.with_outputs p ss)
  pub available :
      (peers peers' : Entries Peer) (s p : PeerId)
      → Related Alike peers peers'
      → K.is_available peers s p ≡ true
      → K.is_available peers' s p ≡ true
  pub wanted :
      (peers peers' : Entries Peer) (a b : Peer) (p : PeerId)
      → Alike a b
      → contains (K.candidates peers a) p ≡ true
      → contains (K.candidates peers' b) p ≡ true

module _ {Slot Peer Notice : Type 0} (K : Kind Slot Peer Notice) (Same : Slot → Slot → Type 0)
    (Alike : Peer → Peer → Type 0) (regular : IsRegular K Same Alike) where
  open K use {is_available, notify, outputs, with_outputs, candidates}

  -- A peer later on: only free slots have changed.
  abbrev pub Later : Peer → Peer → Type 0
  Later p q = Alike p q × Extends K Same (outputs p) (outputs q)

  Later-refl : (p : Peer) → Later p p
  Later-refl p =
      (regular.alike_refl p, Extends-refl K regular.sound Same regular.same_refl (outputs p))

  Later-trans : (p q r : Peer) → Later p q → Later q r → Later p r
  Later-trans p q r (a, b) (c, d) = (
    regular.alike_trans p q r a c,
    Extends-trans K regular.sound Same regular.same_refl regular.same_trans (outputs p) (outputs q)
        (outputs r) b d,
  )

  pub Related-Alike :
      (peers peers' : Entries Peer) → Related Later peers peers' → Related Alike peers peers'
  Related-Alike peers peers' r = record {
    absent = r.absent;
    present = λ id p e. let (p', e', later) = r.present id p e in (p', e', later.0);
  }

  Related-refl : (peers : Entries Peer) → Related Later peers peers
  Related-refl peers = record { absent = λ id e. e; present = λ id p e. (p, e, Later-refl p) }

  Related-trans : (a b c : Entries Peer) → Related Later a b → Related Later b c → Related Later a c
  Related-trans a b c r s = record {
    absent = λ id e. s.absent id (r.absent id e);
    present = λ id p e.
        let (q, f, later) = r.present id p e in
        let (q', f', later') = s.present id q f in (q', f', Later-trans p q q' later later');
  }

  -- A subscriber after its round.
  unfoldable pub filled : Entries Peer → PeerId → Peer → Peer
  filled peers id peer =
      with_outputs peer
        (fill K (is_available peers id) (notify peers peer) (candidates peers peer)
          (bound K (outputs peer)) (outputs peer)).0

  pub filled-Later :
      (peers : Entries Peer) (id : PeerId) (peer : Peer) → Later peer (filled peers id peer)
  unfolding filled
  filled-Later peers id peer = (
    regular.alike_with peer _,
    subst (Extends K Same (outputs peer)) (sym (regular.outputs_with peer _)) (
        fill-Extends K (is_available peers id) (notify peers peer) regular.sound Same
          regular.same_refl regular.same_trans regular.same_take (candidates peers peer)
          (bound K (outputs peer)) (outputs peer)),
  )

  -- A round on the peers.
  pub lookup-assign_one :
      (peers : Entries Peer) (id q : PeerId) (peer : Peer)
      → lookup id peers ≡ some peer
      → lookup q (assign_one K peers id).0
        ≡ (if str_eq id q then some (filled peers id peer) else lookup q peers)
  unfolding assign_one filled
  lookup-assign_one peers id q peer e = rw (e, assign_one) (lookup-insert id q _ peers)

  pub assign_one-some :
      (peers : Entries Peer) (id : PeerId) (peer : Peer)
      → lookup id peers ≡ some peer
      → (assign_one K peers id).0 ≡ insert id (filled peers id peer) peers
  unfolding assign_one filled
  assign_one-some peers id peer e = rw (e, assign_one) refl

  pub assign_one-absent :
      (peers : Entries Peer) (id : PeerId)
      → lookup id peers ≡ none
      → (assign_one K peers id).0 ≡ peers
  unfolding assign_one
  assign_one-absent peers id e = rw (e, assign_one) refl

  round-Related :
      (peers : Entries Peer) (id : PeerId) (peer : Peer)
      → lookup id peers ≡ some peer
      → Related Later peers (assign_one K peers id).0
  round-Related peers id peer e = record {
    absent = λ q f. elim (Bool-cases (str_eq id q)) [
      | inl same ↦
          absurd (ground (arith, subst (λ x. lookup x peers ≡ some peer) ((eq_iff id q).0 same) e))
      | inr other ↦
          lookup-assign_one peers id q peer e
          ∙ sym (if_false (str_eq id q) (some (filled peers id peer)) (lookup q peers) other)
          ∙ f
    ];
    present = λ q before f. elim (Bool-cases (str_eq id q)) [
      | inl same ↦
          let here : lookup id peers ≡ some before =
            subst (λ x. lookup x peers ≡ some before) (sym ((eq_iff id q).0 same)) f in
          (
            filled peers id before,
            lookup-assign_one peers id q before here
                ∙ sym (if_true (str_eq id q) (some (filled peers id before)) (lookup q peers) same),
            filled-Later peers id before,
          )
      | inr other ↦ (
        before,
        lookup-assign_one peers id q peer e
            ∙ sym (if_false (str_eq id q) (some (filled peers id peer)) (lookup q peers) other)
            ∙ f,
        Later-refl before,
      )
    ];
  }

  pub assign_one-Related :
      (peers : Entries Peer) (id : PeerId) → Related Later peers (assign_one K peers id).0
  assign_one-Related peers id = elim (Option-cases (lookup id peers)) [
    | inl e ↦ subst (Related Later peers) (sym (assign_one-absent peers id e)) (Related-refl peers)
    | inr (peer, e) ↦ round-Related peers id peer e
  ]

  pub assign_all-Related :
      (ids : List PeerId) (peers : Entries Peer) → Related Later peers (assign_all K ids peers).0
  unfolding assign_all
  assign_all-Related [] peers = Related-refl peers
  assign_all-Related (id ∷ ids) peers =
      Related-trans peers (assign_one K peers id).0 _ (assign_one-Related peers id)
        (assign_all-Related ids (assign_one K peers id).0)

  -- A subscriber has the publisher, or has no slot left for it.
  abbrev pub IsServed : PeerId → List Slot → Type 0
  IsServed p ss = (has_free K ss ≡ false) ⊎ (0 < count K p ss)

  IsServed-Extends :
      (p : PeerId) (ss ts : List Slot) → Extends K Same ss ts → IsServed p ss → IsServed p ts
  IsServed-Extends p ss ts h (inl e) = inl (Extends-has_free K regular.sound Same ss ts h e)
  IsServed-Extends p ss ts h (inr e) =
      inr (omega (arith, e, Extends-count K regular.sound Same p ss ts h))

  filled-IsServed :
      (peers : Entries Peer) (s p : PeerId) (peer : Peer)
      → is_available peers s p ≡ true
      → contains (candidates peers peer) p ≡ true
      → IsServed p (outputs (filled peers s peer))
  unfolding filled
  filled-IsServed peers s p peer h k =
      let may = is_available peers s in
      let tell = notify peers peer in
      let given = bound K (outputs peer) in
      let order = candidates peers peer in
      subst (IsServed p) (sym (regular.outputs_with peer _))
        (elim (fill-IsServed K may tell regular.sound p order given (outputs peer) h k) [
          | inl full ↦ inl full
          | inr (inr new) ↦ inr new
          | inr (inl old) ↦ inr (
              omega (
                arith,
                bound-contains K p (outputs peer) old,
                fill-count_ge K may tell regular.sound p order given (outputs peer),
              ))
        ])

  pub assign_all-IsServed :
      (ids : List PeerId) (peers : Entries Peer) (s p : PeerId) (before : Peer)
      → lookup s peers ≡ some before
      → is_available peers s p ≡ true
      → contains (candidates peers before) p ≡ true
      → contains ids s ≡ true
      → (after : Peer) × (lookup s (assign_all K ids peers).0 ≡ some after)
        × Later before after
        × IsServed p (outputs after)
  unfolding assign_all contains
  assign_all-IsServed [] peers s p before e h k c = absurd cc
  assign_all-IsServed (id ∷ ids) peers s p before e h k c =
      let peers' = (assign_one K peers id).0 in
      let (middle, e', later) = (assign_one-Related peers id).present s before e in
      elim (Bool-cases (str_eq id s)) [
        | inl same ↦
            let here : lookup id peers ≡ some before =
              subst (λ x. lookup x peers ≡ some before) (sym ((eq_iff id s).0 same)) e in
            let now : lookup s peers' ≡ some (filled peers s before) =
              subst (λ x. lookup s peers' ≡ some (filled peers x before)) ((eq_iff id s).0 same)
                (lookup-assign_one peers id s before here
                  ∙ sym (
                      if_true (str_eq id s) (some (filled peers id before)) (lookup s peers)
                        same)) in
            let (after, e'', later') =
              (assign_all-Related ids peers').present s (filled peers s before) now in
            (
              after,
              e'',
              Later-trans before (filled peers s before) after (filled-Later peers s before) later',
              IsServed-Extends p (outputs (filled peers s before)) (outputs after) later'.1
                  (filled-IsServed peers s p before h k),
            )
        | inr other ↦
            let (after, e'', later', served) =
              assign_all-IsServed ids peers' s p middle e'
                (regular.available peers peers' s p
                  (Related-Alike peers peers' (assign_one-Related peers id)) h)
                (regular.wanted peers peers' before middle p later.0 k) (ground arith) in
            (after, e'', Later-trans before middle after later later', served)
      ]
