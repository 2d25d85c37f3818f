-- ===== src/Screen/Restart.antt =====
-- What the router's changes of a pair (backend/signaling_server/src/screen_router.cpp) leave of it.
use driscord.Common.{
  ℕ, ◌≤◌, ◌≡◌, refl, sym, ◌∙◌, subst, inl, inr, Bool, true, List, [], ◌∷◌, Option, none, some,
  String, ◌==◌, Option-cases, Bool-cases, if_cases, arith,
}
use mathlib.Core.Option
use native.Mathlib.Nat.{le_refl}
use driscord.Rtp.Slot.{begin_source}
use driscord.Signaling.{PeerId}
use driscord.Voice.{Track, lock}
use driscord.Voice.Register.{TrackInfo}
use driscord.Binding.Slots.{is_bound_to, count, All}
use driscord.Binding.Put.{
  change_first, change_first-count, change_first-All, count_append, count_unbound, All-append,
}
use driscord.Screen.{OutputTrack, OutputPair, Peers, BindingNotice, kind, start_source}
use driscord.Screen.Pairs.{
  is_video, output_of, with_output, has_mid, lacks, restart_pair, release, stop_source,
  clear_pair_locked, new_output, new_pair, output_pair_for, make_ready, ready_pair, mark_ready,
}
use driscord.Screen.Methods.{put_output}
use driscord.Screen.Regular.{IsIdle, IsFed, IsCarrying, IsCurrent}

-- A pair with one output replaced.
with_output-publisher :
    (media_type : String) (o : Option OutputTrack) (pair : OutputPair)
    → (with_output media_type o pair).publisher ≡ pair.publisher
with_output-publisher media_type o pair =
    if_cases (λ (p : OutputPair). p.publisher ≡ pair.publisher) (is_video media_type) _ _
      (λ e. refl) (λ e. refl)

-- A property of both outputs, when one is changed so that it has it still.
with_output-both :
    (P : Option OutputTrack → Type 0) (media_type : String)
    (f : Option OutputTrack → Option OutputTrack) (pair : OutputPair)
    → ((o : Option OutputTrack) → P o → P (f o))
    → P pair.video × P pair.audio
    → let after = with_output media_type (f (output_of media_type pair)) pair in
      P after.video × P after.audio
with_output-both P media_type f pair h (v, a) = elim (Bool-cases (is_video media_type)) [
  | inl e ↦ rw e (h pair.video v, a)
  | inr e ↦ rw e (v, h pair.audio a)
]

IsFed-again : (o : Option OutputTrack) → IsFed o → IsFed (Option.map start_source o)
unfolding begin_source
IsFed-again none h = h
IsFed-again (some o) h = (refl, h.1)

-- Whatever a pair carries, an output that begins its source again fits it, and so does one made ready.
pub restart-IsCurrent :
    (media_type : String) (pair : OutputPair) (p : PeerId)
    → pair.publisher ≡ some p
    → IsCurrent pair
    → IsCurrent (restart_pair media_type pair)
restart-IsCurrent media_type pair p e h =
    let both =
      with_output-both IsFed media_type (Option.map start_source) pair IsFed-again
        (subst (λ q. IsCarrying q pair.video pair.audio) e h) in
    let carried =
      with_output-publisher media_type (Option.map start_source (output_of media_type pair)) pair
      ∙ e in
    subst (λ q. let after = restart_pair media_type pair in IsCarrying q after.video after.audio)
      (sym carried) both

pub restart_pair-publisher :
    (media_type : String) (pair : OutputPair)
    → (restart_pair media_type pair).publisher ≡ pair.publisher
restart_pair-publisher media_type pair =
    with_output-publisher media_type (Option.map start_source (output_of media_type pair)) pair

pub restart-IsCurrent_bound :
    (alive : Track → Bool) (owner : PeerId) (media_type : String) (pair : OutputPair)
    → is_bound_to (kind alive) owner pair ≡ true
    → IsCurrent pair
    → IsCurrent (restart_pair media_type pair)
restart-IsCurrent_bound alive owner media_type pair h c = elim (Option-cases pair.publisher) [
  | inl e ↦ absurd (ground arith)
  | inr (p, e) ↦ restart-IsCurrent media_type pair p e c
]

pub release-IsCurrent : (pair : OutputPair) → IsCurrent (release pair)
release-IsCurrent pair = (stopped pair.video, stopped pair.audio)
  where
    stopped : (o : Option OutputTrack) → IsIdle (Option.map stop_source o)
    stopped none = tt
    stopped (some o) = refl

-- A pair that carries nobody, after `clear_pair_locked`.
clear-cases :
    (peers : Peers) (send : Option ℕ) (pair : OutputPair)
    → IsCurrent pair
    → let after = (clear_pair_locked peers send pair).0 in
      (after.publisher ≡ none) × IsIdle after.video × IsIdle after.audio
unfolding clear_pair_locked
clear-cases peers send pair h = elim (Option-cases pair.publisher) [
  | inl e ↦
      let idle = subst (λ q. IsCarrying q pair.video pair.audio) e h in
      rw (e, clear_pair_locked) (e, idle.0, idle.1)
  | inr (p, e) ↦
      rw (e, clear_pair_locked) (refl, (release-IsCurrent pair).0, (release-IsCurrent pair).1)
]

clear-publisher :
    (peers : Peers) (send : Option ℕ) (pair : OutputPair)
    → (clear_pair_locked peers send pair).0.publisher ≡ none
unfolding clear_pair_locked
clear-publisher peers send pair = elim (Option-cases pair.publisher) [
  | inl e ↦ rw (e, clear_pair_locked) e
  | inr (p, e) ↦ rw (e, clear_pair_locked) refl
]

-- An output is put into a pair, which is released first.
module _ (peers : Peers) (send : Option ℕ) (track : TrackInfo) (ssrc : ℕ) where
  fresh : Option OutputTrack → Option OutputTrack
  fresh o = some (new_output track.id track.mid ssrc track.media_type)

  put-publisher : (pair : OutputPair) → (put_output peers send track ssrc pair).0.publisher ≡ none
  put-publisher pair =
      with_output-publisher track.media_type
        (some (new_output track.id track.mid ssrc track.media_type))
        (clear_pair_locked peers send pair).0
      ∙ clear-publisher peers send pair

  put-IsCurrent :
      (pair : OutputPair) → IsCurrent pair → IsCurrent (put_output peers send track ssrc pair).0
  unfolding fresh
  put-IsCurrent pair h =
      let (unbound, video, audio) = clear-cases peers send pair h in
      let after = (put_output peers send track ssrc pair).0 in
      subst (λ q. IsCarrying q after.video after.audio) (sym (put-publisher pair))
        (with_output-both IsIdle track.media_type fresh (clear_pair_locked peers send pair).0
          (λ o i. refl) (video, audio))

  module _ (alive : Track → Bool) (token : String) (pairs : List OutputPair) where
    abbrev pub put : OutputPair → OutputPair × List BindingNotice
    put = put_output peers send track ssrc

    count-fresh : (q : PeerId) → count (kind alive) q ((put (new_pair token)).0 ∷ []) ≡ 0
    count-fresh q =
        count_unbound (kind alive) q (put (new_pair token)).0 (put-publisher (new_pair token))

    pub output_pair_for-count :
        (q : PeerId)
        → count (kind alive) q (output_pair_for put track.mid track.media_type token pairs).0
          ≤ count (kind alive) q pairs
    unfolding output_pair_for
    output_pair_for-count q =
        elim (Option-cases (change_first (has_mid track.mid track.media_type) put pairs)) [
          | inr ((ts, told), e) ↦
              rw (e, output_pair_for)
                (change_first-count _ put (kind alive) (λ s. inl (put-publisher s)) q pairs ts told
                  e)
          | inl e ↦ elim (Option-cases (change_first (lacks track.media_type) put pairs)) [
            | inr ((ts, told), f) ↦
                rw (e, f, output_pair_for)
                  (change_first-count _ put (kind alive) (λ s. inl (put-publisher s)) q pairs ts
                    told f)
            | inl f ↦
                rw (e, f, output_pair_for)
                  (omega (
                    arith,
                    count_append (kind alive) q pairs ((put (new_pair token)).0 ∷ []),
                    count-fresh q,
                  ))
          ]
        ]

    pub output_pair_for-IsCurrent :
        All (kind alive) IsCurrent pairs
        → All (kind alive) IsCurrent (output_pair_for put track.mid track.media_type token pairs).0
    unfolding output_pair_for
    output_pair_for-IsCurrent h =
        elim (Option-cases (change_first (has_mid track.mid track.media_type) put pairs)) [
          | inr ((ts, told), e) ↦
              rw (e, output_pair_for)
                (change_first-All _ put (kind alive) IsCurrent (λ s t. put-IsCurrent s) pairs ts
                  told e h)
          | inl e ↦ elim (Option-cases (change_first (lacks track.media_type) put pairs)) [
            | inr ((ts, told), f) ↦
                rw (e, f, output_pair_for)
                  (change_first-All _ put (kind alive) IsCurrent (λ s t. put-IsCurrent s) pairs ts
                    told f h)
            | inl f ↦
                rw (e, f, output_pair_for)
                  (All-append (kind alive) IsCurrent pairs _ h
                    (put-IsCurrent (new_pair token) (tt, tt), tt))
          ]
        ]

-- An output is ready from now on.
module _ (alive : Track → Bool) (track : Track) where
  ready-IsIdle :
      (o : Option OutputTrack) → IsIdle o → IsIdle (Option.map (make_ready alive track) o)
  ready-IsIdle none h = h
  ready-IsIdle (some o) h = elim (Option-cases (lock alive o.track)) [
    | inl e ↦ rw (e, make_ready) h
    | inr (t, e) ↦
        rw (e, make_ready)
          (if_cases (λ (x : OutputTrack). x.source_generation ≡ 0) (t == track) _ _ (λ _. h)
            (λ _. h))
  ]

  ready-IsFed : (o : Option OutputTrack) → IsFed o → IsFed (Option.map (make_ready alive track) o)
  ready-IsFed none h = h
  ready-IsFed (some o) h = elim (Option-cases (lock alive o.track)) [
    | inl e ↦ rw (e, make_ready) h
    | inr (t, e) ↦
        rw (e, make_ready)
          (if_cases (λ (x : OutputTrack). IsFed (some x)) (t == track) _ _ (λ _. (h.0, refl))
            (λ _. h))
  ]

  ready-IsCurrent :
      (media_type : String) (pair : OutputPair)
      → IsCurrent pair
      → IsCurrent (
          with_output media_type
            (Option.map (make_ready alive track) (output_of media_type pair))
            pair)
  ready-IsCurrent media_type pair h =
      let f = Option.map (make_ready alive track) in
      let after = with_output media_type (f (output_of media_type pair)) pair in
      subst (λ q. IsCarrying q after.video after.audio)
        (sym (with_output-publisher media_type (f (output_of media_type pair)) pair))
        (by_publisher pair.publisher h)
    where
      by_publisher :
          (q : Option PeerId)
          → IsCarrying q pair.video pair.audio
          → let after =
              with_output media_type
                (Option.map (make_ready alive track) (output_of media_type pair))
                pair in
            IsCarrying q after.video after.audio
      by_publisher none h =
          with_output-both IsIdle media_type (Option.map (make_ready alive track)) pair ready-IsIdle
            h
      by_publisher (some p) h =
          with_output-both IsFed media_type (Option.map (make_ready alive track)) pair ready-IsFed h

  module _ (mid media_type : String) (pairs : List OutputPair) where
    pub mark_ready-count :
        (q : PeerId)
        → count (kind alive) q (mark_ready alive track mid media_type pairs)
          ≤ count (kind alive) q pairs
    unfolding mark_ready
    mark_ready-count q =
        elim (Option-cases
          (change_first (has_mid mid media_type) (ready_pair alive track media_type) pairs)) [
            | inl e ↦ rw (e, mark_ready) (le_refl _)
            | inr ((ts, told), e) ↦
                rw (e, mark_ready)
                  (change_first-count _ _ (kind alive)
                    (λ s. inr (
                      with_output-publisher media_type
                        (Option.map (make_ready alive track) (output_of media_type s)) s))
                    q pairs ts told e)
          ]

    pub mark_ready-IsCurrent :
        All (kind alive) IsCurrent pairs
        → All (kind alive) IsCurrent (mark_ready alive track mid media_type pairs)
    unfolding mark_ready
    mark_ready-IsCurrent h =
        elim (Option-cases
          (change_first (has_mid mid media_type) (ready_pair alive track media_type) pairs)) [
            | inl e ↦ rw (e, mark_ready) h
            | inr ((ts, told), e) ↦
                rw (e, mark_ready)
                  (change_first-All _ _ (kind alive) IsCurrent (λ s t. ready-IsCurrent media_type s)
                    pairs ts told e h)
          ]
