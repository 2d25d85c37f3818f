-- ===== src/Rtp/Rewrite/Finish.antt =====
-- The last steps of `rewrite_rtp_for_slot`: what leaves for the slot, with its padding cut off.
use driscord.Common.{
  ℕ, ◌+◌, ◌-◌, ◌*◌, ◌%◌, ◌^◌, ◌≤◌, ◌<◌, ◌≡◌, refl, ◌∙◌, ap, ◌⊎◌, inl, inr, Bool, true, false, ◌||◌,
  some, length, get_elem?, set, take, ltb, ltb-false, leb, leb-false, ◌==◌, if◌then◌else◌, arith,
  length-take, length-set, get_elem?-take, get_elem?-set_self, get_elem?-set_ne,
}
use driscord.Rtp.Packet.{
  Packet, done, ◌>>=◌, byte_at, network_u32, set_byte, set_network_u32, has_bit, clear_bit,
}
use driscord.Rtp.Packet.Laws.{
  Returns, Returns-bind, Returns-if, read, octet, octet-eq, set_byte_in_range, AgreeOutside,
}
use driscord.Rtp.Packet.Words.{set_network_u32-Returns}
use driscord.Rtp.Extension.{Cleared}
use driscord.Rtp.Rewrite.{finish}

abbrev pub IsBytes : Packet → Type 0
IsBytes p = (i : ℕ) → octet p i < 2 ^ 8

-- The padding that the packet announces.
abbrev pub padding : Packet → ℕ
padding p = if has_bit (octet p 0) 5 then octet p (length p - 1) else 0

abbrev pub header_size : Packet → ℕ
header_size p = 12 + octet p 0 % 2 ^ 4 * 4

-- Where the payload begins: behind the fixed header, the CSRC list and the header extension.
abbrev pub payload_begin : Packet → ℕ
payload_begin p =
    if has_bit (octet p 0) 4
    then header_size p
      + 4
      + (octet p (header_size p + 2) * 2 ^ 8 + octet p (header_size p + 2 + 1)) * 4
    else header_size p

-- The packet without its padding.
record Unpadded (p q : Packet) : Type 0 where
  size : length q + padding p ≡ length p
  enough : 12 ≤ length q
  flags : get_elem? q 0 ≡ some (clear_bit (octet p 0) 5)
  kept : (i : ℕ) → 1 ≤ i → i < length q → get_elem? q i ≡ get_elem? p i

-- What leaves for the slot: the padding and its flag are gone, the SSRC is the slot's, and the
-- payload type, the sequence number, the timestamp and the payload are the publisher's.
pub record Sent (p : Packet) (begin ssrc : ℕ) (q : Packet) : Type 0 where
  pub size : length q + padding p ≡ length p
  pub enough : 12 ≤ length q
  pub flags : get_elem? q 0 ≡ some (clear_bit (octet p 0) 5)
  pub header : (i : ℕ) → 1 ≤ i → i < 8 → get_elem? q i ≡ get_elem? p i
  pub stamped : network_u32 q 8 ≡ done ssrc
  pub whole : begin ≤ length q
  pub room : has_bit (octet p 0) 5 ≡ true → begin < length p
  pub payload : (i : ℕ) → begin ≤ i → i < length q → get_elem? q i ≡ get_elem? p i

abbrev pub IsRewritten : Packet → ℕ → ℕ → Cleared → Type 0
IsRewritten p begin ssrc r =
    ((r.0 ≡ false) × (length r.1 ≡ length p)) ⊎ ((r.0 ≡ true) × Sent p begin ssrc r.1)

stamp-Sent :
    (p q r : Packet) (begin ssrc : ℕ)
    → 12 ≤ begin
    → begin ≤ length q
    → (has_bit (octet p 0) 5 ≡ true → begin < length p)
    → Unpadded p q
    → AgreeOutside 8 12 q r
    → network_u32 r 8 ≡ done ssrc
    → Sent p begin ssrc r
stamp-Sent p q r begin ssrc past whole room u agree stamped = record {
  size = omega (arith, agree.same_length, u.size);
  enough = omega (arith, agree.same_length, u.enough);
  flags = agree.same_bytes 0 (inl (omega arith)) ∙ u.flags;
  header = λ i low high. agree.same_bytes i (inl high) ∙ u.kept i low (omega (arith, u.enough));
  stamped = stamped;
  whole = omega (arith, agree.same_length);
  room = room;
  payload = λ i low high.
      agree.same_bytes i (inr (omega arith))
      ∙ u.kept i (omega arith) (omega (arith, agree.same_length));
}

unset_bit : (b : ℕ) → has_bit b 5 ≡ false → b ≡ clear_bit b 5
unset_bit b h = ground arith

no_padding : (p : Packet) → has_bit (octet p 0) 5 ≡ false → padding p ≡ 0
no_padding p h = rw h

Unpadded-self : (p : Packet) → 12 ≤ length p → has_bit (octet p 0) 5 ≡ false → Unpadded p p
Unpadded-self p h plain = record {
  size = omega (arith, no_padding p plain);
  enough = h;
  flags = octet-eq p 0 (omega arith) ∙ ap some (unset_bit (octet p 0) plain);
  kept = λ i low high. refl;
}

some_padding : (p : Packet) → has_bit (octet p 0) 5 ≡ true → padding p ≡ octet p (length p - 1)
some_padding p h = rw h

Unpadded-cut :
    (p : Packet) (n : ℕ)
    → has_bit (octet p 0) 5 ≡ true
    → octet p (length p - 1) + 12 ≤ length p
    → n ≡ length p - octet p (length p - 1)
    → Unpadded p (set (take n p) 0 (clear_bit (octet p 0) 5))
Unpadded-cut p n padded short e =
    let l = length-take n p in
    let v = clear_bit (octet p 0) 5 in
    let m = length-set (take n p) 0 v in
    let size_eq : length (set (take n p) 0 v) ≡ n = omega arith in
    record {
      size = omega (arith, some_padding p padded);
      enough = omega arith;
      flags = get_elem?-set_self (take n p) 0 v (omega arith);
      kept = λ i low high.
          get_elem?-set_ne (take n p) 0 i v (λ z. omega arith) ∙ get_elem?-take n p i (omega arith);
    }

stamp-Returns :
    (p q : Packet) (begin ssrc : ℕ)
    → 12 ≤ begin
    → begin ≤ length q
    → ssrc < 2 ^ 32
    → (has_bit (octet p 0) 5 ≡ true → begin < length p)
    → Unpadded p q
    → Returns (set_network_u32 q 8 ssrc >>= λ r. done (true, r)) (IsRewritten p begin ssrc)
stamp-Returns p q begin ssrc past whole small room u =
    Returns-bind (set_network_u32 q 8 ssrc) _ _ _
      (set_network_u32-Returns q 8 ssrc (omega (arith, u.enough)) small)
      (λ r stamped. inr (refl, stamp-Sent p q r begin ssrc past whole room u stamped.0 stamped.1))

or_false : (a b : Bool) → (a || b) ≡ false → b ≡ false
or_false a b h = ground arith

octet-take : (p : Packet) (n : ℕ) → 0 < n → octet (take n p) 0 ≡ octet p 0
octet-take p n h = ground (arith, get_elem?-take n p 0 h)

cut-Returns :
    (p : Packet) (n begin ssrc : ℕ)
    → 12 ≤ begin
    → begin ≤ n
    → begin < length p
    → ssrc < 2 ^ 32
    → has_bit (octet p 0) 5 ≡ true
    → octet p (length p - 1) + begin ≤ length p
    → n ≡ length p - octet p (length p - 1)
    → Returns
        (byte_at (take n p) 0 >>= λ b. set_byte (take n p) 0 (clear_bit b 5) >>= λ q.
          set_network_u32 q 8 ssrc >>= λ r. done (true, r))
        (IsRewritten p begin ssrc)
cut-Returns p n begin ssrc past within below small padded fits e =
    let l = length-take n p in
    let v = clear_bit (octet p 0) 5 in
    let m = length-set (take n p) 0 v in
    read (take n p) 0 _ _ (omega arith) (
      rw (octet-take p n (omega arith), set_byte_in_range (take n p) 0 v (omega arith))
        (stamp-Returns p (set (take n p) 0 v) begin ssrc past (omega arith) small (λ _. below)
          (Unpadded-cut p n padded (omega arith) e)))

pub finish-IsRewritten :
    (p : Packet) (begin ssrc : ℕ)
    → 12 ≤ begin
    → begin ≤ length p
    → ssrc < 2 ^ 32
    → Returns (finish p begin ssrc) (IsRewritten p begin ssrc)
unfolding finish
finish-IsRewritten p begin ssrc past inside small =
    let last = octet p (length p - 1) in
    read p 0 _ _ (omega arith) (
      Returns-if (has_bit (octet p 0) 5) _ _ _
        (λ padded.
          Returns-if (leb (length p) begin) _ _ _ (λ _. inl (refl, refl))
            (λ inner.
              let below = leb-false (length p) begin inner in
              read p (length p - 1) _ _ (omega arith) (
                Returns-if (last == 0 || ltb (length p - begin) last) _ _ _ (λ _. inl (refl, refl))
                  (λ fits.
                    let small_enough =
                      ltb-false (length p - begin) last (or_false (last == 0) _ fits) in
                    cut-Returns p (length p - last) begin ssrc past (omega arith) below small padded
                      (omega arith) refl))))
        (λ plain.
          stamp-Returns p p begin ssrc past inside small (λ b. cc)
            (Unpadded-self p (omega arith) plain)))
