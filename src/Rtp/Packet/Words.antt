-- ===== src/Rtp/Packet/Words.antt =====
-- Numbers of two and four bytes, written and read back.
use driscord.Common.{
  ℕ, ◌+◌, ◌*◌, ◌/◌, ◌%◌, ◌^◌, ◌≤◌, ◌<◌, ◌≡◌, ◌⊎◌, some, length, get_elem?, set, ap, length-set,
  get_elem?-set_self, get_elem?-set_ne, arith, bit_or, ◌∙◌,
}
use driscord.Common.Bits.{bit_or_disjoint}
use driscord.Rtp.Packet.{
  Packet, done, byte_at, network_u16, network_u32, set_network_u16, set_network_u32,
}
use driscord.Rtp.Packet.Laws.{
  Returns, octet, octet-eq, byte_at-eq, byte_at_in_range, set_byte_in_range, AgreeOutside,
  AgreeOutside-set, AgreeOutside-trans, AgreeOutside-widen,
}

-- Four writes in a row.
abbrev set_four : Packet → ℕ → ℕ → ℕ → ℕ → ℕ → Packet
set_four p i a b c d = set (set (set (set p i a) (i + 1) b) (i + 2) c) (i + 3) d

set_four-AgreeOutside :
    (p : Packet) (i a b c d : ℕ) → AgreeOutside i (i + 4) p (set_four p i a b c d)
set_four-AgreeOutside p i a b c d =
    let p1 = set p i a in
    let p2 = set p1 (i + 1) b in
    let p3 = set p2 (i + 2) c in
    record {
      same_length = omega (
        arith,
        length-set p i a,
        length-set p1 (i + 1) b,
        length-set p2 (i + 2) c,
        length-set p3 (i + 3) d,
      );
      same_bytes = λ j out.
          get_elem?-set_ne p3 (i + 3) j d (λ e. omega arith)
          ∙ get_elem?-set_ne p2 (i + 2) j c (λ e. omega arith)
          ∙ get_elem?-set_ne p1 (i + 1) j b (λ e. omega arith)
          ∙ get_elem?-set_ne p i j a (λ e. omega arith);
    }

record Stores (q : Packet) (i a b c d : ℕ) : Type 0 where
  first : get_elem? q i ≡ some a
  second : get_elem? q (i + 1) ≡ some b
  third : get_elem? q (i + 2) ≡ some c
  fourth : get_elem? q (i + 3) ≡ some d

set_four-Stores :
    (p : Packet) (i a b c d : ℕ) → i + 4 ≤ length p → Stores (set_four p i a b c d) i a b c d
set_four-Stores p i a b c d h =
    let p1 = set p i a in
    let p2 = set p1 (i + 1) b in
    let p3 = set p2 (i + 2) c in
    let l1 = length-set p i a in
    let l2 = length-set p1 (i + 1) b in
    let l3 = length-set p2 (i + 2) c in
    record {
      first =
          get_elem?-set_ne p3 (i + 3) i d (λ e. omega arith)
          ∙ get_elem?-set_ne p2 (i + 2) i c (λ e. omega arith)
          ∙ get_elem?-set_ne p1 (i + 1) i b (λ e. omega arith)
          ∙ get_elem?-set_self p i a (omega arith);
      second =
          get_elem?-set_ne p3 (i + 3) (i + 1) d (λ e. omega arith)
          ∙ get_elem?-set_ne p2 (i + 2) (i + 1) c (λ e. omega arith)
          ∙ get_elem?-set_self p1 (i + 1) b (omega arith);
      third =
          get_elem?-set_ne p3 (i + 3) (i + 2) d (λ e. omega arith)
          ∙ get_elem?-set_self p2 (i + 2) c (omega arith);
      fourth = get_elem?-set_self p3 (i + 3) d (omega arith);
    }

set_network_u32-eq :
    (p : Packet) (i v : ℕ)
    → i + 4 ≤ length p
    → set_network_u32 p i v
      ≡ done
          (set_four p i (v / 2 ^ 24 % 2 ^ 8) (v / 2 ^ 16 % 2 ^ 8) (v / 2 ^ 8 % 2 ^ 8) (v % 2 ^ 8))
unfolding set_network_u32
set_network_u32-eq p i v h =
    let a = v / 2 ^ 24 % 2 ^ 8 in
    let b = v / 2 ^ 16 % 2 ^ 8 in
    let c = v / 2 ^ 8 % 2 ^ 8 in
    let p1 = set p i a in
    let p2 = set p1 (i + 1) b in
    let p3 = set p2 (i + 2) c in
    let l1 = length-set p i a in
    let l2 = length-set p1 (i + 1) b in
    let l3 = length-set p2 (i + 2) c in
    rw
      (
        set_byte_in_range p i a (omega arith),
        set_byte_in_range p1 (i + 1) b (omega arith),
        set_byte_in_range p2 (i + 2) c (omega arith),
      )
      (set_byte_in_range p3 (i + 3) (v % 2 ^ 8) (omega arith))

or_field : (k a q r : ℕ) → a ≡ q * 2 ^ k → r < 2 ^ k → bit_or a r ≡ q * 2 ^ k + r
or_field k a q r e fits = rw e (bit_or_disjoint k q r fits)

-- The four bytes of a 32-bit value, joined again.
joined_bytes :
    (v : ℕ)
    → v < 2 ^ 32
    → bit_or
        (bit_or
          (bit_or (v / 2 ^ 24 % 2 ^ 8 * 2 ^ 24 % 2 ^ 32) (v / 2 ^ 16 % 2 ^ 8 * 2 ^ 16))
          (v / 2 ^ 8 % 2 ^ 8 * 2 ^ 8))
        (v % 2 ^ 8)
      ≡ v
joined_bytes v small =
    let b0 = v / 2 ^ 24 % 2 ^ 8 * 2 ^ 24 % 2 ^ 32 in
    let b1 = v / 2 ^ 16 % 2 ^ 8 * 2 ^ 16 in
    let b2 = v / 2 ^ 8 % 2 ^ 8 * 2 ^ 8 in
    let e1 : bit_or b0 b1 ≡ v / 2 ^ 24 * 2 ^ 24 + b1 =
      or_field 24 b0 (v / 2 ^ 24) b1 (omega arith) (omega arith) in
    let e2 : bit_or (bit_or b0 b1) b2 ≡ v / 2 ^ 16 * 2 ^ 16 + b2 =
      or_field 16 (bit_or b0 b1) (v / 2 ^ 16) b2 (omega arith) (omega arith) in
    let e3 : bit_or (bit_or (bit_or b0 b1) b2) (v % 2 ^ 8) ≡ v / 2 ^ 8 * 2 ^ 8 + v % 2 ^ 8 =
      or_field 8 (bit_or (bit_or b0 b1) b2) (v / 2 ^ 8) (v % 2 ^ 8) (omega arith) (omega arith) in
    omega arith

-- Reading back four stored bytes.
network_u32-eq :
    (p : Packet) (i v : ℕ)
    → v < 2 ^ 32
    → Stores p i (v / 2 ^ 24 % 2 ^ 8) (v / 2 ^ 16 % 2 ^ 8) (v / 2 ^ 8 % 2 ^ 8) (v % 2 ^ 8)
    → network_u32 p i ≡ done v
unfolding network_u32
network_u32-eq p i v small s =
    rw
      (
        byte_at-eq p i s.first,
        byte_at-eq p (i + 1) s.second,
        byte_at-eq p (i + 2) s.third,
        byte_at-eq p (i + 3) s.fourth,
      )
      (ap done (joined_bytes v small))

-- A 32-bit write stays inside its four bytes, and reads back as the value.
pub set_network_u32-Returns :
    (p : Packet) (i v : ℕ)
    → i + 4 ≤ length p
    → v < 2 ^ 32
    → Returns (set_network_u32 p i v) (λ q. AgreeOutside i (i + 4) p q × (network_u32 q i ≡ done v))
set_network_u32-Returns p i v h small =
    rw (set_network_u32-eq p i v h) (
      set_four-AgreeOutside p i _ _ _ _,
      network_u32-eq _ i v small (set_four-Stores p i _ _ _ _ h),
    )

set_network_u16-eq :
    (p : Packet) (i v : ℕ)
    → i + 2 ≤ length p
    → set_network_u16 p i v ≡ done (set (set p i (v / 2 ^ 8 % 2 ^ 8)) (i + 1) (v % 2 ^ 8))
unfolding set_network_u16
set_network_u16-eq p i v h =
    let l = length-set p i (v / 2 ^ 8 % 2 ^ 8) in
    rw (set_byte_in_range p i (v / 2 ^ 8 % 2 ^ 8) (omega arith))
      (set_byte_in_range (set p i (v / 2 ^ 8 % 2 ^ 8)) (i + 1) (v % 2 ^ 8) (omega arith))

network_u16-eq :
    (p : Packet) (i v : ℕ)
    → v < 2 ^ 16
    → get_elem? p i ≡ some (v / 2 ^ 8 % 2 ^ 8)
    → get_elem? p (i + 1) ≡ some (v % 2 ^ 8)
    → network_u16 p i ≡ done v
unfolding network_u16
network_u16-eq p i v small e0 e1 =
    rw (byte_at-eq p i e0, byte_at-eq p (i + 1) e1)
      (ap done (
        omega (
          arith,
          or_field 8 (v / 2 ^ 8 % 2 ^ 8 * 2 ^ 8) (v / 2 ^ 8) (v % 2 ^ 8) (omega arith)
              (omega arith),
        )))

-- A 16-bit write stays inside its two bytes, and reads back as the value.
pub set_network_u16-Returns :
    (p : Packet) (i v : ℕ)
    → i + 2 ≤ length p
    → v < 2 ^ 16
    → Returns (set_network_u16 p i v) (λ q. AgreeOutside i (i + 2) p q × (network_u16 q i ≡ done v))
set_network_u16-Returns p i v h small =
    let high = v / 2 ^ 8 % 2 ^ 8 in
    let p1 = set p i high in
    let l = length-set p i high in
    rw (set_network_u16-eq p i v h) (
      AgreeOutside-trans
          (AgreeOutside-widen (omega arith) (omega arith) (AgreeOutside-set p i high))
          (AgreeOutside-widen (omega arith) (omega arith)
            (AgreeOutside-set p1 (i + 1) (v % 2 ^ 8))),
      network_u16-eq _ i v small
          (get_elem?-set_ne p1 (i + 1) i (v % 2 ^ 8) (λ e. omega arith)
            ∙ get_elem?-set_self p i high (omega arith))
          (get_elem?-set_self p1 (i + 1) (v % 2 ^ 8) (omega arith)),
    )

-- Reading looks at the number's own bytes only.
pub network_u16-agrees :
    (p q : Packet) (i lo hi : ℕ)
    → (i + 2 ≤ lo) ⊎ (hi ≤ i)
    → AgreeOutside lo hi p q
    → network_u16 q i ≡ network_u16 p i
unfolding network_u16 byte_at
network_u16-agrees p q i lo hi apart a =
    ground (arith, a.same_bytes i (omega arith), a.same_bytes (i + 1) (omega arith))

pub network_u32-agrees :
    (p q : Packet) (i lo hi : ℕ)
    → (i + 4 ≤ lo) ⊎ (hi ≤ i)
    → AgreeOutside lo hi p q
    → network_u32 q i ≡ network_u32 p i
unfolding network_u32 byte_at
network_u32-agrees p q i lo hi apart a = ground (
  arith,
  a.same_bytes i (omega arith),
  a.same_bytes (i + 1) (omega arith),
  a.same_bytes (i + 2) (omega arith),
  a.same_bytes (i + 3) (omega arith),
)

-- Reading inside the packet, for bytes.
pub network_u16_in_range :
    (p : Packet) (i : ℕ)
    → i + 2 ≤ length p
    → octet p i < 2 ^ 8
    → octet p (i + 1) < 2 ^ 8
    → network_u16 p i ≡ done (octet p i * 2 ^ 8 + octet p (i + 1))
unfolding network_u16
network_u16_in_range p i h high low =
    rw (byte_at_in_range p i (omega arith), byte_at_in_range p (i + 1) (omega arith))
      (ap done (omega (arith, bit_or_disjoint 8 (octet p i) (octet p (i + 1)) low)))

abbrev pub joined : Packet → ℕ → ℕ
joined p i =
    octet p i * 2 ^ 24 + octet p (i + 1) * 2 ^ 16 + octet p (i + 2) * 2 ^ 8 + octet p (i + 3)

pub network_u32_in_range :
    (p : Packet) (i : ℕ)
    → i + 4 ≤ length p
    → octet p i < 2 ^ 8
    → octet p (i + 1) < 2 ^ 8
    → octet p (i + 2) < 2 ^ 8
    → octet p (i + 3) < 2 ^ 8
    → network_u32 p i ≡ done (joined p i)
network_u32_in_range p i h h0 h1 h2 h3 = network_u32-eq p i (joined p i) (omega arith) record {
  first = octet-eq p i (omega arith) ∙ ap some (omega arith);
  second = octet-eq p (i + 1) (omega arith) ∙ ap some (omega arith);
  third = octet-eq p (i + 2) (omega arith) ∙ ap some (omega arith);
  fourth = octet-eq p (i + 3) (omega arith) ∙ ap some (omega arith);
}
