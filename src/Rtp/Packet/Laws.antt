-- ===== src/Rtp/Packet/Laws.antt =====
-- What the accessors return inside the packet, and what a write leaves alone.
use driscord.Common.{
  ℕ, zero, suc, ◌+◌, ◌≤◌, ◌<◌, ◌≡◌, refl, ◌⊎◌, inl, none, some, length, get_elem?, set, lt→ltb,
  length-set, get_elem?-set_self, get_elem?-set_ne, get_elem?_in_range, arith, ◌∙◌, Bool, true,
  false, if◌then◌else◌,
}
use native.Mathlib.Decide.{dec_lt}
use driscord.Rtp.Packet.{Packet, Run, done, fault, spent, ◌>>=◌, byte_at, set_byte, fill_zero}

-- The run returns, and its result has the property.
abbrev pub Returns : {A : Type 0} → Run A → (A → Type 0) → Type 0
Returns (done a) P = P a
Returns fault P = ⊥
Returns spent P = ⊥

pub Returns-bind :
    {A B : Type 0} (m : Run A) (f : A → Run B) (P : A → Type 0) (Q : B → Type 0)
    → Returns m P
    → ((a : A) → P a → Returns (f a) Q)
    → Returns (m >>= f) Q
Returns-bind (done a) f P Q h k = k a h
Returns-bind fault f P Q h k = absurd h
Returns-bind spent f P Q h k = absurd h

pub Returns-weaken :
    {A : Type 0} (m : Run A) (P Q : A → Type 0) → ((a : A) → P a → Q a) → Returns m P → Returns m Q
Returns-weaken (done a) P Q k h = k a h
Returns-weaken fault P Q k h = absurd h
Returns-weaken spent P Q k h = absurd h

pub Returns-if :
    {A : Type 0} (b : Bool) (x y : Run A) (P : A → Type 0)
    → (b ≡ true → Returns x P)
    → (b ≡ false → Returns y P)
    → Returns (if b then x else y) P
Returns-if true x y P h k = h refl
Returns-if false x y P h k = k refl

-- The byte at an offset, 0 past the end: for statements.
abbrev pub octet : Packet → ℕ → ℕ
octet packet i = elim (get_elem? packet i) [ none ↦ 0 | some b ↦ b ]

pub octet-eq : (p : Packet) (i : ℕ) → i < length p → get_elem? p i ≡ some (octet p i)
octet-eq p i h = let (b, e) = get_elem?_in_range p i h in ground (arith, e)

pub byte_at-eq : (p : Packet) (i : ℕ) {b : ℕ} → get_elem? p i ≡ some b → byte_at p i ≡ done b
unfolding byte_at
byte_at-eq p i e = ground arith

pub byte_at_in_range : (p : Packet) (i : ℕ) → i < length p → byte_at p i ≡ done (octet p i)
unfolding byte_at
byte_at_in_range p i h = let (b, e) = get_elem?_in_range p i h in ground (arith, e)

-- A byte inside the packet is read.
pub read :
    {B : Type 0} (p : Packet) (i : ℕ) (f : ℕ → Run B) (Q : B → Type 0)
    → i < length p
    → Returns (f (octet p i)) Q
    → Returns (byte_at p i >>= f) Q
read p i f Q h r = rw (byte_at_in_range p i h) r

pub set_byte_in_range : (p : Packet) (i v : ℕ) → i < length p → set_byte p i v ≡ done (set p i v)
unfolding set_byte
set_byte_in_range p i v h = rw (lt→ltb i (length p) h)

-- Both packets have one length, and agree at every offset below `lo` or from `hi` on.
pub record AgreeOutside (lo hi : ℕ) (p q : Packet) : Type 0 where
  pub same_length : length q ≡ length p
  pub same_bytes : (i : ℕ) → (i < lo) ⊎ (hi ≤ i) → get_elem? q i ≡ get_elem? p i

pub AgreeOutside-refl : (lo hi : ℕ) (p : Packet) → AgreeOutside lo hi p p
AgreeOutside-refl lo hi p = record { same_length = refl; same_bytes = λ i h. refl }

pub AgreeOutside-trans :
    {lo hi : ℕ} {p q r : Packet}
    → AgreeOutside lo hi p q
    → AgreeOutside lo hi q r
    → AgreeOutside lo hi p r
AgreeOutside-trans a b = record {
  same_length = omega (arith, a.same_length, b.same_length);
  same_bytes = λ i h. ground (arith, a.same_bytes i h, b.same_bytes i h);
}

pub AgreeOutside-widen :
    {lo hi lo' hi' : ℕ} {p q : Packet}
    → lo' ≤ lo
    → hi ≤ hi'
    → AgreeOutside lo hi p q
    → AgreeOutside lo' hi' p q
AgreeOutside-widen below above a = record {
  same_length = a.same_length;
  same_bytes = λ i h. a.same_bytes i (omega arith);
}

pub AgreeOutside-set : (p : Packet) (i v : ℕ) → AgreeOutside i (i + 1) p (set p i v)
AgreeOutside-set p i v = record {
  same_length = length-set p i v;
  same_bytes = λ j out. get_elem?-set_ne p i j v (λ e. omega arith);
}

-- Zeros in `[i, i + n)`, and no change elsewhere.
abbrev pub ZeroFilled : Packet → ℕ → ℕ → Packet → Type 0
ZeroFilled p i n q =
    AgreeOutside i (i + n) p q × ((j : ℕ) → i ≤ j → j < i + n → get_elem? q j ≡ some 0)

fill_zero-step :
    (p : Packet) (i n : ℕ)
    → i < length p
    → (q : Packet) → ZeroFilled (set p i 0) (i + 1) n q
    → ZeroFilled p i (suc n) q
fill_zero-step p i n h q (agree, zeros) = (
  AgreeOutside-trans (AgreeOutside-widen (omega arith) (omega arith) (AgreeOutside-set p i 0))
      (AgreeOutside-widen (omega arith) (omega arith) agree),
  λ j below above. elim (dec_lt i j) [
    | yes later ↦ zeros j (omega arith) (omega arith)
    | no here ↦
        let at : j ≡ i = omega arith in
        rw at (agree.same_bytes i (inl (omega arith)) ∙ get_elem?-set_self p i 0 h)
  ],
)

pub fill_zero-Returns :
    (p : Packet) (i n : ℕ) → i + n ≤ length p → Returns (fill_zero p i n) (ZeroFilled p i n)
unfolding fill_zero
fill_zero-Returns p i zero h = (AgreeOutside-refl _ _ p, λ j a b. absurd (omega arith))
fill_zero-Returns p i (suc n) h =
    let l = length-set p i 0 in
    rw (set_byte_in_range p i 0 (omega arith)) (
      Returns-weaken (fill_zero (set p i 0) (i + 1) n) _ _ (fill_zero-step p i n (omega arith))
        (fill_zero-Returns (set p i 0) (i + 1) n (omega arith)))
