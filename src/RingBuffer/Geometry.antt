-- ===== src/RingBuffer/Geometry.antt =====
-- The representation invariant of a ring buffer, and the arithmetic of its indices: the mask is a
-- remainder, and no sum of an index and a length wraps.
use native.Mathlib.Nat.{
  one-le-pow, pow-le-pow_right, mod-lt, mod-eq_of_lt, mod-eq-sub-mod, mod-add-mod,
}
use reechat_base.Base.{
  ℕ, ◌+◌, ◌-◌, ◌%◌, ◌^◌, ◌≤◌, ◌<◌, ◌≡◌, ◌≢◌, ◌⊎◌, inl, inr, refl, sym, ap, ◌∙◌, length, arith,
  add32, u32, bit_and, bit_and-mask, wrap32-mod, leb, Bool-cases, tests,
}
use reechat_base.RingBuffer.{RingBuffer, content_size, index}

pub record IsValid (r : RingBuffer) : Type 0 where
  pub bits : ℕ
  pub bits_small : bits < 32
  pub power : r.capacity ≡ 2 ^ bits
  pub mask : r.max_index ≡ r.capacity - 1
  pub storage : length r.data_arr ≡ r.capacity
  pub read_word : r.read_count < 2 ^ 32
  pub write_word : r.write_count < 2 ^ 32
  pub fits : content_size r ≤ r.capacity

-- Where the sum of an index and an offset of at most one round lands.
pub round :
    (c x i : ℕ)
    → 1 ≤ c
    → i ≤ c
    → ((x % c + i < c) × ((x + i) % c ≡ x % c + i))
      ⊎ ((c ≤ x % c + i) × ((x + i) % c ≡ x % c + i - c))
round c x i pos h = elim (Bool-cases (leb c (x % c + i))) [
  | inl over ↦
      let past : c ≤ x % c + i = omega tests in
      let low : x % c + i - c < c = omega (arith, mod-lt x pos) in
      inr (past, sym (mod-add-mod x c i) ∙ mod-eq-sub-mod past ∙ mod-eq_of_lt low)
  | inr under ↦
      let low : x % c + i < c = omega tests in inl (low, sym (mod-add-mod x c i) ∙ mod-eq_of_lt low)
]

-- Less than one round away is another place.
pub apart : (c x d : ℕ) → 0 < d → d < c → (x + d) % c ≢ x % c
apart c x d pos h e = ground (arith, round c x d (omega arith) (omega arith))

module _ {r : RingBuffer} (v : IsValid r) where
  pub capacity_pos : 1 ≤ r.capacity
  capacity_pos = omega (arith, v.power, one-le-pow v.bits 2 (omega arith))

  pub capacity_small : r.capacity ≤ 2 ^ 31
  capacity_small =
      let bound : 2 ^ v.bits ≤ 2 ^ 31 =
        pow-le-pow_right {n = 2} (omega arith) {j = 31} (omega arith) in
      omega (arith, v.power)

  pub index-mod : (c : ℕ) → index r c ≡ c % r.capacity
  index-mod c = ap (bit_and c) v.mask ∙ rw v.power (bit_and-mask v.bits c)

  pub index-lt : (c : ℕ) → index r c < r.capacity
  index-lt c = omega (arith, index-mod c, mod-lt c capacity_pos)

  -- A counter's wrap at 2 ^ 32 does not move its index.
  pub wrap-mod : (x : ℕ) → u32 x % r.capacity ≡ x % r.capacity
  wrap-mod x = rw v.power (wrap32-mod v.bits x (omega (arith, v.bits_small)))

  wrapped_position : (x y i : ℕ) → x ≡ u32 y → (x + i) % r.capacity ≡ (y + i) % r.capacity
  wrapped_position x y i e =
      sym (mod-add-mod x r.capacity i)
      ∙ ap (λ (k : ℕ). (k + i) % r.capacity) (ap (λ (k : ℕ). k % r.capacity) e ∙ wrap-mod y)
      ∙ mod-add-mod y r.capacity i

  -- The place of a byte counted from the writer is its place counted from the reader.
  pub write_position :
      (i : ℕ)
      → (r.write_count + i) % r.capacity ≡ (r.read_count + (content_size r + i)) % r.capacity
  write_position i =
      let e : r.write_count ≡ u32 (r.read_count + content_size r) =
        omega (arith, v.read_word, v.write_word) in
      wrapped_position r.write_count (r.read_count + content_size r) i e
      ∙ ap (λ (k : ℕ). k % r.capacity) (omega arith)

  -- Reading on moves every index by as much.
  pub read_position :
      (n i : ℕ) → (add32 r.read_count n + i) % r.capacity ≡ (r.read_count + (n + i)) % r.capacity
  read_position n i =
      wrapped_position (add32 r.read_count n) (r.read_count + n) i refl
      ∙ ap (λ (k : ℕ). k % r.capacity) (omega arith)
