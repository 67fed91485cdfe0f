-- ===== src/SocketBuffer/Grow.antt =====
-- The representation invariant, the unread bytes, and the operations that make room.
use reechat_base.Base.{
  ℕ, ◌+◌, ◌-◌, ◌*◌, ◌^◌, ◌≤◌, ◌<◌, ◌≡◌, refl, ap, ◌∙◌, List, some, length, drop, slice, length-drop,
  arith, memcpy-Copied, Copied-inside, dec_lt,
}
use reechat_base.SocketBuffer.{SocketBuffer, grow, ensure_writable_bytes}

pub record IsValid (b : SocketBuffer) : Type 0 where
  pub storage : length b.buffer ≡ b.capacity
  pub ordered : b.read_index ≤ b.write_index
  pub within : b.write_index ≤ b.capacity
  pub gap : b.reserved_prepend_size ≤ b.capacity
  pub word : b.capacity < 2 ^ 64

abbrev pub unread : SocketBuffer → List ℕ
unread b = slice b.buffer b.read_index (b.write_index - b.read_index)

-- `new char[n]` returns `n` bytes.
abbrev pub Allocates : (ℕ → List ℕ) → Type 0
Allocates allocate = (n : ℕ) → length (allocate n) ≡ n

-- What an operation that makes room for `len` more bytes leaves.
pub record Roomy (b : SocketBuffer) (len : ℕ) (c : SocketBuffer) : Type 0 where
  pub valid : IsValid c
  pub kept : unread c ≡ unread b
  pub room : len + c.write_index ≤ c.capacity
  pub same_reserve : c.reserved_prepend_size ≡ b.reserved_prepend_size
  pub larger : b.capacity ≤ c.capacity
  pub bounded : c.capacity ≤ 2 * b.capacity + len

module _ (allocate : ℕ → List ℕ) (allocates : Allocates allocate) where
  module _ {b : SocketBuffer} (len : ℕ) (v : IsValid b) (fits : 2 * b.capacity + len < 2 ^ 64) where
    pub grow-Roomy :
        b.capacity < len + b.write_index
        → (c : SocketBuffer) × (grow allocate b len ≡ some c) × Roomy b len c
    unfolding grow
    grow-Roomy short =
        let storage = v.storage in
        let ordered = v.ordered in
        let within = v.within in
        let gap = v.gap in
        elim (dec_lt (b.capacity - b.write_index + b.read_index) (len + b.reserved_prepend_size)) [
          | yes tight ↦
              let n : ℕ = b.capacity * 2 + len in
              let m : ℕ = b.write_index - b.read_index in
              let room : b.reserved_prepend_size + m ≤ length (allocate n) =
                omega (arith, allocates n) in
              let source : m ≤ length (drop b.read_index b.buffer) =
                omega (arith, length-drop b.read_index b.buffer) in
              let (d, c) =
                memcpy-Copied (allocate n) b.reserved_prepend_size (drop b.read_index b.buffer) m
                  room source in
              let copies = c.copies in
              let same = c.same_length in
              (
                record {
                  buffer = d;
                  capacity = n;
                  read_index = b.reserved_prepend_size;
                  write_index = m + b.reserved_prepend_size;
                  reserved_prepend_size = b.reserved_prepend_size;
                },
                ground (arith, copies),
                record {
                  valid = record {
                    storage = omega (arith, same, allocates n);
                    ordered = omega arith;
                    within = omega arith;
                    gap = omega arith;
                    word = omega arith;
                  };
                  kept =
                      ap (slice d b.reserved_prepend_size) (omega arith)
                      ∙ Copied-inside c room source;
                  room = omega arith;
                  same_reserve = refl;
                  larger = omega arith;
                  bounded = omega arith;
                },
              )
          | no loose ↦
              let m : ℕ = b.write_index - b.read_index in
              let room : b.reserved_prepend_size + m ≤ length b.buffer = omega arith in
              let source : m ≤ length (drop b.read_index b.buffer) =
                omega (arith, length-drop b.read_index b.buffer) in
              let (moved, c) =
                memcpy-Copied b.buffer b.reserved_prepend_size (drop b.read_index b.buffer) m room
                  source in
              let copies = c.copies in
              let same = c.same_length in
              (
                record b {
                  buffer = moved;
                  read_index = b.reserved_prepend_size;
                  write_index = b.reserved_prepend_size + m;
                },
                ground (arith, copies),
                record {
                  valid = record {
                    storage = omega arith;
                    ordered = omega arith;
                    within = omega arith;
                    gap = omega arith;
                    word = v.word;
                  };
                  kept =
                      ap (slice moved b.reserved_prepend_size) (omega arith)
                      ∙ Copied-inside c room source;
                  room = omega arith;
                  same_reserve = refl;
                  larger = omega arith;
                  bounded = omega arith;
                },
              )
        ]

    -- `EnsureWritableBytes` leaves room for `len` more bytes, and its `assert` holds.
    pub ensure_writable_bytes-Roomy :
        (c : SocketBuffer) × (ensure_writable_bytes allocate b len ≡ some c) × Roomy b len c
    unfolding ensure_writable_bytes
    ensure_writable_bytes-Roomy =
        let ordered = v.ordered in
        let within = v.within in
        let word = v.word in
        elim (dec_lt b.capacity (len + b.write_index)) [
          | yes short ↦
              let (c, e, rest) = grow-Roomy short in
              let room = rest.room in let word' = rest.valid.word in (c, ground (arith, e), rest)
          | no enough ↦ (
            b,
            ground arith,
            record {
              valid = v;
              kept = refl;
              room = omega arith;
              same_reserve = refl;
              larger = omega arith;
              bounded = omega arith;
            },
          )
        ]
