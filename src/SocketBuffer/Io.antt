-- ===== src/SocketBuffer/Io.antt =====
-- `ReadFromFD`: `readv` into the buffer and an array of 64 KiB behind it, and `Reserve`, `ToText`.
-- What `readv` returned is an argument: an error number, or the bytes in the order of the vectors.
use reechat_base.Base.{
  ℕ, ◌+◌, ◌-◌, ◌*◌, ◌^◌, ◌≤◌, ◌<◌, ◌≡◌, ◌⊎◌, inl, inr, refl, ap, ap₂, ◌∙◌, List, [], ◌∷◌, ◌++◌,
  Option, some, length, take, drop, slice, length-append, length-drop, take-all, take-append_left,
  take-append-drop, append_assoc, leb, ltb, if◌then◌else◌, ◌>>=◌, arith, memcpy, memcpy-Copied,
  Copied-inside, Copied-before, slice-add, dec_le, add64, sub64,
}
use reechat_base.Endian.{Host, little, big, memory}
use reechat_base.Endian.Bytes.{length-memory}
use reechat_base.SocketBuffer.{SocketBuffer, writable_bytes, reserve, write, unwrite_bytes}
use reechat_base.SocketBuffer.Grow.{IsValid, unread, Allocates, grow-Roomy}
use reechat_base.SocketBuffer.Editing.{Holds, length-unread, write_lem}
use reechat_base.SocketBuffer.Taking.{unwrite_bytes_lem}
use reechat_base.SocketBuffer.Integers.{append_int8, to_text}

pub data ReadV : Type 0 where
  failed : ℕ → ReadV
  received : List ℕ → ReadV

-- -1 with the error number saved, or the number of bytes.
pub data ReadReturn : Type 0 where
  error : ℕ → ReadReturn
  count : ℕ → ReadReturn

abbrev pub extra_size : ℕ
extra_size = 65536

-- The bytes that the vectors given to `readv` have room for.
abbrev pub vector_room : SocketBuffer → ℕ
vector_room b =
    let writable = b.capacity - b.write_index in
    if ltb writable extra_size then writable + extra_size else writable

module _ (allocate : ℕ → List ℕ) where
  take_received : SocketBuffer → ℕ → List ℕ → Option SocketBuffer
  take_received b writable bytes =
      if leb (length bytes) writable
      then (memcpy b.buffer b.write_index bytes (length bytes) >>= λ arr.
          some (record b { buffer = arr; write_index = add64 b.write_index (length bytes) }))
      else (memcpy b.buffer b.write_index bytes writable >>= λ arr.
          write allocate (record b { buffer = arr; write_index = b.capacity }) (drop writable bytes)
            (sub64 (length bytes) writable))

  pub read_from_fd : SocketBuffer → ReadV → Option (SocketBuffer × ReadReturn)
  unfolding writable_bytes take_received
  read_from_fd b (failed errno) = do writable ← writable_bytes b; some (b, error errno)
  read_from_fd b (received bytes) = do
    writable ← writable_bytes b
    c ← take_received b writable bytes
    some (c, count (length bytes))

-- Bytes copied behind the unread ones where there is room for them.
copied_behind :
    {b : SocketBuffer} (d : List ℕ) (len : ℕ)
    → IsValid b
    → b.write_index + len ≤ b.capacity
    → len ≤ length d
    → (arr : List ℕ) × (memcpy b.buffer b.write_index d len ≡ some arr)
      × Holds
          (record b { buffer = arr; write_index = b.write_index + len })
          (unread b ++ take len d)
copied_behind {b} d len v room enough =
    let storage = v.storage in
    let ordered = v.ordered in
    let within = v.within in
    let inside : b.write_index + len ≤ length b.buffer = omega arith in
    let (arr, k) = memcpy-Copied b.buffer b.write_index d len inside enough in
    let same = k.same_length in
    let old : ℕ = b.write_index - b.read_index in
    let total : b.write_index + len - b.read_index ≡ old + len = omega arith in
    let at : b.read_index + old ≡ b.write_index = omega arith in
    (
      arr,
      k.copies,
      record {
        valid = record {
          storage = omega arith;
          ordered = omega arith;
          within = room;
          gap = v.gap;
          word = v.word;
        };
        holds =
            ap (slice arr b.read_index) total
            ∙ slice-add arr b.read_index old len (omega arith)
            ∙ ap₂ ◌++◌ (Copied-before k inside b.read_index old (omega arith))
                (ap (λ t. slice arr t len) at ∙ Copied-inside k inside enough);
      },
    )

-- `ReadFromFD` appends the bytes that `readv` delivered, those in the second vector too, and
-- returns their number; on an error it leaves the buffer alone and returns the error.
pub read_from_fd_lem :
    (allocate : ℕ → List ℕ) {b : SocketBuffer} (bytes : List ℕ) (errno : ℕ)
    → Allocates allocate
    → IsValid b
    → 2 * b.capacity + extra_size < 2 ^ 64
    → length bytes ≤ vector_room b
    → ((c : SocketBuffer) × (read_from_fd allocate b (received bytes)
          ≡ some (c, count (length bytes)))
        × Holds c (unread b ++ bytes))
      × (read_from_fd allocate b (failed errno) ≡ some (b, error errno))
unfolding read_from_fd
read_from_fd_lem allocate {b} bytes errno allocates v fits promised =
    let ordered = v.ordered in
    let within = v.within in
    let word = v.word in
    (
      elim (dec_le (length bytes) (b.capacity - b.write_index)) [
        | yes here ↦
            let (arr, e, h) = copied_behind bytes (length bytes) v (omega arith) (omega arith) in
            (
              record b { buffer = arr; write_index = b.write_index + length bytes },
              ground (arith, e),
              rw (take-all (length bytes) bytes (omega arith)) at h,
            )
        | no more ↦
            let w : ℕ = b.capacity - b.write_index in
            let (arr, e, h) = copied_behind bytes w v (omega arith) (omega arith) in
            let full : b.write_index + w ≡ b.capacity = omega arith in
            let h' : Holds (record b { buffer = arr; write_index = b.capacity })
                (unread b ++ take w bytes) =
              rw full at h in
            let rest : ℕ = length bytes - w in
            let size_rest : length (drop w bytes) ≡ rest = length-drop w bytes in
            let extra : rest ≤ extra_size = ground arith in
            let (c, f, valid, holds, _, _) =
              write_lem allocate (drop w bytes) rest allocates h'.valid (omega arith)
                (omega arith) in
            (
              c,
              ground (arith, e, f),
              record {
                valid = valid;
                holds =
                    holds
                    ∙ ap₂ ◌++◌ h'.holds (take-all rest (drop w bytes) (omega arith))
                    ∙ append_assoc (unread b) (take w bytes) (drop w bytes)
                    ∙ ap (◌++◌ (unread b)) (take-append-drop w bytes);
              },
            )
      ],
      ground arith,
    )

-- `Reserve(len)` leaves the unread bytes and a capacity of at least `len` besides the gap: nothing
-- changes if that is there already, and otherwise a larger array is allocated.
pub reserve_lem :
    (allocate : ℕ → List ℕ) {b : SocketBuffer} (len : ℕ)
    → Allocates allocate
    → IsValid b
    → 2 * b.capacity + (len + b.reserved_prepend_size) < 2 ^ 64
    → (c : SocketBuffer) × (reserve allocate b len ≡ some c)
      × Holds c (unread b)
      × (len + b.reserved_prepend_size ≤ c.capacity)
      × ((c ≡ b) ⊎ (b.capacity < len + b.reserved_prepend_size))
unfolding reserve
reserve_lem allocate {b} len allocates v fits =
    let want : ℕ = len + b.reserved_prepend_size in
    elim (dec_le want b.capacity) [
      | yes there ↦ (b, ground arith, record { valid = v; holds = refl }, there, inl refl)
      | no short ↦
          let (c, e, r) = grow-Roomy allocate allocates {b = b} want v fits (omega arith) in
          let room = r.room in
          (
            c,
            ground (arith, e),
            record { valid = r.valid; holds = r.kept },
            omega arith,
            inr (omega arith),
          )
    ]

zero_byte : (host : Host) → memory host 1 0 ≡ 0 ∷ []
zero_byte little = refl
zero_byte big = refl

-- `ToText` leaves the unread bytes as they were, and the byte 0 stands right behind them.
pub to_text_lem :
    (allocate : ℕ → List ℕ) (host : Host) {b : SocketBuffer}
    → Allocates allocate
    → IsValid b
    → 2 * b.capacity + 1 < 2 ^ 64
    → (c : SocketBuffer) × (to_text host allocate b ≡ some c)
      × Holds c (unread b)
      × (slice c.buffer c.read_index (length (unread b) + 1) ≡ unread b ++ 0 ∷ [])
unfolding to_text append_int8 unwrite_bytes
to_text_lem allocate host {b} allocates v fits =
    let (c, e, valid, holds, _, _) =
      write_lem allocate (memory host 1 0) 1 allocates v fits
        (omega (arith, length-memory host 1 0)) in
    let bytes : unread c ≡ unread b ++ 0 ∷ [] =
      holds ∙ ap (λ l. unread b ++ take 1 l) (zero_byte host) in
    let total : length (unread c) ≡ length (unread b) + 1 =
      ap length bytes ∙ length-append (unread b) (0 ∷ []) in
    let (d, f, back) = (unwrite_bytes_lem valid 1).0 (omega arith) in
    let word = valid.word in
    let ordered = valid.ordered in
    let within = valid.within in
    let span = length-unread valid in
    let same : d ≡ record c { write_index = c.write_index - 1 } = ground arith in
    (
      d,
      ground (arith, e, f),
      record {
        valid = back.valid;
        holds =
            back.holds
            ∙ ap₂ take (omega arith) bytes
            ∙ take-append_left (length (unread b)) (unread b) (0 ∷ []) (omega arith)
            ∙ take-all (length (unread b)) (unread b) (omega arith);
      },
      rw same (ap (slice c.buffer c.read_index) (omega arith) ∙ bytes),
    )
