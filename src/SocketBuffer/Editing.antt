-- ===== src/SocketBuffer/Editing.antt =====
-- What each operation does to the unread bytes.
use reechat_base.Base.{
  ℕ, ◌+◌, ◌-◌, ◌*◌, ◌^◌, ◌≤◌, ◌<◌, ◌≡◌, sym, ap, ap₂, ◌∙◌, List, ◌++◌, none, some, length, take,
  drop, slice, length-slice, take-take, arith, memcpy-Copied, Copied-inside, Copied-before,
  Copied-after, slice-add, slice-tabulate, tabulate, tabulate_ext, drop-tabulate, get_or, add_assoc,
}
use reechat_base.SocketBuffer.{SocketBuffer, write, prepend}
use reechat_base.SocketBuffer.Grow.{IsValid, unread, Allocates, ensure_writable_bytes-Roomy}

pub length-unread :
    {b : SocketBuffer} → IsValid b → length (unread b) ≡ b.write_index - b.read_index
length-unread {b} v =
    let storage = v.storage in
    let within = v.within in
    let ordered = v.ordered in
    length-slice b.buffer b.read_index (b.write_index - b.read_index) (omega arith)

-- A buffer whose array and indices are such that it stands for the bytes `bytes`.
pub record Holds (c : SocketBuffer) (bytes : List ℕ) : Type 0 where
  pub valid : IsValid c
  pub holds : unread c ≡ bytes

module _ (xs : List ℕ) (i n : ℕ) (inside : i + n ≤ length xs) where
  pub drop-slice : (k : ℕ) → k ≤ n → drop k (slice xs i n) ≡ slice xs (i + k) (n - k)
  drop-slice k h =
      let split : n ≡ k + (n - k) = omega arith in
      ap (drop k) (slice-tabulate xs i n inside)
      ∙ ap (λ t. drop k (tabulate t (λ j. get_or xs (i + j) 0))) split
      ∙ drop-tabulate k (n - k) (λ j. get_or xs (i + j) 0)
      ∙ tabulate_ext (n - k) _ _ (λ j _. ap (λ t. get_or xs t 0) (sym (add_assoc i k j)))
      ∙ sym (slice-tabulate xs (i + k) (n - k) (omega arith))

  pub take-slice : (k : ℕ) → k ≤ n → take k (slice xs i n) ≡ slice xs i k
  take-slice k h = take-take k n (drop i xs) h

-- `Write` and `Append` put the first `len` bytes of `d` behind the unread ones, whatever `new`
-- returned in its array, unless twice the capacity and `len` reach 2 ^ 64.
pub write_lem :
    (allocate : ℕ → List ℕ) {b : SocketBuffer} (d : List ℕ) (len : ℕ)
    → Allocates allocate
    → IsValid b
    → 2 * b.capacity + len < 2 ^ 64
    → len ≤ length d
    → (c : SocketBuffer) × (write allocate b d len ≡ some c)
      × IsValid c
      × (unread c ≡ unread b ++ take len d)
      × (c.reserved_prepend_size ≡ b.reserved_prepend_size)
      × (c.capacity ≤ 2 * b.capacity + len)
unfolding write
write_lem allocate {b} d len allocates v fits enough =
    let (c, e, r) = ensure_writable_bytes-Roomy allocate allocates len v fits in
    let storage = r.valid.storage in
    let ordered = r.valid.ordered in
    let within = r.valid.within in
    let word = r.valid.word in
    let room = r.room in
    let inside : c.write_index + len ≤ length c.buffer = omega arith in
    let (arr, k) = memcpy-Copied c.buffer c.write_index d len inside enough in
    let copies = k.copies in
    let same = k.same_length in
    let old : ℕ = c.write_index - c.read_index in
    let count : c.write_index + len - c.read_index ≡ old + len = omega arith in
    let at : c.read_index + old ≡ c.write_index = omega arith in
    (
      record c { buffer = arr; write_index = c.write_index + len },
      ground (arith, e, copies),
      record {
        storage = omega arith;
        ordered = omega arith;
        within = omega arith;
        gap = r.valid.gap;
        word = word;
      },
      ap (slice arr c.read_index) count
          ∙ slice-add arr c.read_index old len (omega arith)
          ∙ ap₂ ◌++◌ (Copied-before k inside c.read_index old (omega arith) ∙ r.kept)
              (ap (λ t. slice arr t len) at ∙ Copied-inside k inside enough),
      r.same_reserve,
      r.bounded,
    )

-- `Prepend` puts the bytes in front of the unread ones if the gap has room for them, and otherwise
-- its `assert` fails.
pub prepend_lem :
    {b : SocketBuffer} (d : List ℕ) (len : ℕ)
    → IsValid b
    → len ≤ length d
    → (len ≤ b.read_index
        → (c : SocketBuffer) × (prepend b d len ≡ some c)
          × IsValid c
          × (unread c ≡ take len d ++ unread b)
          × (c.read_index + len ≡ b.read_index))
      × (b.read_index < len → prepend b d len ≡ none)
unfolding prepend
prepend_lem {b} d len v enough =
    let storage = v.storage in
    let ordered = v.ordered in
    let within = v.within in
    let word = v.word in
    (
      λ h.
          let at : ℕ = b.read_index - len in
          let inside : at + len ≤ length b.buffer = omega arith in
          let (arr, k) = memcpy-Copied b.buffer at d len inside enough in
          let copies = k.copies in
          let same = k.same_length in
          let old : ℕ = b.write_index - b.read_index in
          let count : b.write_index - at ≡ len + old = omega arith in
          let next_to : at + len ≡ b.read_index = omega arith in
          (
            record b { buffer = arr; read_index = at },
            ground (arith, copies),
            record {
              storage = omega arith;
              ordered = omega arith;
              within = omega arith;
              gap = v.gap;
              word = word;
            },
            ap (slice arr at) count
                ∙ slice-add arr at len old (omega arith)
                ∙ ap₂ ◌++◌ (Copied-inside k inside enough) (
                    ap (λ t. slice arr t old) next_to
                    ∙ Copied-after k inside b.read_index old (omega arith) (omega arith)),
            omega arith,
          ),
      λ h. ground arith,
    )
