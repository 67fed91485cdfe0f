-- ===== src/SocketBuffer/Taking.antt =====
-- What the operations that take unread bytes away, or look at them, do to the unread bytes.
use reechat_base.Base.{
  ℕ, ◌+◌, ◌-◌, ◌^◌, ◌≤◌, ◌<◌, ◌≡◌, refl, sym, ap, ◌∙◌, [], none, some, length, take, drop, slice,
  arith, dec_lt, drop-all, take-all,
}
use reechat_base.SocketBuffer.{SocketBuffer, truncate, reset, skip, next, unwrite_bytes, peek}
use reechat_base.SocketBuffer.Grow.{IsValid, unread}
use reechat_base.SocketBuffer.Editing.{Holds, length-unread, drop-slice, take-slice}

module _ {b : SocketBuffer} (v : IsValid b) where
  advance : ℕ → SocketBuffer
  advance len = record b { read_index = b.read_index + len }

  advance-Holds : (len : ℕ) → len ≤ length (unread b) → Holds (advance len) (drop len (unread b))
  unfolding advance
  advance-Holds len h =
      let storage = v.storage in
      let ordered = v.ordered in
      let within = v.within in
      let count = length-unread v in
      record {
        valid = record {
          storage = storage;
          ordered = omega arith;
          within = within;
          gap = v.gap;
          word = v.word;
        };
        holds =
            ap (slice b.buffer (b.read_index + len)) (omega arith)
            ∙ sym (
                drop-slice b.buffer b.read_index (b.write_index - b.read_index) (omega arith) len
                  (omega arith));
      }

  -- `Truncate(0)` and `Reset` empty the buffer and put the gap back.
  reset-Holds : Holds (reset b) []
  unfolding reset
  reset-Holds =
      let gap = v.gap in
      let none_left : b.reserved_prepend_size - b.reserved_prepend_size ≡ 0 = omega arith in
      record {
        valid = record {
          storage = v.storage;
          ordered = omega arith;
          within = v.gap;
          gap = v.gap;
          word = v.word;
        };
        holds = ap (slice b.buffer b.reserved_prepend_size) none_left;
      }

  -- `Skip` and `Retrieve` drop `len` unread bytes, or all of them, for every `len`.
  pub skip_lem : (len : ℕ) → Holds (skip b len) (drop len (unread b))
  unfolding skip advance
  skip_lem len =
      let storage = v.storage in
      let ordered = v.ordered in
      let within = v.within in
      let word = v.word in
      let count = length-unread v in
      elim (dec_lt len (length (unread b))) [
        | yes some_left ↦
            let same : skip b len ≡ advance len = ground arith in
            rw same (advance-Holds len (omega arith))
        | no all ↦
            let same : skip b len ≡ reset b = ground arith in
            rw (same, drop-all len (unread b) (omega arith)) reset-Holds
      ]

  -- `Next` drops `len` unread bytes if there are as many, and otherwise does nothing.
  pub next_lem :
      (len : ℕ)
      → (len ≤ length (unread b) → Holds (next b len) (drop len (unread b)))
        × (length (unread b) < len → next b len ≡ b)
  unfolding next advance
  next_lem len =
      let storage = v.storage in
      let ordered = v.ordered in
      let within = v.within in
      let word = v.word in
      let count = length-unread v in
      (
        (λ h. let same : next b len ≡ advance len = ground arith in rw same (advance-Holds len h)),
        λ h. ground arith,
      )

  -- `Truncate(n)` keeps the first `n` unread bytes, as long as `read_index_ + n` does not wrap.
  pub truncate_lem : (n : ℕ) → b.read_index + n < 2 ^ 64 → Holds (truncate b n) (take n (unread b))
  unfolding truncate reset
  truncate_lem n small =
      let storage = v.storage in
      let ordered = v.ordered in
      let within = v.within in
      let gap = v.gap in
      let count = length-unread v in
      elim (dec_lt 0 n) [
        | no zero_n ↦ let e : n ≡ 0 = omega arith in rw e reset-Holds
        | yes pos ↦ elim (dec_lt n (length (unread b))) [
          | yes cut ↦
              let same : truncate b n ≡ record b { write_index = b.read_index + n } =
                ground arith in
              rw same (record {
                valid = record {
                  storage = storage;
                  ordered = omega arith;
                  within = omega arith;
                  gap = gap;
                  word = v.word;
                };
                holds =
                    ap (slice b.buffer b.read_index) (omega arith)
                    ∙ sym (
                        take-slice b.buffer b.read_index (b.write_index - b.read_index)
                          (omega arith) n (omega arith));
              })
          | no long ↦
              let same : truncate b n ≡ b = ground arith in
              rw (same, take-all n (unread b) (omega arith)) (record { valid = v; holds = refl })
        ]
      ]

  -- Where `read_index_ + n` wraps, `n` is far more than the buffer holds, and `Truncate(n)` puts
  -- `write_index_` before `read_index_`.
  pub truncate_wraps :
      (n : ℕ)
      → n < 2 ^ 64
      → 2 ^ 64 ≤ b.read_index + n
      → (truncate b n).write_index < (truncate b n).read_index
  unfolding truncate
  truncate_wraps n word wraps =
      let ordered = v.ordered in let within = v.within in let small = v.word in ground arith

  -- `UnwriteBytes` takes the last `n` unread bytes back; its `assert` fails if there are fewer.
  pub unwrite_bytes_lem :
      (n : ℕ)
      → (n ≤ length (unread b)
          → (c : SocketBuffer) × (unwrite_bytes b n ≡ some c)
            × Holds c (take (length (unread b) - n) (unread b)))
        × (length (unread b) < n → unwrite_bytes b n ≡ none)
  unfolding unwrite_bytes
  unwrite_bytes_lem n =
      let storage = v.storage in
      let ordered = v.ordered in
      let within = v.within in
      let word = v.word in
      let count = length-unread v in
      (
        λ h. (
          record b { write_index = b.write_index - n },
          ground arith,
          record {
            valid = record {
              storage = storage;
              ordered = omega arith;
              within = omega arith;
              gap = v.gap;
              word = word;
            };
            holds =
                ap (slice b.buffer b.read_index) (omega arith)
                ∙ sym (
                    take-slice b.buffer b.read_index (b.write_index - b.read_index) (omega arith)
                      (length (unread b) - n) (omega arith));
          },
        ),
        λ h. ground arith,
      )

  -- `len` bytes at `data()` are the first unread ones.
  pub peek_lem : (len : ℕ) → len ≤ length (unread b) → peek b len ≡ some (take len (unread b))
  unfolding peek
  peek_lem len h =
      let storage = v.storage in
      let ordered = v.ordered in
      let within = v.within in
      let count = length-unread v in
      ground (
        arith,
        take-slice b.buffer b.read_index (b.write_index - b.read_index) (omega arith) len
            (omega arith),
      )
