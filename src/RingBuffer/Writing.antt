-- ===== src/RingBuffer/Writing.antt =====
-- The writer's side: where `WriteContent` and a store at the series head put their bytes.
use native.Mathlib.Nat.{mod-lt}
use reechat_base.Base.{
  ℕ, ◌+◌, ◌-◌, ◌%◌, ◌≤◌, ◌<◌, ◌≡◌, ap, ◌∙◌, List, some, length, drop, get_or, get_or-drop,
  length-drop, arith, memcpy, dec_lt, dec_le, memcpy-Copied,
}
use reechat_base.RingBuffer.{RingBuffer, copy_in}
use reechat_base.RingBuffer.Geometry.{IsValid, round, index-mod, capacity_pos, capacity_small}
use reechat_base.RingBuffer.Contents.{place, Written}

module _ {r : RingBuffer} (v : IsValid r) where
  -- Every index of the array is at some offset from the writer's place.
  reach_high :
      (j : ℕ)
      → r.write_count % r.capacity ≤ j
      → j < r.capacity
      → place r r.write_count (j - r.write_count % r.capacity) ≡ j
  reach_high j h lt = ground (
    arith,
    round r.capacity r.write_count (j - r.write_count % r.capacity) (capacity_pos v) (omega arith),
  )

  reach_low :
      (j : ℕ)
      → j < r.write_count % r.capacity
      → j < r.capacity
      → place r r.write_count (j + r.capacity - r.write_count % r.capacity) ≡ j
  reach_low j h lt = ground (
    arith,
    round r.capacity r.write_count (j + r.capacity - r.write_count % r.capacity) (capacity_pos v)
        (omega arith),
  )

  module _ (content : List ℕ) (len : ℕ) (enough : len ≤ length content) where
    -- Bytes that reach no further than the end of the array are one copy.
    pub one_piece :
        r.write_count % r.capacity + len ≤ r.capacity
        → (arr : List ℕ) × (memcpy r.data_arr (r.write_count % r.capacity) content len ≡ some arr)
          × Written r content len arr
    one_piece fits =
        let start : ℕ = r.write_count % r.capacity in
        let (arr, c) =
          memcpy-Copied r.data_arr start content len (omega (arith, v.storage)) enough in
        (
          arr,
          c.copies,
          record {
            same_length = c.same_length;
            fresh = λ i h.
                let at : place r r.write_count i ≡ start + i =
                  ground (arith, round r.capacity r.write_count i (capacity_pos v) (omega arith)) in
                ap (λ k. get_or arr k 0) at ∙ c.inside 0 i h;
            old = λ j lt miss. elim (dec_lt j start) [
              | yes low ↦ c.before 0 j low
              | no high ↦ elim (dec_lt j (start + len)) [
                | yes hit ↦ absurd (miss (j - start) (omega arith) (reach_high j (omega arith) lt))
                | no past ↦ c.after 0 j (omega arith)
              ]
            ];
          },
        )

    -- More bytes fill the array to its end and go on at its beginning.
    two_pieces :
        len ≤ r.capacity
        → r.capacity < r.write_count % r.capacity + len
        → let tail = r.capacity - r.write_count % r.capacity in
          (front : List ℕ) × (arr : List ℕ) × (memcpy r.data_arr
              (r.write_count % r.capacity)
              content
              tail
            ≡ some front)
          × (memcpy front 0 (drop tail content) (len - tail) ≡ some arr)
          × Written r content len arr
    two_pieces round_at_most over =
        let start : ℕ = r.write_count % r.capacity in
        let tail : ℕ = r.capacity - start in
        let small : start < r.capacity = mod-lt r.write_count (capacity_pos v) in
        let (front, c) =
          memcpy-Copied r.data_arr start content tail (omega (arith, v.storage)) (omega arith) in
        let (arr, d) =
          memcpy-Copied front 0 (drop tail content) (len - tail)
            (omega (arith, v.storage, c.same_length)) (omega (arith, length-drop tail content)) in
        (
          front,
          arr,
          c.copies,
          d.copies,
          record {
            same_length = d.same_length ∙ c.same_length;
            fresh = λ i h. elim (dec_lt i tail) [
              | yes here ↦
                  let at : place r r.write_count i ≡ start + i =
                    ground
                      (arith, round r.capacity r.write_count i (capacity_pos v) (omega arith)) in
                  ap (λ k. get_or arr k 0) at
                  ∙ d.after 0 (start + i) (omega arith)
                  ∙ c.inside 0 i here
              | no past ↦
                  let at : place r r.write_count i ≡ 0 + (i - tail) =
                    ground
                      (arith, round r.capacity r.write_count i (capacity_pos v) (omega arith)) in
                  ap (λ k. get_or arr k 0) at
                  ∙ d.inside 0 (i - tail) (omega arith)
                  ∙ get_or-drop tail content (i - tail) 0
                  ∙ ap (λ k. get_or content k 0) (omega arith)
            ];
            old = λ j lt miss. elim (dec_lt j start) [
              | yes low ↦ elim (dec_lt j (len - tail)) [
                | yes hit ↦
                    absurd (miss (j + r.capacity - start) (omega arith) (reach_low j low lt))
                | no past ↦ d.after 0 j (omega arith) ∙ c.before 0 j low
              ]
              | no high ↦ absurd (miss (j - start) (omega arith) (reach_high j (omega arith) lt))
            ];
          },
        )

    -- The copies of `WriteContent` stay inside the arrays and put the bytes behind the writer.
    pub copy_in-Written :
        len ≤ r.capacity
        → (arr : List ℕ) × (copy_in r content len ≡ some arr) × Written r content len arr
    unfolding copy_in
    copy_in-Written h =
        let at = index-mod v r.write_count in
        let small = capacity_small v in
        let inside : r.write_count % r.capacity < r.capacity =
          mod-lt r.write_count (capacity_pos v) in
        elim (dec_le (r.write_count % r.capacity + len) r.capacity) [
          | yes fits ↦ let (arr, e, w) = one_piece fits in (arr, ground (arith, at, e), w)
          | no over ↦
              let (front, arr, e, f, w) = two_pieces h (omega arith) in
              (arr, ground (arith, at, e, f), w)
        ]
