-- ===== src/RingBuffer/Contents.antt =====
-- The bytes that a ring buffer holds, oldest first, and what the two sides do to them.
use native.Mathlib.Nat.{mod-lt}
use reechat_base.Base.{
  ℕ, ◌+◌, ◌-◌, ◌%◌, ◌≤◌, ◌<◌, ◌≡◌, ◌≢◌, sym, ap, ap₂, ◌∙◌, List, length, ◌++◌, take, drop, get_or,
  slice, get_or-drop, arith, add32, tabulate, tabulate_ext, tabulate-add, tabulate-get_or,
  length-tabulate, take-tabulate, drop-tabulate, length-drop,
}
use reechat_base.RingBuffer.{RingBuffer, content_size}
use reechat_base.RingBuffer.Geometry.{
  IsValid, apart, round, write_position, read_position, capacity_pos, capacity_small,
}

-- The place in the array of the byte at offset `i` from a counter.
abbrev pub place : RingBuffer → ℕ → ℕ → ℕ
place r count i = (count + i) % r.capacity

abbrev pub contents : RingBuffer → List ℕ
contents r = tabulate (content_size r) (λ i. get_or r.data_arr (place r r.read_count i) 0)

pub length-contents : (r : RingBuffer) → length (contents r) ≡ content_size r
length-contents r = length-tabulate _ _

-- The array after `len` bytes of `content` were put behind the writer's place.
pub record Written (r : RingBuffer) (content : List ℕ) (len : ℕ) (arr : List ℕ) : Type 0 where
  pub same_length : length arr ≡ length r.data_arr
  pub fresh : (i : ℕ) → i < len → get_or arr (place r r.write_count i) 0 ≡ get_or content i 0
  pub old :
      (j : ℕ)
      → j < r.capacity
      → ((i : ℕ) → i < len → place r r.write_count i ≢ j)
      → get_or arr j 0 ≡ get_or r.data_arr j 0

-- The buffer once the writer's counter has moved over what was written.
abbrev pub publish : RingBuffer → List ℕ → ℕ → RingBuffer
publish r arr len = record r { data_arr = arr; write_count = add32 r.write_count len }

abbrev pub consume : RingBuffer → ℕ → RingBuffer
consume r len = record r { read_count = add32 r.read_count len }

module _ {r : RingBuffer} (v : IsValid r) where
  module _ {content arr : List ℕ} {len : ℕ} (room : content_size r + len ≤ r.capacity)
      (w : Written r content len arr) where
    pub content_size-publish : content_size (publish r arr len) ≡ content_size r + len
    content_size-publish = omega (arith, v.read_word, v.write_word, capacity_small v)

    pub publish-IsValid : IsValid (publish r arr len)
    publish-IsValid = record {
      bits = v.bits;
      bits_small = v.bits_small;
      power = v.power;
      mask = v.mask;
      storage = w.same_length ∙ v.storage;
      read_word = v.read_word;
      write_word = omega arith;
      fits = omega (arith, content_size-publish);
    }

    -- A byte that was there is not overwritten: it lies less than a round before the new ones.
    pub untouched :
        (i : ℕ)
        → i < content_size r
        → get_or arr (place r r.read_count i) 0 ≡ get_or r.data_arr (place r r.read_count i) 0
    untouched i h = w.old (place r r.read_count i) (mod-lt _ (capacity_pos v)) λ k hk e.
        let x : ℕ = r.read_count + i in
        let d : ℕ = content_size r + k - i in
        let step : (x + d) % r.capacity ≡ place r r.write_count k =
          ap (λ (n : ℕ). n % r.capacity) (omega arith) ∙ sym (write_position v k) in
        apart r.capacity x d (omega arith) (omega arith) (step ∙ e)

    pub contents-publish :
        len ≤ length content → contents (publish r arr len) ≡ contents r ++ take len content
    contents-publish enough =
        ap (λ n. tabulate n byte) content_size-publish
        ∙ tabulate-add (content_size r) len byte
        ∙ ap₂ ◌++◌ (tabulate_ext (content_size r) _ _ untouched)
            (added ∙ tabulate-get_or _ _ _ enough)
      where
        byte : ℕ → ℕ
        byte i = get_or arr (place r r.read_count i) 0

        added :
            tabulate len (λ i. byte (content_size r + i)) ≡ tabulate len (λ i. get_or content i 0)
        added =
            tabulate_ext len _ _
              λ i h. ap (λ n. get_or arr n 0) (sym (write_position v i)) ∙ w.fresh i h

  module _ {n : ℕ} (h : n ≤ content_size r) where
    content_size-consume : content_size (consume r n) ≡ content_size r - n
    content_size-consume = omega (arith, v.read_word, v.write_word, v.fits, capacity_small v)

    pub consume-IsValid : IsValid (consume r n)
    consume-IsValid = record {
      bits = v.bits;
      bits_small = v.bits_small;
      power = v.power;
      mask = v.mask;
      storage = v.storage;
      read_word = omega arith;
      write_word = v.write_word;
      fits = omega (arith, content_size-consume, v.fits);
    }

    pub contents-consume : contents (consume r n) ≡ drop n (contents r)
    contents-consume =
        ap (λ k. tabulate k (λ i. get_or r.data_arr (place r (add32 r.read_count n) i) 0))
          content_size-consume
        ∙ tabulate_ext (content_size r - n) _ _
            (λ i _. ap (λ k. get_or r.data_arr k 0) (read_position v n i))
        ∙ sym (drop-tabulate n (content_size r - n) _)
        ∙ ap (λ k. drop n (tabulate k (λ i. get_or r.data_arr (place r r.read_count i) 0)))
            (omega arith)

    -- The bytes from the reader's place to the end of the array are the oldest ones, in order.
    pub slice-contents :
        r.read_count % r.capacity + n ≤ r.capacity
        → slice r.data_arr (r.read_count % r.capacity) n ≡ take n (contents r)
    slice-contents e =
        let start : ℕ = r.read_count % r.capacity in
        let inside : n ≤ length (drop start r.data_arr) =
          omega (arith, length-drop start r.data_arr, v.storage) in
        sym (tabulate-get_or (drop start r.data_arr) n 0 inside)
        ∙ tabulate_ext n _ _ (λ i hi.
          get_or-drop start r.data_arr i 0
          ∙ ap (λ k. get_or r.data_arr k 0)
              (ground (arith, round r.capacity r.read_count i (capacity_pos v) (omega arith))))
        ∙ sym (take-tabulate n (content_size r) _ h)
