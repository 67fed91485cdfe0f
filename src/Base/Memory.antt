-- ===== src/Base/Memory.antt =====
-- `memcpy` between two arrays, and what the target holds afterwards.
use Prim.Native.Nat.{ℕ, ◌+◌, ◌-◌, ◌≤◌, ◌<◌}
use mathlib.Core.Path.{◌≡◌, ◌∙◌}
use mathlib.Core.Bool.{◌&&◌}
use mathlib.Core.List.{List, ◌++◌}
use mathlib.Core.Option.{Option, none, some}
use native.Mathlib.Omega.{arith}
use reechat_base.Base.Tests.{leb, le→leb, if◌then◌else◌}
use reechat_base.Base.Lists.{
  length, get_or, take, drop, length-append, length-take, length-drop, get_or-take, get_or-drop,
  get_or-append_left, get_or-append_right,
}

module _ {ℓ} {A : Type ℓ} where
  -- `memcpy(dst + off, src, n)`; `none` is an access outside one of the two arrays.
  unfoldable pub memcpy : List A → ℕ → List A → ℕ → Option (List A)
  memcpy dst off src n =
      if leb (off + n) (length dst) && leb n (length src)
      then some (take off dst ++ (take n src ++ drop (off + n) dst))
      else none

  pub record Copied (dst : List A) (off : ℕ) (src : List A) (n : ℕ) (r : List A) : Type ℓ where
    pub copies : memcpy dst off src n ≡ some r
    pub same_length : length r ≡ length dst
    pub inside : (d : A) (j : ℕ) → j < n → get_or r (off + j) d ≡ get_or src j d
    pub before : (d : A) (j : ℕ) → j < off → get_or r j d ≡ get_or dst j d
    pub after : (d : A) (j : ℕ) → off + n ≤ j → get_or r j d ≡ get_or dst j d

  module _ (dst : List A) (off : ℕ) (src : List A) (n : ℕ) (fits : off + n ≤ length dst)
      (enough : n ≤ length src) where
    result : List A
    result = take off dst ++ (take n src ++ drop (off + n) dst)

    length-front : length (take off dst) ≡ off
    length-front = omega (arith, length-take off dst)

    length-middle : length (take n src) ≡ n
    length-middle = omega (arith, length-take n src)

    length-result : length result ≡ length dst
    unfolding result
    length-result = omega (
      arith,
      length-append (take off dst) (take n src ++ drop (off + n) dst),
      length-append (take n src) (drop (off + n) dst),
      length-take off dst,
      length-take n src,
      length-drop (off + n) dst,
    )

    result_before : (d : A) (j : ℕ) → j < off → get_or result j d ≡ get_or dst j d
    unfolding result
    result_before d j h =
        get_or-append_left (take off dst) _ j d (omega (arith, length-front))
        ∙ get_or-take off dst j d h

    result_past :
        (d : A) (j : ℕ) → get_or result (off + j) d ≡ get_or (take n src ++ drop (off + n) dst) j d
    unfolding result
    result_past d j =
        get_or-append_right (take off dst) _ (off + j) d (omega (arith, length-front))
        ∙ rw (let e : off + j - length (take off dst) ≡ j = omega (arith, length-front) in e)

    result_inside : (d : A) (j : ℕ) → j < n → get_or result (off + j) d ≡ get_or src j d
    result_inside d j h =
        result_past d j
        ∙ get_or-append_left (take n src) _ j d (omega (arith, length-middle))
        ∙ get_or-take n src j d h

    result_tail : (d : A) (j : ℕ) → get_or result (off + (n + j)) d ≡ get_or dst (off + n + j) d
    result_tail d j =
        result_past d (n + j)
        ∙ get_or-append_right (take n src) _ (n + j) d (omega (arith, length-middle))
        ∙ rw (let e : n + j - length (take n src) ≡ j = omega (arith, length-middle) in e)
            (get_or-drop (off + n) dst j d)

    result_after : (d : A) (j : ℕ) → off + n ≤ j → get_or result j d ≡ get_or dst j d
    result_after d j h =
        let i : off + (n + (j - (off + n))) ≡ j = omega arith in
        let k : off + n + (j - (off + n)) ≡ j = omega arith in
        rw (i, k) at (result_tail d (j - (off + n)))

    copied : memcpy dst off src n ≡ some result
    unfolding memcpy result
    copied = rw (le→leb _ _ fits, le→leb _ _ enough)

    -- A copy inside both arrays succeeds, changes the `n` elements from `off` on and no other.
    pub memcpy-Copied : (r : List A) × Copied dst off src n r
    memcpy-Copied = (
      result,
      record {
        copies = copied;
        same_length = length-result;
        inside = result_inside;
        before = result_before;
        after = result_after;
      },
    )
