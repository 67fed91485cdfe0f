-- ===== src/Base/Slices.antt =====
-- Pieces of an array, and what a copy does to them.
use Prim.Native.Nat.{ℕ, ◌+◌, ◌≤◌}
use mathlib.Core.Path.{◌≡◌, sym, ap, ap₂, ◌∙◌}
use mathlib.Core.List.{List, ◌++◌}
use native.Mathlib.Omega.{arith}
use native.Mathlib.Nat.{add_assoc}
use reechat_base.Base.Lists.{length, get_or, take, drop, slice, get_or-drop, length-drop}
use reechat_base.Base.Tabulate.{tabulate, tabulate_ext, tabulate-add, tabulate-get_or}
use reechat_base.Base.Memory.{Copied}

pub slice-tabulate :
    (xs : List ℕ) (i n : ℕ)
    → i + n ≤ length xs
    → slice xs i n ≡ tabulate n (λ j. get_or xs (i + j) 0)
slice-tabulate xs i n h =
    sym (tabulate-get_or (drop i xs) n 0 (omega (arith, length-drop i xs)))
    ∙ tabulate_ext n _ _ (λ j _. get_or-drop i xs j 0)

pub slice-add :
    (xs : List ℕ) (i n m : ℕ)
    → i + (n + m) ≤ length xs
    → slice xs i (n + m) ≡ slice xs i n ++ slice xs (i + n) m
slice-add xs i n m h =
    slice-tabulate xs i (n + m) h
    ∙ tabulate-add n m (λ j. get_or xs (i + j) 0)
    ∙ ap₂ ◌++◌ (sym (slice-tabulate xs i n (omega arith))) (
        tabulate_ext m _ _ (λ j _. ap (λ k. get_or xs k 0) (sym (add_assoc i n j)))
        ∙ sym (slice-tabulate xs (i + n) m (omega arith)))

module _ {dst src r : List ℕ} {off n : ℕ} (c : Copied dst off src n r)
    (fits : off + n ≤ length dst) where
  pub Copied-inside : n ≤ length src → slice r off n ≡ take n src
  Copied-inside enough =
      slice-tabulate r off n (omega (arith, c.same_length))
      ∙ tabulate_ext n _ _ (λ j h. c.inside 0 j h)
      ∙ tabulate-get_or src n 0 enough

  pub Copied-before : (i m : ℕ) → i + m ≤ off → slice r i m ≡ slice dst i m
  Copied-before i m h =
      slice-tabulate r i m (omega (arith, c.same_length))
      ∙ tabulate_ext m _ _ (λ j p. c.before 0 (i + j) (omega arith))
      ∙ sym (slice-tabulate dst i m (omega arith))

  pub Copied-after : (i m : ℕ) → off + n ≤ i → i + m ≤ length dst → slice r i m ≡ slice dst i m
  Copied-after i m h inside =
      slice-tabulate r i m (omega (arith, c.same_length))
      ∙ tabulate_ext m _ _ (λ j p. c.after 0 (i + j) (omega arith))
      ∙ sym (slice-tabulate dst i m inside)
