-- ===== src/Base/Tabulate.antt =====
-- Lists given by their elements: `f 0 ∷ f 1 ∷ … ∷ f (n - 1) ∷ []`.
use Prim.Native.Nat.{ℕ, zero, suc, ◌+◌, ◌≤◌, ◌<◌}
use mathlib.Core.Path.{◌≡◌, refl, ap, ap₂}
use mathlib.Core.List.{List, [], ◌∷◌, ◌++◌}
use native.Mathlib.Nat.{zero-add, suc-add}
use native.Mathlib.Omega.{arith}
use reechat_base.Base.Lists.{length, get_or, take, drop}

module _ {ℓ} {A : Type ℓ} where
  abbrev pub tabulate : ℕ → (ℕ → A) → List A
  tabulate zero f = []
  tabulate (suc n) f = f 0 ∷ tabulate n (λ i. f (suc i))

  pub length-tabulate : (n : ℕ) (f : ℕ → A) → length (tabulate n f) ≡ n
  length-tabulate zero f = refl
  length-tabulate (suc n) f = ap suc (length-tabulate n (λ i. f (suc i)))

  pub tabulate_ext :
      (n : ℕ) (f g : ℕ → A) → ((i : ℕ) → i < n → f i ≡ g i) → tabulate n f ≡ tabulate n g
  tabulate_ext zero f g h = refl
  tabulate_ext (suc n) f g h =
      ap₂ ◌∷◌ (h 0 (omega arith)) (tabulate_ext n _ _ (λ i p. h (suc i) (omega arith)))

  pub tabulate-add :
      (n m : ℕ) (f : ℕ → A) → tabulate (n + m) f ≡ tabulate n f ++ tabulate m (λ i. f (n + i))
  tabulate-add zero m f = rw zero-add (tabulate_ext m _ _ (λ i p. rw zero-add))
  tabulate-add (suc n) m f = rw suc-add (
      ap (◌∷◌ (f 0)) (
        rw (tabulate-add n m (λ i. f (suc i)))
          (ap (◌++◌ (tabulate n (λ i. f (suc i)))) (tabulate_ext m _ _ (λ i p. rw suc-add)))))

  pub tabulate-get_or :
      (xs : List A) (n : ℕ) (d : A) → n ≤ length xs → tabulate n (λ i. get_or xs i d) ≡ take n xs
  tabulate-get_or xs zero d h = refl
  tabulate-get_or [] (suc n) d h = absurd (omega arith)
  tabulate-get_or (x ∷ xs) (suc n) d h = ap (◌∷◌ x) (tabulate-get_or xs n d (omega arith))

  pub take-tabulate : (m n : ℕ) (f : ℕ → A) → m ≤ n → take m (tabulate n f) ≡ tabulate m f
  take-tabulate zero n f h = refl
  take-tabulate (suc m) zero f h = absurd (omega arith)
  take-tabulate (suc m) (suc n) f h = ap (◌∷◌ (f 0)) (take-tabulate m n _ (omega arith))

  pub drop-tabulate :
      (m n : ℕ) (f : ℕ → A) → drop m (tabulate (m + n) f) ≡ tabulate n (λ i. f (m + i))
  drop-tabulate zero n f = rw zero-add (tabulate_ext n _ _ (λ i p. rw zero-add))
  drop-tabulate (suc m) n f =
      rw suc-add (rw (drop-tabulate m n (λ i. f (suc i))) (tabulate_ext n _ _ (λ i p. rw suc-add)))

  pub get_or-tabulate : (n i : ℕ) (f : ℕ → A) (d : A) → i < n → get_or (tabulate n f) i d ≡ f i
  get_or-tabulate zero i f d h = absurd (omega arith)
  get_or-tabulate (suc n) zero f d h = refl
  get_or-tabulate (suc n) (suc i) f d h = get_or-tabulate n i _ d (omega arith)
