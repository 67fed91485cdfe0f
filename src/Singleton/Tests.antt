-- ===== src/Singleton/Tests.antt =====
-- Runs of src/singleton.h, with an allocator that gives an address above all in use.
use reechat_base.Base.{ℕ, suc, ◌+◌, ◌≤◌, ◌≡◌, ◌≢◌, inl, inr, refl, List, [], ◌∷◌, some, arith}
use reechat_base.Singleton.{Singleton, construct, destroy, get_instance}
use reechat_base.Singleton.Registered.{
  IsLive, Distinct, Reach, here, next, obtains, constructs, start, Reach-get_instance,
  get_instance-destroy,
}

unfoldable above_all : List ℕ → ℕ
above_all [] = 1
above_all (q ∷ qs) = suc q + above_all qs

above_all_bound : (p : ℕ) (qs : List ℕ) → IsLive p qs → suc p ≤ above_all qs
unfolding above_all
above_all_bound p [] h = elim h [ ]
above_all_bound p (q ∷ qs) (inl e) = omega arith
above_all_bound p (q ∷ qs) (inr h) = omega (arith, above_all_bound p qs h)

above_all-fresh : (qs : List ℕ) → ¬ IsLive (above_all qs) qs
above_all-fresh qs h = omega (arith, above_all_bound (above_all qs) qs h)

-- The object 1 is registered, and 4 was made after it.
abbrev two_live : Singleton
two_live = record { ms_singleton = some 1; live = 4 ∷ 1 ∷ [] }

two_live-Distinct : Distinct two_live.live
two_live-Distinct = ground arith

two_live_run : Reach above_all start two_live
unfolding above_all get_instance construct
two_live_run = next (next here (obtains refl)) (constructs 4 (λ h. ground arith) refl)

two_live_instance : get_instance above_all two_live ≡ (some 1, two_live)
unfolding get_instance
two_live_instance = refl

-- The theorems at these examples.
Reach-get_instance_example :
    (p : ℕ) × ((get_instance above_all two_live).0 ≡ some p)
    × IsLive p (get_instance above_all two_live).1.live
    × (get_instance above_all (get_instance above_all two_live).1
        ≡ (some p, (get_instance above_all two_live).1))
Reach-get_instance_example = Reach-get_instance above_all above_all-fresh two_live_run

get_instance-destroy_example :
    (other : ℕ) × ((get_instance above_all (destroy 4 two_live)).0 ≡ some other)
    × (other ≢ 1)
    × IsLive 1 (get_instance above_all (destroy 4 two_live)).1.live
    × IsLive other (get_instance above_all (destroy 4 two_live)).1.live
get_instance-destroy_example =
    get_instance-destroy above_all above_all-fresh 1 4 two_live refl (inr (inl refl))
      (λ e. omega arith)
