-- ===== src/Singleton.antt =====
-- src/singleton.h: the object that `Singleton<T>` registers. An object is its address; which
-- address `new T()` gives is the parameter `allocate` of the addresses in use.
mod Registered
mod Tests
use reechat_base.Base.{ℕ, Bool, true, false, Option, none, some, List, [], ◌∷◌, ◌==◌, if◌then◌else◌}

pub record Singleton : Type 0 where
  -- `ms_Singleton`; `none` is a null pointer.
  pub ms_singleton : Option ℕ
  -- The objects of `T` that are constructed and not destroyed.
  pub live : List ℕ

unfoldable pub remove : ℕ → List ℕ → List ℕ
remove p [] = []
remove p (q ∷ qs) = if p == q then qs else q ∷ remove p qs

-- `Singleton()` and `~Singleton()` on the object at `this`.
unfoldable pub construct : ℕ → Singleton → Singleton
construct this s = record {
  ms_singleton = elim s.ms_singleton [ none ↦ some this | some p ↦ some p ];
  live = this ∷ s.live;
}

unfoldable pub destroy : ℕ → Singleton → Singleton
unfolding remove
destroy this s = record { ms_singleton = none; live = remove this s.live }

-- `SingletonFactory<T>::create`
unfoldable pub create : (List ℕ → ℕ) → Singleton → ℕ × Singleton
unfolding construct
create allocate s = let this = allocate s.live in (this, construct this s)

unfoldable pub del_me : Singleton → Singleton
unfolding destroy
del_me s = elim s.ms_singleton [ none ↦ s | some p ↦ record (destroy p s) { ms_singleton = none } ]

unfoldable pub get_instance : (List ℕ → ℕ) → Singleton → Option ℕ × Singleton
unfolding create
get_instance allocate s = elim s.ms_singleton [
  | some p ↦ (some p, s)
  | none ↦ let (_, t) = create allocate s in (t.ms_singleton, t)
]

-- `none` is a null pointer read through.
unfoldable pub get_me : (List ℕ → ℕ) → Singleton → Option (ℕ × Singleton)
unfolding get_instance
get_me allocate s =
    let (p, t) = get_instance allocate s in elim p [ none ↦ none | some q ↦ some (q, t) ]
