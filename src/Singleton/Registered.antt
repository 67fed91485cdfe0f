-- ===== src/Singleton/Registered.antt =====
-- Which object the calls of src/singleton.h leave registered.

use reechat_base.Base.{
  ℕ, ◌≡◌, ◌≢◌, ◌⊎◌, inl, inr, refl, none, some, List, [], ◌∷◌, ◌==◌, arith, ℕ_discrete, Bool-cases,
  Option-cases, subst, sym, ◌∙◌,
}
use reechat_base.Singleton.{Singleton, remove, construct, destroy, create, del_me, get_instance}

-- The address is that of an object.
abbrev pub IsLive : ℕ → List ℕ → Type 0
IsLive p [] = ⊥
IsLive p (q ∷ qs) = (p ≡ q) ⊎ IsLive p qs

-- No object twice.
abbrev pub Distinct : List ℕ → Type 0
Distinct [] = Unit {0}
Distinct (q ∷ qs) = (¬ IsLive q qs) × Distinct qs

remove-IsLive : (p q : ℕ) (qs : List ℕ) → p ≢ q → IsLive p qs → IsLive p (remove q qs)
unfolding remove
remove-IsLive p q [] ne h = h
remove-IsLive p q (r ∷ rs) ne (inl e) = elim (ℕ_discrete q r) [
  | yes same ↦ absurd (ne (cc))
  | no other ↦ ground arith
]
remove-IsLive p q (r ∷ rs) ne (inr h) = elim (Bool-cases (q == r)) [
  | inl same ↦ rw same h
  | inr other ↦ rw other (inr (remove-IsLive p q rs ne h))
]

IsLive-remove : (p q : ℕ) (qs : List ℕ) → IsLive p (remove q qs) → IsLive p qs
unfolding remove
IsLive-remove p q [] h = h
IsLive-remove p q (r ∷ rs) h = ground (arith, IsLive-remove p q rs)

remove-Distinct : (q : ℕ) (qs : List ℕ) → Distinct qs → Distinct (remove q qs)
unfolding remove
remove-Distinct q [] h = tt
remove-Distinct q (r ∷ rs) (n, d) = ground (arith, remove-Distinct q rs d, IsLive-remove r q rs)

remove_gone : (p : ℕ) (qs : List ℕ) → Distinct qs → ¬ IsLive p (remove p qs)
unfolding remove
remove_gone p [] d h = h
remove_gone p (q ∷ qs) (n, d) h = elim (ℕ_discrete p q) [
  | yes e ↦ n (ground arith)
  | no ne ↦ ground (arith, remove_gone p qs d)
]

-- The program's start.
abbrev pub start : Singleton
start = record { ms_singleton = none; live = [] }

module _ (allocate : List ℕ → ℕ) where
  pub data Step (s t : Singleton) : Type 0 where
    -- Another part of the program makes or destroys an object of the class.
    constructs : (this : ℕ) → ¬ IsLive this s.live → t ≡ construct this s → Step s t
    destroys : (this : ℕ) → IsLive this s.live → t ≡ destroy this s → Step s t
    deletes : t ≡ del_me s → Step s t
    obtains : t ≡ (get_instance allocate s).1 → Step s t

  pub data Reach (s : Singleton) : Singleton → Type 0 where
    here : Reach s s
    next : {t u : Singleton} → Reach s t → Step t u → Reach s u

  record Inv (s : Singleton) : Type 0 where
    distinct : Distinct s.live
    registered : (p : ℕ) → s.ms_singleton ≡ some p → IsLive p s.live

  module _ (fresh : (qs : List ℕ) → ¬ IsLive (allocate qs) qs) where
    construct-Inv :
        (this : ℕ) (s : Singleton) → ¬ IsLive this s.live → Inv s → Inv (construct this s)
    unfolding construct
    construct-Inv this s new i = record {
      distinct = (new, i.distinct);
      registered = λ p e. elim (Option-cases s.ms_singleton) [
        | inl n ↦ inl (ground arith)
        | inr (q, y) ↦ inr (i.registered p (ground arith))
      ];
    }

    destroy-Inv : (this : ℕ) (s : Singleton) → Inv s → Inv (destroy this s)
    unfolding destroy
    destroy-Inv this s i = record {
      distinct = remove-Distinct this s.live i.distinct;
      registered = λ p e. cc;
    }

    Inv-Step : {s t : Singleton} → Step s t → Inv s → Inv t
    unfolding get_instance create del_me destroy
    Inv-Step {s} (constructs this new e) i = subst Inv (sym e) (construct-Inv this s new i)
    Inv-Step {s} (destroys this l e) i = subst Inv (sym e) (destroy-Inv this s i)
    Inv-Step {s} (deletes e) i = elim (Option-cases s.ms_singleton) [
      | inl n ↦ subst Inv (sym (e ∙ ground arith)) i
      | inr (p, y) ↦
          subst Inv (sym (e ∙ (let h : del_me s ≡ destroy p s = ground arith in h)))
            (destroy-Inv p s i)
    ]
    Inv-Step {s} (obtains e) i = elim (Option-cases s.ms_singleton) [
      | inl n ↦
          subst Inv (sym (e ∙ ground arith)) (construct-Inv (allocate s.live) s (fresh s.live) i)
      | inr (p, y) ↦ subst Inv (sym (e ∙ ground arith)) i
    ]

    Inv-Reach : {s t : Singleton} → Inv s → Reach s t → Inv t
    Inv-Reach i here = i
    Inv-Reach i (next r step) = Inv-Step step (Inv-Reach i r)

    start-Inv : Inv start
    start-Inv = record { distinct = tt; registered = λ p e. cc }

    -- Whatever objects of the class are made and destroyed from the program's start on, by `instance`,
    -- `delMe` or otherwise, the next `instance` returns an object that is live, and the one
    -- after it returns the same object and changes nothing, where `new` gives an address not in use.
    pub Reach-get_instance :
        {s : Singleton}
        → Reach start s
        → (p : ℕ) × ((get_instance allocate s).0 ≡ some p)
          × IsLive p (get_instance allocate s).1.live
          × (get_instance allocate (get_instance allocate s).1
              ≡ (some p, (get_instance allocate s).1))
    unfolding get_instance create construct
    Reach-get_instance {s} r = elim (Option-cases s.ms_singleton) [
      | inl n ↦ (allocate s.live, ground arith, ground arith, ground arith)
      | inr (p, y) ↦
          let live = (Inv-Reach start-Inv r).registered p y in
          (p, ground arith, ground arith, ground arith)
    ]

    -- The destructor of any object of the class unregisters the one that `instance` gave out: if
    -- another object is destroyed while `p` is registered, `p` lives on and the next
    -- `instance` returns a new object, which is not `p`.
    pub get_instance-destroy :
        (p q : ℕ) (s : Singleton)
        → s.ms_singleton ≡ some p
        → IsLive p s.live
        → p ≢ q
        → (other : ℕ) × ((get_instance allocate (destroy q s)).0 ≡ some other)
          × (other ≢ p)
          × IsLive p (get_instance allocate (destroy q s)).1.live
          × IsLive other (get_instance allocate (destroy q s)).1.live
    unfolding get_instance create construct destroy
    get_instance-destroy p q s e l ne =
        let stays = remove-IsLive p q s.live ne l in
        let other = allocate (remove q s.live) in
        (
          other,
          refl,
          (λ same.
              fresh (remove q s.live) (subst (λ x. IsLive x (remove q s.live)) (sym same) stays)),
          inr stays,
          inl refl,
        )

    -- `delMe` on a registered object destroys it, and nothing is registered after it.
    pub del_me_lem :
        (p : ℕ) (s : Singleton)
        → s.ms_singleton ≡ some p
        → Distinct s.live
        → ((del_me s).ms_singleton ≡ none) × (¬ IsLive p (del_me s).live)
    unfolding del_me destroy
    del_me_lem p s e d = let gone = remove_gone p s.live d in ground arith
