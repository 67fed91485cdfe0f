-- ===== src/EventLoop/Drain.antt =====
-- How `StopInLoop` of event_loop.cpp ends, where functors queue others.
mod Tests
use reechat_base.Base.{
  ℕ, zero, suc, ◌+◌, ◌-◌, ◌≤◌, ◌<◌, ◌≡◌, ◌≢◌, refl, ap, subst, sym, ◌∙◌, List, [], ◌∷◌, ◌++◌,
  append-nil, append_assoc, Option, none, some, Bool, true, false, arith, ◌⊎◌, inl, inr,
}
use reechat_base.EventLoop.{
  EventLoop, Status, stopping, is_stopping, call_all, do_pending_functors, drain, stop_in_loop,
  is_pending_queue_empty, take_pending,
}

List-cases : {A : Type 0} (l : List A) → (l ≡ []) ⊎ ((f : A) × (fs : List A) × (l ≡ f ∷ fs))
List-cases [] = inl refl
List-cases (f ∷ fs) = inr (f, fs, refl)

module _ {A : Type 0} (call : A → EventLoop A → Option (EventLoop A)) (rank : A → ℕ) where
  -- Every functor of the list has a rank below the bound.
  abbrev pub Below : ℕ → List A → Type 0
  Below n [] = Unit {0}
  Below n (f ∷ fs) = (rank f < n) × Below n fs

  -- What the functors are taken to do while the watcher is there: each ends, may queue functors of smaller
  -- rank, and leaves the status and the watcher alone.
  pub record Descends : Type 0 where
    pub queues : A → EventLoop A → List A
    pub ends : A → EventLoop A → EventLoop A
    pub calls : (f : A) (s : EventLoop A) → s.has_watcher ≡ true → call f s ≡ some (ends f s)
    pub appends :
        (f : A) (s : EventLoop A) → (ends f s).pending_functors ≡ s.pending_functors ++ queues f s
    pub smaller : (f : A) (s : EventLoop A) → Below (rank f) (queues f s)
    pub keeps : (f : A) (s : EventLoop A) → (ends f s).status ≡ s.status
    pub goes_on : (f : A) (s : EventLoop A) → (ends f s).exiting ≡ s.exiting
    pub watches : (f : A) (s : EventLoop A) → (ends f s).has_watcher ≡ s.has_watcher

  Below-le : (m n : ℕ) (fs : List A) → m ≤ n → Below m fs → Below n fs
  Below-le m n [] le h = tt
  Below-le m n (f ∷ fs) le (h, hs) = (omega arith, Below-le m n fs le hs)

  Below-append : (n : ℕ) (fs gs : List A) → Below n fs → Below n gs → Below n (fs ++ gs)
  Below-append n [] gs h k = k
  Below-append n (f ∷ fs) gs (h, hs) k = (h, Below-append n fs gs hs k)

  Below-zero : (fs : List A) → Below 0 fs → fs ≡ []
  Below-zero [] h = refl
  Below-zero (f ∷ fs) (h, hs) = absurd (omega arith)

  -- The two ways a round of the loop ends.
  drain_end :
      (fuel : ℕ) (s t : EventLoop A)
      → do_pending_functors call s ≡ some t
      → t.pending_functors ≡ []
      → drain call (suc fuel) s ≡ some t
  unfolding drain
  drain_end fuel s t e empty = ground arith

  drain_round :
      (fuel : ℕ) (s t : EventLoop A) (f : A) (fs : List A)
      → do_pending_functors call s ≡ some t
      → t.pending_functors ≡ f ∷ fs
      → drain call (suc fuel) s ≡ drain call fuel t
  unfolding drain
  drain_round fuel s t f fs e more = ground arith

  module _ (d : Descends) where
    -- A batch of functors of rank at most `n` ends, and what it leaves pending has ranks below `n`.
    call_all_lem :
        (n : ℕ) (fs : List A) (s : EventLoop A)
        → s.has_watcher ≡ true
        → Below (suc n) fs
        → Below n s.pending_functors
        → (t : EventLoop A) × (call_all call fs s ≡ some t)
          × Below n t.pending_functors
          × (t.status ≡ s.status)
          × (t.exiting ≡ s.exiting)
          × (t.has_watcher ≡ true)
    unfolding call_all
    call_all_lem n [] s has h p = (s, refl, p, refl, refl, has)
    call_all_lem n (f ∷ fs) s has (h, hs) p =
        let u : EventLoop A = record (d.ends f s) {
          pending_functor_count = (d.ends f s).pending_functor_count - 1;
        } in
        let new = Below-le (rank f) n (d.queues f s) (omega arith) (d.smaller f s) in
        let pending =
          subst (Below n) (sym (d.appends f s))
            (Below-append n s.pending_functors (d.queues f s) p new) in
        let (t, e, left, st, ex, has') = call_all_lem n fs u (d.watches f s ∙ has) hs pending in
        (t, rw (d.calls f s has) e, left, st ∙ d.keeps f s, ex ∙ d.goes_on f s, has')

    do_pending_functors_lem :
        (n : ℕ) (s : EventLoop A)
        → s.has_watcher ≡ true
        → Below (suc n) s.pending_functors
        → (t : EventLoop A) × (do_pending_functors call s ≡ some t)
          × Below n t.pending_functors
          × (t.status ≡ s.status)
          × (t.exiting ≡ s.exiting)
          × (t.has_watcher ≡ true)
    unfolding do_pending_functors
    do_pending_functors_lem n s has h = call_all_lem n s.pending_functors (take_pending s) has h tt

    -- The loop of `StopInLoop` ends in as many rounds as the ranks go high, with nothing pending.
    pub drain_lem :
        (n : ℕ) (s : EventLoop A)
        → s.has_watcher ≡ true
        → Below (suc n) s.pending_functors
        → (t : EventLoop A) × (drain call (suc n) s ≡ some t)
          × (t.pending_functors ≡ [])
          × (t.status ≡ s.status)
          × (t.exiting ≡ s.exiting)
          × (t.has_watcher ≡ true)
    unfolding drain
    drain_lem zero s has h =
        let (t, e, left, st, ex, has') = do_pending_functors_lem zero s has h in
        let empty = Below-zero t.pending_functors left in
        (t, drain_end 0 s t e empty, empty, st, ex, has')
    drain_lem (suc n) s has h =
        let (t, e, left, st, ex, has') = do_pending_functors_lem (suc n) s has h in
        elim (List-cases t.pending_functors) [
          | inl empty ↦ (t, drain_end (suc n) s t e empty, empty, st, ex, has')
          | inr (f, fs, some_left) ↦
              let (u, e', empty, st', ex', has'') = drain_lem n t has' left in
              (u, drain_round (suc n) s t f fs e some_left ∙ e', empty, st' ∙ st, ex' ∙ ex, has'')
        ]

    -- Where each functor ends and queues functors of smaller rank only, and leaves the status and the watcher alone:
    -- `StopInLoop` of a stopping loop with its watcher ends, with both its loops, if the pending functors have ranks below
    -- the rounds it is given; the loop is told to exit, nothing is pending, and the status is as before.
    pub stop_in_loop_lem :
        (n : ℕ) (s : EventLoop A)
        → s.status ≡ stopping
        → s.has_watcher ≡ true
        → Below (suc n) s.pending_functors
        → (t : EventLoop A) × (stop_in_loop call (suc n) s ≡ some t)
          × (t.pending_functors ≡ [])
          × (t.exiting ≡ true)
          × (t.status ≡ stopping)
    unfolding stop_in_loop
    stop_in_loop_lem n s stops has h =
        let (t, e, empty, st, ex, has') = drain_lem n s has h in
        let told : EventLoop A = record t { exiting = true } in
        let (u, e', empty', st', ex', _) =
          drain_lem n told has' (subst (Below (suc n)) (sym empty) tt) in
        let may = ap is_stopping stops in (u, rw (may, e) e', empty', ex', st' ∙ st ∙ stops)

-- If the only pending functor queues itself whenever it is called, the loop of `StopInLoop` does not end:
-- no number of rounds is enough for it.
pub drain-requeue :
    {A : Type 0} (call : A → EventLoop A → Option (EventLoop A)) (f : A)
    → ((s : EventLoop A)
        → (t : EventLoop A) × (call f s ≡ some t)
          × (t.pending_functors ≡ s.pending_functors ++ f ∷ []))
    → (fuel : ℕ) (s : EventLoop A) → s.pending_functors ≡ f ∷ []
    → drain call fuel s ≡ none
unfolding drain do_pending_functors call_all
drain-requeue call f again zero s h = refl
drain-requeue call f again (suc fuel) s h =
    let (t, e, p) = again (take_pending s) in
    let u : EventLoop _ = record t { pending_functor_count = t.pending_functor_count - 1 } in
    let round : do_pending_functors call s ≡ some u = rw (h, e) refl in
    drain_round call (λ _. 0) fuel s u f [] round p ∙ drain-requeue call f again fuel u p
