-- ===== src/EventLoop/Counting.antt =====
-- What `pending_functor_count_` of event_loop.cpp counts.
mod Tests
use reechat_base.Base.{
  require, ◌>>=◌, ◌>>◌, ℕ, zero, suc, ◌+◌, ◌-◌, ◌≡◌, refl, ap, subst, sym, ◌∙◌, List, [], ◌∷◌, ◌++◌,
  length, length-append, Option, none, some, Bool, true, false, arith, ◌⊎◌, inl, inr, Option-cases,
  if◌then◌else◌, ◌&&◌, not,
}
use reechat_base.EventLoop.{
  EventLoop, Status, stopping, is_stopping, is_running, init, init_existing, queue_in_loop,
  run_in_loop, stop, call_all, do_pending_functors, drain, stop_in_loop, handler_fn, begin_run,
  end_run, cancel, receive, notify, is_pending_queue_empty, take_pending,
}

module _ {A : Type 0} where
  -- The functors that wait in the queue, and so many that were taken out and have not returned.
  abbrev pub Counted : ℕ → EventLoop A → Type 0
  Counted k s = s.pending_functor_count ≡ length s.pending_functors + k

  -- What a functor is taken to do: it touches the queue and the count only by such calls as keep them in step.
  abbrev pub Keeps : (A → EventLoop A → Option (EventLoop A)) → Type 0
  Keeps call = (k : ℕ) (f : A) (s t : EventLoop A) → Counted k s → call f s ≡ some t → Counted k t

  pub Counted-queue_in_loop :
      (k : ℕ) (sent : Bool) (cb : A) (s t : EventLoop A)
      → Counted k s
      → queue_in_loop sent cb s ≡ some t
      → Counted k t
  unfolding queue_in_loop
  Counted-queue_in_loop k true cb s t c e =
      let l = length-append s.pending_functors (cb ∷ []) in ground (arith, c, e, l)
  Counted-queue_in_loop k false cb s t c e =
      let l = length-append s.pending_functors (cb ∷ []) in ground (arith, c, e, l)

  Counted-stop :
      (k : ℕ) (sent : Bool) (f : A) (s t : EventLoop A)
      → Counted k s
      → stop sent f s ≡ some t
      → Counted k t
  unfolding stop
  Counted-stop k sent f s t c e = go (is_running s.status) e
    where
      go :
          (b : Bool)
          → (do require b; queue_in_loop sent f (record s { status = stopping })) ≡ some t
          → Counted k t
      go true h = Counted-queue_in_loop k sent f (record s { status = stopping }) t c h
      go false h = absurd (cc)

module _ {A : Type 0} (call : A → EventLoop A → Option (EventLoop A)) where
  -- What happens to a loop, functors that it calls apart.
  pub data Reach : EventLoop A → Type 0 where
    made : (s : EventLoop A) → s ≡ init → Reach s
    made_from : (s : EventLoop A) → s ≡ init_existing → Reach s
    queues :
        (s t : EventLoop A) (sent : Bool) (cb : A)
        → Reach s
        → queue_in_loop sent cb s ≡ some t
        → Reach t
    runs :
        (s t : EventLoop A) (in_loop_thread sent : Bool) (f : A)
        → Reach s
        → run_in_loop call in_loop_thread sent f s ≡ some t
        → Reach t
    stops : (s t : EventLoop A) (sent : Bool) (f : A) → Reach s → stop sent f s ≡ some t → Reach t
    handles : (s t : EventLoop A) → Reach s → handler_fn call s ≡ some t → Reach t
    stops_in_loop :
        (s t : EventLoop A) (fuel : ℕ) → Reach s → stop_in_loop call fuel s ≡ some t → Reach t
    begins : (s t : EventLoop A) → Reach s → t ≡ begin_run s → Reach t
    ends : (s t : EventLoop A) → Reach s → t ≡ end_run s → Reach t
    cancels : (s t : EventLoop A) → Reach s → t ≡ cancel s → Reach t

module _ {A : Type 0} (call : A → EventLoop A → Option (EventLoop A)) (keeps : Keeps call) where
  Counted-run_in_loop :
      (k : ℕ) (b sent : Bool) (f : A) (s t : EventLoop A)
      → Counted k s
      → run_in_loop call b sent f s ≡ some t
      → Counted k t
  unfolding run_in_loop
  Counted-run_in_loop k b sent f s t c e = go (is_running s.status && b) e
    where
      go : (b : Bool) → (if b then call f s else queue_in_loop sent f s) ≡ some t → Counted k t
      go true h = keeps k f s t c h
      go false h = Counted-queue_in_loop k sent f s t c h

  -- Each functor of the batch counts until it has returned.
  Counted-call_all :
      (k : ℕ) (fs : List A) (s t : EventLoop A)
      → Counted (length fs + k) s
      → call_all call fs s ≡ some t
      → Counted k t
  unfolding call_all
  Counted-call_all k [] s t c e = let same : s ≡ t = cc in subst (Counted k) same (omega (arith, c))
  Counted-call_all k (f ∷ fs) s t c e = elim (Option-cases (call f s)) [
    | inl n ↦ absurd (ground (arith, n, e))
    | inr (u, h) ↦
        let d = keeps (suc (length fs) + k) f s u c h in
        Counted-call_all k fs (record u { pending_functor_count = u.pending_functor_count - 1 }) t
          (omega (arith, d)) (ground (arith, h, e))
  ]

  pub Counted-do_pending_functors :
      (k : ℕ) (s t : EventLoop A) → Counted k s → do_pending_functors call s ≡ some t → Counted k t
  unfolding do_pending_functors
  Counted-do_pending_functors k s t c e =
      Counted-call_all k s.pending_functors (take_pending s) t (omega (arith, c)) e

  Counted-drain :
      (k : ℕ) (fuel : ℕ) (s t : EventLoop A)
      → Counted k s
      → drain call fuel s ≡ some t
      → Counted k t
  unfolding drain
  Counted-drain k zero s t c e = absurd (cc)
  Counted-drain k (suc fuel) s t c e = elim (Option-cases (do_pending_functors call s)) [
    | inl n ↦ absurd (ground (arith, n, e))
    | inr (u, h) ↦
        let d = Counted-do_pending_functors k s u c h in
        go u d (Counted-drain k fuel u t d) (is_pending_queue_empty u) (
          subst
            (λ x.
              (elim x [
                | none ↦ none
                | some v ↦ elim (is_pending_queue_empty v) [
                  | true ↦ some v
                  | false ↦ drain call fuel v
                ]
              ])
              ≡ some t)
            h e)
  ]
    where
      go :
          (u : EventLoop A)
          → Counted k u
          → (drain call fuel u ≡ some t → Counted k t)
          → (b : Bool) → (elim b [ true ↦ some u | false ↦ drain call fuel u ]) ≡ some t
          → Counted k t
      go u d again true h = let same : u ≡ t = cc in subst (Counted k) same d
      go u d again false h = again h

  -- `StopInLoop` is itself a functor that may be in the queue.
  pub Counted-stop_in_loop :
      (k : ℕ) (fuel : ℕ) (s t : EventLoop A)
      → Counted k s
      → stop_in_loop call fuel s ≡ some t
      → Counted k t
  unfolding stop_in_loop
  Counted-stop_in_loop k fuel s t c e = go (is_stopping s.status) e
    where
      go :
          (b : Bool)
          → (do require b; u ← drain call fuel s; drain call fuel (record u { exiting = true }))
            ≡ some t
          → Counted k t
      go false h = absurd (cc)
      go true h = elim (Option-cases (drain call fuel s)) [
        | inl n ↦ absurd (ground (arith, n, h))
        | inr (u, m) ↦
            Counted-drain k fuel (record u { exiting = true }) t (Counted-drain k fuel s u c m)
              (ground (arith, m, h))
      ]

  Reach-Counted : {t : EventLoop A} → Reach call t → Counted 0 t
  unfolding init init_existing begin_run end_run cancel handler_fn
  Reach-Counted (made s e) = subst (Counted 0) (sym e) (omega arith)
  Reach-Counted (made_from s e) = subst (Counted 0) (sym e) (omega arith)
  Reach-Counted (queues s t sent cb r e) = Counted-queue_in_loop 0 sent cb s t (Reach-Counted r) e
  Reach-Counted (runs s t b sent f r e) = Counted-run_in_loop 0 b sent f s t (Reach-Counted r) e
  Reach-Counted (stops s t sent f r e) = Counted-stop 0 sent f s t (Reach-Counted r) e
  Reach-Counted (handles s t r e) = Counted-do_pending_functors 0 (receive s) t (Reach-Counted r) e
  Reach-Counted (stops_in_loop s t fuel r e) = Counted-stop_in_loop 0 fuel s t (Reach-Counted r) e
  Reach-Counted (begins s t r e) = subst (Counted 0) (sym e) (Reach-Counted r)
  Reach-Counted (ends s t r e) = subst (Counted 0) (sym e) (Reach-Counted r)
  Reach-Counted (cancels s t r e) = subst (Counted 0) (sym e) (Reach-Counted r)

  -- Where functors keep the count in step with the queue, `pending_functor_count_` is the number of functors that wait whenever no functor is
  -- being called, whatever was done to the loop in whatever order.
  pub Reach-pending_functor_count :
      {t : EventLoop A} → Reach call t → t.pending_functor_count ≡ length t.pending_functors
  Reach-pending_functor_count {t} r = omega (arith, Reach-Counted r)
