-- ===== src/EventLoop/Threads/Delivery.antt =====
-- The invariant of the interleavings of EventLoop/Threads, and what follows from it for the queue of
-- functors and the wake-ups.
use reechat_base.Base.{
  ◌+◌, ◌-◌, ◌≡◌, ◌≢◌, ◌⊎◌, inl, inr, refl, sym, ap, subst, ◌∙◌, List, [], ◌∷◌, ◌++◌, append_assoc,
  append-nil, some, true, false, length, length-append, arith, Bool-cases, Bool, ◌<◌, dec_lt,
}
use reechat_base.EventLoop.{
  EventLoop, queue_in_loop, receive, take_pending, notify, init, init_existing, begin_run,
}
use reechat_base.EventLoop.Threads.{
  Phase, polling, woken, calling, Threads, LoopStep, wake, swap, call, return, queue, of_loop,
  Reach, here, next, start, batch, Noticed, Inv, lost_after,
}

module _ {A : Type 0} where
  -- The two ways in which `QueueInLoop` ends while the watcher is there.
  abbrev pub pushed : A → EventLoop A → EventLoop A
  pushed f l = record l {
    pending_functors = l.pending_functors ++ f ∷ [];
    pending_functor_count = l.pending_functor_count + 1;
  }

  pub queue_in_loop_lem :
      (f : A) (sent : Bool) (l : EventLoop A)
      → l.has_watcher ≡ true
      → ((l.notified ≡ true) × (queue_in_loop sent f l ≡ some (pushed f l)))
        ⊎ ((l.notified ≡ false)
            × (queue_in_loop sent f l
                ≡ some (notify sent (record (pushed f l) { notified = true }))))
  unfolding queue_in_loop
  queue_in_loop_lem f sent l w = elim (Bool-cases l.notified) [
    | inl n ↦ inl (n, rw n refl)
    | inr n ↦ inr (n, rw (n, w) refl)
  ]

  asleep :
      {phase following : Phase A} {fs : List A} {P Q R : Type 0}
      → phase ≡ calling fs
      → P ⊎ (((phase ≡ woken) ⊎ Q) ⊎ R)
      → P ⊎ (((following ≡ woken) ⊎ Q) ⊎ R)
  asleep p (inl n) = inl n
  asleep p (inr (inl (inl w))) = absurd cc
  asleep p (inr (inl (inr b))) = inr (inl (inr b))
  asleep p (inr (inr c)) = inr (inr c)

  pub alert : {s : Threads A} → Inv s → s.lost ≡ 0 → s.loop.pending_functors ≢ [] → Noticed s
  alert v none_lost some_ = elim v.told [
    | inl n ↦ absurd (some_ n)
    | inr n ↦ elim v.woke [
      | inl m ↦ absurd cc
      | inr x ↦ elim x [ inl y ↦ y | inr y ↦ absurd (omega (arith, y, none_lost)) ]
    ]
  ]

  module _ {s : Threads A} (v : Inv s) where
    ledger_pushed :
        (f : A)
        → s.queued ++ f ∷ [] ≡ s.called ++ (batch s.phase ++ (s.loop.pending_functors ++ f ∷ []))
    ledger_pushed f =
        ap (λ l. l ++ f ∷ []) v.ledger
        ∙ append_assoc s.called (batch s.phase ++ s.loop.pending_functors) (f ∷ [])
        ∙ ap (◌++◌ s.called) (append_assoc (batch s.phase) s.loop.pending_functors (f ∷ []))

    -- The first to queue since the functors were last taken.
    Inv-told :
        (f : A) (sent : Bool)
        → s.loop.notified ≡ false
        → Inv (record s {
          loop = notify sent (record (pushed f s.loop) { notified = true });
          queued = s.queued ++ f ∷ [];
          lost = lost_after s sent;
        })
    Inv-told f true n = record {
      ledger = ledger_pushed f;
      count = omega (arith, v.count, length-append s.loop.pending_functors (f ∷ []));
      told = inr refl;
      woke = inr (inl (inr (omega arith)));
      watched = v.watched;
      waits = v.waits;
    }
    Inv-told f false n = record {
      ledger = ledger_pushed f;
      count = omega (arith, v.count, length-append s.loop.pending_functors (f ∷ []));
      told = inr refl;
      woke = inr (elim (dec_lt 0 s.loop.pipe) [
        | yes some_byte ↦ inl (inr some_byte)
        | no none_there ↦ inr (ground (arith, n, none_there))
      ]);
      watched = v.watched;
      waits = v.waits;
    }

    kept_lost : (sent : Bool) → s.loop.notified ≡ true → lost_after s sent ≡ s.lost
    kept_lost true n = refl
    kept_lost false n = rw n refl

    Inv-queue :
        (f : A) (sent : Bool) (l : EventLoop A)
        → queue_in_loop sent f s.loop ≡ some l
        → Inv (record s { loop = l; queued = s.queued ++ f ∷ []; lost = lost_after s sent })
    Inv-queue f sent l e = elim (queue_in_loop_lem f sent s.loop v.watched) [
      | inl (n, ran) ↦
          let is_l : pushed f s.loop ≡ l = cc in
          subst
            (λ x.
              Inv (record s { loop = x; queued = s.queued ++ f ∷ []; lost = lost_after s sent }))
            is_l
            (record {
              ledger = ledger_pushed f;
              count = omega (arith, v.count, length-append s.loop.pending_functors (f ∷ []));
              told = inr n;
              woke = elim v.woke [
                | inl m ↦ absurd cc
                | inr x ↦ inr (elim x [
                  | inl y ↦ inl y
                  | inr y ↦ inr (subst (λ k. 0 < k) (sym (kept_lost sent n)) y)
                ])
              ];
              watched = v.watched;
              waits = v.waits;
            })
      | inr (n, ran) ↦
          let is_l : notify sent (record (pushed f s.loop) { notified = true }) ≡ l = cc in
          subst
            (λ x.
              Inv (record s { loop = x; queued = s.queued ++ f ∷ []; lost = lost_after s sent }))
            is_l (Inv-told f sent n)
    ]

    Inv-wake : s.phase ≡ polling → Inv (record s { loop = receive s.loop; phase = woken })
    Inv-wake p = record {
      ledger = v.ledger ∙ ap (λ x. s.called ++ (batch x ++ s.loop.pending_functors)) p;
      count = v.count ∙ ap (λ x. length (batch x) + length s.loop.pending_functors) p;
      told = v.told;
      woke = inr (inl (inl refl));
      watched = v.watched;
      waits = v.waits;
    }

    Inv-swap :
        s.phase ≡ woken
        → Inv (record s { loop = take_pending s.loop; phase = calling s.loop.pending_functors })
    Inv-swap p = record {
      ledger =
          v.ledger
          ∙ ap (λ x. s.called ++ (batch x ++ s.loop.pending_functors)) p
          ∙ ap (◌++◌ s.called) (sym (append-nil s.loop.pending_functors));
      count = omega (arith, v.count, ap (λ x. length (batch x)) p);
      told = inl refl;
      woke = inl refl;
      watched = v.watched;
      waits = v.waits;
    }

    Inv-call :
        (f : A) (fs : List A)
        → s.phase ≡ calling (f ∷ fs)
        → Inv (record s {
          loop = record s.loop { pending_functor_count = s.loop.pending_functor_count - 1 };
          phase = calling fs;
          called = s.called ++ f ∷ [];
        })
    Inv-call f fs p = record {
      ledger =
          v.ledger
          ∙ ap (λ x. s.called ++ (batch x ++ s.loop.pending_functors)) p
          ∙ sym (append_assoc s.called (f ∷ []) (fs ++ s.loop.pending_functors));
      count = omega (arith, v.count, ap (λ x. length (batch x)) p);
      told = v.told;
      woke = asleep p v.woke;
      watched = v.watched;
      waits = v.waits;
    }

    Inv-return : s.phase ≡ calling [] → Inv (record s { phase = polling })
    Inv-return p = record {
      ledger = v.ledger ∙ ap (λ x. s.called ++ (batch x ++ s.loop.pending_functors)) p;
      count = v.count ∙ ap (λ x. length (batch x) + length s.loop.pending_functors) p;
      told = v.told;
      woke = asleep p v.woke;
      watched = v.watched;
      waits = v.waits;
    }

  pub Inv-loop : {s t : Threads A} → Inv s → LoopStep s t → Inv t
  Inv-loop v (wake p a h e) = subst Inv (sym e) (Inv-wake v p)
  Inv-loop v (swap p e) = subst Inv (sym e) (Inv-swap v p)
  Inv-loop v (call f fs p e) = subst Inv (sym e) (Inv-call v f fs p)
  Inv-loop v (return p e) = subst Inv (sym e) (Inv-return v p)

  -- A loop that has begun to run, with nothing queued yet, however it was made.
  pub data Begun : EventLoop A → Type 0 where
    own : Begun (begin_run init)
    existing : Begun init_existing

  Begun-Inv : {l : EventLoop A} → Begun l → Inv (start l)
  unfolding begin_run init init_existing
  Begun-Inv own = record {
    ledger = refl;
    count = refl;
    told = inl refl;
    woke = inl refl;
    watched = refl;
    waits = refl;
  }
  Begun-Inv existing = record {
    ledger = refl;
    count = refl;
    told = inl refl;
    woke = inl refl;
    watched = refl;
    waits = refl;
  }

  pub Reach-Inv : {l : EventLoop A} {s : Threads A} → Begun l → Reach (start l) s → Inv s
  Reach-Inv b here = Begun-Inv b
  Reach-Inv b (next r (queue f sent l e h)) =
      subst Inv (sym h) (Inv-queue (Reach-Inv b r) f sent l e)
  Reach-Inv b (next r (of_loop step)) = Inv-loop (Reach-Inv b r) step

  -- In every interleaving of `QueueInLoop` with `HandlerFn` and the `DoPendingFunctors` that it calls, as long as no functor
  -- runs `StopInLoop` and nobody calls `Cancel`: the functors that ran, those taken and not called yet, and those pending are
  -- the queued ones, each once and in order; and `pending_functor_count_` counts the ones not yet called.
  pub Reach-in_order :
      {l : EventLoop A} {s : Threads A}
      → Begun l
      → Reach (start l) s
      → (s.queued ≡ s.called ++ (batch s.phase ++ s.loop.pending_functors))
        × (s.loop.pending_functor_count ≡ length (batch s.phase) + length s.loop.pending_functors)
  Reach-in_order b r = let v = Reach-Inv b r in (v.ledger, v.count)

  -- In every interleaving of `QueueInLoop` with `HandlerFn` and the `DoPendingFunctors` that it calls, as long as no functor
  -- runs `StopInLoop` and nobody calls `Cancel`: if the `send` of `Notify` has never failed while no byte stood in
  -- the pipe, and a functor is pending, then the loop's thread is about to take it or a byte stands in the pipe
  -- whose event is added, so that the loop will wake.
  pub Reach-Noticed :
      {l : EventLoop A} {s : Threads A}
      → Begun l
      → Reach (start l) s
      → s.lost ≡ 0
      → s.loop.pending_functors ≢ []
      → Noticed s × (s.loop.attached ≡ true)
  Reach-Noticed b r none_lost some_ = let v = Reach-Inv b r in (alert v none_lost some_, v.waits)
