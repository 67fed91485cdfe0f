-- ===== src/KeepAlive/Calls.antt =====
-- That the client's `ScheduleEvent` (tcp_client_task.cpp) keeps the invariant of the hellos.
use reechat_base.Base.{
  ℕ, ◌+◌, ◌<◌, ◌≡◌, ◌⊎◌, inl, inr, sym, ap, subst, List, [], ◌∷◌, ◌++◌, true, false, arith,
}
use reechat_base.ClientTask.{ClientTask, say_hello, timed_out, schedule_event as client_schedule}
use reechat_base.KeepAlive.{hellos, Pair, under_way}
use reechat_base.KeepAlive.Hello.{client_schedule-hellos}
use reechat_base.KeepAlive.Chain.{Chain, Chain-append, Within-append, Past-append}
use reechat_base.KeepAlive.Timely.{Fresh, Going, Timely}

module _ (period delay : ℕ) where
  -- The client has said hello now.
  Timely-says :
      {s : Pair} (c : ClientTask)
      → Timely period delay s
      → c.last_schedule_time ≡ s.now
      → Timely period delay
          (record s { client = c; called = s.now; transit = s.transit ++ s.now ∷ [] })
  Timely-says {s} c i e = record {
    clock = i.clock;
    regular = omega arith;
    heard = i.heard;
    called_before = omega arith;
    within = Within-append period delay s.now s.transit i.within;
    past = Past-append period delay s.now s.transit i.past;
    course = inr (record {
      said = omega (arith, i.clock, e);
      recent = omega (arith, e);
      chain =
          subst (λ x. Chain period delay x s.server.last_hello_time (s.transit ++ s.now ∷ []))
            (sym e) (go i.course);
    });
  }
    where
      go :
          Fresh period delay s ⊎ Going period delay s
          → Chain period delay s.now s.server.last_hello_time (s.transit ++ s.now ∷ [])
      go (inl f) =
          subst
            (λ (x : List ℕ). Chain period delay s.now s.server.last_hello_time (x ++ s.now ∷ []))
            (sym f.none_under_way) (omega (arith, i.regular, f.from_start), omega arith)
      go (inr g) =
          Chain-append period delay s.client.last_schedule_time s.now s.server.last_hello_time
            s.transit (omega (arith, i.regular, g.recent)) g.chain

  -- The client's last hello is not 10 seconds old.
  Timely-waits :
      {s : Pair}
      → Timely period delay s
      → 0 < s.client.last_schedule_time
      → s.now < s.client.last_schedule_time + 10000
      → Timely period delay (record s { called = s.now })
  Timely-waits {s} i said lt = record {
    clock = i.clock;
    regular = omega arith;
    heard = i.heard;
    called_before = omega arith;
    within = i.within;
    past = i.past;
    course = elim i.course [
      | inl f ↦ inr (record {
        said = said;
        recent = omega (arith, lt);
        chain =
            subst (λ x. Chain period delay s.client.last_schedule_time s.server.last_hello_time x)
              (sym f.none_under_way) f.old;
      })
      | inr g ↦ inr (record { said = g.said; recent = omega (arith, lt); chain = g.chain })
    ];
  }

  pub Timely-schedules :
      {s : Pair}
      → Timely period delay s
      → timed_out (say_hello s.client s.now true) s.now ≡ false
      → Timely period delay (record s {
        client = client_schedule s.client s.now true;
        called = s.now;
        transit = under_way s;
      })
  Timely-schedules {s} i quiet = elim (client_schedule-hellos s.client s.now quiet) [
    | inl (more, noted, due) ↦
        let one : under_way s ≡ s.transit ++ s.now ∷ [] = ground (arith, more) in
        subst
          (λ (x : List ℕ). Timely period delay (record s {
            client = client_schedule s.client s.now true;
            called = s.now;
            transit = x;
          }))
          (sym one) (Timely-says (client_schedule s.client s.now true) i noted)
    | inr (same, said, lt) ↦
        let as_many = ap (λ (x : ClientTask). hellos x.out) same in
        let none_more : under_way s ≡ s.transit = ground (arith, as_many) in
        subst
          (λ (x : List ℕ). Timely period delay (record s {
            client = client_schedule s.client s.now true;
            called = s.now;
            transit = x;
          }))
          (sym none_more)
          (subst (λ (x : ClientTask). Timely period delay (record s { client = x; called = s.now }))
            (sym same) (Timely-waits i said lt))
  ]
