-- ===== src/KeepAlive/Timely.antt =====
-- The invariant of the hellos between a client and its server's task (tcp_client_task.cpp, tcp_server_task.cpp).
use reechat_base.Base.{ℕ, ◌+◌, ◌≤◌, ◌<◌, ◌≡◌, ◌⊎◌, inl, inr, refl, sym, subst, List, [], ◌∷◌, arith}
use reechat_base.ClientTask.{ClientTask, on_recv_hello_msg as client_hears}
use reechat_base.ServerTask.{begin_process, ServerTask, on_recv_hello_msg}
use reechat_base.KeepAlive.{Pair, Within, start}
use reechat_base.KeepAlive.Chain.{Chain, Past, Chain-le, Past-le}

module _ (period delay : ℕ) where
  -- Before the first hello, and after it.
  pub record Fresh (s : Pair) : Type 0 where
    pub old : s.client.last_schedule_time ≤ s.server.last_hello_time
    pub none_under_way : s.transit ≡ []
    pub from_start : s.called ≤ s.server.last_hello_time

  pub record Going (s : Pair) : Type 0 where
    pub said : 0 < s.client.last_schedule_time
    pub recent : s.called ≤ s.client.last_schedule_time + 10000
    pub chain : Chain period delay s.client.last_schedule_time s.server.last_hello_time s.transit

  pub record Timely (s : Pair) : Type 0 where
    pub clock : 0 < s.now
    pub regular : s.now ≤ s.called + period
    pub heard : s.server.last_hello_time ≤ s.now
    pub called_before : s.called ≤ s.now
    pub within : Within period delay s.now s.transit
    pub past : Past period delay s.now s.transit
    pub course : Fresh s ⊎ Going s

  -- How old the last hello is that the server has received.
  pub Timely-bound :
      {s : Pair} → Timely s → s.now ≤ s.server.last_hello_time + (10000 + period + delay)
  Timely-bound {s} i = elim i.course [
    | inl f ↦ omega (arith, i.regular, f.from_start)
    | inr g ↦ go s.transit g.chain i.within (g.recent)
  ]
    where
      go :
          (es : List ℕ)
          → Chain period delay s.client.last_schedule_time s.server.last_hello_time es
          → Within period delay s.now es
          → s.called ≤ s.client.last_schedule_time + 10000
          → s.now ≤ s.server.last_hello_time + (10000 + period + delay)
      go [] c w r = omega (arith, i.regular, c, r)
      go (e ∷ es) (c, cs) (w, ws) r = omega (arith, c, w)

  pub Timely-server :
      {s : Pair} (u : ServerTask)
      → Timely s
      → u.last_hello_time ≡ s.server.last_hello_time
      → Timely (record s { server = u })
  Timely-server {s} u i e = record {
    clock = i.clock;
    regular = i.regular;
    heard = subst (λ x. x ≤ s.now) (sym e) i.heard;
    called_before = i.called_before;
    within = i.within;
    past = i.past;
    course = elim i.course [
      | inl f ↦ inl (record {
        old = omega (arith, f.old, e);
        none_under_way = f.none_under_way;
        from_start = omega (arith, f.from_start, e);
      })
      | inr g ↦ inr (record {
        said = g.said;
        recent = g.recent;
        chain =
            subst (λ x. Chain period delay s.client.last_schedule_time x s.transit) (sym e) g.chain;
      })
    ];
  }

  pub Timely-passes :
      {s : Pair} (later : ℕ)
      → Timely s
      → s.now ≤ later
      → later ≤ s.called + period
      → Within period delay later s.transit
      → Timely (record s { now = later })
  Timely-passes {s} later i le called w = record {
    clock = omega (arith, i.clock, le);
    regular = called;
    heard = omega (arith, i.heard, le);
    called_before = omega (arith, i.called_before, le);
    within = w;
    past = Past-le period delay s.now later s.transit le i.past;
    course = elim i.course [
      | inl f ↦
          inl (record { old = f.old; none_under_way = f.none_under_way; from_start = f.from_start })
      | inr g ↦ inr (record { said = g.said; recent = g.recent; chain = g.chain })
    ];
  }

  pub Timely-hears :
      {s : Pair} → Timely s → Timely (record s { client = client_hears s.client s.now })
  unfolding client_hears
  Timely-hears {s} i = record {
    clock = i.clock;
    regular = i.regular;
    heard = i.heard;
    called_before = i.called_before;
    within = i.within;
    past = i.past;
    course = elim i.course [
      | inl f ↦
          inl (record { old = f.old; none_under_way = f.none_under_way; from_start = f.from_start })
      | inr g ↦ inr (record { said = g.said; recent = g.recent; chain = g.chain })
    ];
  }

  pub Timely-arrives :
      {s : Pair} (sent : ℕ) (more : List ℕ)
      → Timely s
      → s.transit ≡ sent ∷ more
      → Timely (record s { server = on_recv_hello_msg s.server s.now; transit = more })
  unfolding on_recv_hello_msg
  Timely-arrives {s} sent more i e =
      let (w, ws) = subst (Within period delay s.now) e i.within in
      let (p, ps) = subst (Past period delay s.now) e i.past in
      record {
        clock = i.clock;
        regular = i.regular;
        heard = omega arith;
        called_before = i.called_before;
        within = ws;
        past = ps;
        course = elim i.course [
          | inl f ↦ let q = f.none_under_way in absurd (cc)
          | inr g ↦
              let (c, cs) =
                subst (Chain period delay s.client.last_schedule_time s.server.last_hello_time) e
                  g.chain in
              inr (record {
                said = g.said;
                recent = g.recent;
                chain = Chain-le period delay s.client.last_schedule_time sent s.now more p cs;
              })
        ];
      }

  -- Where the server's task has just begun to serve.
  pub Timely-start :
      (client : ClientTask) (now : ℕ)
      → 0 < now
      → client.last_schedule_time ≤ now
      → Timely (start client now)
  unfolding begin_process
  Timely-start client now positive old = record {
    clock = positive;
    regular = omega arith;
    heard = omega arith;
    called_before = omega arith;
    within = tt;
    past = tt;
    course = inl (record { old = old; none_under_way = refl; from_start = omega arith });
  }
