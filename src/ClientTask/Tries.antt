-- ===== src/ClientTask/Tries.antt =====
-- How often a client of tcp_client_task.cpp begins to connect, over the events of Reconnect.
use reechat_base.Base.{
  ℕ, ◌+◌, ◌≤◌, ◌<◌, ◌≡◌, ◌⊎◌, inl, inr, refl, sym, ap, subst, ◌∙◌, List, [], ◌∷◌, ◌++◌, Bool, true,
  false, arith, leb, ◌==◌, if◌then◌else◌, dec_le,
}
use reechat_base.ClientTask.{
  ClientTask, Timer, absent, idle, waiting, wait, emit, connect_error, add_to_manager, send_hello,
  parse, connect_to_server, begin_process, drop_socket, stop_process, try_reconnect_server_inner,
  on_internal_packet, on_connect_event, on_close_event, on_recv_hello_msg, say_hello, timed_out,
  schedule_event,
}
use reechat_base.ClientTask.Reconnect.{
  Run, Step, fire, connected, closed, packet, hello, schedule, stop, Reach, here, next, start,
}

-- A timer that is going to fire counts for one more connect.
abbrev pub due : Timer → ℕ
due absent = 0
due idle = 0
due waiting = 1

record Inv (limit : ℕ) (s : Run) : Type 0 where
  same_limit : s.task.max_reconnect_times ≡ limit
  round : (s.task.connect_round < limit) ⊎ (s.task.reconnect_timer ≡ absent)
  bound : s.tries ≤ limit
  counted :
      (s.tries + due s.task.reconnect_timer ≤ s.task.connect_round + 1)
      ⊎ (s.task.reconnect_timer ≡ absent)

module _ {limit : ℕ} (positive : 0 < limit) where
  Inv-stop : {s : Run} → Inv limit s → Inv limit (record s { task = stop_process s.task })
  unfolding stop_process
  Inv-stop v = record {
    same_limit = v.same_limit;
    round = inr refl;
    bound = v.bound;
    counted = inr refl;
  }

  due-wait : (t : Timer) → due (wait t) ≤ 1
  due-wait absent = omega arith
  due-wait idle = omega arith
  due-wait waiting = omega arith

  due_small : (t : Timer) → due t ≤ 1
  due_small absent = omega arith
  due_small idle = omega arith
  due_small waiting = omega arith

  -- Reading the clock, the hello and the callbacks leave what the invariant speaks of alone.
  Inv-same :
      {s : Run} (t : ClientTask)
      → Inv limit s
      → t.max_reconnect_times ≡ s.task.max_reconnect_times
      → t.connect_round ≡ s.task.connect_round
      → t.reconnect_timer ≡ s.task.reconnect_timer
      → Inv limit (record s { task = t })
  Inv-same {s} t v a b c = record {
    same_limit = a ∙ v.same_limit;
    round = rw (b, c) v.round;
    bound = v.bound;
    counted = rw (b, c) v.counted;
  }

  Inv-fire :
      {s : Run}
      → Inv limit s
      → s.task.reconnect_timer ≡ waiting
      → Inv limit (record {
        task = connect_to_server (record s.task { reconnect_timer = idle });
        tries = s.tries + 1;
      })
  unfolding connect_to_server
  Inv-fire v e = record {
    same_limit = v.same_limit;
    round = elim v.round [ inl h ↦ inl h | inr n ↦ absurd cc ];
    bound = elim v.round [
      | inl h ↦ elim v.counted [ inl k ↦ omega (arith, ap due e) | inr n ↦ absurd cc ]
      | inr n ↦ absurd cc
    ];
    counted = elim v.counted [ inl k ↦ inl (omega (arith, ap due e)) | inr n ↦ absurd cc ];
  }

  Inv-connected :
      {s : Run} (now : ℕ)
      → Inv limit s
      → Inv limit (record { task = on_connect_event s.task now; tries = 0 })
  unfolding on_connect_event
  Inv-connected {s} now v = record {
    same_limit = v.same_limit;
    round = inl positive;
    bound = omega arith;
    counted = inl (omega (arith, due_small s.task.reconnect_timer));
  }

  -- The two ways in which `TryReconnectServerInner` goes for a client whose tries are limited.
  give_up :
      (t : ClientTask)
      → t.max_reconnect_times ≡ limit
      → limit ≤ t.connect_round + 1
      → try_reconnect_server_inner t
        ≡ stop_process (emit (record t { connect_round = t.connect_round + 1 }) connect_error)
  unfolding try_reconnect_server_inner
  give_up t e h = ground (arith, e, positive)

  try_again :
      (t : ClientTask)
      → t.max_reconnect_times ≡ limit
      → t.connect_round + 1 < limit
      → try_reconnect_server_inner t ≡ record (drop_socket t) {
        connect_round = t.connect_round + 1;
        reconnect_timer = wait t.reconnect_timer;
        last_hello_time = 0;
        verified = false;
      }
  unfolding try_reconnect_server_inner
  try_again t e h = ground (arith, e, positive)

  Inv-given_up :
      {s : Run} (t : ClientTask)
      → Inv limit s
      → t.max_reconnect_times ≡ s.task.max_reconnect_times
      → Inv limit (record s { task = stop_process t })
  unfolding stop_process
  Inv-given_up t v e = record {
    same_limit = e ∙ v.same_limit;
    round = inr refl;
    bound = v.bound;
    counted = inr refl;
  }

  Inv-closed :
      {s : Run} → Inv limit s → Inv limit (record s { task = try_reconnect_server_inner s.task })
  Inv-closed {s} v = elim (dec_le limit (s.task.connect_round + 1)) [
    | yes h ↦
        subst (λ x. Inv limit (record s { task = x })) (sym (give_up s.task v.same_limit h))
          (Inv-given_up
            (emit (record s.task { connect_round = s.task.connect_round + 1 }) connect_error) v
            refl)
    | no h ↦
        subst (λ x. Inv limit (record s { task = x }))
          (sym (try_again s.task v.same_limit (omega arith)))
          (record {
            same_limit = v.same_limit;
            round = inl (omega arith);
            bound = v.bound;
            counted = elim v.counted [
              | inl k ↦ inl (omega (arith, due-wait s.task.reconnect_timer))
              | inr n ↦ inr (ap wait n)
            ];
          })
  ]

  Inv-packet :
      {s : Run} (bytes : List ℕ) (accepted : Bool)
      → Inv limit s
      → Inv limit (record s { task = on_internal_packet s.task bytes accepted })
  unfolding on_internal_packet
  Inv-packet {s} bytes accepted v = go s.task.verified accepted
    where
      go :
          (b a : Bool)
          → Inv limit (record s {
            task =
                if b
                then emit s.task (parse bytes)
                else if a
                then emit (record s.task { verified = true }) add_to_manager
                else stop_process s.task;
          })
      go true a = Inv-same (emit s.task (parse bytes)) v refl refl refl
      go false true =
          Inv-same (emit (record s.task { verified = true }) add_to_manager) v refl refl refl
      go false false = Inv-stop v

  said :
      {s : Run} (now : ℕ) (sent : Bool)
      → Inv limit s
      → Inv limit (record s { task = say_hello s.task now sent })
  said {s} now sent v =
      go (s.task.last_schedule_time == 0) (leb (s.task.last_schedule_time + 10000) now)
    where
      go :
          (a b : Bool)
          → Inv limit (record s {
            task =
                if a
                then record s.task {
                  out = s.task.out ++ send_hello ∷ [];
                  last_schedule_time = if sent then now else 0;
                }
                else if b
                then record s.task { out = s.task.out ++ send_hello ∷ []; last_schedule_time = now }
                else s.task;
          })
      go true b = Inv-same _ v refl refl refl
      go false true = Inv-same _ v refl refl refl
      go false false = v

  Inv-schedule :
      {s : Run} (now : ℕ) (sent : Bool)
      → Inv limit s
      → Inv limit (record s { task = schedule_event s.task now sent })
  unfolding schedule_event
  Inv-schedule {s} now sent v = go (timed_out (say_hello s.task now sent) now)
    where
      go :
          (b : Bool)
          → Inv limit (record s {
            task =
                if b
                then try_reconnect_server_inner (say_hello s.task now sent)
                else say_hello s.task now sent;
          })
      go true = Inv-closed (said now sent v)
      go false = said now sent v

  Inv-Step : {s t : Run} → Inv limit s → Step s t → Inv limit t
  unfolding on_close_event on_recv_hello_msg
  Inv-Step v (fire p e) = subst (Inv limit) (sym e) (Inv-fire v p)
  Inv-Step v (connected now e) = subst (Inv limit) (sym e) (Inv-connected now v)
  Inv-Step v (closed e) = subst (Inv limit) (sym e) (Inv-closed v)
  Inv-Step v (packet bytes accepted e) = subst (Inv limit) (sym e) (Inv-packet bytes accepted v)
  Inv-Step v (hello now e) = subst (Inv limit) (sym e) (Inv-same _ v refl refl refl)
  Inv-Step v (schedule now sent e) = subst (Inv limit) (sym e) (Inv-schedule now sent v)
  Inv-Step v (stop e) = subst (Inv limit) (sym e) (Inv-stop v)

  Inv-start : Inv limit (start limit)
  unfolding begin_process
  Inv-start = record {
    same_limit = refl;
    round = inl positive;
    bound = positive;
    counted = inl (omega arith);
  }

  Reach-Inv : {s : Run} → Reach (start limit) s → Inv limit s
  Reach-Inv here = Inv-start
  Reach-Inv (next r step) = Inv-Step (Reach-Inv r) step

-- A client whose `max_reconnect_times_` is above 0 never begins to connect more often than that without
-- having been connected in between, whatever events come in whatever order.
pub Reach-tries : {s : Run} (limit : ℕ) → 0 < limit → Reach (start limit) s → s.tries ≤ limit
Reach-tries limit positive r = let v = Reach-Inv positive r in v.bound
