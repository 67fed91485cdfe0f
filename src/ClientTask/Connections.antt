-- ===== src/ClientTask/Connections.antt =====
-- Which connections a client of tcp_client_task.cpp holds, over the events that the loops bring.
use reechat_base.Base.{
  ℕ, ◌+◌, ◌≡◌, refl, sym, ap, ◌∙◌, List, [], ◌∷◌, ◌++◌, Bool, true, false, arith, if◌then◌else◌,
}
use reechat_base.ClientTask.{
  ClientTask, idle, waiting, Effect, connect, close_connection, remove_from_manager, emit,
  connect_to_server, begin_process, drop_socket, stop_process,
}
use reechat_base.ClientTask.Reconnect.{Run, Reach, start}
use reechat_base.ClientTask.Events.{
  connects, closes, connects-append, closes-append, Stable, Stable-Reach,
}

-- 1 if there is a wrapper.
abbrev pub held : Bool → ℕ
held true = 1
held false = 0

-- Every wrapper but the one that is held was closed.
abbrev Balanced : ClientTask → Type 0
Balanced t = closes t.out + held t.has_socket ≡ connects t.out

record Inv (t : ClientTask) : Type 0 where
  balanced : Balanced t
  -- A timer that is going to connect finds no wrapper.
  alone : t.reconnect_timer ≡ waiting → t.has_socket ≡ false

-- The wrapper is closed and given up, if there is one.
Inv-dropped :
    (t u : ClientTask) → Balanced t → u.out ≡ (drop_socket t).out → u.has_socket ≡ false → Inv u
unfolding connects closes
Inv-dropped t u b e n = record { balanced = go t.has_socket refl; alone = λ _. n }
  where
    go : (x : Bool) → t.has_socket ≡ x → Balanced u
    go true h =
        let o : u.out ≡ t.out ++ close_connection ∷ [] =
          e ∙ ap (λ x. if x then t.out ++ close_connection ∷ [] else t.out) h in
        omega (
          arith,
          ap closes o,
          ap connects o,
          closes-append t.out (close_connection ∷ []),
          connects-append t.out (close_connection ∷ []),
          ap held h,
          ap held n,
        )
    go false h =
        let o : u.out ≡ t.out =
          e ∙ ap (λ x. if x then t.out ++ close_connection ∷ [] else t.out) h in
        omega (arith, ap closes o, ap connects o, ap held h, ap held n)

-- Calls that are no connection's.
Balanced-more :
    (t u : ClientTask) (es : List Effect)
    → Balanced t
    → u.out ≡ t.out ++ es
    → connects es ≡ 0
    → closes es ≡ 0
    → u.has_socket ≡ t.has_socket
    → Balanced u
Balanced-more t u es b o c d h =
    omega (
      arith,
      ap closes o,
      ap connects o,
      closes-append t.out es,
      connects-append t.out es,
      ap held h,
    )

Inv-stop : (t : ClientTask) → Balanced t → Inv (stop_process t)
unfolding stop_process connects closes
Inv-stop t b =
    Inv-dropped (emit t remove_from_manager) (stop_process t)
      (Balanced-more t (emit t remove_from_manager) (remove_from_manager ∷ []) b refl refl refl
        refl)
      refl refl

Inv-connect :
    {t : ClientTask}
    → Inv t
    → t.reconnect_timer ≡ waiting
    → Inv (connect_to_server (record t { reconnect_timer = idle }))
unfolding connect_to_server connects closes
Inv-connect {t} i w =
    let none_held = i.alone w in
    record {
      balanced = omega (
        arith,
        i.balanced,
        ap held none_held,
        closes-append t.out (connect ∷ []),
        connects-append t.out (connect ∷ []),
      );
      alone = λ e. cc;
    }

Inv-Stable : Stable Inv
Inv-Stable = record {
  calls = λ {t} u es i o c d r h. record {
    balanced = Balanced-more t u es i.balanced o c d h;
    alone = λ w. h ∙ i.alone (sym r ∙ w);
  };
  stops = λ {t} i. Inv-stop t i.balanced;
  drops = λ {t} u i o r h. Inv-dropped t u i.balanced o h;
  fires = λ {t} i w. Inv-connect i w;
}

-- In every run of a client after `BeginProcess`, whatever events come in whatever order: the connections that it has
-- begun are those it has closed and the one that it holds, if any; so no wrapper is given up without being
-- closed, none is closed twice, and the timer never connects while one is held.
pub Reach-closes :
    (limit : ℕ) {t : Run}
    → Reach (start limit) t
    → (closes t.task.out + held t.task.has_socket ≡ connects t.task.out)
      × (t.task.reconnect_timer ≡ waiting → t.task.has_socket ≡ false)
unfolding begin_process connect_to_server connects closes
Reach-closes limit r =
    let i = Stable-Reach Inv-Stable (record { balanced = refl; alone = λ e. cc }) r in
    (i.balanced, i.alone)
