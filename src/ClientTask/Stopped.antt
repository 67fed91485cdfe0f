-- ===== src/ClientTask/Stopped.antt =====
-- A client of tcp_client_task.cpp after `StopProcess`.
use reechat_base.Base.{ℕ, ◌≡◌, refl, ap, ◌∙◌, List, [], ◌∷◌, ◌++◌, false, arith, if◌then◌else◌}
use reechat_base.ClientTask.{
  ClientTask, absent, wait, Effect, close_connection, remove_from_manager, emit, drop_socket,
  stop_process,
}
use reechat_base.ClientTask.Reconnect.{Run, Reach}
use reechat_base.ClientTask.Events.{connects, connects-append, Stable, Stable-Reach}

-- No timer, no wrapper, and so many connections begun.
record AtRest (n : ℕ) (t : ClientTask) : Type 0 where
  no_timer : t.reconnect_timer ≡ absent
  no_socket : t.has_socket ≡ false
  begun : connects t.out ≡ n

module _ {n : ℕ} where
  AtRest-more :
      {t : ClientTask} (u : ClientTask) (es : List Effect)
      → AtRest n t
      → u.out ≡ t.out ++ es
      → connects es ≡ 0
      → u.reconnect_timer ≡ t.reconnect_timer
      → u.has_socket ≡ t.has_socket
      → AtRest n u
  AtRest-more {t} u es i o c r h = record {
    no_timer = r ∙ i.no_timer;
    no_socket = h ∙ i.no_socket;
    begun = omega (arith, ap connects o, connects-append t.out es, i.begun);
  }

  -- With no wrapper there is none to close.
  AtRest-dropped :
      {t : ClientTask} (u : ClientTask)
      → AtRest n t
      → u.out ≡ (drop_socket t).out
      → u.reconnect_timer ≡ absent
      → u.has_socket ≡ false
      → AtRest n u
  AtRest-dropped {t} u i o r h =
      let same : u.out ≡ t.out =
        o ∙ ap (λ b. if b then t.out ++ close_connection ∷ [] else t.out) i.no_socket in
      record { no_timer = r; no_socket = h; begun = ap connects same ∙ i.begun }

  AtRest-stop : {t : ClientTask} → AtRest n t → AtRest n (stop_process t)
  unfolding stop_process connects
  AtRest-stop {t} i =
      AtRest-dropped (stop_process t)
        (AtRest-more (emit t remove_from_manager) (remove_from_manager ∷ []) i refl refl refl refl)
        refl refl refl

  AtRest-Stable : Stable (AtRest n)
  AtRest-Stable = record {
    calls = λ {t} u es i o c d r h. AtRest-more u es i o c r h;
    stops = λ {t} i. AtRest-stop i;
    drops = λ {t} u i o r h. AtRest-dropped u i o (r ∙ ap wait i.no_timer) h;
    fires = λ {t} i w. let q = i.no_timer in absurd (cc);
  }

-- A client that was stopped stays stopped: whatever events still reach it, it has no timer and no wrapper, and it
-- never begins another connection.
pub Reach-stop_process :
    (s : Run) {t : Run}
    → Reach (record s { task = stop_process s.task }) t
    → (t.task.reconnect_timer ≡ absent)
      × (t.task.has_socket ≡ false)
      × (connects t.task.out ≡ connects (stop_process s.task).out)
unfolding stop_process
Reach-stop_process s r =
    let i =
      Stable-Reach AtRest-Stable (record { no_timer = refl; no_socket = refl; begun = refl }) r in
    (i.no_timer, i.no_socket, i.begun)
