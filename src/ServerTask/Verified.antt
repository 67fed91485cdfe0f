-- ===== src/ServerTask/Verified.antt =====
-- The events that reach a `TcpServerTask`, and the order of its calls of `AddToManager` and `MsgParse`.
use reechat_base.Base.{
  ℕ, ◌+◌, ◌<◌, ◌≡◌, refl, sym, ap, subst, ◌∙◌, List, [], ◌∷◌, ◌++◌, Option, none, some, Bool, true,
  false, not, ◌&&◌, ltb, ◌==◌, if◌then◌else◌, arith,
}
use reechat_base.ServerTask.{
  ServerTask, Timer, absent, idle, waiting, Effect, add_to_manager, remove_from_manager,
  close_connection, parse, init, emit, begin_process, stop_process, stop_process_v2, schedule_event,
  on_recv_hello_msg, on_internal_packet, on_close_event, on_check_verified, start_close, release,
  async_wait,
}

pub data Step (s t : ServerTask) : Type 0 where
  begin : (has_wrapper : Bool) (now : ℕ) → t ≡ (begin_process s has_wrapper now).0 → Step s t
  packet : (bytes : List ℕ) (accepted : Bool) → t ≡ on_internal_packet s bytes accepted → Step s t
  hello : (now : ℕ) → t ≡ on_recv_hello_msg s now → Step s t
  schedule : (now : ℕ) → schedule_event s now ≡ some t → Step s t
  check : s.verify_timer ≡ waiting → on_check_verified s ≡ some t → Step s t
  closed : t ≡ on_close_event s → Step s t
  stop : (notify_manager : Bool) → t ≡ stop_process_v2 s notify_manager → Step s t

pub data Reach (s : ServerTask) : ServerTask → Type 0 where
  here : Reach s s
  next : {t u : ServerTask} → Reach s t → Step t u → Reach s u

-- Reading a record of calls: each `MsgParse` comes after an `AddToManager`, and whether there was one.
abbrev pub in_order : Bool → List Effect → Bool
in_order added [] = true
in_order added (add_to_manager ∷ es) = in_order true es
in_order added (remove_from_manager ∷ es) = in_order added es
in_order added (close_connection ∷ es) = in_order added es
in_order added (parse bytes ∷ es) = added && in_order added es

abbrev pub adds : Bool → List Effect → Bool
adds added [] = added
adds added (add_to_manager ∷ es) = adds true es
adds added (remove_from_manager ∷ es) = adds added es
adds added (close_connection ∷ es) = adds added es
adds added (parse bytes ∷ es) = adds added es

in_order-append :
    (b : Bool) (xs ys : List Effect)
    → in_order b (xs ++ ys) ≡ (in_order b xs && in_order (adds b xs) ys)
in_order-append b [] ys = refl
in_order-append b (add_to_manager ∷ xs) ys = in_order-append true xs ys
in_order-append b (remove_from_manager ∷ xs) ys = in_order-append b xs ys
in_order-append b (close_connection ∷ xs) ys = in_order-append b xs ys
in_order-append true (parse bytes ∷ xs) ys = in_order-append true xs ys
in_order-append false (parse bytes ∷ xs) ys = refl

adds-append : (b : Bool) (xs ys : List Effect) → adds b (xs ++ ys) ≡ adds (adds b xs) ys
adds-append b [] ys = refl
adds-append b (add_to_manager ∷ xs) ys = adds-append true xs ys
adds-append b (remove_from_manager ∷ xs) ys = adds-append b xs ys
adds-append b (close_connection ∷ xs) ys = adds-append b xs ys
adds-append b (parse bytes ∷ xs) ys = adds-append b xs ys

record Inv (t : ServerTask) : Type 0 where
  ordered : in_order false t.out ≡ true
  same : adds false t.out ≡ t.verified_client

-- More calls, and a `verified_client_` that fits them.
Inv-more :
    {s : ServerTask} (t : ServerTask) (es : List Effect)
    → Inv s
    → t.out ≡ s.out ++ es
    → in_order s.verified_client es ≡ true
    → adds s.verified_client es ≡ t.verified_client
    → Inv t
Inv-more {s} t es v e ok last = record {
  ordered =
      ap (in_order false) e ∙ in_order-append false s.out es ∙ rw (v.ordered, v.same, ok) refl;
  same = ap (adds false) e ∙ adds-append false s.out es ∙ rw (v.same, last) refl;
}

Inv-quiet :
    {s : ServerTask} (t : ServerTask)
    → Inv s
    → t.out ≡ s.out
    → t.verified_client ≡ s.verified_client
    → Inv t
Inv-quiet t v e f = record {
  ordered = ap (in_order false) e ∙ v.ordered;
  same = ap (adds false) e ∙ v.same ∙ sym f;
}

Inv-release : {s : ServerTask} → Inv s → Inv (release s)
Inv-release {s} v = go s.has_socket
  where
    go :
        (b : Bool)
        → Inv (record (release s) { out = if b then s.out ++ close_connection ∷ [] else s.out })
    go true = Inv-more _ (close_connection ∷ []) v refl refl refl
    go false = Inv-quiet _ v refl refl

Inv-remove : {s : ServerTask} → Inv s → Inv (emit s remove_from_manager)
Inv-remove v = Inv-more _ (remove_from_manager ∷ []) v refl refl refl

Inv-packet :
    {s : ServerTask} (bytes : List ℕ) (accepted : Bool)
    → Inv s
    → Inv (on_internal_packet s bytes accepted)
unfolding on_internal_packet
Inv-packet {s} bytes accepted v = go s.verified_client refl accepted
  where
    go :
        (b : Bool)
        → s.verified_client ≡ b
        → (a : Bool)
        → Inv (
            if not b
            then (if a then emit (record s { verified_client = true }) add_to_manager else s)
            else emit s (parse bytes))
    go true e a = Inv-more _ (parse bytes ∷ []) v refl (rw e refl) refl
    go false e true = Inv-more _ (add_to_manager ∷ []) v refl refl refl
    go false e false = v

Inv-start_close : {s t : ServerTask} → Inv s → start_close s ≡ some t → Inv t
Inv-start_close {s} {t} v e = go s.close_timer refl
  where
    started : Timer → Option ServerTask
    started x = elim (async_wait x) [
      | none ↦ none
      | some timer ↦ some (record s { close_timer = timer })
    ]

    go : (x : Timer) → s.close_timer ≡ x → Inv t
    go absent h = let k : start_close s ≡ none = ap started h in absurd cc
    go idle h =
        let k : start_close s ≡ some (record s { close_timer = waiting }) = ap started h in
        let same : record s { close_timer = waiting } ≡ t = cc in
        subst Inv same (Inv-quiet _ v refl refl)
    go waiting h =
        let k : start_close s ≡ some (record s { close_timer = waiting }) = ap started h in
        let same : record s { close_timer = waiting } ≡ t = cc in
        subst Inv same (Inv-quiet _ v refl refl)

-- Either nothing was done, or the close timer was started.
Inv-guarded :
    {s t : ServerTask} (b : Bool) → Inv s → (if b then start_close s else some s) ≡ some t → Inv t
Inv-guarded true v e = Inv-start_close v e
Inv-guarded {s} {t} false v e = let same : s ≡ t = cc in subst Inv same v

Inv-schedule : {s t : ServerTask} (now : ℕ) → Inv s → schedule_event s now ≡ some t → Inv t
unfolding schedule_event
Inv-schedule {s} {t} now v e =
    go (s.last_hello_time == 0) (s.verified_client && ltb (s.last_hello_time + 30000) now) e
  where
    go : (a b : Bool) → (if a then some s else if b then start_close s else some s) ≡ some t → Inv t
    go true b h = let same : s ≡ t = cc in subst Inv same v
    go false b h = Inv-guarded b v h

Inv-check : {s t : ServerTask} → Inv s → on_check_verified s ≡ some t → Inv t
unfolding on_check_verified
Inv-check {s} v e = Inv-guarded (not s.verified_client) v e

Inv-begin : {s : ServerTask} (b : Bool) (now : ℕ) → Inv s → Inv (begin_process s b now).0
unfolding begin_process
Inv-begin true now v = Inv-quiet _ v refl refl
Inv-begin false now v = v

Inv-stop_v2 : {s : ServerTask} (b : Bool) → Inv s → Inv (stop_process_v2 s b)
unfolding stop_process_v2
Inv-stop_v2 true v = Inv-release (Inv-remove v)
Inv-stop_v2 false v = Inv-release v

Inv-Step : {s t : ServerTask} → Inv s → Step s t → Inv t
unfolding on_close_event stop_process on_recv_hello_msg
Inv-Step v (begin b now e) = subst Inv (sym e) (Inv-begin b now v)
Inv-Step v (packet bytes accepted e) = subst Inv (sym e) (Inv-packet bytes accepted v)
Inv-Step v (hello now e) = subst Inv (sym e) (Inv-quiet _ v refl refl)
Inv-Step v (schedule now e) = Inv-schedule now v e
Inv-Step v (check p e) = Inv-check v e
Inv-Step v (closed e) = subst Inv (sym e) (Inv-release (Inv-remove v))
Inv-Step v (stop b e) = subst Inv (sym e) (Inv-stop_v2 b v)

Reach-Inv : {t : ServerTask} → Reach init t → Inv t
Reach-Inv here = record { ordered = refl; same = refl }
Reach-Inv (next r step) = Inv-Step (Reach-Inv r) step

-- In every run of a new task, whatever events come in whatever order, each packet that is handed to
-- `MsgParse` comes after the client was verified and added to the manager; and the task takes the client
-- for verified exactly if it was added.
pub Reach-in_turn :
    {t : ServerTask}
    → Reach init t
    → (in_order false t.out ≡ true) × (adds false t.out ≡ t.verified_client)
Reach-in_turn r = let v = Reach-Inv r in (v.ordered, v.same)

-- `ScheduleEvent` of a task that was stopped follows a null pointer, once its verified client has been
-- silent for more than 30 seconds.
pub schedule_event-stop_process :
    (t : ServerTask) (now : ℕ)
    → t.verified_client ≡ true
    → 0 < t.last_hello_time
    → t.last_hello_time + 30000 < now
    → schedule_event (stop_process t) now ≡ none
unfolding schedule_event stop_process
schedule_event-stop_process t now e h k = ground (arith, e)
