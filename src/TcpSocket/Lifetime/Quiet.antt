-- ===== src/TcpSocket/Lifetime/Quiet.antt =====
-- Which calls can follow the closing of a `TcpSocketWrapper` (tcp_socket_wrapper.cpp).
use reechat_base.Base.{
  ℕ, ◌≡◌, ◌≢◌, inl, inr, refl, subst, List, [], ◌∷◌, none, some, Bool, true, false, arith,
  Option-cases, Option, sym, ap, ◌∙◌,
}
use reechat_base.Endian.{Host}
use reechat_base.RingBuffer.{RingBuffer, available_series_read}
use reechat_base.TcpSocket.{
  TcpSocket, Helper, unset, live, null, event_del, closed, Event, event_add, on_write_event,
  on_read_event, on_connection,
}
use reechat_base.TcpSocket.Sending.{Outgoing, busy, try_write_buffer}
use reechat_base.TcpSocket.Receiving.{Incoming, process_buffered}
use reechat_base.TcpSocket.Untouched.{Untouched, Untouched-process}
use reechat_base.TcpSocket.Connecting.{
  close_connection_in_network_loop, on_destroy_socket, on_connection_event, What, helper_arg,
}
use reechat_base.TcpSocket.Lifetime.{on_read_of, on_write_of}
use reechat_base.TcpSocket.Lifecycle.{fired}

-- The base calls the function of an event, with the helper as it is.
pub data EventStep (s t : TcpSocket) : Type 0 where
  connects :
      (e : Event) (what : What) (err : Bool)
      → s.write_event ≡ some e
      → e.handler ≡ on_connection
      → e.added ≡ true
      → on_connection_event (helper_arg s) (fired s e) what err ≡ some t
      → EventStep s t
  reads :
      (incoming : Incoming)
      → s.read_event.handler ≡ on_read_event
      → s.read_event.added ≡ true
      → on_read_of (helper_arg s) s incoming ≡ some t
      → EventStep s t
  writes :
      (e : Event) (wire wire' : List ℕ) (calls : List Outgoing)
      → s.write_event ≡ some e
      → e.handler ≡ on_write_event
      → e.added ≡ true
      → on_write_of (helper_arg s) (fired s e) wire calls ≡ some (t, wire')
      → EventStep s t
  -- The functors of the worker loop: `OnDestroySocket` and `TryProcessBufferedDataInWorkLoop`.
  destroys : on_destroy_socket s ≡ some t → EventStep s t
  processes : (fuel : ℕ) (host : Host) → process_buffered fuel host s ≡ some t → EventStep s t

pub data EventSteps (s : TcpSocket) : TcpSocket → Type 0 where
  here : EventSteps s s
  next : {t u : TcpSocket} → EventSteps s t → EventStep t u → EventSteps s u

-- Neither event is in the base, the state is closed, and the bytes to be sent are those given.
record Quiet (sender : RingBuffer) (s : TcpSocket) : Type 0 where
  no_read : s.read_event.added ≡ false
  no_write : (e : Event) → s.write_event ≡ some e → e.added ≡ false
  is_closed : s.state ≡ closed
  kept : s.sender_buffer ≡ sender

close-Quiet : (s : TcpSocket) → Quiet s.sender_buffer (close_connection_in_network_loop s)
unfolding close_connection_in_network_loop
close-Quiet s = record {
  no_read = refl;
  no_write = elim (Option-cases s.write_event) [
    | inl n ↦ (λ e h. ground arith)
    | inr (w, y) ↦ (λ e h. ground arith)
  ];
  is_closed = refl;
  kept = refl;
}

destroy-Quiet :
    {sender : RingBuffer} (s t : TcpSocket)
    → Quiet sender s
    → on_destroy_socket s ≡ some t
    → Quiet sender t
unfolding on_destroy_socket
destroy-Quiet {sender} s t q e = go s.share_this_helper e
  where
    go :
        (h : Helper)
        → (elim h as (λ _. Option TcpSocket) [
          | unset ↦ none
          | live ↦ some (record s { share_this_helper = null })
          | null ↦ some s
        ])
          ≡ some t
        → Quiet sender t
    go unset h = absurd (cc)
    go live h =
        let same : record s { share_this_helper = null } ≡ t = cc in
        subst (Quiet sender) same (record {
          no_read = q.no_read;
          no_write = q.no_write;
          is_closed = q.is_closed;
          kept = q.kept;
        })
    go null h = let same : s ≡ t = cc in subst (Quiet sender) same q

process-Quiet :
    {sender : RingBuffer} (s t : TcpSocket) → Quiet sender s → Untouched s t → Quiet sender t
process-Quiet s t q k = record {
  no_read = elim k.reads [
    | inl h ↦ ap (λ (x : Event). x.added) h ∙ q.no_read
    | inr h ↦ ap (λ (x : Event). x.added) h
  ];
  no_write = λ e h. elim k.writes [
    | inl same ↦ q.no_write e (sym same ∙ h)
    | inr (w, _, deleted) ↦ let now : event_del w ≡ e = cc in sym (ap (λ (x : Event). x.added) now)
  ];
  is_closed = k.same_state ∙ q.is_closed;
  kept = k.same_sender ∙ q.kept;
}

-- A quiet wrapper lets no event function run.
Quiet-step :
    {sender : RingBuffer} {s t : TcpSocket} → Quiet sender s → EventStep s t → Quiet sender t
Quiet-step q (connects e what err h k a ran) = absurd (let n = q.no_write e h in cc)
Quiet-step q (reads incoming h a ran) = let n = q.no_read in absurd (cc)
Quiet-step q (writes e wire wire' calls h k a ran) = absurd (let n = q.no_write e h in cc)
Quiet-step {s = s} {t = t} q (destroys e) = destroy-Quiet s t q e
Quiet-step {s = s} {t = t} q (processes fuel host e) =
    process-Quiet s t q (Untouched-process fuel host e)

Quiet-steps :
    {sender : RingBuffer} {s t : TcpSocket} → Quiet sender s → EventSteps s t → Quiet sender t
Quiet-steps q here = q
Quiet-steps q (next r step) = Quiet-step (Quiet-steps q r) step

-- After `CloseConnectionInNetworkLoop`, until another functor of the network loop runs: whatever the base does, and
-- however often the worker loop runs `TryProcessBufferedDataInWorkLoop` and `OnDestroySocket`, in whatever order, neither event is in
-- the base, so that no event function runs, the state stays closed, and what was still to be sent is not sent.
pub close-EventSteps :
    (s : TcpSocket) {t : TcpSocket}
    → EventSteps (close_connection_in_network_loop s) t
    → (t.read_event.added ≡ false)
      × ((e : Event) → t.write_event ≡ some e → e.added ≡ false)
      × (t.state ≡ closed)
      × (t.sender_buffer ≡ s.sender_buffer)
close-EventSteps s r =
    let q = Quiet-steps (close-Quiet s) r in (q.no_read, q.no_write, q.is_closed, q.kept)

-- A functor `TryWriteBufferToSocket` that runs after `CloseConnectionInNetworkLoop` looks at no state: if there are bytes to
-- send and the socket is not ready, it adds the write event of the connection again; and once `OnDestroySocket` has
-- deleted the helper, `OnWriteEvent`, which that event calls, uses the deleted helper.
pub try_write_buffer-closed :
    (s : TcpSocket) (e : Event) (n : ℕ) (wire : List ℕ) (later : List Outgoing)
    → s.write_event ≡ some e
    → e.handler ≡ on_write_event
    → s.share_this_helper ≡ live
    → available_series_read s.sender_buffer ≡ some n
    → n ≢ 0
    → (t : TcpSocket) × (u : TcpSocket) × (try_write_buffer
          (close_connection_in_network_loop s)
          wire
          (busy ∷ [])
        ≡ some (t, wire))
      × (on_destroy_socket t ≡ some u)
      × (u.write_event ≡ some (event_add e))
      × ((event_add e).handler ≡ on_write_event)
      × (on_write_of (helper_arg u) (fired u (event_add e)) wire later ≡ none)
unfolding try_write_buffer close_connection_in_network_loop on_destroy_socket on_write_of helper_arg
try_write_buffer-closed s e n wire later h k held a ne =
    let c = close_connection_in_network_loop s in
    let t : TcpSocket = record c { write_event = some (event_add e) } in
    (t, record t { share_this_helper = null }, ground arith, rw held refl, refl, k, refl)
