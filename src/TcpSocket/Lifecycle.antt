-- ===== src/TcpSocket/Lifecycle.antt =====
-- A connection's life in the network loop, as the steps that its functors and events make.
pub mod Kept
pub mod Functions
pub mod Reached
use reechat_base.Base.{
  ◌+◌, ◌<◌, length, ℕ, ◌≡◌, ◌≢◌, ◌⊎◌, inl, inr, refl, sym, ap, subst, ◌∙◌, List, [], ◌∷◌, ◌++◌,
  append_assoc, Option, some, none, Bool, true, false, if◌then◌else◌,
}
use reechat_base.RingBuffer.{RingBuffer}
use reechat_base.RingBuffer.Geometry.{IsValid}
use reechat_base.TcpSocket.{
  TcpSocket, ConnState, closed, connecting, connected, Event, on_connection, on_read_event,
  on_write_event, event_set, event_add, event_del, Effect, run_in_worker, signal_close,
  signal_connected, on_error_event, emit,
}
use reechat_base.TcpSocket.Sending.{Outgoing, try_write_buffer}
use reechat_base.TcpSocket.Receiving.{Incoming, on_read, try_read_data, process_buffered}
use reechat_base.RingBuffer.Contents.{contents}
use reechat_base.Endian.{Host}
use reechat_base.TcpSocket.Connecting.{
  ConnectReturn, at_once, in_progress, refused, connect_server_in_network_loop,
  begin_process_in_network_loop, close_connection_in_network_loop, client_connected, What, writable,
  timed_out, other, on_connection_event, prepared, helper_arg,
}
use reechat_base.TcpSocket.Write.{
  errored, on_error_event_lem, Ended, paused, waits, given_up, try_write_buffer_lem,
}
use reechat_base.TcpSocket.Read.{
  Outcome, nothing, received, failed_read, filled, try_read_data-Outcome,
}

-- The base takes an event that is not persistent out before it calls its function.
abbrev pub fired : TcpSocket → Event → TcpSocket
fired s e = record s { write_event = some (event_del e) }

pub data Step (s t : TcpSocket) : Type 0 where
  connect :
      (fd : Option ℕ) (ret : ConnectReturn)
      → connect_server_in_network_loop s fd ret ≡ some t
      → Step s t
  process :
      (fd : ℕ) (nonblocking : Bool)
      → begin_process_in_network_loop s fd nonblocking ≡ some t
      → Step s t
  connection :
      (e : Event) (what : What) (err : Bool)
      → s.write_event ≡ some e
      → e.handler ≡ on_connection
      → e.added ≡ true
      → on_connection_event (helper_arg s) (fired s e) what err ≡ some t
      → Step s t
  readable :
      (incoming : Incoming)
      → s.read_event.handler ≡ on_read_event
      → s.read_event.added ≡ true
      → on_read s incoming ≡ some t
      → Step s t
  event_write :
      (e : Event) (wire wire' : List ℕ) (calls : List Outgoing)
      → s.write_event ≡ some e
      → e.handler ≡ on_write_event
      → e.added ≡ true
      → try_write_buffer (fired s e) wire calls ≡ some (t, wire')
      → Step s t
  functor_write :
      (wire wire' : List ℕ) (calls : List Outgoing)
      → try_write_buffer s wire calls ≡ some (t, wire')
      → Step s t
  close : t ≡ close_connection_in_network_loop s → Step s t
  -- A run of `TryProcessBufferedDataInWorkLoop`, where the worker loop is the network loop, that refuses no length.
  process_data :
      (host : Host)
      → length (contents s.receiver_buffer) < s.receiver_buffer.capacity
      → process_buffered (length (contents s.receiver_buffer) + 1) host s ≡ some t
      → t.read_event ≡ s.read_event
      → Step s t

pub data Reach (s : TcpSocket) : TcpSocket → Type 0 where
  here : Reach s s
  next : {t u : TcpSocket} → Reach s t → Step t u → Reach s u

-- Reads will be noticed, and a wait for room to write ends in the right function.
pub record Wired (s : TcpSocket) (write : Event) : Type 0 where
  pub listens : s.read_event.added ≡ true
  pub reads : s.read_event.handler ≡ on_read_event
  pub writes : write.handler ≡ on_write_event

-- `wired` is what a connected object has, and `ready` what one that connects has.
pub record Wires (s : TcpSocket) (write : Event) : Type 0 where
  pub wired : (s.state ≢ connected) ⊎ Wired s write
  pub ready : (write.handler ≢ on_connection) ⊎ (s.read_event.handler ≡ on_read_event)

pub record Inv (s : TcpSocket) : Type 0 where
  pub write : Event
  pub has_write : s.write_event ≡ some write
  pub sender_valid : IsValid s.sender_buffer
  pub receiver_valid : IsValid s.receiver_buffer
  pub wires : Wires s write

pub not_connected : closed ≢ connected
not_connected e = cc

pub connecting_not : connecting ≢ connected
connecting_not e = cc

pub not_connecting : on_write_event ≢ on_connection
not_connecting e = cc

-- Deleting or adding the events of a connection leaves it wired while its reads are watched.
pub Wires-same :
    {s t : TcpSocket} {a b : Event}
    → t.state ≡ s.state
    → t.read_event ≡ s.read_event
    → b.handler ≡ a.handler
    → Wires s a
    → Wires t b
Wires-same p q h x = record {
  wired = elim x.wired [
    | inl n ↦ inl (λ c. n (sym p ∙ c))
    | inr y ↦ inr (record {
      listens = ap (λ (r : Event). r.added) q ∙ y.listens;
      reads = ap (λ (r : Event). r.handler) q ∙ y.reads;
      writes = h ∙ y.writes;
    })
  ];
  ready = elim x.ready [
    | inl n ↦ inl (λ c. n (sym h ∙ c))
    | inr y ↦ inr (ap (λ (r : Event). r.handler) q ∙ y)
  ];
}
