-- ===== src/TcpSocket/Lifecycle/Reached.antt =====
-- What holds of a connection in every state that the network loop takes it to.
use reechat_base.Base.{
  ◌+◌, ◌<◌, length, arith, inl, inr, ℕ, ◌≡◌, ◌≢◌, ◌⊎◌, inl, inr, refl, sym, ap, subst, ◌∙◌, List,
  [], ◌∷◌, ◌++◌, append_assoc, some, true, if◌then◌else◌,
}
use reechat_base.Endian.{Host}
use reechat_base.RingBuffer.Contents.{contents}
use reechat_base.TcpSocket.{live}
use reechat_base.TcpSocket.Untouched.{Untouched-process}
use reechat_base.TcpSocket.Receiving.{process_buffered}
use reechat_base.TcpSocket.Process.{process_buffered_refines}
use reechat_base.RingBuffer.Geometry.{IsValid}
use reechat_base.TcpSocket.{
  TcpSocket, connecting, connected, Event, on_connection, on_read_event, event_set, event_add,
  event_del, Effect, run_in_worker, signal_close,
}
use reechat_base.TcpSocket.Connecting.{
  refused, connect_server_in_network_loop, writable, on_connection_event, prepared, helper_arg,
  live_arg,
}
use reechat_base.TcpSocket.Write.{errored, on_error_event_lem}
use reechat_base.TcpSocket.Lifecycle.{
  fired, Step, connect, process, process_data, connection, readable, event_write, functor_write,
  close, Reach, here, next, Wired, Inv, Wires-same,
}
use reechat_base.TcpSocket.Lifecycle.Kept.{Inv-fired, Inv-write, Inv-read, Inv-close}
use reechat_base.TcpSocket.Lifecycle.Functions.{Inv-process, Inv-connect, Inv-connection}

write_is : {s : TcpSocket} (v : Inv s) (e : Event) → s.write_event ≡ some e → v.write ≡ e
write_is v e h = let k = v.has_write in cc

-- A write event that waits for the connection belongs to an object whose read event is set.
set_for_reads :
    {s : TcpSocket} (v : Inv s) (e : Event)
    → s.write_event ≡ some e
    → e.handler ≡ on_connection
    → s.read_event.handler ≡ on_read_event
set_for_reads v e h k = elim v.wires.ready [
  | inl n ↦ absurd (n (ap (λ (x : Event). x.handler) (write_is v e h) ∙ k))
  | inr y ↦ y
]

Inv-event : {s : TcpSocket} (v : Inv s) (e : Event) → s.write_event ≡ some e → Inv (fired s e)
Inv-event {s} v e h = subst (λ x. Inv (fired s x)) (write_is v e h) (Inv-fired v)

-- Cutting packets from what was read, where no length is refused.
Inv-process_data :
    {s t : TcpSocket}
    → Inv s
    → (host : Host) → length (contents s.receiver_buffer) < s.receiver_buffer.capacity
    → process_buffered (length (contents s.receiver_buffer) + 1) host s ≡ some t
    → t.read_event ≡ s.read_event
    → Inv t
Inv-process_data {s} {t} v host room ran stays =
    let (u, packets, verdict, ran', did) =
      process_buffered_refines (length (contents s.receiver_buffer) + 1) host s v.write
        v.receiver_valid room v.has_write (omega arith) in
    let same : u ≡ t = cc in
    let valid = subst (λ (x : TcpSocket). IsValid x.receiver_buffer) same did.valid in
    let k = Untouched-process (length (contents s.receiver_buffer) + 1) host ran in
    let sender = subst IsValid (sym k.same_sender) v.sender_valid in
    elim k.writes [
      | inl w ↦ record {
        write = v.write;
        has_write = w ∙ v.has_write;
        sender_valid = sender;
        receiver_valid = valid;
        wires = Wires-same k.same_state stays refl v.wires;
      }
      | inr (e, h, w) ↦ record {
        write = event_del e;
        has_write = w;
        sender_valid = sender;
        receiver_valid = valid;
        wires =
            Wires-same k.same_state stays (sym (ap (λ (x : Event). x.handler) (write_is v e h)))
              v.wires;
      }
    ]

Inv-Step : {s t : TcpSocket} → Inv s → Step s t → Inv t
Inv-Step v (connect fd ret e) = Inv-connect v fd ret e
Inv-Step v (process fd nonblocking e) = Inv-process v fd nonblocking e
Inv-Step {s} v (connection e what err h k a ran) =
    Inv-connection (Inv-event v e h) (helper_arg s) what err (set_for_reads v e h k) ran
Inv-Step v (readable incoming h a ran) = Inv-read v incoming ran
Inv-Step v (event_write e wire wire' calls h k a ran) =
    Inv-write (Inv-event v e h) wire wire' calls ran
Inv-Step v (functor_write wire wire' calls ran) = Inv-write v wire wire' calls ran
Inv-Step v (close e) = subst Inv (sym e) (Inv-close v)
Inv-Step v (process_data host room ran stays) = Inv-process_data v host room ran stays

Reach-Inv : {s t : TcpSocket} → Inv s → Reach s t → Inv t
Reach-Inv v here = v
Reach-Inv v (next r step) = Inv-Step (Reach-Inv v r) step

-- A wrapper that is not connected, with valid buffers and a write event that is not set for `OnConnection`, in a loop that
-- is both network and worker loop. Whatever the functions that connect, begin to process an accepted connection, read, write,
-- cut packets and close do to it, in whatever order, and whatever the system calls return, as long as no
-- length out of range is refused: while it says that it is connected, its read event is added and calls
-- `OnReadEvent`, its write event calls `OnWriteEvent`; and both its buffers are valid.
pub Reach-Wired :
    {s t : TcpSocket} (write : Event)
    → s.write_event ≡ some write
    → write.handler ≢ on_connection
    → s.state ≢ connected
    → IsValid s.sender_buffer
    → IsValid s.receiver_buffer
    → Reach s t
    → (e : Event) × (t.write_event ≡ some e)
      × ((t.state ≢ connected) ⊎ Wired t e)
      × IsValid t.sender_buffer
      × IsValid t.receiver_buffer
Reach-Wired write h n c a b r =
    let start : Inv _ = record {
      write = write;
      has_write = h;
      sender_valid = a;
      receiver_valid = b;
      wires = record { wired = inl c; ready = inl n };
    } in
    let v = Reach-Inv start r in
    (v.write, v.has_write, v.wires.wired, v.sender_valid, v.receiver_valid)

-- After `connect` has failed at once, the close callback has been called and yet the object goes on to
-- connect, with its write event added; when that event fires, the error calls it a second time.
pub connect-refused_twice :
    (s : TcpSocket) (write : Event) (fd : ℕ)
    → s.write_event ≡ some write
    → s.share_this_helper ≡ live
    → s.has_on_close ≡ true
    → (t : TcpSocket) × (e : Event) × (u : TcpSocket) × (connect_server_in_network_loop s
          (some fd)
          refused
        ≡ some t)
      × (t.state ≡ connecting)
      × (t.write_event ≡ some e)
      × (e.added ≡ true)
      × (t.out ≡ s.out ++ run_in_worker signal_close ∷ [])
      × (on_connection_event (helper_arg t) (fired t e) writable true ≡ some u)
      × (u.out ≡ s.out ++ (run_in_worker signal_close ∷ run_in_worker signal_close ∷ []))
unfolding connect_server_in_network_loop on_connection_event helper_arg
connect-refused_twice s write fd h k c =
    let e : Event = event_set write on_connection in
    let t : TcpSocket = record (errored (prepared s fd write) e) {
      state = connecting;
      write_event = some (event_add e);
    } in
    let close : List Effect = run_in_worker signal_close ∷ [] in
    let err = on_error_event_lem (prepared s fd write) e refl in
    let held : helper_arg t ≡ live_arg = rw k refl in
    let once : t.out ≡ s.out ++ close = ap (λ b. s.out ++ (if b then close else [])) c in
    (
      t,
      event_add e,
      errored (fired t (event_add e)) (event_del e),
      rw (h, err) refl,
      refl,
      refl,
      refl,
      once,
      ap (λ a. on_connection_event a (fired t (event_add e)) writable true) held
          ∙ on_error_event_lem (fired t (event_add e)) (event_del e) refl,
      ap (λ b. t.out ++ (if b then close else [])) c
          ∙ ap (λ l. l ++ close) once
          ∙ append_assoc s.out close close,
    )
