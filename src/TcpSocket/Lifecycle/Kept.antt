-- ===== src/TcpSocket/Lifecycle/Kept.antt =====
-- The states that the functions of a connection end in keep its invariant.
use reechat_base.Base.{
  ℕ, ◌≡◌, inl, inr, refl, ap, subst, ◌∙◌, List, Option, some, Bool, true, false, if◌then◌else◌,
}
use reechat_base.RingBuffer.{RingBuffer}
use reechat_base.RingBuffer.Geometry.{IsValid}
use reechat_base.TcpSocket.{
  live, TcpSocket, ConnState, closed, connecting, connected, on_connection, on_read_event,
  on_write_event, event_set, event_add, event_del, run_in_worker, signal_connected, on_error_event,
  emit,
}
use reechat_base.TcpSocket.Sending.{Outgoing, try_write_buffer}
use reechat_base.TcpSocket.Receiving.{Incoming, on_read, try_read_data}
use reechat_base.TcpSocket.Connecting.{close_connection_in_network_loop, client_connected, prepared}
use reechat_base.TcpSocket.Write.{
  errored, on_error_event_lem, Ended, paused, waits, given_up, try_write_buffer_lem,
}
use reechat_base.TcpSocket.Read.{Outcome, nothing, received, failed_read, try_read_data-Outcome}
use reechat_base.TcpSocket.Lifecycle.{
  fired, Inv, not_connected, connecting_not, not_connecting, Wires-same,
}

module _ {s : TcpSocket} (v : Inv s) where
  pub Inv-errored :
      {sender : RingBuffer}
      → IsValid sender
      → Inv (errored (record s { sender_buffer = sender }) v.write)
  Inv-errored w = record {
    write = event_del v.write;
    has_write = refl;
    sender_valid = w;
    receiver_valid = v.receiver_valid;
    wires = record { wired = inl not_connected; ready = v.wires.ready };
  }

  pub Inv-Ended :
      {sender : RingBuffer} {t : TcpSocket} → IsValid sender → Ended s v.write sender t → Inv t
  Inv-Ended w paused = record {
    write = v.write;
    has_write = v.has_write;
    sender_valid = w;
    receiver_valid = v.receiver_valid;
    wires = Wires-same refl refl refl v.wires;
  }
  Inv-Ended w waits = record {
    write = event_add v.write;
    has_write = refl;
    sender_valid = w;
    receiver_valid = v.receiver_valid;
    wires = Wires-same refl refl refl v.wires;
  }
  Inv-Ended w given_up = Inv-errored w

  pub Inv-Outcome : {t : TcpSocket} → Outcome s v.write t → Inv t
  Inv-Outcome nothing = v
  Inv-Outcome (received receiver w) = record {
    write = v.write;
    has_write = v.has_write;
    sender_valid = v.sender_valid;
    receiver_valid = w;
    wires = Wires-same refl refl refl v.wires;
  }
  Inv-Outcome failed_read = Inv-errored v.sender_valid

  pub Inv-fired : Inv (fired s v.write)
  Inv-fired = record {
    write = event_del v.write;
    has_write = refl;
    sender_valid = v.sender_valid;
    receiver_valid = v.receiver_valid;
    wires = Wires-same refl refl refl v.wires;
  }

  pub Inv-write :
      {t : TcpSocket} (wire wire' : List ℕ) (calls : List Outgoing)
      → try_write_buffer s wire calls ≡ some (t, wire')
      → Inv t
  Inv-write {t} wire wire' calls e =
      let (u, _, sender, ran, _, end, w, _, _) =
        try_write_buffer_lem s wire calls v.write v.sender_valid v.has_write in
      let same : u ≡ t = cc in subst Inv same (Inv-Ended w end)

  pub Inv-error : {t : TcpSocket} → on_error_event s ≡ some t → Inv t
  Inv-error {t} e =
      let ran = on_error_event_lem s v.write v.has_write in
      let same : errored s v.write ≡ t = cc in subst Inv same (Inv-errored v.sender_valid)

  pub Inv-read : {t : TcpSocket} (incoming : Incoming) → on_read s incoming ≡ some t → Inv t
  unfolding on_read
  Inv-read {t} incoming e = go s.state refl
    where
      by_state : ConnState → Option TcpSocket
      by_state c = elim c [ connected ↦ try_read_data s incoming | _ ↦ some s ]

      go : (c : ConnState) → s.state ≡ c → Inv t
      go closed h =
          let k : on_read s incoming ≡ some s = ap by_state h in
          let same : s ≡ t = cc in subst Inv same v
      go connecting h =
          let k : on_read s incoming ≡ some s = ap by_state h in
          let same : s ≡ t = cc in subst Inv same v
      go connected h =
          let (u, ran, o) = try_read_data-Outcome s v.write v.receiver_valid v.has_write incoming in
          let k : on_read s incoming ≡ some u = ap by_state h ∙ ran in
          let same : u ≡ t = cc in subst Inv same (Inv-Outcome o)

  pub Inv-close : Inv (close_connection_in_network_loop s)
  unfolding close_connection_in_network_loop
  Inv-close = record {
    write = event_del v.write;
    has_write = rw (v.has_write) refl;
    sender_valid = v.sender_valid;
    receiver_valid = v.receiver_valid;
    wires = record { wired = inl not_connected; ready = v.wires.ready };
  }

  abbrev pub processed : ℕ → TcpSocket
  processed fd = record s {
    socketfd = some fd;
    state = connected;
    share_this_helper = live;
    read_event = event_add (event_set s.read_event on_read_event);
    write_event = some (event_set v.write on_write_event);
  }

  pub Inv-processed : (fd : ℕ) → Inv (processed fd)
  Inv-processed fd = record {
    write = event_set v.write on_write_event;
    has_write = refl;
    sender_valid = v.sender_valid;
    receiver_valid = v.receiver_valid;
    wires = record {
      wired = inr (record { listens = refl; reads = refl; writes = refl });
      ready = inl not_connecting;
    };
  }

  pub Inv-moved : (fd : Option ℕ) → Inv (record s { socketfd = fd })
  Inv-moved fd = record {
    write = v.write;
    has_write = v.has_write;
    sender_valid = v.sender_valid;
    receiver_valid = v.receiver_valid;
    wires = Wires-same refl refl refl v.wires;
  }

  -- The object at the end of `ConnectServerInNetworkLoop`, whether or not an error was seen on the way.
  abbrev pub connecting_from : TcpSocket → TcpSocket
  connecting_from t = record t {
    state = connecting;
    write_event = some (event_add (event_set v.write on_connection));
  }

  pub Inv-prepared : (fd : ℕ) → Inv (connecting_from (prepared s fd v.write))
  Inv-prepared fd = record {
    write = event_add (event_set v.write on_connection);
    has_write = refl;
    sender_valid = v.sender_valid;
    receiver_valid = v.receiver_valid;
    wires = record { wired = inl connecting_not; ready = inr refl };
  }

  pub Inv-refused :
      (fd : ℕ)
      → Inv (connecting_from (errored (prepared s fd v.write) (event_set v.write on_connection)))
  Inv-refused fd = record {
    write = event_add (event_set v.write on_connection);
    has_write = refl;
    sender_valid = v.sender_valid;
    receiver_valid = v.receiver_valid;
    wires = record { wired = inl connecting_not; ready = inr refl };
  }

  pub connected_from : Bool → TcpSocket
  connected_from b =
      let t : TcpSocket = record s {
        read_event = event_add s.read_event;
        write_event = some (event_set v.write on_write_event);
        state = connected;
      } in
      if b then emit t (run_in_worker signal_connected) else t

  pub Inv-connected_from :
      s.read_event.handler ≡ on_read_event → (b : Bool) → Inv (connected_from b)
  unfolding connected_from
  Inv-connected_from h true = record {
    write = event_set v.write on_write_event;
    has_write = refl;
    sender_valid = v.sender_valid;
    receiver_valid = v.receiver_valid;
    wires = record {
      wired = inr (record { listens = refl; reads = h; writes = refl });
      ready = inl not_connecting;
    };
  }
  Inv-connected_from h false = record {
    write = event_set v.write on_write_event;
    has_write = refl;
    sender_valid = v.sender_valid;
    receiver_valid = v.receiver_valid;
    wires = record {
      wired = inr (record { listens = refl; reads = h; writes = refl });
      ready = inl not_connecting;
    };
  }

  pub client_connected_lem : client_connected s ≡ some (connected_from s.has_on_connected)
  unfolding client_connected connected_from
  client_connected_lem = rw (v.has_write) refl

  pub Inv-client_connected :
      {t : TcpSocket} → s.read_event.handler ≡ on_read_event → client_connected s ≡ some t → Inv t
  Inv-client_connected {t} h e =
      let ran = client_connected_lem in
      let same : connected_from s.has_on_connected ≡ t = cc in
      subst Inv same (Inv-connected_from h s.has_on_connected)
