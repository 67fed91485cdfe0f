-- ===== src/TcpSocket/Lifecycle/Functions.antt =====
-- What each function of a connection comes to.
use reechat_base.Base.{ℕ, ◌≡◌, refl, sym, subst, ◌∙◌, Option, some, none, Bool, true, false}
use reechat_base.TcpSocket.{TcpSocket, on_connection, on_read_event, event_set, on_error_event}
use reechat_base.TcpSocket.Connecting.{
  ConnectReturn, at_once, in_progress, refused, connect_server_in_network_loop,
  begin_process_in_network_loop, What, writable, timed_out, other, on_connection_event, prepared,
  HelperArg, null_arg, live_arg, stray_arg,
}
use reechat_base.TcpSocket.Write.{errored, on_error_event_lem}
use reechat_base.TcpSocket.Lifecycle.{Inv}
use reechat_base.TcpSocket.Lifecycle.Kept.{
  Inv-error, processed, Inv-processed, Inv-moved, connecting_from, Inv-prepared, Inv-refused,
  Inv-client_connected,
}

-- What each of the larger functions comes to, from a state that has the invariant.
module _ {s : TcpSocket} (v : Inv s) where
  pub process_lem : (fd : ℕ) → begin_process_in_network_loop s fd true ≡ some (processed v fd)
  unfolding begin_process_in_network_loop
  process_lem fd = rw (v.has_write) refl

  pub process_failed :
      (fd : ℕ)
      → begin_process_in_network_loop s fd false ≡ on_error_event (record s { socketfd = some fd })
  unfolding begin_process_in_network_loop
  process_failed fd = refl

  pub Inv-process :
      {t : TcpSocket} (fd : ℕ) (nonblocking : Bool)
      → begin_process_in_network_loop s fd nonblocking ≡ some t
      → Inv t
  Inv-process {t} fd true e =
      let ran = process_lem fd in
      let same : processed v fd ≡ t = cc in subst Inv same (Inv-processed v fd)
  Inv-process {t} fd false e = Inv-error (Inv-moved v (some fd)) (sym (process_failed fd) ∙ e)

  pub connect-none :
      (ret : ConnectReturn)
      → connect_server_in_network_loop s none ret ≡ on_error_event (record s { socketfd = none })
  unfolding connect_server_in_network_loop
  connect-none ret = refl

  pub connect-at_once :
      (fd : ℕ)
      → connect_server_in_network_loop s (some fd) at_once
        ≡ some (connecting_from v (prepared s fd v.write))
  unfolding connect_server_in_network_loop
  connect-at_once fd = rw (v.has_write) refl

  pub connect-in_progress :
      (fd : ℕ)
      → connect_server_in_network_loop s (some fd) in_progress
        ≡ some (connecting_from v (prepared s fd v.write))
  unfolding connect_server_in_network_loop
  connect-in_progress fd = rw (v.has_write) refl

  pub connect-refused :
      (fd : ℕ)
      → connect_server_in_network_loop s (some fd) refused
        ≡ some
            (connecting_from v (errored (prepared s fd v.write) (event_set v.write on_connection)))
  unfolding connect_server_in_network_loop
  connect-refused fd =
      let err = on_error_event_lem (prepared s fd v.write) (event_set v.write on_connection) refl in
      rw (v.has_write, err) refl

  pub Inv-connect :
      {t : TcpSocket} (fd : Option ℕ) (ret : ConnectReturn)
      → connect_server_in_network_loop s fd ret ≡ some t
      → Inv t
  Inv-connect none ret e = Inv-error (Inv-moved v none) (sym (connect-none ret) ∙ e)
  Inv-connect {t} (some fd) at_once e =
      let ran = connect-at_once fd in
      let same : connecting_from v (prepared s fd v.write) ≡ t = cc in
      subst Inv same (Inv-prepared v fd)
  Inv-connect {t} (some fd) in_progress e =
      let ran = connect-in_progress fd in
      let same : connecting_from v (prepared s fd v.write) ≡ t = cc in
      subst Inv same (Inv-prepared v fd)
  Inv-connect {t} (some fd) refused e =
      let ran = connect-refused fd in
      let same : connecting_from v
            (errored (prepared s fd v.write) (event_set v.write on_connection))
          ≡ t =
        cc in
      subst Inv same (Inv-refused v fd)

  pub Inv-connection :
      {t : TcpSocket} (arg : HelperArg) (what : What) (err : Bool)
      → s.read_event.handler ≡ on_read_event
      → on_connection_event arg s what err ≡ some t
      → Inv t
  unfolding on_connection_event
  Inv-connection {t} null_arg what err h e = let same : s ≡ t = cc in subst Inv same v
  Inv-connection live_arg writable true h e = Inv-error v e
  Inv-connection live_arg writable false h e = Inv-client_connected v h e
  Inv-connection live_arg timed_out err h e = Inv-error v e
  Inv-connection {t} live_arg other err h e = let same : s ≡ t = cc in subst Inv same v
  Inv-connection stray_arg what err h e = absurd (cc)
