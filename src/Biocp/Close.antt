-- ===== src/Biocp/Close.antt =====
-- close_connection of tcp_dispatcher_biocp.cpp, and the release of objects whose operation is
-- completed or never will be.
use tcp_fsm.Base.{ℕ, List, [], ◌∷◌, Bool, ◌==◌, if◌then◌else◌, not}
use tcp_fsm.Connection.{ConnState, cs_wait4connect, cs_connected, cs_closed, no_callbacks}
use tcp_fsm.Effects.{
  Object, conn_object, recv_object, send_object, release, connected_cb, closed_cb, socket_closed,
}
use tcp_fsm.Monad.{pure, ◌>>=◌, ◌>>◌, get, modify, when, update}
use tcp_fsm.Wsa
use tcp_fsm.Biocp.State.{Calls, B, emit, require, invoke, unwatch}

-- SOCKET_ERROR as a SOCKET.
abbrev pub socket_error : ℕ
socket_error = 18446744073709551615

-- `for( … ) if( *it==x ) { erase( it ); break; }`
unfoldable pub erase_first : ℕ → List ℕ → List ℕ
erase_first x [] = []
erase_first x (y ∷ ys) = if y == x then ys else y ∷ erase_first x ys

unfoldable pub free_completed_conn : ℕ → B (Unit {0})
free_completed_conn h = do
  modify λ w. record w { conns = erase_first h w.conns }
  emit (release (conn_object h))

unfoldable pub free_completed_recv : ℕ → B (Unit {0})
free_completed_recv r = do
  modify λ w. record w { recvs = erase_first r w.recvs }
  emit (release (recv_object r))

unfoldable pub free_completed_send : ℕ → B (Unit {0})
free_completed_send s = do
  modify λ w. record w { sends = erase_first s w.sends }
  emit (release (send_object s))

unfoldable pub release_all : (ℕ → Object) → List ℕ → B (Unit {0})
release_all object [] = pure tt
release_all object (x ∷ xs) = do emit (release (object x)); release_all object xs

unfoldable pub free_not_completed_objects : B (Unit {0})
unfolding release_all
free_not_completed_objects = do
  w ← get
  release_all send_object w.sends
  release_all recv_object w.recvs
  release_all conn_object w.conns
  modify λ v. record v { sends = []; recvs = []; conns = [] }

-- The callbacks are taken away and the connection is closed.
unfoldable pub forget : ℕ → B (Unit {0})
forget h = modify λ w. record w {
  conn_at = update w.conn_at h (record (w.conn_at h) { cbs = no_callbacks; state = cs_closed });
}

-- `closesocket` unless the socket is closed already. Its failure is only logged.
unfoldable pub close_socket : ℕ → B (Unit {0})
close_socket h = do
  w ← get
  when (not ((w.conn_at h).sock == socket_error)) (emit (socket_closed (w.conn_at h).sock))
  modify
      λ v. record v { conn_at = update v.conn_at h (record (v.conn_at h) { sock = socket_error }) }

module _ (p : Calls) where
  unfoldable pub close_in_state : ConnState → ℕ → Bool → B (Unit {0})
  unfolding forget close_socket free_completed_conn Wsa.del_event
  close_in_state cs_wait4connect h iocp = do
    w ← get
    invoke p (w.conn_at h).cbs.connected (connected_cb h 0)
    forget h
    unwatch (w.conn_at h).sock
    require p.set_event
    free_completed_conn h
  close_in_state cs_connected h iocp = do
    w ← get
    invoke p (w.conn_at h).cbs.closed (closed_cb h)
    forget h
    close_socket h
    when iocp (free_completed_conn h)
  close_in_state cs_closed h iocp = do close_socket h; when iocp (free_completed_conn h)

  unfoldable pub close_connection : ℕ → Bool → B (Unit {0})
  unfolding close_in_state
  close_connection h iocp = do w ← get; close_in_state (w.conn_at h).state h iocp
