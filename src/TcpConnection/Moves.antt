-- ===== src/TcpConnection/Moves.antt =====
-- How each handler moves the state of a connection.
use my_tiny_rpc.Base.{
  ℕ, ◌≡◌, inl, inr, refl, sym, ap, ◌∙◌, subst, Bool, true, false, Option, List, [], Bytes,
}
use my_tiny_rpc.Base.Outcome.{done, done-injective, bind-eq-done, if-eq}
use my_tiny_rpc.Coder.TinyPb.{TinyPbProtocol, decode, encode}
use my_tiny_rpc.Rpc.Dispatcher.{ServiceMap, RunTime}
use my_tiny_rpc.TcpConnection.{
  TcpState, not_connected, connected, half_closed, closed, TcpConnectionType, by_server, by_client,
  TcpConnection, Effect, if_connected, by_type, listen_write, clear, shut_down,
}
use my_tiny_rpc.TcpConnection.Input.{
  ReadResult, read_loop, serve_all, execute_server, execute_client, execute, read_connected,
  on_read,
}
use my_tiny_rpc.TcpConnection.Output.{
  WriteResult, stop_writing, run_write_dones, write_connected, encode_messages, write_loop,
}

-- Only `setState` makes a connection `Connected`; the rest of the class moves it as here.
pub data Moves : TcpState → TcpState → Type 0 where
  stays : {s : TcpState} → Moves s s
  closes : Moves connected closed
  half_closes : Moves connected half_closed

clear_closes : (c : TcpConnection) → (clear c).state ≡ closed
unfolding clear
clear_closes c = elim c.state as (λ s. (clear (record c { state = s })).state ≡ closed) [
  | not_connected ↦ refl
  | connected ↦ refl
  | half_closed ↦ refl
  | closed ↦ refl
]

pub shut_down-Moves : (c : TcpConnection) → Moves c.state (shut_down c).state
unfolding shut_down
shut_down-Moves c = elim c.state as (λ s. Moves s (shut_down (record c { state = s })).state) [
  | not_connected ↦ stays
  | connected ↦ half_closes
  | half_closed ↦ stays
  | closed ↦ stays
]

module _ {Addr : Type 0} (local_addr peer_addr : Option Addr) (services : ServiceMap Addr)
    (fuel : ℕ) (run_time : RunTime) where
  execute_server-state :
      (c : TcpConnection) (e : Effect)
      → execute_server local_addr peer_addr services fuel c run_time ≡ done e
      → e.connection.state ≡ c.state
  unfolding execute_server listen_write
  execute_server-state c e h =
      let decoded = bind-eq-done (decode fuel c.in_buffer) _ h in
      let encoded =
        bind-eq-done
          (encode (serve_all local_addr peer_addr services decoded.0.1 run_time).0 c.out_buffer) _
          decoded.2 in
      ap (λ (x : Effect). x.connection.state) (sym (done-injective encoded.2))

  execute_client-state :
      (c : TcpConnection) (e : Effect)
      → execute_client local_addr peer_addr services fuel c run_time ≡ done e
      → e.connection.state ≡ c.state
  unfolding execute_client
  execute_client-state c e h =
      let decoded = bind-eq-done (decode fuel c.in_buffer) _ h in
      ap (λ (x : Effect). x.connection.state) (sym (done-injective decoded.2))

  execute-state :
      (t : TcpConnectionType) (c : TcpConnection) (e : Effect)
      → by_type t
          (execute_server local_addr peer_addr services fuel c run_time)
          (execute_client local_addr peer_addr services fuel c run_time)
        ≡ done e
      → e.connection.state ≡ c.state
  execute-state by_server c e h = execute_server-state c e h
  execute-state by_client c e h = execute_client-state c e h

  read_connected-Moves :
      (reads : List ReadResult) (c : TcpConnection) (e : Effect)
      → c.state ≡ connected
      → read_connected local_addr peer_addr services fuel reads c run_time ≡ done e
      → Moves c.state e.connection.state
  unfolding read_connected execute
  read_connected-Moves reads c e was h =
      let was_read = bind-eq-done (read_loop reads c.in_buffer) _ h in
      let c' = record c { in_buffer = was_read.0.0 } in
      elim (if-eq was_read.0.1
        (done (record { connection = clear c'; run_time = run_time; calls = [] }))
        (execute local_addr peer_addr services fuel c' run_time) was_read.2) [
          | inl x ↦
              let now : e.connection.state ≡ closed =
                ap (λ (y : Effect). y.connection.state) (sym (done-injective x.1))
                ∙ clear_closes c' in
              subst (λ s. Moves s e.connection.state) (sym was)
                (subst (Moves connected) (sym now) closes)
          | inr x ↦ subst (Moves c.state) (sym (execute-state c.connection_type c' e x.1)) stays
        ]

  read_in_state :
      (s : TcpState) (reads : List ReadResult) (c : TcpConnection) (e : Effect)
      → c.state ≡ s
      → if_connected s
          (read_connected local_addr peer_addr services fuel reads c run_time)
          (done (record { connection = c; run_time = run_time; calls = [] }))
        ≡ done e
      → Moves c.state e.connection.state
  read_in_state connected reads c e was h = read_connected-Moves reads c e was h
  read_in_state not_connected reads c e was h =
      subst (Moves c.state) (ap (λ (x : Effect). x.connection.state) (done-injective h)) stays
  read_in_state half_closed reads c e was h =
      subst (Moves c.state) (ap (λ (x : Effect). x.connection.state) (done-injective h)) stays
  read_in_state closed reads c e was h =
      subst (Moves c.state) (ap (λ (x : Effect). x.connection.state) (done-injective h)) stays

  pub on_read-Moves :
      (reads : List ReadResult) (c : TcpConnection) (e : Effect)
      → on_read local_addr peer_addr services fuel reads c run_time ≡ done e
      → Moves c.state e.connection.state
  unfolding on_read
  on_read-Moves reads c e h = read_in_state c.state reads c e refl h

stop_writing-state : (b : Bool) (c : TcpConnection) → (stop_writing b c).state ≡ c.state
unfolding stop_writing
stop_writing-state true c = refl
stop_writing-state false c = refl

abbrev pub Written : Type 0
Written = TcpConnection × Bytes × List (ℕ × TinyPbProtocol)

by_type-state :
    (t : TcpConnectionType) (s : TcpState) (x y : TcpConnection × List (ℕ × TinyPbProtocol))
    → x.0.state ≡ s
    → y.0.state ≡ s
    → (by_type t x y).0.state ≡ s
by_type-state by_server s x y hx hy = hx
by_type-state by_client s x y hx hy = hy

run_write_dones-state :
    (c : TcpConnection) (ms : List TinyPbProtocol) → (run_write_dones c ms).0.state ≡ c.state
unfolding run_write_dones
run_write_dones-state c ms = by_type-state c.connection_type c.state _ _ refl refl

write_connected-state :
    (writes : List WriteResult) (c : TcpConnection) (r : Written)
    → write_connected writes c ≡ done r
    → r.0.state ≡ c.state
unfolding write_connected
write_connected-state writes c r h =
    let encoded = bind-eq-done (encode_messages c) _ h in
    let wrote = bind-eq-done (write_loop writes encoded.0.0) _ encoded.2 in
    let c' = record c { out_buffer = encoded.0.0 } in
    ap (λ x. x.0.state) (sym (done-injective wrote.2))
    ∙ run_write_dones-state (stop_writing wrote.0.0 c') encoded.0.1
    ∙ stop_writing-state wrote.0.0 c'

pub write_in_state :
    (s : TcpState) (writes : List WriteResult) (c : TcpConnection) (r : Written)
    → if_connected s (write_connected writes c) (done (c, [], [])) ≡ done r
    → r.0.state ≡ c.state
write_in_state connected writes c r h = write_connected-state writes c r h
write_in_state not_connected writes c r h = ap (λ x. x.0.state) (sym (done-injective h))
write_in_state half_closed writes c r h = ap (λ x. x.0.state) (sym (done-injective h))
write_in_state closed writes c r h = ap (λ x. x.0.state) (sym (done-injective h))
