-- ===== src/TcpConnection/States.antt =====
-- The states of a connection under what the program does to it.
use my_tiny_rpc.Base.{
  ℕ, ◌≡◌, ◌≢◌, ◌⊎◌, inl, inr, refl, sym, ap, ◌∙◌, subst, Option, List, [], Bytes,
}
use my_tiny_rpc.Base.Outcome.{done}
use my_tiny_rpc.Coder.TinyPb.{TinyPbProtocol}
use my_tiny_rpc.Rpc.Dispatcher.{ServiceMap, RunTime}
use my_tiny_rpc.TcpConnection.{
  TcpState, not_connected, connected, half_closed, closed, TcpConnection, Effect, if_connected,
  listen_read, listen_write, push_send_message, push_read_message, shut_down,
}
use my_tiny_rpc.TcpConnection.Input.{ReadResult, on_read}
use my_tiny_rpc.TcpConnection.Output.{WriteResult, on_write}
use my_tiny_rpc.TcpConnection.Moves.{
  Moves, stays, closes, half_closes, shut_down-Moves, on_read-Moves, write_in_state,
}

-- The handlers of a connection that is not `Connected` do nothing.
if-not-connected : {A : Type 0} (s : TcpState) (x y : A) → s ≢ connected → if_connected s x y ≡ y
if-not-connected not_connected x y h = refl
if-not-connected connected x y h = absurd (h refl)
if-not-connected half_closed x y h = refl
if-not-connected closed x y h = refl

half-ne-connected : half_closed ≢ connected
half-ne-connected e = cc e

shut_half : (c : TcpConnection) → c.state ≡ connected → (shut_down c).state ≡ half_closed
unfolding shut_down
shut_half c h = ap (λ (s : TcpState). (shut_down (record c { state = s })).state) h

-- After `shutDown` on a connection neither handler does anything: what the peer still sends is not
-- read, and that it closes is not noticed.
pub shut_down_deaf :
    {Addr : Type 0} (local_addr peer_addr : Option Addr) (services : ServiceMap Addr) (fuel : ℕ)
    (reads : List ReadResult) (writes : List WriteResult) (c : TcpConnection) (run_time : RunTime)
    → c.state ≡ connected
    → (on_read local_addr peer_addr services fuel reads (shut_down c) run_time
        ≡ done (record { connection = shut_down c; run_time = run_time; calls = [] }))
      × (on_write writes (shut_down c) ≡ done (shut_down c, [], []))
unfolding on_read on_write
shut_down_deaf local_addr peer_addr services fuel reads writes c run_time h =
    let not : (shut_down c).state ≢ connected = λ e. half-ne-connected (sym (shut_half c h) ∙ e) in
    (if-not-connected (shut_down c).state _ _ not, if-not-connected (shut_down c).state _ _ not)

module _ {Addr : Type 0} (local_addr peer_addr : Option Addr) (services : ServiceMap Addr) where
  -- What happens to a connection after `setState` has made it `Connected`: its handlers run, with any
  -- results of the system calls, and its owner shuts it down, or listens and pushes messages.
  pub data Step : TcpConnection → TcpConnection → Type 0 where
    read_step :
        (fuel : ℕ) (reads : List ReadResult) (run_time : RunTime) (c : TcpConnection) (e : Effect)
        → on_read local_addr peer_addr services fuel reads c run_time ≡ done e
        → Step c e.connection
    write_step :
        (writes : List WriteResult) (c c' : TcpConnection) (sent : Bytes)
        (calls : List (ℕ × TinyPbProtocol))
        → on_write writes c ≡ done (c', sent, calls)
        → Step c c'
    shut_down_step : (c : TcpConnection) → Step c (shut_down c)
    listen_read_step : (c : TcpConnection) → Step c (listen_read c)
    listen_write_step : (c : TcpConnection) → Step c (listen_write c)
    push_send_step :
        (c : TcpConnection) (m : TinyPbProtocol) (callback : ℕ)
        → Step c (push_send_message c m callback)
    push_read_step :
        (c : TcpConnection) (id : Bytes) (callback : ℕ) → Step c (push_read_message c id callback)

  pub data Steps : TcpConnection → TcpConnection → Type 0 where
    at_rest : {c : TcpConnection} → Steps c c
    then_step : {c d e : TcpConnection} → Steps c d → Step d e → Steps c e

  Step-Moves : {c d : TcpConnection} → Step c d → Moves c.state d.state
  unfolding on_write listen_read listen_write push_send_message push_read_message
  Step-Moves (read_step fuel reads run_time c e h) =
      on_read-Moves local_addr peer_addr services fuel run_time reads c e h
  Step-Moves (write_step writes c c' sent calls h) =
      subst (Moves c.state) (sym (write_in_state c.state writes c (c', sent, calls) h)) stays
  Step-Moves (shut_down_step c) = shut_down-Moves c
  Step-Moves (listen_read_step c) = stays
  Step-Moves (listen_write_step c) = stays
  Step-Moves (push_send_step c m callback) = stays
  Step-Moves (push_read_step c id callback) = stays

-- The states that a connection can still get into.
abbrev pub Reaches : TcpState → TcpState → Type 0
Reaches connected t = (t ≡ connected) ⊎ ((t ≡ half_closed) ⊎ (t ≡ closed))
Reaches half_closed t = t ≡ half_closed
Reaches closed t = t ≡ closed
Reaches not_connected t = t ≡ not_connected

Reaches-refl : (s : TcpState) → Reaches s s
Reaches-refl connected = inl refl
Reaches-refl half_closed = refl
Reaches-refl closed = refl
Reaches-refl not_connected = refl

-- A move out of a state that is not `Connected` is none.
Moves-stay : {s t : TcpState} → s ≢ connected → Moves s t → t ≡ s
Moves-stay h stays = refl
Moves-stay h closes = absurd (h refl)
Moves-stay h half_closes = absurd (h refl)

Moves-connected : {s t : TcpState} → s ≡ connected → Moves s t → Reaches connected t
Moves-connected e stays = inl e
Moves-connected e closes = inr (inr refl)
Moves-connected e half_closes = inr (inl refl)

stay-at : {s t u : TcpState} → s ≢ connected → t ≡ s → Moves t u → u ≡ s
stay-at {u = u} h e m = Moves-stay h (subst (λ x. Moves x u) e m)

Reaches-Moves : (s : TcpState) {t u : TcpState} → Reaches s t → Moves t u → Reaches s u
Reaches-Moves connected (inl e) m = Moves-connected e m
Reaches-Moves connected (inr (inl e)) m = inr (inl (stay-at (λ x. cc x) e m))
Reaches-Moves connected (inr (inr e)) m = inr (inr (stay-at (λ x. cc x) e m))
Reaches-Moves half_closed e m = stay-at (λ x. cc x) e m
Reaches-Moves closed e m = stay-at (λ x. cc x) e m
Reaches-Moves not_connected e m = stay-at (λ x. cc x) e m

module _ {Addr : Type 0} (local_addr peer_addr : Option Addr) (services : ServiceMap Addr) where
  -- Once its state is set, and until `setState` is called again, a connection leaves `Connected` at
  -- most once, for `HalfClosed` or for `Closed`, and leaves no other state, whatever its handlers and
  -- its owner's other calls do: a connection that was shut down is never closed.
  pub states_reached :
      {c d : TcpConnection} → Steps local_addr peer_addr services c d → Reaches c.state d.state
  states_reached at_rest = Reaches-refl _
  states_reached (then_step {c} {d} {e} steps step) =
      Reaches-Moves c.state (states_reached steps) (Step-Moves local_addr peer_addr services step)
