-- ===== src/TcpServer/Clear.antt =====
-- Which clients `clearClient` takes out, and one that it never does.
use mathlib.Core.Logic.{ite}
use mathlib.Core.List.{Mem, filter, mem-filter}
use my_tiny_rpc.Base.{ℕ, ◌≡◌, ◌≢◌, ◌↔◌, refl, sym, ap, subst, ◌∙◌, Option, List, [], ◌∷◌}
use my_tiny_rpc.Rpc.Dispatcher.{ServiceMap}
use my_tiny_rpc.TcpConnection.{
  TcpState, connected, not_connected, half_closed, closed, TcpConnection, shut_down,
}
use my_tiny_rpc.TcpConnection.States.{Steps, Reaches, states_reached}
use my_tiny_rpc.TcpServer.{TcpServer, unless_closed, clear_clients, clear_client}

is_open : (s : TcpState) → Dec (s ≢ closed)
is_open closed = no (λ h. h refl)
is_open not_connected = yes (λ e. cc e)
is_open connected = yes (λ e. cc e)
is_open half_closed = yes (λ e. cc e)

unless_closed-ite :
    (s : TcpState) (id : ℕ) (l : List ℕ) → unless_closed s id l ≡ ite (is_open s) (id ∷ l) l
unfolding is_open
unless_closed-ite closed id l = refl
unless_closed-ite not_connected id l = refl
unless_closed-ite connected id l = refl
unless_closed-ite half_closed id l = refl

clear_clients-filter :
    (heap : ℕ → TcpConnection) (clients : List ℕ)
    → clear_clients heap clients ≡ filter (λ id. is_open (heap id).state) clients
unfolding clear_clients
clear_clients-filter heap [] = refl
clear_clients-filter heap (id ∷ rest) =
    ap (unless_closed (heap id).state id) (clear_clients-filter heap rest)
    ∙ unless_closed-ite (heap id).state id _

-- `clearClient` takes out just the clients whose connection is closed.
pub clear_client_iff :
    (s : TcpServer) (id : ℕ)
    → Mem id (clear_client s).clients ↔ (Mem id s.clients × ((s.heap id).state ≢ closed))
unfolding clear_client
clear_client_iff s id =
    subst (λ l. Mem id l ↔ (Mem id s.clients × ((s.heap id).state ≢ closed)))
      (sym (clear_clients-filter s.heap s.clients)) (mem-filter (λ id. is_open (s.heap id).state))

not-closed : {s t : TcpState} → s ≡ half_closed → Reaches s t → t ≢ closed
not-closed {t} e r c = cc (subst (λ s. Reaches s t) e r, c)

shut_down-half :
    (c : TcpConnection) (t : TcpState)
    → t ≡ connected
    → (shut_down (record c { state = t })).state ≡ half_closed
unfolding shut_down
shut_down-half c connected e = refl
shut_down-half c not_connected e = absurd (cc e)
shut_down-half c half_closed e = refl
shut_down-half c closed e = absurd (cc e)

-- A client that is shut down stays: whatever happens to a connection behind `shutDown`, if it was
-- connected then, `clearClient` never takes it out of the server.
pub shut_down_never_cleared :
    {Addr : Type 0} (local_addr peer_addr : Option Addr) (services : ServiceMap Addr)
    (s : TcpServer) (id : ℕ) (c : TcpConnection)
    → Mem id s.clients
    → c.state ≡ connected
    → Steps local_addr peer_addr services (shut_down c) (s.heap id)
    → Mem id (clear_client s).clients
shut_down_never_cleared local_addr peer_addr services s id c m e steps = (clear_client_iff s id).1 (
  m,
  not-closed (shut_down-half c c.state e) (states_reached local_addr peer_addr services steps),
)
