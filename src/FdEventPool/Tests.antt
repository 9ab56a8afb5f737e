-- ===== src/FdEventPool/Tests.antt =====
-- Small pools, and the theorem at one.
use my_tiny_rpc.Base.{ℕ, ◌≡◌, refl, arith}
use my_tiny_rpc.Base.Outcome.{done, fault}
use my_tiny_rpc.FdEvent.{FdEvent, new_fd_event}
use my_tiny_rpc.FdEventPool.{
  FdEventPool, push_event, push_events, new_fd_event_pool, grow, pool_for, get_fd_event,
}
use my_tiny_rpc.FdEventPool.Grow.{PointsTo, Inv, IsKept, new_fd_event_pool-Inv, get_fd_event-Inv}

abbrev no_events : ℕ → FdEvent ℕ
no_events p = new_fd_event 0

abbrev pool_of_four : FdEventPool ℕ
pool_of_four = new_fd_event_pool no_events 100 4

grown_to_nine : (get_fd_event pool_of_four 6).0.size ≡ 9
unfolding get_fd_event pool_for grow new_fd_event_pool push_events push_event
grown_to_nine = refl

pointer_of_six : (get_fd_event pool_of_four 6).1 ≡ done 106
unfolding get_fd_event pool_for grow new_fd_event_pool push_events push_event
pointer_of_six = refl

-- A pool of one event does not grow for the descriptor 1.
too_small : (get_fd_event (new_fd_event_pool no_events 100 1) 1).1 ≡ fault
unfolding get_fd_event pool_for grow new_fd_event_pool push_events push_event
too_small = refl

get_fd_event-Inv_example :
    (p : ℕ) × ((get_fd_event pool_of_four 6).1 ≡ done p)
    × PointsTo (get_fd_event pool_of_four 6).0 6 p
    × Inv (get_fd_event pool_of_four 6).0
    × IsKept pool_of_four (get_fd_event pool_of_four 6).0
get_fd_event-Inv_example =
    get_fd_event-Inv pool_of_four 6 (new_fd_event_pool-Inv no_events 100 4 (omega arith))
