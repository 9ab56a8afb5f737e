-- ===== src/Locker/Tests.antt =====
-- A block with a locker, with the mutex free and with it held.
use my_tiny_rpc.Base.{◌≡◌, refl, none, some, []}
use my_tiny_rpc.Base.Outcome.{done, stuck}
use my_tiny_rpc.Locker.{
  lock_mutex, unlock_mutex, new_scope_locker, end_scope, locker_calls, run_scope,
}

whole_block : run_scope [] 1 none ≡ done none
unfolding run_scope new_scope_locker lock_mutex locker_calls end_scope unlock_mutex
whole_block = refl

-- The block is entered again while it is held.
entered_twice : run_scope [] 1 (some 1) ≡ stuck
unfolding run_scope new_scope_locker lock_mutex
entered_twice = refl
