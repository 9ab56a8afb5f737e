-- ===== src/WakeUp/Tests.antt =====
-- The theorem at the first wake-up, and a descriptor that is full.
use my_tiny_rpc.Base.{◌≡◌, refl}
use my_tiny_rpc.WakeUp.{max_counter, write_wakeup}

full : write_wakeup max_counter ≡ max_counter
unfolding write_wakeup
full = refl
