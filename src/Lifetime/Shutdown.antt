-- ===== src/Lifetime/Shutdown.antt =====
-- A shutdown, and what comes after it.
use node_b2b_orders.Base.{◌≡◌, refl, false, []}
use node_b2b_orders.Connection.{Connection}
use node_b2b_orders.Lifetime.{Process, Names, graceful_shutdown, reconnect}

-- After a shutdown the process holds nothing, a second signal and the loss of the connection have no
-- effect.
pub graceful_shutdown_lem :
    (p : Process) (n : Names) (attempts : Connection)
    → p.shutdown_requested ≡ false
    → let (effects, p') = graceful_shutdown p in
      (graceful_shutdown p' ≡ ([], p'))
      × (reconnect n attempts p' ≡ ([], p'))
      × (p'.channels ≡ [])
      × (p'.connection ≡ false)
      × (p'.redis ≡ false)
unfolding graceful_shutdown reconnect
graceful_shutdown_lem p n attempts running =
    rw (graceful_shutdown, running) (refl, refl, refl, refl, refl)
