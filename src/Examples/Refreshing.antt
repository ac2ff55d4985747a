-- ===== src/Examples/Refreshing.antt =====
-- The theorem on the refresh of the addresses, on a Task with a hostname.
use openconveyor.Prelude.{false, ◌≡◌, refl}
use openconveyor.Controller.Phase.{is_terminal}
use openconveyor.Controller.Reconcile.{reconcile_task}
use openconveyor.Controller.Reconcile.Refreshed.{Refreshes, reconcile_task-Refreshes}
use openconveyor.Examples.Instances.{task}
use openconveyor.Examples.Ensuring.{fresh_run}
use openconveyor.Examples.Reconciling.{reconciler}

alive : is_terminal task.status.phase ≡ false
unfolding is_terminal
alive = refl

reconcile_task-Refreshes_example :
    Refreshes reconciler task fresh_run refl (reconcile_task reconciler task fresh_run)
reconcile_task-Refreshes_example = reconcile_task-Refreshes reconciler task fresh_run refl alive
