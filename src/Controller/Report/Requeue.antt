-- ===== src/Controller/Report/Requeue.antt =====
-- The delay until the next reconcile, and which Task a pod wakes.
use openconveyor.Prelude.{ℕ, ◌≤◌, ◌<◌, ◌≡◌, ◌⊎◌, arith}
use openconveyor.Controller.Report.{min_requeue}

-- minRequeue keeps one of its delays, is no later than any delay that is not zero, and is zero only
-- if both are. The order of the merges does not matter.
pub min_requeue_lem :
    (a b c : ℕ)
    → ((min_requeue a b ≡ a) ⊎ (min_requeue a b ≡ b))
      × (0 < a → (min_requeue a b ≤ a) × (0 < min_requeue a b))
      × (0 < b → (min_requeue a b ≤ b) × (0 < min_requeue a b))
      × (min_requeue a b ≡ min_requeue b a)
      × (min_requeue (min_requeue a b) c ≡ min_requeue a (min_requeue b c))
unfolding min_requeue
min_requeue_lem a b c = (
  ground arith,
  (λ h. (ground arith, ground arith)),
  (λ h. (ground arith, ground arith)),
  ground arith,
  ground arith,
)
