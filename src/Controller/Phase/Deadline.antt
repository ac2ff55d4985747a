-- ===== src/Controller/Phase/Deadline.antt =====
-- When a terminal Task may be deleted.
use openconveyor.Prelude.{ℕ, ◌+◌, ◌*◌, ◌≡◌, refl, Option, none, some, ◌⊎◌, ◌↔◌, inl, inr, arith}
use openconveyor.Api.{Task}
use openconveyor.Kube.{Time}
use openconveyor.Machinery.{Machinery}
use openconveyor.Controller.Phase.{
  ready_since, finished_at, deadline_after, or_default, deletion_deadline,
}

-- The TTL that applies to a Task: its own, or the default of the cluster.
abbrev pub Ttl : Task → Option ℕ → ℕ → Type 0
Ttl task default_ttl ttl =
    (task.spec.ttl_seconds_after_finished ≡ some ttl)
    ⊎ ((task.spec.ttl_seconds_after_finished ≡ none) × (default_ttl ≡ some ttl))

-- The time at which a Task finished: the completion time of its Job, or the last transition of its
-- Ready condition.
abbrev pub Finished : Machinery → Task → Time → Type 0
Finished machinery task t =
    (task.status.completion_time ≡ some t)
    ⊎ ((task.status.completion_time ≡ none) × (ready_since machinery task ≡ some t))

deadline_after-eq-some :
    (own default : Option ℕ) (finished : Option Time) (deadline : Time)
    → deadline_after (or_default own default) finished ≡ some deadline
    → (ttl : ℕ) × (t : Time) × ((own ≡ some ttl) ⊎ ((own ≡ none) × (default ≡ some ttl)))
      × (finished ≡ some t)
      × (deadline ≡ t + ttl * 1_000_000_000)
unfolding deadline_after
deadline_after-eq-some (some ttl) default (some t) deadline h =
    (ttl, t, inl refl, refl, ground arith)
deadline_after-eq-some none (some ttl) (some t) deadline h =
    (ttl, t, inr (refl, refl), refl, ground arith)
deadline_after-eq-some none none finished deadline h = cc
deadline_after-eq-some (some ttl) default none deadline h = cc
deadline_after-eq-some none (some ttl) none deadline h = cc

finished_at-eq-some :
    (machinery : Machinery) (task : Task) (o : Option Time) (t : Time)
    → finished_at machinery task o ≡ some t
    → (o ≡ some t) ⊎ ((o ≡ none) × (ready_since machinery task ≡ some t))
unfolding finished_at
finished_at-eq-some machinery task none t h = inr (refl, h)
finished_at-eq-some machinery task (some s) t h = inl h

-- A Task has a deletion deadline exactly if a TTL applies to it and it has a finish time; the
-- deadline is the TTL after the finish time, and so not before it.
pub deletion_deadline_iff :
    (machinery : Machinery) (task : Task) (default_ttl : Option ℕ) (deadline : Time)
    → (deletion_deadline machinery task default_ttl ≡ some deadline) ↔ (
        (ttl : ℕ) × (t : Time) × Ttl task default_ttl ttl
        × Finished machinery task t
        × (deadline ≡ t + ttl * 1_000_000_000))
unfolding deletion_deadline finished_at deadline_after
deletion_deadline_iff machinery task default_ttl deadline = (
  (λ h.
      let (ttl, t, own, fin, e) =
        deadline_after-eq-some task.spec.ttl_seconds_after_finished default_ttl
          (finished_at machinery task task.status.completion_time) deadline h in
      (ttl, t, own, finished_at-eq-some machinery task task.status.completion_time t fin, e)),
  λ x. ground arith,
)
