-- ===== src/Controller/Status/Told.antt =====
-- The writes of the status of a Task and the reports in a log, and how one write adds to it.
use openconveyor.Prelude.{
  ℕ, true, false, ◌≡◌, refl, ap, ◌∙◌, ◌⊎◌, inl, inr, List, ◌∷◌, ◌++◌, Text, Bool-cases,
}
use openconveyor.Errors.{Err, Result, ok, err}
use openconveyor.Api.{Task}
use openconveyor.Controller.Phase.{EventType}
use openconveyor.Controller.Cluster.{Action, status_written, event, Run}
use openconveyor.Controller.Cluster.Trace.{
  statuses, statuses-append, Told, Says, nothing-Says, one-Says,
}
use openconveyor.Controller.Reconciler.{Reconciler, SameTask}
use openconveyor.Controller.Status.{record_event, write_status, written}

-- What a log gets of a write of the status, at the most: nothing; a write that fails; or one that
-- succeeds, and then reports with the wanted number of transitions.
abbrev pub Entries : (Task → ℕ → Type 0) → List Action → List Action → Type 0
Entries Wanted log later =
    (later ≡ log)
    ⊎ ((u : Task) × (count : ℕ) × Wanted u count
        × ((later ≡ status_written u false ∷ log)
            ⊎ ((tells : List Action) × Told count tells
                × (later ≡ tells ++ (status_written u true ∷ log)))))

-- The same of any Task.
abbrev pub Enters : List Action → List Action → Type 0
Enters log later = Entries (λ u count. Unit) log later

-- The same, among entries that are neither status writes nor reports.
abbrev pub Writes : (Task → ℕ → Type 0) → List Action → List Action → Type 0
Writes Wanted log later = Entries Wanted (statuses log) (statuses later)

pub Entries-Writes :
    (Wanted : Task → ℕ → Type 0) (log later : List Action)
    → Entries Wanted log later
    → Writes Wanted log later
Entries-Writes Wanted log later (inl e) = inl (ap statuses e)
Entries-Writes Wanted log later (inr (u, n, c, inl e)) = inr (u, n, c, inl (ap statuses e))
Entries-Writes Wanted log later (inr (u, n, c, inr (tells, told, e))) = inr (
  u,
  n,
  c,
  inr (
    tells,
    told,
    ap statuses e ∙ statuses-append tells (status_written u true ∷ log) told.reports,
  ),
)

abbrev pub Tells : {W : Type 0} → (Task → Run W → Run W) → ℕ → Type 0
Tells {W} report count = (answer : Task) (run : Run W) → Says count run.log (report answer run).log

module _ {W : Type 0} (r : Reconciler W) where
  pub record_event-Says :
      (kind : EventType) (reason msg : Text) (run : Run W)
      → Says 0 run.log (record_event r kind reason msg run).log
  unfolding record_event
  record_event-Says kind reason msg run = elim (Bool-cases r.has_recorder) [
    | inl there ↦ rw there (one-Says (event kind reason msg) run.log refl)
    | inr nobody ↦ rw nobody (nothing-Says run.log)
  ]

  written-Entries :
      (report : Task → Run W → Run W) (Wanted : Task → ℕ → Type 0) (u : Task) (count : ℕ)
      (run : Run W) (a : Result Task × W)
      → Wanted u count
      → Tells report count
      → Entries Wanted run.log (written report u run a).1.log
  unfolding written
  written-Entries report Wanted u count run (err e, world) wanted told =
      inr (u, count, wanted, inl refl)
  written-Entries report Wanted u count run (ok answer, world) wanted told =
      let next : Run W = record { world = world; log = status_written u true ∷ run.log } in
      inr (u, count, wanted, inr (told answer next))

  pub write_status-Entries :
      (report : Task → Run W → Run W) (Wanted : Task → ℕ → Type 0) (u : Task) (count : ℕ)
      (run : Run W)
      → Wanted u count
      → Tells report count
      → Entries Wanted run.log (write_status r report u run).1.log
  unfolding write_status
  write_status-Entries report Wanted u count run wanted told =
      written-Entries report Wanted u count run (r.update_status u run.world) wanted told

  written-answer :
      (report : Task → Run W → Run W) (u answer : Task) (run next : Run W) (a : Result Task × W)
      → r.update_status u run.world ≡ a
      → written report u run a ≡ (ok answer, next)
      → SameTask u answer
  unfolding written
  written-answer report u answer run next (err e, world) asked h = cc
  written-answer report u answer run next (ok t, world) asked h =
      r.update_status_keeps u answer run.world world (cc (asked, h))

  pub write_status-SameTask :
      (report : Task → Run W → Run W) (u answer : Task) (run next : Run W)
      → write_status r report u run ≡ (ok answer, next)
      → SameTask u answer
  unfolding write_status
  write_status-SameTask report u answer run next h =
      written-answer report u answer run next (r.update_status u run.world) refl h

  -- A write fails with the error of the API server, or goes on with its answer.
  pub data Writing (report : Task → Run W → Run W) (u : Task) (run : Run W)
      (p : Result Task × Run W) : Type 0 where
    refused :
        (e : Err) (world : W)
        → r.update_status u run.world ≡ (err e, world)
        → p ≡ (err e, record { world = world; log = status_written u false ∷ run.log })
        → Writing report u run p
    accepted :
        (answer : Task) (world : W)
        → r.update_status u run.world ≡ (ok answer, world)
        → p ≡ (
          ok answer,
          report answer (record { world = world; log = status_written u true ∷ run.log }),
        )
        → Writing report u run p

  written-Writing :
      (report : Task → Run W → Run W) (u : Task) (run : Run W) (a : Result Task × W)
      → r.update_status u run.world ≡ a
      → Writing report u run (written report u run a)
  unfolding written
  written-Writing report u run (err e, world) asked = refused e world asked refl
  written-Writing report u run (ok answer, world) asked = accepted answer world asked refl

  pub write_status-Writing :
      (report : Task → Run W → Run W) (u : Task) (run : Run W)
      → Writing report u run (write_status r report u run)
  unfolding write_status
  write_status-Writing report u run =
      written-Writing report u run (r.update_status u run.world) refl
