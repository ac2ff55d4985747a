-- ===== src/Controller/Status/Frame.antt =====
-- Status writes and reports, next to entries of the log that are neither.
use openconveyor.Prelude.{◌≡◌, ◌∙◌, ap, inl, inr, true, false, List, ◌∷◌, ◌++◌}
use openconveyor.Api.{Task}
use openconveyor.Controller.Cluster.{Action, status_written, Run}
use openconveyor.Controller.Cluster.Trace.{statuses}
use openconveyor.Controller.Reconciler.{Reconciler}
use openconveyor.Controller.Status.Told.{Entries-Writes}
use openconveyor.Controller.Status.Causes.{Caused, Entered, Reports}

module _ {W : Type 0} (r : Reconciler W) (task : Task) (start : Run W) where
  from-Reports :
      (log mid later : List Action)
      → statuses mid ≡ statuses log
      → Reports r task start mid later
      → Reports r task start log later
  from-Reports log mid later e (inl s) = inl (s ∙ e)
  from-Reports log mid later e (inr (u, n, c, inl s)) =
      inr (u, n, c, inl (s ∙ ap (λ l. status_written u false ∷ l) e))
  from-Reports log mid later e (inr (u, n, c, inr (tells, told, s))) =
      inr (u, n, c, inr (tells, told, s ∙ ap (λ l. tells ++ (status_written u true ∷ l)) e))

  pub to-Reports :
      (log mid later : List Action)
      → statuses later ≡ statuses mid
      → Reports r task start log mid
      → Reports r task start log later
  to-Reports log mid later e (inl s) = inl (e ∙ s)
  to-Reports log mid later e (inr (u, n, c, inl s)) = inr (u, n, c, inl (e ∙ s))
  to-Reports log mid later e (inr (u, n, c, inr (tells, told, s))) =
      inr (u, n, c, inr (tells, told, e ∙ s))

  -- The entries of an operation, behind entries that are neither.
  pub Entered-Reports :
      (log mid later : List Action)
      → statuses mid ≡ statuses log
      → Entered r task start mid later
      → Reports r task start log later
  Entered-Reports log mid later e entered =
      from-Reports log mid later e (Entries-Writes (Caused r task start) mid later entered)
