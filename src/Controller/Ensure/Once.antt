-- ===== src/Controller/Ensure/Once.antt =====
-- A Task gets its Job once.
use openconveyor.Prelude.{ℕ, true, false, List, ◌∷◌, ◌≡◌, refl, ◌⊎◌, inl, inr, Text, Bool-cases}
use openconveyor.Errors.{Result, ok, err, is_not_found, Result-cases}
use openconveyor.Kube.{Job}
use openconveyor.Api.{Task, ClusterAgentClass}
use openconveyor.Machinery.{Machinery}
use openconveyor.Policy.Config.{Decoder}
use openconveyor.Controller.Build.{build_job}
use openconveyor.Controller.Cluster.{
  Object, Action, found, created, Run, Store, continue, key_of, try_get, read_answer, do_create,
  write_answer,
}
use openconveyor.Controller.Ensure.{job_kind, ensure_job, created_or_live}

module _ {W : Type 0} (store : Store W Job job_kind) (machinery : Machinery) (decode : Decoder)
    (task : Task) (agent : ClusterAgentClass) (secrets : List Text) (ttl_seconds : ℕ) where
  -- The Job as buildJob makes it, with the Task as its owner.
  pub record IsBuilt (j : Job) : Type 0 where
    pub desired : Job
    pub built : build_job machinery decode task agent secrets ttl_seconds ≡ ok desired
    pub owned : store.own task desired ≡ ok j

  -- What a call of ensureJob does to the log, with its result: it finds a live Job and returns it,
  -- or it creates the built one; with an error it may also have made no call, or a failed one.
  abbrev pub Ensures : List Action → Result Job × Run W → Type 0
  Ensures log (ok j, next) =
      (next.log ≡ found (Object.job j) ∷ log)
      ⊎ ((owned : Job) × IsBuilt owned × (next.log ≡ created (Object.job owned) true ∷ log))
  Ensures log (err e, next) =
      (next.log ≡ log)
      ⊎ ((owned : Job) × IsBuilt owned × (next.log ≡ created (Object.job owned) false ∷ log))

  write-Ensures :
      (owned : Job) (log : List Action) (a : Result Job × W)
      → IsBuilt owned
      → Ensures log (
          write_answer job_kind store
            (created (Object.job owned) true)
            (created (Object.job owned) false)
            log
            a)
  unfolding write_answer
  write-Ensures owned log (ok j, w) b = inr (owned, b, refl)
  write-Ensures owned log (err e, w) b = inr (owned, b, refl)

  read-Ensures :
      (owned : Job) (log : List Action) (a : Result Job × W)
      → IsBuilt owned
      → Ensures log (continue (created_or_live store owned) (read_answer job_kind store log a))
  unfolding read_answer created_or_live do_create
  read-Ensures owned log (ok live, w) b = inl refl
  read-Ensures owned log (err e, w) b = elim (Bool-cases (is_not_found e)) [
    | inl missing ↦ rw missing (write-Ensures owned log (store.create owned w) b)
    | inr broken ↦ rw broken (inl refl)
  ]

  -- ensureJob never changes a live Job: when it succeeds, it returns the Job that it found, or it made
  -- one create call, for the Job of buildJob that SetControllerReference gave to the Task. With an error it made no write, or that
  -- one call failed.
  pub ensure_job-Ensures :
      (run : Run W)
      → Ensures run.log (ensure_job store machinery decode task agent secrets ttl_seconds run)
  unfolding ensure_job try_get
  ensure_job-Ensures run =
      elim (Result-cases (build_job machinery decode task agent secrets ttl_seconds)) [
        | inr (e, failed) ↦ rw failed (inl refl)
        | inl (desired, built) ↦ elim (Result-cases (store.own task desired)) [
          | inr (e, failed) ↦ rw (built, failed) (inl refl)
          | inl (owned, made) ↦
              rw (built, made)
                (read-Ensures owned run.log (store.get (key_of job_kind owned) run.world)
                  (record { desired = desired; built = built; owned = made }))
        ]
      ]
