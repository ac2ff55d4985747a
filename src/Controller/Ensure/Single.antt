-- ===== src/Controller/Ensure/Single.antt =====
-- ensureJob in Controller/Ensure.antt, on an API server that may already have the Job.
use openconveyor.Prelude.{
  ℕ, Bool, true, false, ◌≡◌, refl, sym, ap, ◌∙◌, subst, ◌⊎◌, inl, inr, List, [], ◌∷◌, Text, any,
  Bool-cases, arith,
}
use openconveyor.Errors.{Err, Result, ok, err, Result-cases, is_not_found}
use openconveyor.Kube.{Key, Job}
use openconveyor.Api.{Task, ClusterAgentClass}
use openconveyor.Machinery.{Machinery}
use openconveyor.Policy.Config.{Decoder}
use openconveyor.Controller.Build.{build_job}
use openconveyor.Controller.Build.Named.{build_job-name}
use openconveyor.Controller.Cluster.{
  Object, Action, created, Run, Store, continue, key_of, try_get, read_answer, do_create,
  write_answer,
}
use openconveyor.Controller.Ensure.{job_kind, resource_key, created_or_live, ensure_job}
use openconveyor.Controller.Ensure.Quiet.{creates_job}

-- A create call for a Job that succeeds.
abbrev pub makes_job : Action → Bool
makes_job (created (Object.job j) success) = success
makes_job _ = false

pub makes-creates : (log : List Action) → any creates_job log ≡ false → any makes_job log ≡ false
makes-creates [] h = refl
makes-creates (a ∷ log) h =
    ground (arith, makes_one a (ground arith), makes-creates log (ground arith))
  where
    makes_one : (a : Action) → creates_job a ≡ false → makes_job a ≡ false
    makes_one a h = ground arith

module _ {W : Type 0} (I : W → Type 0) where
  -- The read of the Job finds it, or a create call for it is refused.
  abbrev pub Known : Store W Job job_kind → Key → W → Type 0
  Known store key w =
      ((e : Err) → (store.get key w).0 ≡ err e → is_not_found e ≡ false)
      ⊎ ((t : Job)
          → key_of job_kind t ≡ key
          → (e : Err) × ((store.create t (store.get key w).1).0 ≡ err e))

  -- The property holds once a Job with the key is created, is not ended by the calls for Jobs, and
  -- as long as it holds, the Job is known.
  pub record HoldsJob (store : Store W Job job_kind) (key : Key) : Type 0 where
    pub get : (w : W) → I w → I (store.get key w).1
    pub create : (t : Job) (w : W) → I w → I (store.create t w).1
    pub made :
        (t u : Job) (w : W)
        → key_of job_kind t ≡ key
        → (store.create t w).0 ≡ ok u
        → I (store.create t w).1
    pub known : (w : W) → I w → Known store key w

  -- `H` says that the property held at first.
  pub record Kept (H : Type 0) (run : Run W) : Type 0 where
    pub clean : H → any makes_job run.log ≡ false
    pub made : any makes_job run.log ≡ true → I run.world
    pub lasts : H → I run.world

  pub record Clean (H : Type 0) (run : Run W) : Type 0 where
    pub clean : any creates_job run.log ≡ false
    pub lasts : H → I run.world

  pub Clean-Kept : (H : Type 0) (run : Run W) → Clean H run → Kept H run
  Clean-Kept H run c =
      let none = makes-creates run.log c.clean in
      record { clean = λ h. none; made = λ m. absurd (cc (m, none)); lasts = c.lasts }

  module _ (store : Store W Job job_kind) (key : Key) (holds : HoldsJob store key)
      (H : Type 0) where
    created_job-Kept :
        (owned : Job) (w : W) (log : List Action) (a : Result Job × W)
        → store.create owned w ≡ a
        → key_of job_kind owned ≡ key
        → any creates_job log ≡ false
        → (H → I w)
        → (H → (e : Err) × ((store.create owned w).0 ≡ err e))
        → Kept H
            (write_answer job_kind store
              (created (Object.job owned) true)
              (created (Object.job owned) false)
              log
              a).1
    unfolding write_answer
    created_job-Kept owned w log (ok u, after) asked k n i refused = record {
      clean = λ h. let (e, r) = refused h in absurd (cc (r, asked));
      made = λ m. subst (λ a. I a.1) asked (holds.made owned u w k (ap (λ a. a.0) asked));
      lasts = λ h. subst (λ a. I a.1) asked (holds.create owned w (i h));
    }
    created_job-Kept owned w log (err e, after) asked k n i refused = record {
      clean = λ h. makes-creates log n;
      made = λ m. absurd (cc (m, makes-creates log n));
      lasts = λ h. subst (λ a. I a.1) asked (holds.create owned w (i h));
    }

    read_job-Kept :
        (owned : Job) (log : List Action) (a : Result Job × W)
        → key_of job_kind owned ≡ key
        → any creates_job log ≡ false
        → (H → I a.1)
        → (H
            → ((e : Err) → a.0 ≡ err e → is_not_found e ≡ false)
              ⊎ ((t : Job)
                  → key_of job_kind t ≡ key
                  → (e : Err) × ((store.create t a.1).0 ≡ err e)))
        → Kept H (continue (created_or_live store owned) (read_answer job_kind store log a)).1
    unfolding read_answer created_or_live do_create
    read_job-Kept owned log (ok live, w) k n i known =
        Clean-Kept H _ (record { clean = n; lasts = i })
    read_job-Kept owned log (err e, w) k n i known = elim (Bool-cases (is_not_found e)) [
      | inl missing ↦ rw missing (
          created_job-Kept owned w log (store.create owned w) refl k n i (λ h. elim (known h) [
            | inl there ↦ absurd (cc (there e refl, missing))
            | inr refused ↦ refused owned k
          ]))
      | inr broken ↦ rw broken (Clean-Kept H _ (record { clean = n; lasts = i }))
    ]

  -- ensureJob makes no Job while one with its key is known.
  pub ensure_job-Kept :
      (store : Store W Job job_kind) (machinery : Machinery) (decode : Decoder) (task : Task)
      (agent : ClusterAgentClass) (secrets : List Text) (ttl_seconds : ℕ)
      → HoldsJob store (resource_key task)
      → (H : Type 0) (run : Run W) → Clean H run
      → Kept H (ensure_job store machinery decode task agent secrets ttl_seconds run).1
  unfolding ensure_job try_get
  ensure_job-Kept store machinery decode task agent secrets ttl_seconds holds H run c =
      elim (Result-cases (build_job machinery decode task agent secrets ttl_seconds)) [
        | inr (e, failed) ↦ rw failed (Clean-Kept H run c)
        | inl (desired, built) ↦ elim (Result-cases (store.own task desired)) [
          | inr (e, failed) ↦ rw (built, failed) (Clean-Kept H run c)
          | inl (owned, made) ↦
              let (name, namespace) =
                build_job-name machinery decode task agent secrets ttl_seconds desired built in
              let (o, only_owner) = store.own_keeps task desired owned made in
              let key : key_of job_kind owned ≡ resource_key task =
                ap (key_of job_kind) only_owner ∙ rw (name, namespace) refl in
              rw (built, made)
                (read_job-Kept store (resource_key task) holds H owned run.log
                  (store.get (key_of job_kind owned) run.world) key c.clean
                  (λ h.
                    subst (λ k. I (store.get k run.world).1) (sym key)
                      (holds.get run.world (c.lasts h)))
                  (λ h.
                    subst
                      (λ k.
                        ((e : Err) → (store.get k run.world).0 ≡ err e → is_not_found e ≡ false)
                        ⊎ ((t : Job)
                            → key_of job_kind t ≡ resource_key task
                            → (e : Err) × ((store.create t (store.get k run.world).1).0 ≡ err e)))
                      (sym key) (holds.known run.world (c.lasts h))))
        ]
      ]
