-- ===== src/Trigger/Handler/Authorized.antt =====
-- When the webhook adapter creates a Task.
use openconveyor.Prelude.{
  ◌≤◌, Bool, true, false, ◌≡◌, refl, sym, subst, is_empty, store, Option, none, some, [], ◌∷◌, inl,
  inr, Text, codes, text_eq, text_eq_iff, length, ltb, arith, Bool-cases,
}
use openconveyor.Errors.{Result, ok, err}
use openconveyor.Api.{Task, ClusterTriggerClass}
use openconveyor.Trigger.Signature.{
  Crypto, VerifyError, missing_signature, signature_mismatch, empty_secret, unsupported_algorithm,
  verify_hmac,
}
use openconveyor.Trigger.Mapping.{Query, Codec, apply_filters, build_task}
use openconveyor.Trigger.Dedupe.{find_active_duplicate, stamp_trigger_class}
use openconveyor.Trigger.Handler.{
  Body, sent, broken, Request, Server, Settings, find_trigger_class, lookup_signature_secret,
  refuse, accepted, prepared, with_namespace, after_create, after_dedupe, after_build,
  after_signature, after_secret, after_class, after_body, serve_http, max_body_bytes,
}

module _ {V : Type 0} (codec : Codec V) (query : Query) (crypto : Crypto) (json_valid : Text → Bool)
    (valid_label : Text → Bool) (server : Server) (settings : Settings) (request : Request) where
  -- The Task that the mappings built, as it is sent: with the default namespace where it has none, and
  -- with the class as a label where its name can be one.
  pub record IsPrepared (ctc : ClusterTriggerClass) (built task : Task) : Type 0 where
    pub kept_namespace :
        is_empty built.meta.namespace ≡ false → task.meta.namespace ≡ built.meta.namespace
    pub default_namespace :
        is_empty built.meta.namespace ≡ true → task.meta.namespace ≡ settings.default_task_namespace
    pub labelled :
        valid_label ctc.meta.name ≡ true
        → task.meta.labels
          ≡ store (codes "openconveyor.ai/trigger-class") ctc.meta.name built.meta.labels
    pub unlabelled : valid_label ctc.meta.name ≡ false → task.meta.labels ≡ built.meta.labels
    pub same_name : task.meta.name ≡ built.meta.name
    pub same_generate_name : task.meta.generate_name ≡ built.meta.generate_name
    pub same_annotations : task.meta.annotations ≡ built.meta.annotations
    pub same_spec : task.spec ≡ built.spec

  prepared-IsPrepared :
      (ctc : ClusterTriggerClass) (built : Task)
      → IsPrepared ctc built (prepared server settings valid_label ctc built)
  unfolding prepared with_namespace stamp_trigger_class
  prepared-IsPrepared ctc built = elim (Bool-cases (is_empty built.meta.namespace)) [
    | inl bare ↦ elim (Bool-cases (valid_label ctc.meta.name)) [
      | inl valid ↦
          rw (bare, valid)
            (record {
              kept_namespace = λ h. cc;
              default_namespace = λ h. refl;
              labelled = λ h. refl;
              unlabelled = λ h. cc;
              same_name = refl;
              same_generate_name = refl;
              same_annotations = refl;
              same_spec = refl;
            })
      | inr bad ↦
          rw (bare, bad)
            (record {
              kept_namespace = λ h. cc;
              default_namespace = λ h. refl;
              labelled = λ h. cc;
              unlabelled = λ h. refl;
              same_name = refl;
              same_generate_name = refl;
              same_annotations = refl;
              same_spec = refl;
            })
    ]
    | inr named ↦ elim (Bool-cases (valid_label ctc.meta.name)) [
      | inl valid ↦
          rw (named, valid)
            (record {
              kept_namespace = λ h. refl;
              default_namespace = λ h. cc;
              labelled = λ h. refl;
              unlabelled = λ h. cc;
              same_name = refl;
              same_generate_name = refl;
              same_annotations = refl;
              same_spec = refl;
            })
      | inr bad ↦
          rw (named, bad)
            (record {
              kept_namespace = λ h. refl;
              default_namespace = λ h. cc;
              labelled = λ h. cc;
              unlabelled = λ h. refl;
              same_name = refl;
              same_generate_name = refl;
              same_annotations = refl;
              same_spec = refl;
            })
    ]
  ]

  -- What must hold for a Task to be submitted.
  pub record IsAuthorized (task : Task) : Type 0 where
    pub ctc : ClusterTriggerClass
    pub body : Text
    pub secret : Text
    pub built : Task
    pub posted : request.method ≡ codes "POST"
    pub received : request.body ≡ sent body
    pub bounded : length body ≤ max_body_bytes
    pub json : json_valid body ≡ true
    pub routed : find_trigger_class server.classes request.path ≡ ok (some ctc)
    pub keyed : lookup_signature_secret server settings ctc ≡ ok secret
    pub signed :
        verify_hmac crypto ctc.spec.signature.algorithm ctc.spec.signature.prefix
          (request.header ctc.spec.signature.header)
          secret
          body
        ≡ none
    pub passed : apply_filters query body ctc.spec.filters ≡ true
    pub mapped : build_task codec query body ctc.spec.task ≡ ok built
    pub submitted : IsPrepared ctc built task
    pub unblocked : find_active_duplicate server.list ctc task ≡ ok []

  submitted-after_create :
      (ctc : ClusterTriggerClass) (t task : Task) (r : Result Task)
      → (after_create ctc t r).submitted ≡ some task
      → t ≡ task
  unfolding after_create
  submitted-after_create ctc t task (ok s) h = cc
  submitted-after_create ctc t task (err e) h = cc

  submitted-after_dedupe :
      (ctc : ClusterTriggerClass) (t task : Task) (r : Result Text)
      → (after_dedupe server ctc t r).submitted ≡ some task
      → (r ≡ ok []) × (t ≡ task)
  unfolding after_dedupe refuse accepted
  submitted-after_dedupe ctc t task (err e) h = cc
  submitted-after_dedupe ctc t task (ok []) h =
      (refl, submitted-after_create ctc t task (server.create t) h)
  submitted-after_dedupe ctc t task (ok (c ∷ x)) h = cc

  submitted-after_build :
      (ctc : ClusterTriggerClass) (task : Task) (r : Result Task)
      → (after_build server settings valid_label ctc r).submitted ≡ some task
      → (built : Task) × (r ≡ ok built)
        × (task ≡ prepared server settings valid_label ctc built)
        × (find_active_duplicate server.list ctc task ≡ ok [])
  unfolding after_build
  submitted-after_build ctc task (err e) h = cc
  submitted-after_build ctc task (ok built) h =
      let (clear, same) =
        submitted-after_dedupe ctc (prepared server settings valid_label ctc built) task _ h in
      (built, refl, cc, cc)

  -- The stages behind the signature.
  record Passed (ctc : ClusterTriggerClass) (body : Text) (task : Task) : Type 0 where
    built : Task
    passed : apply_filters query body ctc.spec.filters ≡ true
    mapped : build_task codec query body ctc.spec.task ≡ ok built
    submitted : task ≡ prepared server settings valid_label ctc built
    unblocked : find_active_duplicate server.list ctc task ≡ ok []

  submitted-after_signature :
      (ctc : ClusterTriggerClass) (body : Text) (task : Task) (o : Option VerifyError)
      → (after_signature server settings valid_label codec query crypto json_valid request ctc body
          o).submitted
        ≡ some task
      → (o ≡ none) × Passed ctc body task
  unfolding after_signature refuse accepted
  submitted-after_signature ctc body task (some missing_signature) h = cc
  submitted-after_signature ctc body task (some signature_mismatch) h = cc
  submitted-after_signature ctc body task (some empty_secret) h = cc
  submitted-after_signature ctc body task (some (unsupported_algorithm a)) h = cc
  submitted-after_signature ctc body task none h =
      elim (Bool-cases (apply_filters query body ctc.spec.filters)) [
        | inl passed ↦
            let (built, mapped, same, clear) =
              submitted-after_build ctc task (build_task codec query body ctc.spec.task)
                (rw passed at h) in
            (
              refl,
              record {
                built = built;
                passed = passed;
                mapped = mapped;
                submitted = same;
                unblocked = clear;
              },
            )
        | inr filtered_out ↦ absurd (cc (rw filtered_out at h))
      ]

  submitted-after_secret :
      (ctc : ClusterTriggerClass) (body : Text) (task : Task) (r : Result Text)
      → (after_secret server settings valid_label codec query crypto json_valid request ctc body
          r).submitted
        ≡ some task
      → (secret : Text) × (r ≡ ok secret)
        × (verify_hmac crypto ctc.spec.signature.algorithm ctc.spec.signature.prefix
              (request.header ctc.spec.signature.header)
              secret
              body
            ≡ none)
        × Passed ctc body task
  unfolding after_secret refuse
  submitted-after_secret ctc body task (err e) h = cc
  submitted-after_secret ctc body task (ok secret) h =
      let (signed, passed) = submitted-after_signature ctc body task _ h in
      (secret, refl, signed, passed)

  submitted-after_class :
      (body : Text) (task : Task) (r : Result (Option ClusterTriggerClass))
      → (after_class server settings valid_label codec query crypto json_valid request body
          r).submitted
        ≡ some task
      → (ctc : ClusterTriggerClass) × (secret : Text) × (r ≡ ok (some ctc))
        × (lookup_signature_secret server settings ctc ≡ ok secret)
        × (verify_hmac crypto ctc.spec.signature.algorithm ctc.spec.signature.prefix
              (request.header ctc.spec.signature.header)
              secret
              body
            ≡ none)
        × Passed ctc body task
  unfolding after_class refuse
  submitted-after_class body task (err e) h = cc
  submitted-after_class body task (ok none) h = cc
  submitted-after_class body task (ok (some ctc)) h =
      let (secret, keyed, signed, passed) =
        submitted-after_secret ctc body task (lookup_signature_secret server settings ctc) h in
      (ctc, secret, refl, keyed, signed, passed)

  submitted-after_body :
      (b : Body) (task : Task)
      → request.method ≡ codes "POST"
      → request.body ≡ b
      → (after_body server settings valid_label codec query crypto json_valid request b).submitted
        ≡ some task
      → IsAuthorized task
  unfolding after_body refuse
  submitted-after_body broken task p e h = cc
  submitted-after_body (sent body) task p e h =
      elim (Bool-cases (ltb max_body_bytes (length body))) [
        | inl large ↦ absurd (cc (rw large at h))
        | inr small ↦ elim (Bool-cases (json_valid body)) [
          | inr bad ↦ absurd (cc (rw (small, bad) at h))
          | inl valid ↦
              let (ctc, secret, routed, keyed, signed, passed) =
                submitted-after_class body task (find_trigger_class server.classes request.path)
                  (rw (small, valid) at h) in
              record {
                ctc = ctc;
                body = body;
                secret = secret;
                built = passed.built;
                posted = p;
                received = e;
                bounded = ground arith;
                json = valid;
                routed = routed;
                keyed = keyed;
                signed = signed;
                passed = passed.passed;
                mapped = passed.mapped;
                submitted =
                    subst (IsPrepared ctc passed.built) (sym passed.submitted)
                      (prepared-IsPrepared ctc passed.built);
                unblocked = passed.unblocked;
              }
        ]
      ]

  -- The adapter asks the API server for a Task only for a POST with a JSON body of at most one
  -- mebibyte, on a path of exactly one trigger class, with a signature of that class's Secret that
  -- verifies, that passes every filter and that no active Task blocks. The Task is the one that the
  -- mappings build, but for two things: it gets the default namespace if it has none, and the class
  -- as a label if the name of the class can be one.
  pub serve_http-IsAuthorized :
      (task : Task)
      → (serve_http server settings valid_label codec query crypto json_valid request).submitted
        ≡ some task
      → IsAuthorized task
  unfolding serve_http refuse
  serve_http-IsAuthorized task h = elim (Bool-cases (text_eq request.method (codes "POST"))) [
    | inl post ↦
        submitted-after_body request.body task ((text_eq_iff request.method (codes "POST")).0 post)
          refl (rw post at h)
    | inr other ↦ absurd (cc (rw other at h))
  ]
