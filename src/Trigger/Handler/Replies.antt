-- ===== src/Trigger/Handler/Replies.antt =====
-- What the status of a response promises.
use openconveyor.Prelude.{
  Bool, ◌≡◌, ◌≢◌, ◌↔◌, refl, Option, none, some, [], ◌∷◌, Text, codes, text_eq, length, ltb, arith,
  Bool-cases, inl, inr,
}
use openconveyor.Errors.{Result, ok, err}
use openconveyor.Api.{Task, ClusterTriggerClass}
use openconveyor.Trigger.Signature.{
  Crypto, VerifyError, missing_signature, signature_mismatch, empty_secret, unsupported_algorithm,
}
use openconveyor.Trigger.Mapping.{Query, Codec, apply_filters, build_task}
use openconveyor.Trigger.Handler.{
  Body, sent, broken, Request, Response, created, Server, Settings, find_trigger_class,
  lookup_signature_secret, refuse, accepted, after_create, after_dedupe, after_build,
  after_signature, after_secret, after_class, after_body, serve_http, max_body_bytes,
}

module _ (server : Server) where
  -- The create call succeeded, and the reply names the stored Task.
  abbrev pub Stored : Response → Type 0
  Stored r =
      (task : Task) × (stored : Task) × (r.submitted ≡ some task)
      × (server.create task ≡ ok stored)
      × (r.reply ≡ created stored.meta.name stored.meta.namespace)

  -- The response says 200 exactly for a stored Task.
  record IsHonest (r : Response) : Type 0 where
    stored : (r.status ≡ 200) ↔ Stored r

  refusal-IsHonest : (r : Response) → r.status ≢ 200 → r.submitted ≡ none → IsHonest r
  refusal-IsHonest r s n = record {
    stored = ((λ h. absurd (s h)), λ (task, stored, made, c, reply). cc);
  }

  after_create-IsHonest :
      (ctc : ClusterTriggerClass) (task : Task) (r : Result Task)
      → server.create task ≡ r
      → IsHonest (after_create ctc task r)
  unfolding after_create
  after_create-IsHonest ctc task (ok stored) e = record {
    stored = ((λ h. (task, stored, refl, e, refl)), λ x. refl);
  }
  after_create-IsHonest ctc task (err x) e = record {
    stored = ((λ h. absurd (ground arith)), λ (t, stored, made, c, reply). absurd (cc));
  }

  after_dedupe-IsHonest :
      (ctc : ClusterTriggerClass) (task : Task) (r : Result Text)
      → IsHonest (after_dedupe server ctc task r)
  unfolding after_dedupe refuse accepted
  after_dedupe-IsHonest ctc task (err e) = refusal-IsHonest _ (λ h. ground arith) refl
  after_dedupe-IsHonest ctc task (ok []) = after_create-IsHonest ctc task (server.create task) refl
  after_dedupe-IsHonest ctc task (ok (c ∷ x)) = refusal-IsHonest _ (λ h. ground arith) refl

  module _ (settings : Settings) (valid_label : Text → Bool) where
    after_build-IsHonest :
        (ctc : ClusterTriggerClass) (r : Result Task)
        → IsHonest (after_build server settings valid_label ctc r)
    unfolding after_build
    after_build-IsHonest ctc (err e) = refusal-IsHonest _ (λ h. ground arith) refl
    after_build-IsHonest ctc (ok task) = after_dedupe-IsHonest ctc _ _

    module _ {V : Type 0} (codec : Codec V) (query : Query) (crypto : Crypto)
        (json_valid : Text → Bool) (request : Request) where
      after_signature-IsHonest :
          (ctc : ClusterTriggerClass) (body : Text) (o : Option VerifyError)
          → IsHonest (
              after_signature server settings valid_label codec query crypto json_valid request ctc
                body o)
      unfolding after_signature refuse accepted
      after_signature-IsHonest ctc body (some missing_signature) =
          refusal-IsHonest _ (λ h. ground arith) refl
      after_signature-IsHonest ctc body (some signature_mismatch) =
          refusal-IsHonest _ (λ h. ground arith) refl
      after_signature-IsHonest ctc body (some empty_secret) =
          refusal-IsHonest _ (λ h. ground arith) refl
      after_signature-IsHonest ctc body (some (unsupported_algorithm a)) =
          refusal-IsHonest _ (λ h. ground arith) refl
      after_signature-IsHonest ctc body none =
          elim (Bool-cases (apply_filters query body ctc.spec.filters)) [
            | inl passed ↦
                rw passed (after_build-IsHonest ctc (build_task codec query body ctc.spec.task))
            | inr stopped ↦ rw stopped (refusal-IsHonest _ (λ h. ground arith) refl)
          ]

      after_class-IsHonest :
          (body : Text) (r : Result (Option ClusterTriggerClass))
          → IsHonest
              (after_class server settings valid_label codec query crypto json_valid request body r)
      unfolding after_class after_secret refuse
      after_class-IsHonest body (err e) = refusal-IsHonest _ (λ h. ground arith) refl
      after_class-IsHonest body (ok none) = refusal-IsHonest _ (λ h. ground arith) refl
      after_class-IsHonest body (ok (some ctc)) =
          secret_read body ctc (lookup_signature_secret server settings ctc)
        where
          secret_read :
              (body : Text) (ctc : ClusterTriggerClass) (r : Result Text)
              → IsHonest (
                  after_secret server settings valid_label codec query crypto json_valid request ctc
                    body r)
          secret_read body ctc (err e) = refusal-IsHonest _ (λ h. ground arith) refl
          secret_read body ctc (ok secret) = after_signature-IsHonest ctc body _

      after_body-IsHonest :
          (b : Body)
          → IsHonest
              (after_body server settings valid_label codec query crypto json_valid request b)
      unfolding after_body refuse
      after_body-IsHonest broken = refusal-IsHonest _ (λ h. ground arith) refl
      after_body-IsHonest (sent body) = elim (Bool-cases (ltb max_body_bytes (length body))) [
        | inl large ↦ rw large (refusal-IsHonest _ (λ h. ground arith) refl)
        | inr small ↦ elim (Bool-cases (json_valid body)) [
          | inr bad ↦ rw (small, bad) (refusal-IsHonest _ (λ h. ground arith) refl)
          | inl valid ↦
              rw (small, valid)
                (after_class-IsHonest body (find_trigger_class server.classes request.path))
        ]
      ]

      -- The adapter answers 200 exactly if it created a Task, and the reply then names the Task as
      -- the API server stored it.
      pub serve_http-Stored :
          ((serve_http server settings valid_label codec query crypto json_valid request).status
            ≡ 200)
          ↔ Stored (serve_http server settings valid_label codec query crypto json_valid request)
      unfolding serve_http refuse
      serve_http-Stored = elim (Bool-cases (text_eq request.method (codes "POST"))) [
        | inl post ↦ rw post (after_body-IsHonest request.body).stored
        | inr other ↦
            rw other
              (refusal-IsHonest
                (refuse 405 (codes "method not allowed") [] (codes "rejected_method"))
                (λ h. ground arith) refl).stored
      ]
