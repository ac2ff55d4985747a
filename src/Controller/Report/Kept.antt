-- ===== src/Controller/Report/Kept.antt =====
-- What the observation of a Result leaves alone.
use openconveyor.Prelude.{
  ℕ, ◌-◌, ℤ, false, ◌≡◌, ◌≢◌, refl, inl, inr, List, Text, ltb, subst, Bool-cases, text_eq,
  text_eq_iff, [], ◌∷◌,
}
use openconveyor.Errors.{ok, Result-cases, ok-injective}
use openconveyor.Kube.{Time}
use openconveyor.Api.{Task}
use openconveyor.Net.{Net}
use openconveyor.Machinery.{Machinery}
use openconveyor.Policy.Labels.{label_task_name}
use openconveyor.Policy.Outcome.{Parsers}
use openconveyor.Controller.Phase.{is_terminal, condition_ready}
use openconveyor.Controller.Report.{
  PodLister, Scan, message, no_message, scan_pods, condition_result, result_decided,
  set_result_condition, apply_parsed_result, after_scan, after_list, observe_result, result_wait,
  terminal_since,
}

-- The second Task differs from the first in its Result and its conditions at most.
abbrev pub ResultOnly : Task → Task → Type 0
ResultOnly t u = u ≡ record t {
  status = record t.status { task_result = u.status.task_result; conditions = u.status.conditions };
}

result_not_ready : condition_result ≢ condition_ready
unfolding text_eq
result_not_ready h = cc ((text_eq_iff condition_result condition_ready).1 h)

module _ (machinery : Machinery) where
  -- It also has the same Ready condition.
  pub record Keeps (t u : Task) : Type 0 where
    pub only : ResultOnly t u
    pub ready :
        machinery.find u.status.conditions condition_ready
        ≡ machinery.find t.status.conditions condition_ready

  pub set_result_condition-Keeps :
      (now : Time) (t : Task) (reason msg : Text)
      → Keeps t (set_result_condition machinery now t reason msg)
  unfolding set_result_condition
  set_result_condition-Keeps now t reason msg = record {
    only = refl;
    ready = machinery.find-set_other now t.status.conditions _ condition_ready result_not_ready;
  }

  module _ (parsers : Parsers) (net : Net) (now : Time) (wait : ℤ) (task : Task)
      (egress : List Text) where
    abbrev KeepsPair : Task × ℕ → Type 0
    KeepsPair p = Keeps task p.0

    same : Keeps task task
    same = record { only = refl; ready = refl }

    after_scan-Keeps :
        (s : Scan) → KeepsPair (after_scan machinery parsers net now wait task egress s)
    unfolding after_scan apply_parsed_result set_result_condition
    after_scan-Keeps (message msg) = record {
      only = refl;
      ready =
          machinery.find-set_other now task.status.conditions _ condition_ready result_not_ready;
    }
    after_scan-Keeps (no_message seen) = elim (Bool-cases (is_terminal task.status.phase)) [
      | inr alive ↦ rw alive same
      | inl ended ↦
          elim (Bool-cases (ltb (now - terminal_since machinery now task) (result_wait wait))) [
            | inl early ↦ rw (ended, early) same
            | inr late ↦ rw (ended, late) (set_result_condition-Keeps now task _ _)
          ]
    ]

    pub observe_result-Keeps :
        (list : PodLister) (job_uid : Text) (next : Task) (delay : ℕ)
        → observe_result machinery parsers net now wait list task job_uid egress ≡ ok (next, delay)
        → Keeps task next
    unfolding observe_result after_list
    observe_result-Keeps list job_uid next delay h =
        elim (Bool-cases (result_decided machinery task)) [
          | inl decided ↦
              subst KeepsPair (ok-injective (task, 0) (next, delay) (rw decided at h)) same
          | inr open_yet ↦
              elim (Result-cases
                (list task.meta.namespace ((label_task_name, task.meta.name) ∷ []))) [
                  | inr (e, failed) ↦ absurd (cc (rw (open_yet, failed) at h))
                  | inl (pods, listing) ↦
                      subst KeepsPair
                        (ok-injective
                          (after_scan machinery parsers net now wait task egress
                            (scan_pods job_uid false pods))
                          (next, delay) (rw (open_yet, listing) at h))
                        (after_scan-Keeps (scan_pods job_uid false pods))
                ]
        ]
