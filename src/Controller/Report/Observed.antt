-- ===== src/Controller/Report/Observed.antt =====
-- What observeResult can do to a Task, and where a Result can come from.
use openconveyor.Prelude.{
  ℕ, ◌-◌, ℤ, Bool, true, false, ◌≡◌, refl, ◌⊎◌, inl, inr, Option, none, some, List, [], ◌∷◌, ◌++◌,
  Text, codes, text_eq_iff, is_some, ltb, arith, ap, subst, Bool-cases, Option-cases,
}
use openconveyor.Errors.{ok, Result-cases, ok-injective}
use openconveyor.Kube.{Time, Owner, Condition, Pod}
use openconveyor.Api.{Task}
use openconveyor.Net.{Net}
use openconveyor.Machinery.{Machinery}
use openconveyor.Policy.Labels.{label_task_name}
use openconveyor.Policy.Outcome.{Parsers, parse_result}
use openconveyor.Controller.Phase.{is_terminal}
use openconveyor.Controller.Report.{
  PodLister, Scan, message, no_message, scan_message, scan_pods, agent_termination_message,
  is_controlled_by, result_decided, set_result_condition, apply_parsed_result, after_scan,
  after_list, observe_result, result_requeue, result_wait, terminal_since, unavailable_message,
  reason_result_unavailable,
}

-- A pod of the list that the Job controls and whose agent container ended with the message.
pub record Reports (job_uid : Text) (pods : List Pod) (msg : Text) : Type 0 where
  pub before : List Pod
  pub pod : Pod
  pub after : List Pod
  pub listed : pods ≡ before ++ pod ∷ after
  pub owner : Owner
  pub owned : pod.meta.controller ≡ some owner
  pub by_job : owner.kind ≡ codes "Job"
  pub same_job : owner.uid ≡ job_uid
  pub ended : agent_termination_message pod.container_statuses ≡ some msg

is_controlled_by-eq-true :
    (job_uid : Text) (o : Option Owner)
    → is_controlled_by job_uid o ≡ true
    → (owner : Owner) × (o ≡ some owner) × (owner.kind ≡ codes "Job") × (owner.uid ≡ job_uid)
unfolding is_controlled_by
is_controlled_by-eq-true job_uid none h = cc
is_controlled_by-eq-true job_uid (some o) h = (
  o,
  refl,
  ground (arith, text_eq_iff o.kind (codes "Job")),
  ground (arith, text_eq_iff o.uid job_uid),
)

is_some_of : (o : Option Condition) (c : Condition) → o ≡ some c → is_some o ≡ true
is_some_of none c h = cc
is_some_of (some d) c h = refl

one_more :
    (job_uid msg : Text) (pod : Pod) (pods : List Pod)
    → Reports job_uid pods msg
    → Reports job_uid (pod ∷ pods) msg
one_more job_uid msg pod pods r = record {
  before = pod ∷ r.before;
  pod = r.pod;
  after = r.after;
  listed = ap (λ l. pod ∷ l) r.listed;
  owner = r.owner;
  owned = r.owned;
  by_job = r.by_job;
  same_job = r.same_job;
  ended = r.ended;
}

scan_pods-Reports :
    (job_uid : Text) (seen : Bool) (pods : List Pod) (msg : Text)
    → scan_pods job_uid seen pods ≡ message msg
    → Reports job_uid pods msg
unfolding scan_pods scan_message
scan_pods-Reports job_uid seen [] msg h = cc
scan_pods-Reports job_uid seen (pod ∷ pods) msg h =
    elim (Bool-cases (is_controlled_by job_uid pod.meta.controller)) [
      | inr other ↦
          one_more job_uid msg pod pods (scan_pods-Reports job_uid seen pods msg (rw other at h))
      | inl own ↦ elim (Option-cases (agent_termination_message pod.container_statuses)) [
        | inl running ↦
            one_more job_uid msg pod pods
              (scan_pods-Reports job_uid true pods msg (rw (own, running) at h))
        | inr (m, ended) ↦
            let (owner, owned, kind, uid) =
              is_controlled_by-eq-true job_uid pod.meta.controller own in
            let same : message m ≡ message msg = rw (own, ended) at h in
            record {
              before = [];
              pod = pod;
              after = pods;
              listed = refl;
              owner = owner;
              owned = owned;
              by_job = kind;
              same_job = uid;
              ended = cc (ended, same);
            }
      ]
    ]

module _ (machinery : Machinery) (parsers : Parsers) (net : Net) (now : Time) (wait : ℤ)
    (list : PodLister) (task : Task) (job_uid : Text) (egress : List Text) where
  pub decided-set_result_condition :
      (t : Task) (reason msg : Text)
      → result_decided machinery (set_result_condition machinery now t reason msg) ≡ true
  unfolding result_decided set_result_condition
  decided-set_result_condition t reason msg =
      let (d, found, same) = machinery.find-set_self now t.status.conditions _ in
      is_some_of _ d found

  -- The status gets the Result of a message of the Job's own pod.
  pub record Recorded (next : Task) (delay : ℕ) : Type 0 where
    pub undecided : result_decided machinery task ≡ false
    pub msg : Text
    pub pods : List Pod
    pub listing : list task.meta.namespace ((label_task_name, task.meta.name) ∷ []) ≡ ok pods
    pub reports : Reports job_uid pods msg
    pub taken : next.status.task_result ≡ (parse_result parsers net msg egress).task_result
    pub decided : result_decided machinery next ≡ true
    pub at_once : delay ≡ 0

  -- The Task is terminal and the wait is over: it stays without a Result.
  pub record GivenUp (next : Task) (delay : ℕ) : Type 0 where
    pub undecided : result_decided machinery task ≡ false
    pub terminal : is_terminal task.status.phase ≡ true
    pub waited : ltb (now - terminal_since machinery now task) (result_wait wait) ≡ false
    pub kept : next.status.task_result ≡ task.status.task_result
    pub decided : result_decided machinery next ≡ true
    pub at_once : delay ≡ 0

  abbrev pub Observes : Task → ℕ → Type 0
  Observes next delay =
      ((next ≡ task)
        × (delay ≡ 0)
        × ((result_decided machinery task ≡ true) ⊎ (is_terminal task.status.phase ≡ false)))
      ⊎ (((next ≡ task)
            × (delay ≡ result_requeue)
            × (is_terminal task.status.phase ≡ true)
            × (result_decided machinery task ≡ false))
          ⊎ (Recorded next delay ⊎ GivenUp next delay))

  abbrev ObservesPair : Task × ℕ → Type 0
  ObservesPair p = Observes p.0 p.1

  observed_message :
      (pods : List Pod) (msg : Text)
      → result_decided machinery task ≡ false
      → list task.meta.namespace ((label_task_name, task.meta.name) ∷ []) ≡ ok pods
      → Reports job_uid pods msg
      → ObservesPair (after_scan machinery parsers net now wait task egress (message msg))
  unfolding after_scan apply_parsed_result set_result_condition
  observed_message pods msg open_yet listing reports = inr (
      inr (
        inl (record {
          undecided = open_yet;
          msg = msg;
          pods = pods;
          listing = listing;
          reports = reports;
          taken = refl;
          decided = decided-set_result_condition _ _ _;
          at_once = refl;
        })))

  given_up :
      (seen : Bool)
      → result_decided machinery task ≡ false
      → is_terminal task.status.phase ≡ true
      → ltb (now - terminal_since machinery now task) (result_wait wait) ≡ false
      → GivenUp
          (set_result_condition machinery now task reason_result_unavailable
            (unavailable_message machinery seen))
          0
  unfolding set_result_condition
  given_up seen open_yet ended late = record {
    undecided = open_yet;
    terminal = ended;
    waited = late;
    kept = refl;
    decided = decided-set_result_condition task _ _;
    at_once = refl;
  }

  observed_silence :
      (seen : Bool)
      → result_decided machinery task ≡ false
      → ObservesPair (after_scan machinery parsers net now wait task egress (no_message seen))
  unfolding after_scan
  observed_silence seen open_yet = elim (Bool-cases (is_terminal task.status.phase)) [
    | inr alive ↦ rw alive (inl (refl, refl, inr refl))
    | inl ended ↦
        elim (Bool-cases (ltb (now - terminal_since machinery now task) (result_wait wait))) [
          | inl early ↦ rw (ended, early) (inr (inl (refl, refl, refl, open_yet)))
          | inr late ↦ rw (ended, late) (inr (inr (inr (given_up seen open_yet ended late))))
        ]
  ]

  observed_scan :
      (pods : List Pod)
      → result_decided machinery task ≡ false
      → list task.meta.namespace ((label_task_name, task.meta.name) ∷ []) ≡ ok pods
      → (s : Scan) → scan_pods job_uid false pods ≡ s
      → ObservesPair (after_scan machinery parsers net now wait task egress s)
  observed_scan pods open_yet listing (message msg) e =
      observed_message pods msg open_yet listing (scan_pods-Reports job_uid false pods msg e)
  observed_scan pods open_yet listing (no_message seen) e = observed_silence seen open_yet

  -- When observeResult succeeds, it leaves a Task whose Result is decided as it is. For any other Task
  -- there are four outcomes: it decides the Result, from the message of a pod that the Job with the
  -- given UID controls, never of another pod; it decides that there is no Result, only for a Task that
  -- has been terminal for the wait; it leaves a terminal Task as it is and asks to be called again;
  -- or it leaves a Task that is not terminal as it is.
  pub observe_result-Observes :
      (next : Task) (delay : ℕ)
      → observe_result machinery parsers net now wait list task job_uid egress ≡ ok (next, delay)
      → Observes next delay
  unfolding observe_result after_list
  observe_result-Observes next delay h = elim (Bool-cases (result_decided machinery task)) [
    | inl decided ↦
        subst ObservesPair (ok-injective (task, 0) (next, delay) (rw decided at h))
          (inl (refl, refl, inl decided))
    | inr open_yet ↦
        elim (Result-cases (list task.meta.namespace ((label_task_name, task.meta.name) ∷ []))) [
          | inl (pods, listing) ↦
              subst ObservesPair
                (ok-injective
                  (after_scan machinery parsers net now wait task egress
                    (scan_pods job_uid false pods))
                  (next, delay) (rw (open_yet, listing) at h))
                (observed_scan pods open_yet listing (scan_pods job_uid false pods) refl)
          | inr (e, failed) ↦ absurd (cc (rw (open_yet, failed) at h))
        ]
  ]
