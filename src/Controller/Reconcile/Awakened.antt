-- ===== src/Controller/Reconcile/Awakened.antt =====
-- Which Tasks the event of a ClusterAgentClass wakes.
use openconveyor.Prelude.{
  false, ◌≡◌, refl, sym, ap, ◌∙◌, is_empty, subst, ◌⊎◌, inl, inr, ◌↔◌, List, [], ◌∷◌, Text,
  Bool-cases,
}
use openconveyor.Errors.{Result, ok, err, ok-injective}
use openconveyor.Kube.{Key}
use openconveyor.Api.{Task}
use openconveyor.Controller.Phase.{is_terminal}
use openconveyor.Controller.Reconciler.{Reconciler}
use openconveyor.Controller.Terminal.{task_key}
use openconveyor.Controller.Reconcile.{
  index_agent_ref, requests, requests_of, tasks_for_agent_class,
}

-- A member of a list, by its place.
abbrev pub Listed : {A : Type 0} → A → List A → Type 0
Listed a [] = ⊥
Listed a (x ∷ xs) = (a ≡ x) ⊎ Listed a xs

indexed_ref :
    (name : Text) (task : Task) → Listed name (index_agent_ref task) → task.spec.agent.ref ≡ name
unfolding index_agent_ref
indexed_ref name task h = elim (Bool-cases (is_empty task.spec.agent.ref)) [
  | inl none_named ↦ absurd (rw none_named at h)
  | inr there ↦ elim (rw there at h) [ inl e ↦ sym e | inr never ↦ absurd never ]
]

ref_indexed :
    (name : Text) (task : Task)
    → is_empty name ≡ false
    → task.spec.agent.ref ≡ name
    → Listed name (index_agent_ref task)
unfolding index_agent_ref
ref_indexed name task there e =
    let named : is_empty task.spec.agent.ref ≡ false = ap is_empty e ∙ there in
    rw named (inl (sym e))

module _ {W : Type 0} (r : Reconciler W) where
  -- A Task of the list that still runs and has that key.
  abbrev pub Living : Key → List Task → Type 0
  Living key tasks =
      (task : Task) × Listed task tasks
      × (is_terminal task.status.phase ≡ false)
      × (key ≡ task_key task)

  later_one :
      (key : Key) (task : Task) (tasks : List Task) → Living key tasks → Living key (task ∷ tasks)
  later_one key task tasks (t, l, alive, e) = (t, inr l, alive, e)

  Listed-requests :
      (key : Key) (tasks : List Task) → Listed key (requests r tasks) → Living key tasks
  unfolding requests
  Listed-requests key [] h = absurd h
  Listed-requests key (task ∷ tasks) h = elim (Bool-cases (is_terminal task.status.phase)) [
    | inl terminal ↦ later_one key task tasks (Listed-requests key tasks (rw terminal at h))
    | inr alive ↦ elim (rw alive at h) [
      | inl e ↦ (task, inl refl, alive, e)
      | inr l ↦ later_one key task tasks (Listed-requests key tasks l)
    ]
  ]

  Living-requests :
      (tasks : List Task) (task : Task)
      → Listed task tasks
      → is_terminal task.status.phase ≡ false
      → Listed (task_key task) (requests r tasks)
  unfolding requests
  Living-requests [] task l alive = absurd l
  Living-requests (t ∷ tasks) task (inl e) alive = elim (Bool-cases (is_terminal t.status.phase)) [
    | inl terminal ↦ absurd (cc (terminal, alive, ap (λ x. is_terminal x.status.phase) e))
    | inr living ↦ rw living (inl (ap task_key e))
  ]
  Living-requests (t ∷ tasks) task (inr l) alive = elim (Bool-cases (is_terminal t.status.phase)) [
    | inl terminal ↦ rw terminal (Living-requests tasks task l alive)
    | inr living ↦ rw living (inr (Living-requests tasks task l alive))
  ]

  requests_of_iff :
      (a : Result (List Task) × W) (tasks : List Task) (key : Key)
      → a.0 ≡ ok tasks
      → Listed key (requests_of r a).0 ↔ Living key tasks
  unfolding requests_of
  requests_of_iff (err e, world) tasks key h = cc
  requests_of_iff (ok found, world) tasks key h =
      subst (λ l. Listed key (requests r found) ↔ Living key l) (ok-injective found tasks h)
        (
          Listed-requests key found,
          λ (t, listed, alive, e).
              subst (λ k. Listed k (requests r found)) (sym e)
                (Living-requests found t listed alive),
        )

  -- The Tasks of the cluster that the index has under a name.
  abbrev Indexed : Text → Task → Type 0
  Indexed name task = Listed name (index_agent_ref task)

  -- The event of a ClusterAgentClass wakes exactly the Tasks that name it and are not terminal, each
  -- by its own namespace and name, if the list of the API server holds the Tasks of the cluster that
  -- the index has under the name.
  pub tasks_for_agent_class_iff :
      (name : Text) (world : W) (cluster tasks : List Task) (key : Key)
      → is_empty name ≡ false
      → (r.tasks_of_class name world).0 ≡ ok tasks
      → ((task : Task) → Listed task tasks ↔ (Listed task cluster × Indexed name task))
      → Listed key (tasks_for_agent_class r name world).0 ↔ (
          (task : Task) × Listed task cluster
          × (task.spec.agent.ref ≡ name)
          × (is_terminal task.status.phase ≡ false)
          × (key ≡ task_key task))
  unfolding tasks_for_agent_class index_agent_ref
  tasks_for_agent_class_iff name world cluster tasks key there answer indexed =
      let wakes = requests_of_iff (r.tasks_of_class name world) tasks key answer in
      (
        λ h.
            let (task, listed, alive, e) = wakes.0 h in
            let (member, found) = (indexed task).0 listed in
            (task, member, indexed_ref name task found, alive, e),
        λ (task, member, ref, alive, e).
            wakes.1 (task, (indexed task).1 (member, ref_indexed name task there ref), alive, e),
      )
