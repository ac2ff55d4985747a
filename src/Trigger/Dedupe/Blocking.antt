-- ===== src/Trigger/Dedupe/Blocking.antt =====
-- Which Task blocks an event.
use openconveyor.Prelude.{
  true, false, ◌≡◌, refl, ap, ◌∙◌, ◌++◌, none, some, List, [], ◌∷◌, ◌⊎◌, inl, inr, Text, text_eq,
  text_eq_iff, text_eq_refl, is_empty, contains, arith, Bool-cases, Option-cases, subst, Map,
  lookup, lookup_text, store, lookup-store, All,
}
use openconveyor.Errors.{ok, ok-injective, Result-cases}
use openconveyor.Api.{Task, ClusterTriggerClass, TaskPhase}
use openconveyor.Policy.Labels.{label_trigger_class}
use openconveyor.Controller.Phase.{is_terminal}
use openconveyor.Trigger.Dedupe.{
  Lister, unique_keys, add_keys, dedupe_selector, is_inactive, is_terminal_phase, first_active,
  listed_active, blocked_under, find_active_duplicate,
}

-- What the API server answers to a list: named Tasks of the namespace whose labels have every label
-- of the selector.
pub record IsSelective (list : Lister) : Type 0 where
  pub same_namespace :
      (namespace : Text) (selector : Map Text) (ts : List Task)
      → list namespace selector ≡ ok ts
      → All (λ (t : Task). t.meta.namespace ≡ namespace) ts
  pub named :
      (namespace : Text) (selector : Map Text) (ts : List Task)
      → list namespace selector ≡ ok ts
      → All (λ (t : Task). is_empty t.meta.name ≡ false) ts
  pub same_labels :
      (namespace : Text) (selector : Map Text) (ts : List Task) (k v : Text)
      → list namespace selector ≡ ok ts
      → lookup k selector ≡ some v
      → All (λ (t : Task). lookup_text k t.meta.labels ≡ v) ts

terminal_same : (p : TaskPhase) → is_terminal_phase p ≡ is_terminal p
unfolding is_terminal_phase is_terminal
terminal_same p = ground arith

-- A key that was not yet stored keeps or gets the label's value.
add_keys_lem :
    (labels : Map Text) (ks : List Text) (selector final : Map Text) (k : Text)
    → add_keys labels ks selector ≡ some final
    → (lookup k selector ≡ some (lookup_text k labels)) ⊎ (contains k ks ≡ true)
    → (lookup k final ≡ some (lookup_text k labels))
      × (contains k ks ≡ true → is_empty (lookup_text k labels) ≡ false)
unfolding add_keys
add_keys_lem labels [] selector final k h (inl e) = (ground arith, λ c. cc)
add_keys_lem labels [] selector final k h (inr c) = cc
add_keys_lem labels (j ∷ ks) selector final k h s =
    elim (Bool-cases (is_empty (lookup_text j labels))) [
      | inl missing ↦ absurd (cc (rw missing at h))
      | inr present ↦
          let stored = lookup-store j k (lookup_text j labels) selector in
          let step =
            add_keys_lem labels ks (store j (lookup_text j labels) selector) final k
              (rw present at h) in
          elim (Bool-cases (text_eq j k)) [
            | inl here ↦
                let same : j ≡ k = (text_eq_iff j k).0 here in
                let (found, others) = step (inl (stored ∙ rw (here, same) refl)) in
                (found, λ c. subst (λ i. is_empty (lookup_text i labels) ≡ false) same present)
            | inr there ↦
                let (found, others) = step (elim s [
                  | inl e ↦ inl (stored ∙ rw (there, e) refl)
                  | inr c ↦ inr (ground (arith, text_eq_iff j k, text_eq_iff k j))
                ]) in
                (found, λ c. others (ground (arith, text_eq_iff j k, text_eq_iff k j)))
          ]
    ]

-- The Task of the list that blocks.
first_active_lem :
    (ts : List Task)
    → is_empty (first_active ts) ≡ false
    → (t : Task) × (t.meta.name ≡ first_active ts)
      × (is_inactive t ≡ false)
      × ((before : List Task) × (after : List Task) × (ts ≡ before ++ (t ∷ after)))
      × ((P : Task → Type 0) → All P ts → P t)
unfolding first_active
first_active_lem [] h = cc
first_active_lem (t ∷ ts) h = elim (Bool-cases (is_inactive t)) [
  | inl inactive ↦
      let (u, named, active, (before, after, e), within) = first_active_lem ts (rw inactive at h) in
      (
        u,
        rw inactive named,
        active,
        (t ∷ before, after, ap (λ l. t ∷ l) e),
        λ P (p, ps). within P ps,
      )
  | inr active ↦ (t, rw active refl, active, ([], ts, refl), λ P (p, ps). p)
]

first_active_none :
    (ts : List Task)
    → All (λ (t : Task). is_empty t.meta.name ≡ false) ts
    → is_empty (first_active ts) ≡ true
    → All (λ (t : Task). is_inactive t ≡ true) ts
unfolding first_active
first_active_none [] n h = tt
first_active_none (t ∷ ts) (n, ns) h = elim (Bool-cases (is_inactive t)) [
  | inl inactive ↦ (inactive, first_active_none ts ns (rw inactive at h))
  | inr active ↦ absurd (cc (rw active at h))
]

module _ (list : Lister) (selective : IsSelective list) (ctc : ClusterTriggerClass)
    (task : Task) where
  -- A Task that blocks the new one: listed, active, in its namespace, of its trigger class, and with its
  -- values of all the labels that the class names.
  pub record Blocks (t : Task) : Type 0 where
    pub selector : Map Text
    pub chosen : dedupe_selector ctc task ≡ some selector
    pub before : List Task
    pub after : List Task
    pub listed : list task.meta.namespace selector ≡ ok (before ++ (t ∷ after))
    pub not_deleted : t.meta.deletion_timestamp ≡ none
    pub not_terminal : is_terminal t.status.phase ≡ false
    pub namespace : t.meta.namespace ≡ task.meta.namespace
    pub class :
        lookup_text label_trigger_class t.meta.labels
        ≡ lookup_text label_trigger_class task.meta.labels
    pub classified : is_empty (lookup_text label_trigger_class t.meta.labels) ≡ false
    pub unique :
        (k : Text)
        → contains k (unique_keys ctc.spec.dedupe) ≡ true
        → (lookup_text k t.meta.labels ≡ lookup_text k task.meta.labels)
          × (is_empty (lookup_text k t.meta.labels) ≡ false)

  dedupe_selector-eq-some :
      (selector : Map Text)
      → dedupe_selector ctc task ≡ some selector
      → (is_empty (lookup_text label_trigger_class task.meta.labels) ≡ false)
        × (lookup label_trigger_class selector
            ≡ some (lookup_text label_trigger_class task.meta.labels))
        × ((k : Text)
            → contains k (unique_keys ctc.spec.dedupe) ≡ true
            → (lookup k selector ≡ some (lookup_text k task.meta.labels))
              × (is_empty (lookup_text k task.meta.labels) ≡ false))
  unfolding dedupe_selector
  dedupe_selector-eq-some selector h = elim (Bool-cases (is_empty (unique_keys ctc.spec.dedupe))) [
    | inl unused ↦ absurd (cc (rw unused at h))
    | inr used ↦ elim (Bool-cases (is_empty (lookup_text label_trigger_class task.meta.labels))) [
      | inl unlabelled ↦ absurd (cc (rw (used, unlabelled) at h))
      | inr labelled ↦
          let filled = rw (used, labelled) at h in
          let class = lookup_text label_trigger_class task.meta.labels in
          let ks = unique_keys ctc.spec.dedupe in
          let first = store label_trigger_class class [] in
          (
            labelled,
            (add_keys_lem task.meta.labels ks first selector label_trigger_class filled (
                inl (
                  lookup-store label_trigger_class label_trigger_class class []
                  ∙ rw text_eq_refl refl))).0,
            λ k c.
                let (found, full) =
                  add_keys_lem task.meta.labels ks first selector k filled (inr c) in
                (found, full c),
          )
    ]
  ]

  blocker :
      (selector : Map Text) (ts : List Task)
      → dedupe_selector ctc task ≡ some selector
      → list task.meta.namespace selector ≡ ok ts
      → is_empty (first_active ts) ≡ false
      → (t : Task) × (t.meta.name ≡ first_active ts) × Blocks t
  unfolding is_inactive
  blocker selector ts chosen listed h =
      let (t, named, active, (before, after, e), within) = first_active_lem ts h in
      let (labelled, class, keys) = dedupe_selector-eq-some selector chosen in
      let labels : (k v : Text) → lookup k selector ≡ some v → lookup_text k t.meta.labels ≡ v =
        λ k v found.
          within (λ (u : Task). lookup_text k u.meta.labels ≡ v)
            (selective.same_labels task.meta.namespace selector ts k v listed found) in
      let same_class = labels label_trigger_class _ class in
      (
        t,
        named,
        record {
          selector = selector;
          chosen = chosen;
          before = before;
          after = after;
          listed = listed ∙ ap ok e;
          not_deleted = ground arith;
          not_terminal = ground (arith, terminal_same t.status.phase);
          namespace =
              within (λ (u : Task). u.meta.namespace ≡ task.meta.namespace)
                (selective.same_namespace task.meta.namespace selector ts listed);
          class = same_class;
          classified = rw same_class labelled;
          unique = λ k c.
              let (found, full) = keys k c in let same = labels k _ found in (same, rw same full);
        },
      )

  -- When findActiveDuplicate names a Task, that Task blocks the new one: it is listed, active, in the same
  -- namespace and trigger class, and has the same value, not empty, for every uniqueBy label. When
  -- it names none although it made a list, every listed Task is terminal or being deleted.
  pub find_active_duplicate_lem :
      (name : Text)
      → find_active_duplicate list ctc task ≡ ok name
      → (is_empty name ≡ false → (t : Task) × (t.meta.name ≡ name) × Blocks t)
        × (is_empty name ≡ true
            → (selector : Map Text) (ts : List Task) → dedupe_selector ctc task ≡ some selector
            → list task.meta.namespace selector ≡ ok ts
            → All (λ (t : Task). is_inactive t ≡ true) ts)
  unfolding find_active_duplicate blocked_under listed_active
  find_active_duplicate_lem name h = (
    (λ full. elim (Option-cases (dedupe_selector ctc task)) [
      | inl skipped ↦ absurd (cc (ok-injective [] name (rw skipped at h), full))
      | inr (selector, chosen) ↦ elim (Result-cases (list task.meta.namespace selector)) [
        | inl (ts, listed) ↦
            let same = ok-injective (first_active ts) name (rw (chosen, listed) at h) in
            let (t, named, blocks) = blocker selector ts chosen listed (rw same full) in
            (t, named ∙ same, blocks)
        | inr (e, failed) ↦ absurd (cc (rw (chosen, failed) at h))
      ]
    ]),
    (λ none_found selector ts chosen listed.
        first_active_none ts (selective.named task.meta.namespace selector ts listed)
          (rw (ok-injective (first_active ts) name (rw (chosen, listed) at h)) none_found)),
  )
