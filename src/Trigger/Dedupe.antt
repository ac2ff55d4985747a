-- ===== src/Trigger/Dedupe.antt =====
-- internal/trigger/dedupe.go: the label of the trigger class, and the Task that blocks an event. The
-- list of the API reader and validation.IsValidLabelValue are parameters.
pub mod Blocking
use openconveyor.Prelude.{
  Bool, true, false, Option, none, some, List, [], ◌∷◌, Text, codes, is_empty, Map, lookup_text,
  store, if◌then◌else◌, is_some, ◌||◌,
}
use openconveyor.Errors.{Err, wrap, Result, ok, err, ◌>>=◌}
use openconveyor.Api.{
  Task, TaskPhase, completed, failed, timed_out, ClusterTriggerClass, TriggerDedupe,
}
use openconveyor.Policy.Labels.{label_trigger_class}

-- client.Reader.List of Tasks in a namespace with a label selector
abbrev pub Lister : Type 0
Lister = (namespace : Text) (selector : Map Text) → Result (List Task)

-- `valid` is len(validation.IsValidLabelValue(name)) == 0.
unfoldable pub stamp_trigger_class : (valid : Text → Bool) → Task → ClusterTriggerClass → Task
stamp_trigger_class valid task ctc =
    if valid ctc.meta.name
    then (record task {
      meta = record task.meta { labels = store label_trigger_class ctc.meta.name task.meta.labels };
    })
    else task

unfoldable pub is_terminal_phase : TaskPhase → Bool
is_terminal_phase completed = true
is_terminal_phase failed = true
is_terminal_phase timed_out = true
is_terminal_phase _ = false

unfoldable pub unique_keys : Option TriggerDedupe → List Text
unique_keys none = []
unique_keys (some d) = d.unique_by

-- The loop that fills the selector; `none` is the early return on a missing label.
unfoldable pub add_keys : Map Text → List Text → Map Text → Option (Map Text)
add_keys labels [] selector = some selector
add_keys labels (k ∷ ks) selector =
    let v = lookup_text k labels in
    let rest = add_keys labels ks (store k v selector) in if is_empty v then none else rest

unfoldable pub dedupe_selector : ClusterTriggerClass → Task → Option (Map Text)
unfolding add_keys unique_keys
dedupe_selector ctc task =
    if is_empty (unique_keys ctc.spec.dedupe)
    then none
    else (let v = lookup_text label_trigger_class task.meta.labels in
        if is_empty v
        then none
        else add_keys task.meta.labels (unique_keys ctc.spec.dedupe)
            (store label_trigger_class v []))

-- A listed Task that does not count: it is being deleted, or terminal.
unfoldable pub is_inactive : Task → Bool
unfolding is_terminal_phase
is_inactive t = is_some t.meta.deletion_timestamp || is_terminal_phase t.status.phase

-- The loop over the listed Tasks; the empty name is no Task.
first_active : List Task → Text
unfolding is_inactive
first_active [] = []
first_active (t ∷ ts) = if is_inactive t then first_active ts else t.meta.name

listed_active : Result (List Task) → Result Text
unfolding first_active
listed_active (ok ts) = ok (first_active ts)
listed_active (err e) = err (wrap (codes "list tasks for dedupe: %w") [] e)

blocked_under : Lister → Text → Option (Map Text) → Result Text
unfolding listed_active
blocked_under list namespace none = ok []
blocked_under list namespace (some selector) = listed_active (list namespace selector)

unfoldable pub find_active_duplicate : Lister → ClusterTriggerClass → Task → Result Text
unfolding blocked_under dedupe_selector
find_active_duplicate list ctc task =
    blocked_under list task.meta.namespace (dedupe_selector ctc task)
