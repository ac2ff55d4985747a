-- ===== src/Policy/Labels.antt =====
-- internal/policy/labels.go: the label schema, and the union of allowlists.
pub mod Merging
use openconveyor.Prelude.{
  Bool, List, [], ◌∷◌, ◌++◌, Text, codes, contains, is_empty, Map, if◌then◌else◌, ◌||◌,
}
use openconveyor.Kube.{ObjectMeta, empty_meta}

abbrev pub label_managed_by : Text
label_managed_by = codes "app.kubernetes.io/managed-by"

abbrev pub label_component : Text
label_component = codes "app.kubernetes.io/component"

abbrev pub label_task_name : Text
label_task_name = codes "openconveyor.ai/task"

abbrev pub managed_by_value : Text
managed_by_value = codes "conveyor"

abbrev pub component_task : Text
component_task = codes "task"

abbrev pub label_trigger_class : Text
label_trigger_class = codes "openconveyor.ai/trigger-class"

unfoldable pub pod_selector_labels : Text → Map Text
pod_selector_labels task_name = (label_task_name, task_name) ∷ []

unfoldable pub ownership_labels : Text → Map Text
ownership_labels task_name =
    (label_managed_by, managed_by_value) ∷ (label_task_name, task_name) ∷ []

unfoldable pub owned_meta : Text → Text → Text → ObjectMeta
owned_meta name namespace task_name = record empty_meta {
  name = name;
  namespace = namespace;
  labels = ownership_labels task_name;
}

-- The variables of the loop of MergeStringSets.
record Merged : Type 0 where
  seen : List Text
  out : List Text

merge_value : Merged → Text → Merged
merge_value m v =
    if is_empty v || contains v m.seen
    then m
    else record { seen = v ∷ m.seen; out = m.out ++ v ∷ [] }

merge_list : Merged → List Text → Merged
merge_list m [] = m
merge_list m (v ∷ vs) = merge_list (merge_value m v) vs

merge_lists : Merged → List (List Text) → Merged
merge_lists m [] = m
merge_lists m (l ∷ ls) = merge_lists (merge_list m l) ls

unfoldable pub merge_string_sets : List (List Text) → List Text
unfolding merge_value merge_list merge_lists
merge_string_sets lists = (merge_lists (record { seen = []; out = [] }) lists).out
