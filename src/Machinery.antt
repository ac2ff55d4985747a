-- ===== src/Machinery.antt =====
-- What the controller calls of k8s.io/apimachinery on values of a Task: the status conditions, the
-- comparison of two results and the quantities, with their documented behaviour as laws.
use openconveyor.Prelude.{ℕ, Bool, true, Option, none, some, List, Text, ◌≡◌, ◌≢◌, ◌↔◌}
use openconveyor.Errors.{Result}
use openconveyor.Kube.{Time, Condition}
use openconveyor.Api.{TaskResult}

-- The fields that SetStatusCondition copies from the new condition.
pub record SameCondition (a b : Condition) : Type 0 where
  pub kind : a.kind ≡ b.kind
  pub status : a.status ≡ b.status
  pub reason : a.reason ≡ b.reason
  pub message : a.message ≡ b.message
  pub observed_generation : a.observed_generation ≡ b.observed_generation

pub record Machinery : Type 0 where
  -- meta.FindStatusCondition
  pub find : List Condition → Text → Option Condition
  -- meta.SetStatusCondition, at a time
  pub set : Time → List Condition → Condition → List Condition
  -- apiequality.Semantic.DeepEqual on two results
  pub same_result : Option TaskResult → Option TaskResult → Bool
  -- resource.ParseQuantity
  pub parse_quantity : Text → Result ℕ
  -- The condition that was set is found, with the new values.
  pub find-set_self :
      (now : Time) (cs : List Condition) (c : Condition)
      → (d : Condition) × (find (set now cs c) c.kind ≡ some d) × SameCondition c d
  -- The conditions of the other types stay.
  pub find-set_other :
      (now : Time) (cs : List Condition) (c : Condition) (k : Text)
      → c.kind ≢ k
      → find (set now cs c) k ≡ find cs k
  -- A condition that changes its status, or is new, is stamped with the time.
  pub find-set_transition :
      (now : Time) (cs : List Condition) (c d : Condition)
      → c.last_transition ≡ none
      → ((old : Condition) → find cs c.kind ≡ some old → old.status ≢ c.status)
      → find (set now cs c) c.kind ≡ some d
      → d.last_transition ≡ some now
  pub same_result_iff : (a b : Option TaskResult) → (same_result a b ≡ true) ↔ (a ≡ b)
