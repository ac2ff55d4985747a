-- ===== src/Examples/Conditions.antt =====
-- A concrete Machinery: conditions in a list, stamped as SetStatusCondition stamps them.
use openconveyor.Prelude.{
  Bool, true, false, ◌&&◌, ◌≡◌, ◌≢◌, refl, ◌↔◌, Option, none, some, List, [], ◌∷◌, Text, codes,
  text_eq, text_eq_iff, text_eq_refl, if◌then◌else◌, arith, Bool-cases, inl, inr,
}
use openconveyor.Errors.{ok, err, new}
use openconveyor.Kube.{Time, Condition, ConditionStatus, is_true, is_false, is_unknown}
use openconveyor.Api.{TaskResult, ResultLink}
use openconveyor.Machinery.{Machinery, SameCondition}

pub find_condition : List Condition → Text → Option Condition
find_condition [] k = none
find_condition (c ∷ cs) k = if text_eq c.kind k then some c else find_condition cs k

same_status : ConditionStatus → ConditionStatus → Bool
same_status is_true is_true = true
same_status is_false is_false = true
same_status is_unknown is_unknown = true
same_status _ _ = false

time_or : Time → Option Time → Option Time
time_or now none = some now
time_or now (some t) = some t

stamped : Time → Condition → Condition
unfolding time_or
stamped now c = record c { last_transition = time_or now c.last_transition }

overwritten : Time → Condition → Condition → Condition
unfolding same_status stamped
overwritten now old c =
    if same_status old.status c.status
    then record c { last_transition = old.last_transition }
    else stamped now c

pub set_condition : Time → List Condition → Condition → List Condition
unfolding overwritten stamped
set_condition now [] c = stamped now c ∷ []
set_condition now (d ∷ cs) c =
    if text_eq d.kind c.kind then overwritten now d c ∷ cs else d ∷ set_condition now cs c

same_links : List ResultLink → List ResultLink → Bool
same_links [] [] = true
same_links (a ∷ xs) (b ∷ ys) = text_eq a.name b.name && (text_eq a.url b.url && same_links xs ys)
same_links _ _ = false

pub same_results : Option TaskResult → Option TaskResult → Bool
unfolding same_links
same_results none none = true
same_results (some a) (some b) = text_eq a.summary b.summary && same_links a.links b.links
same_results _ _ = false

kind-overwritten : (now : Time) (d c : Condition) → SameCondition c (overwritten now d c)
unfolding overwritten stamped
kind-overwritten now d c = record {
  kind = ground arith;
  status = ground arith;
  reason = ground arith;
  message = ground arith;
  observed_generation = ground arith;
}

pub find_set_self :
    (now : Time) (cs : List Condition) (c : Condition)
    → (d : Condition) × (find_condition (set_condition now cs c) c.kind ≡ some d)
      × SameCondition c d
unfolding find_condition set_condition stamped
find_set_self now [] c = (
  stamped now c,
  ground (arith, text_eq_refl c.kind),
  record { kind = refl; status = refl; reason = refl; message = refl; observed_generation = refl },
)
find_set_self now (d ∷ cs) c =
    let (e, found, same) = find_set_self now cs c in
    elim (Bool-cases (text_eq d.kind c.kind)) [
      | inl here ↦ (
        overwritten now d c,
        ground (arith, text_eq_refl c.kind, (kind-overwritten now d c).kind),
        kind-overwritten now d c,
      )
      | inr there ↦ (e, ground arith, same)
    ]

pub find_set_other :
    (now : Time) (cs : List Condition) (c : Condition) (k : Text)
    → c.kind ≢ k
    → find_condition (set_condition now cs c) k ≡ find_condition cs k
unfolding find_condition set_condition stamped
find_set_other now [] c k h = ground (arith, text_eq_iff c.kind k)
find_set_other now (d ∷ cs) c k h = ground (
  arith,
  find_set_other now cs c k h,
  text_eq_iff c.kind k,
  text_eq_iff d.kind c.kind,
  (kind-overwritten now d c).kind,
)

pub find_set_transition :
    (now : Time) (cs : List Condition) (c d : Condition)
    → c.last_transition ≡ none
    → ((old : Condition) → find_condition cs c.kind ≡ some old → old.status ≢ c.status)
    → find_condition (set_condition now cs c) c.kind ≡ some d
    → d.last_transition ≡ some now
unfolding find_condition set_condition overwritten stamped time_or same_status
find_set_transition now [] c d e n h = ground (arith, text_eq_refl c.kind)
find_set_transition now (o ∷ cs) c d e n h = elim (Bool-cases (text_eq o.kind c.kind)) [
  | inl here ↦ ground (arith, n o, text_eq_refl c.kind)
  | inr there ↦ find_set_transition now cs c d e (λ old f. n old (ground arith)) (ground arith)
]

same_links_iff : (xs ys : List ResultLink) → (same_links xs ys ≡ true) ↔ (xs ≡ ys)
unfolding same_links
same_links_iff [] [] = ground arith
same_links_iff [] (b ∷ ys) = ground arith
same_links_iff (a ∷ xs) [] = ground arith
same_links_iff (a ∷ xs) (b ∷ ys) =
    ground (arith, same_links_iff xs ys, text_eq_iff a.name b.name, text_eq_iff a.url b.url)

pub same_results_iff : (a b : Option TaskResult) → (same_results a b ≡ true) ↔ (a ≡ b)
unfolding same_results
same_results_iff none none = ground arith
same_results_iff none (some b) = ground arith
same_results_iff (some a) none = ground arith
same_results_iff (some a) (some b) =
    ground (arith, same_links_iff a.links b.links, text_eq_iff a.summary b.summary)

unfoldable pub machinery : Machinery
unfolding find_condition set_condition same_results
machinery = record {
  find = find_condition;
  set = set_condition;
  same_result = same_results;
  parse_quantity = λ q. if text_eq q (codes "1") then ok 1 else err (new (codes "quantity") []);
  find-set_self = find_set_self;
  find-set_other = find_set_other;
  find-set_transition = find_set_transition;
  same_result_iff = same_results_iff;
}
