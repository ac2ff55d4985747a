-- ===== src/Controller/Cluster/Trace.antt =====
-- The status writes and the reports in a log.
use openconveyor.Prelude.{
  All, All-append, ℕ, ◌+◌, Bool, true, false, ◌≡◌, refl, ◌∙◌, ◌||◌, List, [], ◌∷◌, ◌++◌, all, ap,
  if◌then◌else◌, arith,
}
use openconveyor.Controller.Cluster.{Action, status_written, event, transition, duration}

-- An Event, or a metric of a phase.
abbrev pub is_report : Action → Bool
is_report (event kind reason msg) = true
is_report (transition phase reason) = true
is_report (duration phase start completion) = true
is_report _ = false

abbrev pub is_transition : Action → Bool
is_transition (transition phase reason) = true
is_transition _ = false

abbrev pub is_write : Action → Bool
is_write (status_written task success) = true
is_write _ = false

abbrev pub is_status : Action → Bool
is_status a = is_write a || is_report a

-- The status writes and the reports of a log.
abbrev pub statuses : List Action → List Action
statuses [] = []
statuses (a ∷ log) = if is_status a then a ∷ statuses log else statuses log

abbrev pub one_for : Bool → ℕ
one_for true = 1
one_for false = 0

abbrev pub transitions : List Action → ℕ
transitions [] = 0
transitions (a ∷ log) = one_for (is_transition a) + transitions log

-- Reports with that many phase transitions.
pub record Told (count : ℕ) (tells : List Action) : Type 0 where
  pub reports : all is_report tells ≡ true
  pub counted : transitions tells ≡ count

-- A log that gets reports only.
abbrev pub Says : ℕ → List Action → List Action → Type 0
Says count log later = (tells : List Action) × Told count tells × (later ≡ tells ++ log)

pub nothing-Says : (log : List Action) → Says 0 log log
nothing-Says log = ([], record { reports = refl; counted = refl }, refl)

pub one-Says :
    (a : Action) (log : List Action)
    → is_report a ≡ true
    → Says (one_for (is_transition a)) log (a ∷ log)
one-Says a log h = (a ∷ [], record { reports = ground arith; counted = omega arith }, refl)

transitions-append :
    (xs ys : List Action) → transitions (xs ++ ys) ≡ transitions xs + transitions ys
transitions-append [] ys = omega arith
transitions-append (x ∷ xs) ys = omega (arith, transitions-append xs ys)

all-append :
    (p : Action → Bool) (xs ys : List Action)
    → all p xs ≡ true
    → all p ys ≡ true
    → all p (xs ++ ys) ≡ true
all-append p [] ys h k = k
all-append p (x ∷ xs) ys h k = ground (arith, all-append p xs ys)

pub append_assoc : (xs ys zs : List Action) → xs ++ (ys ++ zs) ≡ (xs ++ ys) ++ zs
append_assoc [] ys zs = refl
append_assoc (x ∷ xs) ys zs = ap (λ l. x ∷ l) (append_assoc xs ys zs)

pub then-Says :
    (m n : ℕ) (log mid later : List Action)
    → Says m log mid
    → Says n mid later
    → Says (n + m) log later
then-Says m n log mid later (xs, told, e) (ys, told', e') = (
  ys ++ xs,
  record {
    reports = all-append is_report ys xs told'.reports told.reports;
    counted = omega (arith, transitions-append ys xs, told.counted, told'.counted);
  },
  e' ∙ ap (λ l. ys ++ l) e ∙ append_assoc ys xs log,
)

report-is_status : (a : Action) → is_report a ≡ true → is_status a ≡ true
report-is_status a h = ground arith

pub statuses-append :
    (tells log : List Action)
    → all is_report tells ≡ true
    → statuses (tells ++ log) ≡ tells ++ statuses log
statuses-append [] log h = refl
statuses-append (a ∷ tells) log h =
    ground (arith, report-is_status a, ap (λ l. a ∷ l) (statuses-append tells log (ground arith)))

-- A log with new entries that have a property.
abbrev pub Adds : (Action → Type 0) → List Action → List Action → Type 0
Adds P log later = (new : List Action) × (later ≡ new ++ log) × All P new

pub no-Adds : (P : Action → Type 0) (log later : List Action) → later ≡ log → Adds P log later
no-Adds P log later e = ([], e, tt)

pub one-Adds : (P : Action → Type 0) (a : Action) (log : List Action) → P a → Adds P log (a ∷ log)
one-Adds P a log h = (a ∷ [], refl, (h, tt))

pub then-Adds :
    (P : Action → Type 0) (log mid later : List Action)
    → Adds P log mid
    → Adds P mid later
    → Adds P log later
then-Adds P log mid later (xs, e, h) (ys, e', h') =
    (ys ++ xs, e' ∙ ap (λ l. ys ++ l) e ∙ append_assoc ys xs log, All-append P ys xs h' h)
