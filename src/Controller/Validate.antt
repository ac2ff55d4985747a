-- ===== src/Controller/Validate.antt =====
-- internal/controller/validate.go: the checks on a Task behind those of the CRD.
pub mod Accepts
use openconveyor.Prelude.{
  ℕ, ◌+◌, Bool, true, false, not, Option, none, some, List, [], ◌∷◌, Text, codes, is_empty, is_some,
  is_positive, ◌==◌, if◌then◌else◌,
}
use openconveyor.Errors.{Err, new, wrap, Result, ok, err, ◌>>=◌}
use openconveyor.Api.{Task, PromptSource}
use openconveyor.Machinery.{Machinery}

abbrev one_if : Bool → ℕ
one_if true = 1
one_if false = 0

-- How many sources the prompt has.
unfoldable pub source_count : PromptSource → ℕ
source_count p =
    one_if (not (is_empty p.inline))
    + one_if (is_some p.secret_ref)
    + one_if (is_some p.config_map_ref)

-- `ok tt` is nil.
abbrev pub fail_unless : Bool → Err → Result (Unit {0})
fail_unless true e = ok tt
fail_unless false e = err e

quantity_error : Text → Result ℕ → Result (Unit {0})
quantity_error format (ok q) = ok tt
quantity_error format (err e) = err (wrap format [] e)

check_quantity : Machinery → Text → Text → Result (Unit {0})
unfolding quantity_error
check_quantity machinery format q =
    if is_empty q then ok tt else quantity_error format (machinery.parse_quantity q)

unfoldable pub validate_task : Machinery → Task → Result (Unit {0})
unfolding source_count check_quantity
validate_task machinery task = do
  timeout ←
      fail_unless (is_positive task.spec.resources.timeout)
        (new (codes "spec.resources.timeout must be > 0") [])
  ref ←
      fail_unless (not (is_empty task.spec.agent.ref)) (new (codes "spec.agent.ref is required") [])
  prompt ←
      fail_unless (source_count task.spec.prompt == 1)
        (new (codes "spec.prompt requires exactly one of inline/secretRef/configMapRef") [])
  cpu ← check_quantity machinery (codes "spec.resources.cpu: %w") task.spec.resources.cpu
  check_quantity machinery (codes "spec.resources.memory: %w") task.spec.resources.memory
