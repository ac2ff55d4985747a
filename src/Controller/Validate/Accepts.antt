-- ===== src/Controller/Validate/Accepts.antt =====
-- What a validated Task is.
use openconveyor.Prelude.{
  Bool, true, false, ◌||◌, ◌≡◌, ◌↔◌, Text, codes, is_empty, is_positive, arith,
}
use openconveyor.Errors.{is_ok}
use openconveyor.Api.{Task}
use openconveyor.Machinery.{Machinery}
use openconveyor.Controller.Validate.{validate_task, source_count, check_quantity, quantity_error}

-- A quantity that is empty or parses.
abbrev pub quantity_ok : Machinery → Text → Bool
quantity_ok machinery q = is_empty q || is_ok (machinery.parse_quantity q)

pub record IsValid (machinery : Machinery) (task : Task) : Type 0 where
  pub timeout : is_positive task.spec.resources.timeout ≡ true
  pub agent : is_empty task.spec.agent.ref ≡ false
  pub one_source : source_count task.spec.prompt ≡ 1
  pub cpu : quantity_ok machinery task.spec.resources.cpu ≡ true
  pub memory : quantity_ok machinery task.spec.resources.memory ≡ true

is_ok-check_quantity :
    (machinery : Machinery) (format q : Text)
    → is_ok (check_quantity machinery format q) ≡ quantity_ok machinery q
unfolding check_quantity quantity_error
is_ok-check_quantity machinery format q = ground arith

-- validateTask accepts exactly the Tasks with a positive timeout, an agent, one prompt source, and a
-- CPU and a memory quantity that are empty or parse.
pub validate_task_iff :
    (machinery : Machinery) (task : Task)
    → (is_ok (validate_task machinery task) ≡ true) ↔ IsValid machinery task
unfolding validate_task
validate_task_iff machinery task =
    let cpu =
      is_ok-check_quantity machinery (codes "spec.resources.cpu: %w") task.spec.resources.cpu in
    let memory =
      is_ok-check_quantity machinery (codes "spec.resources.memory: %w")
        task.spec.resources.memory in
    (
      λ h. record {
        timeout = ground arith;
        agent = ground arith;
        one_source = ground arith;
        cpu = ground arith;
        memory = ground arith;
      },
      λ v. ground arith,
    )
