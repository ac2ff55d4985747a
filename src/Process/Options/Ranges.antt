-- ===== src/Process/Options/Ranges.antt =====
-- The ranges of the TTLs, and their conversion to 32 bits.
use openconveyor.Prelude.{
  ℕ, zero, suc, ap, ◌≤◌, ◌%◌, ℤ, pos, negsuc, true, false, ◌≡◌, refl, ◌⊎◌, inl, inr, ◌↔◌, none,
  some, ltb, arith, Bool-cases,
}
use openconveyor.Errors.{ok}
use openconveyor.Process.Options.{
  max_int32, signed32, as_int32, is_natural, validate_job_ttl, check_task_ttl, task_ttl,
}

mod_small : (n : ℕ) → n ≤ 2_147_483_647 → n % 4_294_967_296 ≡ n
mod_small n low = omega (arith, low)

pub as_int32_exact : (n : ℕ) → n ≤ max_int32 → as_int32 (pos n) ≡ pos n
unfolding as_int32 signed32
as_int32_exact n low = rw (mod_small n low) (ground (arith, low))

same_pos : (n m : ℕ) → ◌≡◌ {A = ℤ} (pos n) (pos m) → n ≡ m
same_pos n m e = cc e

zero_positive : (m : ℕ) → ◌≡◌ {A = ℤ} (pos zero) (pos m) → 1 ≤ m → ⊥
zero_positive m e p = omega (arith, same_pos zero m e, p)

too_big :
    (n m : ℕ) → ◌≡◌ {A = ℤ} (pos n) (pos m) → m ≤ 2_147_483_647 → ltb 2_147_483_647 n ≡ true → ⊥
too_big n m e q big = ground (arith, same_pos n m e, q, big)

-- validateJobTTL accepts exactly the values from 1 to the largest integer of 32 bits.
pub validate_job_ttl_iff :
    (v : ℤ) → (validate_job_ttl v ≡ ok tt) ↔ ((n : ℕ) × (v ≡ pos n) × (1 ≤ n) × (n ≤ max_int32))
unfolding validate_job_ttl
validate_job_ttl_iff (negsuc n) = (λ h. cc, λ (n, e, p, q). cc)
validate_job_ttl_iff (pos zero) = (λ h. cc, λ (m, e, p, q). absurd (zero_positive m e p))
validate_job_ttl_iff (pos (suc n)) = elim (Bool-cases (ltb 2_147_483_647 (suc n))) [
  | inl big ↦ (λ h. absurd (cc (rw big at h)), λ (m, e, p, q). absurd (too_big (suc n) m e q big))
  | inr small ↦ (λ h. (suc n, refl, omega arith, ground (arith, small)), λ p. rw small refl)
]

-- The default TTL of Tasks that the flag stands for: none for a negative value, the value itself up to
-- the largest integer of 32 bits, and an error above it.
pub task_ttl_lem :
    (v : ℤ)
    → check_task_ttl v ≡ ok tt
    → ((is_natural v ≡ false) × (task_ttl v ≡ none))
      ⊎ ((n : ℕ) × (v ≡ pos n) × (n ≤ max_int32) × (task_ttl v ≡ some (pos n)))
unfolding check_task_ttl task_ttl
task_ttl_lem (negsuc n) h = inl (refl, refl)
task_ttl_lem (pos n) h = elim (Bool-cases (ltb 2_147_483_647 n)) [
  | inl big ↦ absurd (cc (rw big at h))
  | inr small ↦
      let low : n ≤ 2_147_483_647 = ground (arith, small) in
      inr (n, refl, low, ap some (as_int32_exact n low))
]
