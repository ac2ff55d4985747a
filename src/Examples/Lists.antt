-- ===== src/Examples/Lists.antt =====
-- A concrete API reader: a pool of Tasks, filtered by namespace and labels. And a JSON codec for
-- configs with one member.
use openconveyor.Prelude.{
  ℕ, zero, suc, Bool, true, false, not, ◌&&◌, ◌≡◌, refl, ap, some, List, [], ◌∷◌, ◌++◌, Text, codes,
  text_eq, text_eq_iff, is_empty, All, Map, lookup, lookup_text, arith, Bool-cases, inl, inr,
  if◌then◌else◌, length, take, subst,
}
use openconveyor.Errors.{Result, ok, err, new, ok-injective}
use openconveyor.Api.{Task}
use openconveyor.Trigger.Dedupe.{Lister}
use openconveyor.Trigger.Dedupe.Blocking.{IsSelective}
use openconveyor.Trigger.Mapping.{Codec}

-- The labels have every label of the selector.
carries : Map Text → Map Text → Bool
carries labels [] = true
carries labels ((k, v) ∷ sel) = text_eq (lookup_text k labels) v && carries labels sel

selected : Text → Map Text → Task → Bool
unfolding carries
selected namespace sel t =
    text_eq t.meta.namespace namespace && (not (is_empty t.meta.name) && carries t.meta.labels sel)

pick : Text → Map Text → List Task → List Task
pick namespace sel [] = []
pick namespace sel (t ∷ ts) =
    let rest = pick namespace sel ts in if selected namespace sel t then t ∷ rest else rest

unfoldable pub pool_lister : List Task → Lister
unfolding pick selected
pool_lister pool namespace sel = ok (pick namespace sel pool)

pick-All :
    (P : Task → Type 0) (namespace : Text) (sel : Map Text) (pool : List Task)
    → ((t : Task) → selected namespace sel t ≡ true → P t)
    → All P (pick namespace sel pool)
unfolding pick
pick-All P namespace sel [] f = tt
pick-All P namespace sel (t ∷ ts) f = elim (Bool-cases (selected namespace sel t)) [
  | inl chosen ↦ rw chosen (f t chosen, pick-All P namespace sel ts f)
  | inr passed_over ↦ rw passed_over (pick-All P namespace sel ts f)
]

carries-lookup :
    (labels sel : Map Text) (k v : Text)
    → carries labels sel ≡ true
    → lookup k sel ≡ some v
    → lookup_text k labels ≡ v
unfolding carries lookup
carries-lookup labels [] k v c h = cc
carries-lookup labels ((j, w) ∷ sel) k v c h =
    ground
      (arith, carries-lookup labels sel k v, text_eq_iff j k, text_eq_iff (lookup_text j labels) w)

pub pool_lister-IsSelective : (pool : List Task) → IsSelective (pool_lister pool)
unfolding pool_lister
pool_lister-IsSelective pool = record {
  same_namespace = λ namespace sel ts h.
      subst (All (λ (t : Task). t.meta.namespace ≡ namespace)) (ok-injective _ ts h) (
        pick-All _ namespace sel pool
          (λ t s. ground (arith, selected, text_eq_iff t.meta.namespace namespace)));
  named = λ namespace sel ts h.
      subst (All (λ (t : Task). is_empty t.meta.name ≡ false)) (ok-injective _ ts h)
        (pick-All _ namespace sel pool (λ t s. ground (arith, selected)));
  same_labels = λ namespace sel ts k v h found.
      subst (All (λ (t : Task). lookup_text k t.meta.labels ≡ v)) (ok-injective _ ts h) (
        pick-All _ namespace sel pool
          (λ t s. carries-lookup t.meta.labels sel k v (ground (arith, selected)) found));
}

drop : ℕ → Text → Text
drop zero s = s
drop (suc n) [] = []
drop (suc n) (c ∷ s) = drop n s

take-length : (k v : Text) → take (length k) (k ++ v) ≡ k
unfolding take
take-length [] v = refl
take-length (c ∷ k) v = ap (λ l. c ∷ l) (take-length k v)

drop-length : (k v : Text) → drop (length k) (k ++ v) ≡ v
unfolding drop
drop-length [] v = refl
drop-length (c ∷ k) v = drop-length k v

-- One member: the length of its key, the key and the value.
unfoldable pub read_member : Text → Result (Map Text)
unfolding drop
read_member [] = err (new (codes "EOF") [])
read_member (n ∷ s) = ok ((take n s, drop n s) ∷ [])

unfoldable pub write_member : Map Text → Result Text
write_member [] = err (new (codes "empty") [])
write_member ((k, v) ∷ []) = ok (length k ∷ k ++ v)
write_member ((k, v) ∷ x ∷ m) = err (new (codes "large") [])

pub read-write :
    (m : Map Text) (raw : Text)
    → write_member m ≡ ok raw
    → (is_empty raw ≡ false)
      × (n : Map Text) × (read_member raw ≡ ok n)
      × ((k : Text) → lookup k n ≡ lookup k m)
unfolding read_member write_member
read-write [] raw h = cc
read-write ((k, v) ∷ x ∷ m) raw h = cc
read-write ((k, v) ∷ []) raw h =
    subst
      (λ (r : Text).
        (is_empty r ≡ false)
        × (n : Map Text) × (read_member r ≡ ok n)
        × ((j : Text) → lookup j n ≡ lookup j ((k, v) ∷ [])))
      (ok-injective _ raw h) (refl, _, refl, λ j. rw (take-length k v, drop-length k v) refl)

unfoldable pub member_codec : Codec Text
unfolding read_member write_member
member_codec = record {
  of_text = λ s. s;
  decode = read_member;
  marshal = write_member;
  decode-marshal = read-write;
}
