-- ===== src/Policy/Labels/Merging.antt =====
-- MergeStringSets against an independent description: the non-empty strings of all lists, each at
-- its first occurrence.
use openconveyor.Prelude.{
  ℕ, true, false, not, ◌&&◌, ◌≡◌, refl, ◌∙◌, sym, ap, List, [], ◌∷◌, ◌++◌, Text, text_eq,
  text_eq_iff, text_eq_refl, contains, any, any-append, is_empty, Distinct, if◌then◌else◌, arith,
  inl, inr, Bool-cases,
}
use mathlib.Core.List.{append_assoc, append-nil}
use openconveyor.Policy.Labels.{Merged, merge_value, merge_list, merge_lists, merge_string_sets}

-- The strings of `ys` that are not in `seen`.
minus : List Text → List Text → List Text
minus seen [] = []
minus seen (y ∷ ys) = if contains y seen then minus seen ys else y ∷ minus seen ys

-- Each non-empty string at its first occurrence.
pub first_occurrences : List Text → List Text
first_occurrences [] = []
first_occurrences (x ∷ xs) =
    let rest = first_occurrences xs in if is_empty x then rest else x ∷ minus (x ∷ []) rest

abbrev pub concat : List (List Text) → List Text
concat [] = []
concat (l ∷ ls) = l ++ concat ls

minus-nil : (ys : List Text) → minus [] ys ≡ ys
unfolding minus
minus-nil [] = refl
minus-nil (y ∷ ys) = ground (arith, minus-nil ys)

minus-cons : (x : Text) (seen ys : List Text) → minus seen (minus (x ∷ []) ys) ≡ minus (x ∷ seen) ys
unfolding minus
minus-cons x seen [] = refl
minus-cons x seen (y ∷ ys) = ground (arith, minus-cons x seen ys)

minus_seen :
    (x : Text) (seen ys : List Text)
    → contains x seen ≡ true
    → minus seen (minus (x ∷ []) ys) ≡ minus seen ys
unfolding minus
minus_seen x seen [] h = refl
minus_seen x seen (y ∷ ys) h = ground (arith, minus_seen x seen ys h, text_eq_iff y x)

merge_list-append :
    (m : Merged) (xs ys : List Text) → merge_list m (xs ++ ys) ≡ merge_list (merge_list m xs) ys
unfolding merge_list
merge_list-append m [] ys = refl
merge_list-append m (x ∷ xs) ys = merge_list-append (merge_value m x) xs ys

merge_lists-eq-merge_list :
    (m : Merged) (ls : List (List Text)) → merge_lists m ls ≡ merge_list m (concat ls)
unfolding merge_lists merge_list
merge_lists-eq-merge_list m [] = refl
merge_lists-eq-merge_list m (l ∷ ls) =
    merge_lists-eq-merge_list (merge_list m l) ls ∙ sym (merge_list-append m l (concat ls))

merge_value_old : (m : Merged) (v : Text) → contains v m.seen ≡ true → merge_value m v ≡ m
unfolding merge_value
merge_value_old m v h = ground arith

merge_value_new :
    (m : Merged) (c : ℕ) (v : Text)
    → contains (c ∷ v) m.seen ≡ false
    → merge_value m (c ∷ v) ≡ record { seen = (c ∷ v) ∷ m.seen; out = m.out ++ (c ∷ v) ∷ [] }
unfolding merge_value
merge_value_new m c v h = rw h

-- What the loop adds to its output: the first occurrences that it has not seen.
out-merge_list :
    (m : Merged) (xs : List Text)
    → (merge_list m xs).out ≡ m.out ++ minus m.seen (first_occurrences xs)
unfolding merge_list merge_value first_occurrences minus
out-merge_list m [] = rw append-nil
out-merge_list m ([] ∷ xs) = out-merge_list m xs
out-merge_list m ((c ∷ v) ∷ xs) = elim (Bool-cases (contains (c ∷ v) m.seen)) [
  | inl old ↦
      ap (λ k. (merge_list k xs).out) (merge_value_old m (c ∷ v) old)
      ∙ out-merge_list m xs
      ∙ ap (λ l. m.out ++ l) (sym (rw old (minus_seen (c ∷ v) m.seen (first_occurrences xs) old)))
  | inr new ↦
      ap (λ k. (merge_list k xs).out) (merge_value_new m c v new)
      ∙ out-merge_list (record { seen = (c ∷ v) ∷ m.seen; out = m.out ++ (c ∷ v) ∷ [] }) xs
      ∙ append_assoc m.out ((c ∷ v) ∷ []) (minus ((c ∷ v) ∷ m.seen) (first_occurrences xs))
      ∙ ap (λ l. m.out ++ l)
          (sym (rw new (ap (λ l. (c ∷ v) ∷ l) (minus-cons (c ∷ v) m.seen (first_occurrences xs)))))
]

-- MergeStringSets returns the non-empty strings of its lists in order, each at its first
-- occurrence.
pub merge-eq-first_occurrences :
    (lists : List (List Text)) → merge_string_sets lists ≡ first_occurrences (concat lists)
unfolding merge_string_sets
merge-eq-first_occurrences lists =
    ap (λ (m : Merged). m.out) (merge_lists-eq-merge_list _ lists)
    ∙ out-merge_list _ (concat lists)
    ∙ minus-nil (first_occurrences (concat lists))

contains-minus :
    (x : Text) (seen ys : List Text)
    → contains x (minus seen ys) ≡ (contains x ys && not (contains x seen))
unfolding minus
contains-minus x seen [] = refl
contains-minus x seen (y ∷ ys) = ground (arith, contains-minus x seen ys, text_eq_iff x y)

contains-first_occurrences :
    (x : Text) (xs : List Text)
    → contains x (first_occurrences xs) ≡ (not (is_empty x) && contains x xs)
unfolding first_occurrences
contains-first_occurrences x [] = ground arith
contains-first_occurrences x (y ∷ xs) = ground (
  arith,
  contains-first_occurrences x xs,
  text_eq_iff x y,
  contains-minus x (y ∷ []) (first_occurrences xs),
)

contains-concat : (x : Text) (ls : List (List Text)) → contains x (concat ls) ≡ any (contains x) ls
contains-concat x [] = refl
contains-concat x (l ∷ ls) =
    ground (arith, any-append (text_eq x) l (concat ls), contains-concat x ls)

minus-Distinct : (seen ys : List Text) → Distinct ys → Distinct (minus seen ys)
unfolding minus
minus-Distinct seen [] h = tt
minus-Distinct seen (y ∷ ys) (n, d) = elim (Bool-cases (contains y seen)) [
  | inl e ↦ rw e (minus-Distinct seen ys d)
  | inr e ↦ rw e (ground (arith, contains-minus y seen ys), minus-Distinct seen ys d)
]

first_occurrences-Distinct : (xs : List Text) → Distinct (first_occurrences xs)
unfolding first_occurrences
first_occurrences-Distinct [] = tt
first_occurrences-Distinct ([] ∷ xs) = first_occurrences-Distinct xs
first_occurrences-Distinct ((c ∷ x) ∷ xs) = (
  ground
      (arith, contains-minus (c ∷ x) ((c ∷ x) ∷ []) (first_occurrences xs), text_eq_refl (c ∷ x)),
  minus-Distinct ((c ∷ x) ∷ []) (first_occurrences xs) (first_occurrences-Distinct xs),
)

-- The union has exactly the non-empty strings of its lists.
pub contains-merge :
    (x : Text) (lists : List (List Text))
    → contains x (merge_string_sets lists) ≡ (not (is_empty x) && any (contains x) lists)
contains-merge x lists = rw merge-eq-first_occurrences (
    contains-first_occurrences x (concat lists)
    ∙ ap (λ b. not (is_empty x) && b) (contains-concat x lists))

-- No string stands twice in the union.
pub merge-Distinct : (lists : List (List Text)) → Distinct (merge_string_sets lists)
merge-Distinct lists = rw merge-eq-first_occurrences (first_occurrences-Distinct (concat lists))
