-- ===== src/Prelude/Sorting.antt =====
-- slices.Sort by insertion and slices.Compact, generic in a total order, and the order of strings.
use Prim.Native.Nat.{ℕ}
use mathlib.Core.Path.{◌≡◌, refl, ◌∙◌}
use mathlib.Core.Logic.{inl, inr}
use mathlib.Core.Bool.{Bool, true, false, ◌||◌}
use mathlib.Core.List.{List, [], ◌∷◌}
use native.Mathlib.Omega.{arith}
use package.openconveyor.Prelude.Tests.{◌==◌, ltb, leb, if◌then◌else◌, Bool-cases}
use package.openconveyor.Prelude.Lists.{any, All, All-map}
use package.openconveyor.Prelude.Texts.{Text, text_eq, text_eq_iff, contains, Distinct}

-- A total order given by a test.
pub record Order {ℓ} (A : Type ℓ) : Type ℓ where
  pub le : A → A → Bool
  pub total : (a b : A) → le a b ≡ false → le b a ≡ true
  pub trans : (a b c : A) → le a b ≡ true → le b c ≡ true → le a c ≡ true

module _ {ℓ} {A : Type ℓ} (o : Order A) where
  unfoldable pub insert : A → List A → List A
  insert x [] = x ∷ []
  insert x (y ∷ ys) = if o.le x y then x ∷ y ∷ ys else y ∷ insert x ys

  unfoldable pub sort : List A → List A
  unfolding insert
  sort [] = []
  sort (x ∷ xs) = insert x (sort xs)

  -- Every element stands before the larger ones.
  abbrev pub Sorted : List A → Type 0
  Sorted [] = Unit
  Sorted (x ∷ xs) = All (λ y. o.le x y ≡ true) xs × Sorted xs

  All-insert : (P : A → Type 0) (x : A) (ys : List A) → P x → All P ys → All P (insert x ys)
  unfolding insert
  All-insert P x [] p h = (p, tt)
  All-insert P x (y ∷ ys) p (q, h) = elim (Bool-cases (o.le x y)) [
    | inl e ↦ rw e (p, (q, h))
    | inr e ↦ rw e (q, All-insert P x ys p h)
  ]

  insert-Sorted : (x : A) (ys : List A) → Sorted ys → Sorted (insert x ys)
  unfolding insert
  insert-Sorted x [] h = (tt, tt)
  insert-Sorted x (y ∷ ys) (h, s) = elim (Bool-cases (o.le x y)) [
    | inl e ↦ rw e ((e, All-map _ _ (λ z. o.trans x y z e) ys h), (h, s))
    | inr e ↦ rw e (All-insert _ x ys (o.total x y e) h, insert-Sorted x ys s)
  ]

  pub sort-Sorted : (xs : List A) → Sorted (sort xs)
  unfolding sort
  sort-Sorted [] = tt
  sort-Sorted (x ∷ xs) = insert-Sorted x (sort xs) (sort-Sorted xs)

  pub any-insert : (p : A → Bool) (x : A) (ys : List A) → any p (insert x ys) ≡ (p x || any p ys)
  unfolding insert
  any-insert p x [] = refl
  any-insert p x (y ∷ ys) = ground (arith, any-insert p x ys)

  -- Sorting keeps the elements.
  pub any-sort : (p : A → Bool) (xs : List A) → any p (sort xs) ≡ any p xs
  unfolding sort
  any-sort p [] = refl
  any-sort p (x ∷ xs) = ground (arith, any-insert p x (sort xs), any-sort p xs)

-- slices.Compact: drops an element that equals its predecessor.
unfoldable pub compact {ℓ} : {A : Type ℓ} → (A → A → Bool) → List A → List A
compact eq [] = []
compact eq (x ∷ []) = x ∷ []
compact eq (x ∷ y ∷ ys) = let rest = compact eq (y ∷ ys) in if eq x y then rest else x ∷ rest

-- The order of Go strings, byte by byte.
unfoldable pub text_le : Text → Text → Bool
text_le [] t = true
text_le (a ∷ s) [] = false
text_le (a ∷ s) (b ∷ t) = if a == b then text_le s t else ltb a b

pub text_le_total : (s t : Text) → text_le s t ≡ false → text_le t s ≡ true
unfolding text_le
text_le_total [] t h = ground arith
text_le_total (a ∷ s) [] h = refl
text_le_total (a ∷ s) (b ∷ t) h = ground (arith, text_le_total s t)

pub text_le_trans : (s t u : Text) → text_le s t ≡ true → text_le t u ≡ true → text_le s u ≡ true
unfolding text_le
text_le_trans [] t u h k = refl
text_le_trans (a ∷ s) [] u h k = cc
text_le_trans (a ∷ s) (b ∷ t) [] h k = cc
text_le_trans (a ∷ s) (b ∷ t) (c ∷ u) h k = ground (arith, text_le_trans s t u)

abbrev pub text_order : Order Text
text_order = record { le = text_le; total = text_le_total; trans = text_le_trans }

pub leb_total : (a b : ℕ) → leb a b ≡ false → leb b a ≡ true
leb_total a b h = ground arith

pub leb_trans : (a b c : ℕ) → leb a b ≡ true → leb b c ≡ true → leb a c ≡ true
leb_trans a b c h k = ground arith

abbrev pub nat_order : Order ℕ
nat_order = record { le = leb; total = leb_total; trans = leb_trans }

insert-Distinct :
    (x : Text) (ys : List Text)
    → contains x ys ≡ false
    → Distinct ys
    → Distinct (insert text_order x ys)
unfolding insert
insert-Distinct x [] e h = (refl, tt)
insert-Distinct x (y ∷ ys) e (n, d) = elim (Bool-cases (text_le x y)) [
  | inl le ↦ rw le (e, (n, d))
  | inr gt ↦ rw gt (
    ground (arith, any-insert text_order (text_eq y) x ys, text_eq_iff x y, text_eq_iff y x),
    insert-Distinct x ys (ground arith) d,
  )
]

pub sort-Distinct : (xs : List Text) → Distinct xs → Distinct (sort text_order xs)
unfolding sort
sort-Distinct [] h = tt
sort-Distinct (x ∷ xs) (n, d) =
    insert-Distinct x (sort text_order xs) (any-sort text_order (text_eq x) xs ∙ n)
      (sort-Distinct xs d)
