-- ===== src/Prelude/Texts/Plain.antt =====
-- Text of printable ASCII characters, which trimming leaves as it is.
use Prim.Native.Nat.{ℕ, ◌≤◌}
use mathlib.Core.Path.{◌≡◌, refl}
use mathlib.Core.List.{[], ◌∷◌, reverse, reverse_aux, reverse-reverse}
use native.Mathlib.Omega.{arith}
use package.openconveyor.Prelude.Lists.{All}
use package.openconveyor.Prelude.Texts.{
  Text, first_width, last_width, drop_space, head_byte, tail_bytes, trim_space,
}

-- A printable ASCII character other than the space.
abbrev pub IsPlain : ℕ → Type 0
IsPlain c = (33 ≤ c) × (c ≤ 126)

first_width-plain : (a b c : ℕ) → IsPlain a → first_width a b c ≡ 0
first_width-plain a b c p = ground (arith, p.0, p.1)

last_width-plain : (a b c : ℕ) → IsPlain a → last_width a b c ≡ 0
last_width-plain a b c p = ground (arith, p.0, p.1)

All-reverse_aux : (s t : Text) → All IsPlain s → All IsPlain t → All IsPlain (reverse_aux s t)
All-reverse_aux [] t h k = k
All-reverse_aux (c ∷ s) t (p, h) k = All-reverse_aux s (c ∷ t) h (p, k)

All-reverse : (s : Text) → All IsPlain s → All IsPlain (reverse s)
All-reverse s h = All-reverse_aux s [] h tt

drop_space_first : (s : Text) → All IsPlain s → drop_space first_width 0 s ≡ s
unfolding drop_space
drop_space_first [] h = refl
drop_space_first (c ∷ s) (p, h) =
    rw (first_width-plain c (head_byte s) (head_byte (tail_bytes s)) p) refl

drop_space_last : (s : Text) → All IsPlain s → drop_space last_width 0 s ≡ s
unfolding drop_space
drop_space_last [] h = refl
drop_space_last (c ∷ s) (p, h) =
    rw (last_width-plain c (head_byte s) (head_byte (tail_bytes s)) p) refl

pub trim_space-plain : (s : Text) → All IsPlain s → trim_space s ≡ s
unfolding trim_space
trim_space-plain s h =
    rw (drop_space_first s h, drop_space_last (reverse s) (All-reverse s h)) (reverse-reverse s)
