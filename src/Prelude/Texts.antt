-- ===== src/Prelude/Texts.antt =====
-- A Go string is a sequence of bytes: `Text`. The functions are those of the standard library's
-- `strings` package that the program calls, on the bytes that they look at.
pub mod Plain
use Prim.Native.Nat.{ℕ, zero, suc, ◌+◌, ◌-◌, ◌/◌, ◌%◌}
use Prim.Native.Char.{code}
use Prim.Native.String.{String}
use mathlib.Core.Path.{◌≡◌, refl, ◌∙◌, ap}
use mathlib.Core.Logic.{◌↔◌}
use mathlib.Core.Bool.{Bool, true, false, ◌&&◌, ◌||◌}
use mathlib.Core.Option.{Option, none, some}
use mathlib.Core.List.{List, [], ◌∷◌, ◌++◌, reverse, reverse-append}
use native.Mathlib.Omega.{arith}
use package.openconveyor.Prelude.Tests.{◌==◌, leb, ltb, if◌then◌else◌}
use package.openconveyor.Prelude.Lists.{any}

abbrev pub Text : Type 0
Text = List ℕ

-- The bytes of an ASCII literal.
abbrev pub codes : String → Text
codes String.[] = []
codes (String.◌∷◌ c s) = code c ∷ codes s

-- a == b
unfoldable pub text_eq : Text → Text → Bool
text_eq [] [] = true
text_eq (a ∷ s) (b ∷ t) = a == b && text_eq s t
text_eq _ _ = false

pub text_eq_iff : (s t : Text) → (text_eq s t ≡ true) ↔ (s ≡ t)
unfolding text_eq
text_eq_iff [] [] = ground arith
text_eq_iff (a ∷ s) (b ∷ t) = ground (arith, text_eq_iff s t)
text_eq_iff [] (b ∷ t) = ground arith
text_eq_iff (a ∷ s) [] = ground arith

pub text_eq_refl : (s : Text) → text_eq s s ≡ true
text_eq_refl s = (text_eq_iff s s).1 refl

pub text_eq_symm : (s t : Text) → text_eq s t ≡ text_eq t s
text_eq_symm s t = ground (arith, text_eq_iff s t, text_eq_iff t s)

-- s in a list of strings
abbrev pub contains : Text → List Text → Bool
contains x = any (text_eq x)

-- No string stands twice.
abbrev pub Distinct : List Text → Type 0
Distinct [] = Unit
Distinct (x ∷ xs) = (contains x xs ≡ false) × Distinct xs

-- strings.HasPrefix(s, p)
unfoldable pub has_prefix : Text → Text → Bool
has_prefix s [] = true
has_prefix [] (b ∷ p) = false
has_prefix (a ∷ s) (b ∷ p) = a == b && has_prefix s p

-- The text behind a prefix of that length.
unfoldable pub drop_prefix : Text → Text → Text
drop_prefix s [] = s
drop_prefix [] (b ∷ p) = []
drop_prefix (a ∷ s) (b ∷ p) = drop_prefix s p

-- strings.TrimPrefix(s, p)
unfoldable pub trim_prefix : Text → Text → Text
unfolding has_prefix drop_prefix
trim_prefix s p = if has_prefix s p then drop_prefix s p else s

pub has_prefix-append : (p s : Text) → has_prefix (p ++ s) p ≡ true
unfolding has_prefix
has_prefix-append [] s = refl
has_prefix-append (a ∷ p) s = ground (arith, has_prefix-append p s)

pub drop_prefix-append : (p s : Text) → drop_prefix (p ++ s) p ≡ s
unfolding drop_prefix
drop_prefix-append [] s = refl
drop_prefix-append (a ∷ p) s = drop_prefix-append p s

pub trim_prefix-append : (p s : Text) → trim_prefix (p ++ s) p ≡ s
unfolding trim_prefix
trim_prefix-append p s = ground (arith, has_prefix-append p s, drop_prefix-append p s)

pub append_cancel_left : (p s t : Text) → p ++ s ≡ p ++ t → s ≡ t
append_cancel_left [] s t e = e
append_cancel_left (a ∷ p) s t e = append_cancel_left p s t (cc)

-- A byte of ASCII white space: \t \n \v \f \r and the space.
abbrev pub is_space : ℕ → Bool
is_space c = leb 9 c && leb c 13 || c == 32

-- The two and three bytes of the other white space that unicode.IsSpace knows.
abbrev is_space_two : ℕ → ℕ → Bool
is_space_two a b = a == 0xc2 && (b == 0x85 || b == 0xa0)

abbrev is_space_three : ℕ → ℕ → ℕ → Bool
is_space_three a b c =
    a == 0xe1 && b == 0x9a && c == 0x80
    || a == 0xe2 && b == 0x80 && (leb 0x80 c && leb c 0x8a || c == 0xa8 || c == 0xa9 || c == 0xaf)
    || a == 0xe2 && b == 0x81 && c == 0x9f
    || a == 0xe3 && b == 0x80 && c == 0x80

-- The first byte, or 0.
abbrev head_byte : Text → ℕ
head_byte [] = 0
head_byte (c ∷ s) = c

abbrev tail_bytes : Text → Text
tail_bytes [] = []
tail_bytes (c ∷ s) = s

-- How many bytes the white space takes that begins with these bytes, or that ends with them.
abbrev first_width : ℕ → ℕ → ℕ → ℕ
first_width a b c =
    if is_space a then 1 else if is_space_two a b then 2 else if is_space_three a b c then 3 else 0

abbrev last_width : ℕ → ℕ → ℕ → ℕ
last_width a b c =
    if is_space a then 1 else if is_space_two b a then 2 else if is_space_three c b a then 3 else 0

-- Drops white space from the front; the number says how many bytes of one are still to drop.
drop_space : (ℕ → ℕ → ℕ → ℕ) → ℕ → Text → Text
drop_space width skip [] = []
drop_space width (suc skip) (c ∷ s) = drop_space width skip s
drop_space width zero (c ∷ s) =
    let w = width c (head_byte s) (head_byte (tail_bytes s)) in
    let rest = drop_space width (w - 1) s in if w == 0 then c ∷ s else rest

-- strings.TrimSpace(s)
unfoldable pub trim_space : Text → Text
unfolding drop_space
trim_space s = reverse (drop_space last_width 0 (reverse (drop_space first_width 0 s)))

-- strings.TrimSuffix(s, p)
unfoldable pub trim_suffix : Text → Text → Text
unfolding trim_prefix
trim_suffix s p = reverse (trim_prefix (reverse s) (reverse p))

drop_byte : ℕ → Text → Text
drop_byte c [] = []
drop_byte c (d ∷ s) = let rest = drop_byte c s in if c == d then rest else d ∷ s

drop_byte_first : (c : ℕ) (s : Text) → drop_byte c (c ∷ s) ≡ drop_byte c s
unfolding drop_byte
drop_byte_first c s = ground arith

-- strings.TrimRight(s, cutset) for a cutset of one byte
unfoldable pub trim_right : ℕ → Text → Text
unfolding drop_byte
trim_right c s = reverse (drop_byte c (reverse s))

-- One more byte of the cutset at the end makes no difference.
pub trim_right-append : (c : ℕ) (s : Text) → trim_right c (s ++ c ∷ []) ≡ trim_right c s
unfolding trim_right
trim_right-append c s =
    ap (λ l. reverse (drop_byte c l)) (reverse-append s (c ∷ []))
    ∙ ap reverse (drop_byte_first c (reverse s))

-- s[:n], or s where it is shorter
unfoldable pub take : ℕ → Text → Text
take zero s = []
take (suc n) [] = []
take (suc n) (c ∷ s) = c ∷ take n s

-- The decimal digits of a number; the fuel n + 1 is enough for n.
decimal_fuel : ℕ → ℕ → Text
decimal_fuel zero n = []
decimal_fuel (suc f) n =
    let front = decimal_fuel f (n / 10) in
    if ltb n 10 then (b'0' + n) ∷ [] else front ++ (b'0' + n % 10) ∷ []

-- fmt's %d of a number
unfoldable pub decimal : ℕ → Text
unfolding decimal_fuel
decimal n = decimal_fuel (n + 1) n

-- strings.IndexByte(s, c) >= 0
unfoldable pub has_byte : ℕ → Text → Bool
has_byte c [] = false
has_byte c (d ∷ s) = c == d || has_byte c s

-- s[strings.IndexByte(s, c):], or nothing
unfoldable pub from_byte : ℕ → Text → Option Text
from_byte c [] = none
from_byte c (d ∷ s) = if c == d then some (d ∷ s) else from_byte c s
