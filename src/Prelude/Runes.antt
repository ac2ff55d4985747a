-- ===== src/Prelude/Runes.antt =====
-- The runes of a Go string, and their UTF-8 bytes.
use Prim.Native.Nat.{ℕ, zero, suc, ◌+◌, ◌-◌, ◌*◌, ◌/◌, ◌%◌}
use mathlib.Core.Bool.{◌&&◌}
use mathlib.Core.List.{List, [], ◌∷◌, ◌++◌}
use package.openconveyor.Prelude.Tests.{ltb, leb, if◌then◌else◌}
use package.openconveyor.Prelude.Texts.{Text}

-- The decoder between two bytes: how many continuation bytes are due, the range of the next one,
-- and the value so far.
record Pending : Type 0 where
  due : ℕ
  low : ℕ
  high : ℕ
  value : ℕ

abbrev none_pending : Pending
none_pending = record { due = 0; low = 0; high = 0; value = 0 }

abbrev begin : ℕ → ℕ → ℕ → ℕ → Pending
begin due low high value = record { due = due; low = low; high = high; value = value }

-- A lead byte, with the ranges of RFC 3629; any other byte is dropped.
lead : ℕ → List ℕ × Pending
lead b =
    if ltb b 0x80
    then (b ∷ [], none_pending)
    else if ltb b 0xc2
    then ([], none_pending)
    else if ltb b 0xe0
    then ([], begin 1 0x80 0xbf (b - 0xc0))
    else if ltb b 0xe1
    then ([], begin 2 0xa0 0xbf 0)
    else if ltb b 0xed
    then ([], begin 2 0x80 0xbf (b - 0xe0))
    else if ltb b 0xee
    then ([], begin 2 0x80 0x9f 0xd)
    else if ltb b 0xf0
    then ([], begin 2 0x80 0xbf (b - 0xe0))
    else if ltb b 0xf1
    then ([], begin 3 0x90 0xbf 0)
    else if ltb b 0xf4
    then ([], begin 3 0x80 0xbf (b - 0xf0))
    else if ltb b 0xf5
    then ([], begin 3 0x80 0x8f 4)
    else ([], none_pending)

abbrev continue_rune : ℕ → ℕ → List ℕ × Pending
continue_rune zero value = (value ∷ [], none_pending)
continue_rune (suc due) value = ([], begin (suc due) 0x80 0xbf value)

-- One byte: it continues the rune that is due, or begins a new one and drops what was begun.
decode_byte : ℕ → Pending → ℕ → List ℕ × Pending
unfolding lead
decode_byte zero p b = lead b
decode_byte (suc due) p b =
    if leb p.low b && leb b p.high then continue_rune due (p.value * 64 + (b - 0x80)) else lead b

decode_from : Pending → Text → List ℕ
unfolding decode_byte
decode_from p [] = []
decode_from p (b ∷ s) = let (out, q) = decode_byte p.due p b in out ++ decode_from q s

-- The runes of strings.ToValidUTF8(s, "")
unfoldable pub valid_runes : Text → List ℕ
unfolding decode_from
valid_runes s = decode_from none_pending s

-- strings.Builder.WriteRune of a valid rune
unfoldable pub encode_rune : ℕ → Text
encode_rune r =
    if ltb r 0x80
    then r ∷ []
    else if ltb r 0x800
    then (0xc0 + r / 0x40) ∷ (0x80 + r % 0x40) ∷ []
    else if ltb r 0x10000
    then (0xe0 + r / 0x1000) ∷ (0x80 + r / 0x40 % 0x40) ∷ (0x80 + r % 0x40) ∷ []
    else (0xf0 + r / 0x40000)
      ∷ (0x80 + r / 0x1000 % 0x40)
      ∷ (0x80 + r / 0x40 % 0x40)
      ∷ (0x80 + r % 0x40)
      ∷ []

unfoldable pub encode_runes : List ℕ → Text
unfolding encode_rune
encode_runes [] = []
encode_runes (r ∷ rs) = encode_rune r ++ encode_runes rs
