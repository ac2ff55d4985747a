-- ===== src/Trigger/Signature/Roundtrip.antt =====
-- A sender that signs as the class says is let through, and no signature of another body is.
use openconveyor.Prelude.{
  ℕ, ◌/◌, ◌%◌, ◌≤◌, ◌<◌, true, false, ◌≡◌, ◌↔◌, refl, sym, ◌⊎◌, inl, inr, Bool-cases, ap, ◌∙◌, none,
  [], ◌∷◌, ◌++◌, Text, is_empty, ltb, All, All-append, All-map, IsPlain, trim_space-plain,
  trim_prefix, trim_prefix-append, arith,
}
use openconveyor.Trigger.Signature.{
  Crypto, supported, given_signature, hex_digit, hex_encode, verify_hmac,
}
use openconveyor.Trigger.Signature.Verifies.{verify_hmac_checks}

-- A printable ASCII character that is no capital letter.
abbrev IsSmall : ℕ → Type 0
IsSmall c = (33 ≤ c) × (c ≤ 126) × ((c < 65) ⊎ (90 < c))

hex_digit-injective : (m n : ℕ) → hex_digit m ≡ hex_digit n → m ≡ n
unfolding hex_digit
hex_digit-injective m n e = ground (arith, e)

halves : (c d : ℕ) → c / 16 ≡ d / 16 → c % 16 ≡ d % 16 → c ≡ d
halves c d q r = omega (arith, q, r)

pub hex_encode-injective : (s t : Text) → hex_encode s ≡ hex_encode t → s ≡ t
unfolding hex_encode
hex_encode-injective [] [] e = refl
hex_encode-injective [] (d ∷ t) e = cc
hex_encode-injective (c ∷ s) [] e = cc
hex_encode-injective (c ∷ s) (d ∷ t) e =
    let high = hex_digit-injective (c / 16) (d / 16) (cc e) in
    let low = hex_digit-injective (c % 16) (d % 16) (cc e) in
    let same = halves c d high low in let rest = hex_encode-injective s t (cc e) in cc (same, rest)

hex_digit-IsSmall : (n : ℕ) → n < 16 → IsSmall (hex_digit n)
unfolding hex_digit
hex_digit-IsSmall n h = elim (Bool-cases (ltb n 10)) [
  | inl digit ↦ rw digit (ground (arith, digit), ground (arith, digit), inl (ground (arith, digit)))
  | inr letter ↦
      rw letter (ground (arith, letter), ground (arith, letter, h), inr (ground (arith, letter)))
]

hex_encode-IsSmall : (s : Text) → All (λ c. c < 256) s → All IsSmall (hex_encode s)
unfolding hex_encode
hex_encode-IsSmall [] h = tt
hex_encode-IsSmall (c ∷ s) (p, h) = (
  hex_digit-IsSmall (c / 16) (omega arith),
  (hex_digit-IsSmall (c % 16) (omega arith), hex_encode-IsSmall s h),
)

hex_encode-nonempty : (s : Text) → is_empty s ≡ false → is_empty (hex_encode s) ≡ false
unfolding hex_encode
hex_encode-nonempty [] h = h
hex_encode-nonempty (c ∷ s) h = refl

append-nonempty : (s t : Text) → is_empty t ≡ false → is_empty (s ++ t) ≡ false
append-nonempty [] t h = h
append-nonempty (c ∷ s) t h = refl

-- strings.ToLower leaves text without capital letters as it is, and a MAC is a list of bytes.
module _ (crypto : Crypto) (lower : (s : Text) → All IsSmall s → crypto.to_lower s ≡ s)
    (bytes : (secret body : Text) → All (λ c. c < 256) (crypto.mac secret body)) where
  given_signature-hex_encode :
      (prefix secret body : Text)
      → All IsPlain prefix
      → crypto.to_lower
          (given_signature crypto prefix (prefix ++ hex_encode (crypto.mac secret body)))
        ≡ hex_encode (crypto.mac secret body)
  unfolding given_signature
  given_signature-hex_encode prefix secret body plain =
      let hex = hex_encode (crypto.mac secret body) in
      let small = hex_encode-IsSmall (crypto.mac secret body) (bytes secret body) in
      let printable = All-map IsSmall IsPlain (λ c p. (p.0, p.1)) hex small in
      ap (λ l. crypto.to_lower (trim_prefix l prefix))
        (trim_space-plain (prefix ++ hex) (All-append IsPlain prefix hex plain printable))
      ∙ ap crypto.to_lower (trim_prefix-append prefix hex)
      ∙ lower hex small

  -- A header that a sender makes of the prefix and the hexadecimal MAC of a body is accepted for the
  -- same body, and for another body exactly if the two MACs are equal. This holds for every prefix of
  -- printable characters, if the algorithm is one that the adapter knows, the secret is not empty and
  -- the MAC is not empty.
  pub verify_hmac-hex_encode :
      (algorithm prefix secret body signed_body : Text)
      → supported crypto algorithm ≡ true
      → is_empty secret ≡ false
      → is_empty (crypto.mac secret signed_body) ≡ false
      → All IsPlain prefix
      → (verify_hmac crypto algorithm prefix
            (prefix ++ hex_encode (crypto.mac secret signed_body))
            secret
            body
          ≡ none)
        ↔ (crypto.mac secret signed_body ≡ crypto.mac secret body)
  verify_hmac-hex_encode algorithm prefix secret body signed_body known keyed made plain =
      let hex = hex_encode (crypto.mac secret signed_body) in
      let same = given_signature-hex_encode prefix secret signed_body plain in
      let check = (verify_hmac_checks crypto algorithm prefix (prefix ++ hex) secret body).0 in
      (
        λ h.
            hex_encode-injective (crypto.mac secret signed_body) (crypto.mac secret body)
              (sym same ∙ (check.0 h).signed),
        λ e. check.1 (record {
          present =
              append-nonempty prefix hex (hex_encode-nonempty (crypto.mac secret signed_body) made);
          keyed = keyed;
          known = known;
          signed = same ∙ ap hex_encode e;
        }),
      )
