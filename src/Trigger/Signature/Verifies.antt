-- ===== src/Trigger/Signature/Verifies.antt =====
-- The steps of the signature check.
use openconveyor.Prelude.{
  true, false, ◌≡◌, ◌↔◌, refl, none, some, Option, Text, text_eq_iff, is_empty, arith,
}
use openconveyor.Trigger.Signature.{
  Crypto, VerifyError, missing_signature, signature_mismatch, empty_secret, unsupported_algorithm,
  supported, given_signature, hex_encode, verify_hmac,
}

module _ (crypto : Crypto) (algorithm prefix header secret body : Text) where
  -- A request that the check lets through.
  pub record Checked : Type 0 where
    pub present : is_empty header ≡ false
    pub keyed : is_empty secret ≡ false
    pub known : supported crypto algorithm ≡ true
    pub signed :
        crypto.to_lower (given_signature crypto prefix header) ≡ hex_encode (crypto.mac secret body)

  -- The fault that an error names: the caller's, or the operator's.
  abbrev pub Refuses : VerifyError → Type 0
  Refuses missing_signature = is_empty header ≡ true
  Refuses empty_secret = is_empty secret ≡ true
  Refuses (unsupported_algorithm a) = (a ≡ algorithm) × (supported crypto algorithm ≡ false)
  Refuses signature_mismatch =
      (is_empty secret ≡ false)
      × (supported crypto algorithm ≡ true)
      × (crypto.to_lower (given_signature crypto prefix header)
            ≡ hex_encode (crypto.mac secret body)
          → ⊥)

  explained :
      (o : Option VerifyError)
      → verify_hmac crypto algorithm prefix header secret body ≡ o
      → (e : VerifyError) → o ≡ some e
      → Refuses e
  unfolding verify_hmac
  explained o h missing_signature e = ground arith
  explained o h empty_secret e = ground arith
  explained o h (unsupported_algorithm a) e = (ground arith, ground arith)
  explained o h signature_mismatch e = (
    ground arith,
    ground arith,
    λ same. ground (
      arith,
      text_eq_iff (crypto.to_lower (given_signature crypto prefix header))
          (hex_encode (crypto.mac secret body)),
    ),
  )

  -- The check, in the terms of its own steps.
  pub verify_hmac_checks :
      ((verify_hmac crypto algorithm prefix header secret body ≡ none) ↔ Checked)
      × ((e : VerifyError)
          → verify_hmac crypto algorithm prefix header secret body ≡ some e
          → Refuses e)
  unfolding verify_hmac
  verify_hmac_checks =
      let same =
        text_eq_iff (crypto.to_lower (given_signature crypto prefix header))
          (hex_encode (crypto.mac secret body)) in
      (
        (
          (λ h. record {
            present = ground arith;
            keyed = ground arith;
            known = ground arith;
            signed = ground (arith, same);
          }),
          (λ v. ground (arith, same, v.present, v.keyed, v.known, v.signed)),
        ),
        (λ e h. explained (some e) h e refl),
      )
