-- ===== src/Trigger/Signature/Genuine.antt =====
-- Which requests pass the signature check.
use openconveyor.Prelude.{
  true, false, ◌≡◌, ◌↔◌, refl, sym, ap, ◌∙◌, ◌⊎◌, inl, inr, none, some, [], ◌∷◌, ◌++◌, Text, codes,
  text_eq_iff, is_empty, trim_space, trim_prefix, trim_prefix-append, has_prefix, has_prefix-append,
  drop_prefix, arith, Bool-cases,
}
use openconveyor.Trigger.Signature.{
  Crypto, VerifyError, missing_signature, signature_mismatch, empty_secret, unsupported_algorithm,
  supported, given_signature, hex_encode, verify_hmac,
}
use openconveyor.Trigger.Signature.Verifies.{Refuses, verify_hmac_checks}

-- `rest` is the text without the prefix, or the text itself if it does not start with it.
abbrev pub Strips : Text → Text → Text → Type 0
Strips s prefix rest = (s ≡ prefix ++ rest) ⊎ ((rest ≡ s) × ((t : Text) → s ≡ prefix ++ t → ⊥))

has_prefix-split : (s p : Text) → has_prefix s p ≡ true → s ≡ p ++ drop_prefix s p
unfolding has_prefix drop_prefix
has_prefix-split s [] h = refl
has_prefix-split [] (b ∷ p) h = cc
has_prefix-split (a ∷ s) (b ∷ p) h = ground (arith, has_prefix-split s p (ground arith))

trim_prefix-Strips : (s p : Text) → Strips s p (trim_prefix s p)
unfolding trim_prefix
trim_prefix-Strips s p = elim (Bool-cases (has_prefix s p)) [
  | inl starts ↦ rw starts (inl (has_prefix-split s p starts))
  | inr other ↦
      rw other
        (inr (refl, λ t e. absurd (cc (other, ap (λ x. has_prefix x p) e, has_prefix-append p t))))
]

Strips-trim_prefix : (s p rest : Text) → Strips s p rest → trim_prefix s p ≡ rest
Strips-trim_prefix s p rest (inl e) = ap (λ x. trim_prefix x p) e ∙ trim_prefix-append p rest
Strips-trim_prefix s p rest (inr (e, never)) = elim (trim_prefix-Strips s p) [
  | inl starts ↦ absurd (never (trim_prefix s p) starts)
  | inr (same, other) ↦ same ∙ sym e
]

module _ (crypto : Crypto) (algorithm prefix header secret body : Text) where
  -- The algorithm is blank or sha256, in any case.
  abbrev pub IsKnown : Type 0
  IsKnown =
      (crypto.to_lower (trim_space algorithm) ≡ [])
      ⊎ (crypto.to_lower (trim_space algorithm) ≡ codes "sha256")

  -- The header carries the HMAC of the body, behind the prefix or alone.
  abbrev pub Carries : Text → Type 0
  Carries rest =
      Strips (trim_space header) prefix rest
      × (crypto.to_lower rest ≡ hex_encode (crypto.mac secret body))

  pub record IsSigned : Type 0 where
    pub present : is_empty header ≡ false
    pub keyed : is_empty secret ≡ false
    pub known : IsKnown
    pub rest : Text
    pub carried : Carries rest

  -- The fault that an error names: the caller's, or the operator's.
  abbrev pub Explains : VerifyError → Type 0
  Explains missing_signature = header ≡ []
  Explains empty_secret = secret ≡ []
  Explains (unsupported_algorithm a) = (a ≡ algorithm) × (IsKnown → ⊥)
  Explains signature_mismatch =
      (is_empty secret ≡ false) × IsKnown × ((rest : Text) → Carries rest → ⊥)

  empty_text : (s : Text) → is_empty s ≡ true → s ≡ []
  empty_text [] h = refl
  empty_text (c ∷ s) h = cc

  supported_iff : (supported crypto algorithm ≡ true) ↔ IsKnown
  unfolding supported
  supported_iff =
      let name = crypto.to_lower (trim_space algorithm) in
      (
        λ h. elim (Bool-cases (is_empty name)) [
          | inl blank ↦ inl (empty_text name blank)
          | inr named ↦ inr ((text_eq_iff name (codes "sha256")).0 (ground arith))
        ],
        λ k. elim k [
          | inl blank ↦ rw blank refl
          | inr named ↦ rw named (ground (arith, text_eq_iff (codes "sha256") (codes "sha256")))
        ],
      )

  given-Carries :
      crypto.to_lower (given_signature crypto prefix header) ≡ hex_encode (crypto.mac secret body)
      → Carries (given_signature crypto prefix header)
  unfolding given_signature
  given-Carries h = (trim_prefix-Strips (trim_space header) prefix, h)

  Carries-given :
      (rest : Text)
      → Carries rest
      → crypto.to_lower (given_signature crypto prefix header) ≡ hex_encode (crypto.mac secret body)
  unfolding given_signature
  Carries-given rest (stripped, h) =
      ap crypto.to_lower (Strips-trim_prefix (trim_space header) prefix rest stripped) ∙ h

  Refuses-Explains :
      (e : VerifyError) → Refuses crypto algorithm prefix header secret body e → Explains e
  Refuses-Explains missing_signature h = empty_text header h
  Refuses-Explains empty_secret h = empty_text secret h
  Refuses-Explains (unsupported_algorithm a) (e, h) = (e, λ k. absurd (cc (h, supported_iff.1 k)))
  Refuses-Explains signature_mismatch (keyed, known, differs) =
      (keyed, supported_iff.0 known, λ rest c. differs (Carries-given rest c))

  -- VerifyHMAC accepts a request exactly if it has a signature, the secret is not empty, the
  -- algorithm is blank or sha256, and the signature, without its prefix if it has it, is, in lower
  -- case, the hexadecimal HMAC of the body under the secret. An error names what fails of that.
  pub verify_hmac_iff :
      ((verify_hmac crypto algorithm prefix header secret body ≡ none) ↔ IsSigned)
      × ((e : VerifyError)
          → verify_hmac crypto algorithm prefix header secret body ≡ some e
          → Explains e)
  verify_hmac_iff =
      let ((accepts, back), refuses) =
        verify_hmac_checks crypto algorithm prefix header secret body in
      (
        (
          (λ h.
              let c = accepts h in
              record {
                present = c.present;
                keyed = c.keyed;
                known = supported_iff.0 c.known;
                rest = given_signature crypto prefix header;
                carried = given-Carries c.signed;
              }),
          (λ s. back (record {
            present = s.present;
            keyed = s.keyed;
            known = supported_iff.1 s.known;
            signed = Carries-given s.rest s.carried;
          })),
        ),
        (λ e h. Refuses-Explains e (refuses e h)),
      )
