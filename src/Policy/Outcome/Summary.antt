-- ===== src/Policy/Outcome/Summary.antt =====
-- What sanitizeSummary keeps of an untrusted text.
use openconveyor.Prelude.{
  ℕ, zero, suc, ◌≤◌, false, ◌||◌, ◌≡◌, refl, List, [], ◌∷◌, Text, length, All, arith, Bool-cases,
  inl, inr, valid_runes, encode_runes, trim_space,
}
use openconveyor.Policy.Outcome.{
  Parsers, is_control, is_line_space, clean_runes, sanitize_summary, max_summary_chars,
}

module _ (parsers : Parsers) where
  abbrev pub IsPrintable : ℕ → Type 0
  IsPrintable r = (is_control r ≡ false) × (parsers.is_format r ≡ false)

  -- The space that stands for a tab or a line break is no format character.
  module _ (plain_space : parsers.is_format 32 ≡ false) where
    clean_runes-IsPrintable :
        (left : ℕ) (rs : List ℕ) → All IsPrintable (clean_runes parsers left rs)
    unfolding clean_runes
    clean_runes-IsPrintable zero rs = tt
    clean_runes-IsPrintable (suc left) [] = tt
    clean_runes-IsPrintable (suc left) (r ∷ rs) = elim (Bool-cases (is_line_space r)) [
      | inl space ↦ rw space ((refl, plain_space), clean_runes-IsPrintable left rs)
      | inr other ↦ elim (Bool-cases (is_control r || parsers.is_format r)) [
        | inl bad ↦ rw (other, bad) (clean_runes-IsPrintable (suc left) rs)
        | inr good ↦
            rw (other, good) ((ground arith, ground arith), clean_runes-IsPrintable left rs)
      ]
    ]

    length-clean_runes : (left : ℕ) (rs : List ℕ) → length (clean_runes parsers left rs) ≤ left
    unfolding clean_runes
    length-clean_runes zero rs = omega arith
    length-clean_runes (suc left) [] = omega arith
    length-clean_runes (suc left) (r ∷ rs) =
        ground (arith, length-clean_runes left rs, length-clean_runes (suc left) rs)

    -- A summary is the trimmed text of at most 512 characters, none of them a control or a format
    -- character, whatever the agent wrote.
    pub sanitize_summary_lem :
        (s : Text)
        → (rs : List ℕ) × (sanitize_summary parsers s ≡ trim_space (encode_runes rs))
          × (length rs ≤ max_summary_chars)
          × All IsPrintable rs
    unfolding sanitize_summary
    sanitize_summary_lem s = (
      clean_runes parsers max_summary_chars (valid_runes s),
      refl,
      length-clean_runes max_summary_chars (valid_runes s),
      clean_runes-IsPrintable max_summary_chars (valid_runes s),
    )
