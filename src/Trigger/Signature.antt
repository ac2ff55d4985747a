-- ===== src/Trigger/Signature.antt =====
-- internal/trigger/signature.go: the HMAC of a webhook body. The MAC and strings.ToLower are
-- parameters. The Write of a hash never fails, so its error has no branch.
pub mod Verifies
pub mod Genuine
pub mod Roundtrip
use openconveyor.Prelude.{
  ℕ, ◌+◌, ◌-◌, ◌/◌, ◌%◌, Bool, Option, none, some, List, [], ◌∷◌, Text, codes, text_eq, is_empty,
  ltb, trim_space, trim_prefix, if◌then◌else◌, ◌||◌,
}

pub record Crypto : Type 0 where
  -- hmac.New(sha256.New, secret) with the body written, and its Sum
  pub mac : (secret body : Text) → Text
  -- strings.ToLower
  pub to_lower : Text → Text

abbrev pub algorithm_sha256 : Text
algorithm_sha256 = codes "sha256"

-- The sentinel errors; the last one is wrapped with the algorithm.
pub data VerifyError : Type 0 where
  missing_signature signature_mismatch empty_secret : VerifyError
  unsupported_algorithm : (algorithm : Text) → VerifyError

hex_digit : ℕ → ℕ
hex_digit n = if ltb n 10 then b'0' + n else b'a' + (n - 10)

-- hex.EncodeToString
unfoldable pub hex_encode : Text → Text
unfolding hex_digit
hex_encode [] = []
hex_encode (c ∷ s) = hex_digit (c / 16) ∷ hex_digit (c % 16) ∷ hex_encode s

module _ (crypto : Crypto) where
  unfoldable pub supported : Text → Bool
  supported algorithm =
      let name = crypto.to_lower (trim_space algorithm) in
      is_empty name || text_eq name algorithm_sha256

  -- The signature of the header, without its prefix.
  unfoldable pub given_signature : Text → Text → Text
  given_signature prefix header = trim_prefix (trim_space header) prefix

  -- `none` is nil.
  unfoldable pub verify_hmac : Text → Text → Text → Text → Text → Option VerifyError
  unfolding supported given_signature
  verify_hmac algorithm prefix header secret body =
      if is_empty header
      then some missing_signature
      else if is_empty secret
      then some empty_secret
      else if supported algorithm
      then (if text_eq (crypto.to_lower (given_signature prefix header))
            (hex_encode (crypto.mac secret body))
          then none
          else some signature_mismatch)
      else some (unsupported_algorithm algorithm)
