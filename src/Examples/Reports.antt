-- ===== src/Examples/Reports.antt =====
-- The theorems on reported Results, on a small message.
use openconveyor.Prelude.{
  ℕ, ◌≤◌, false, ◌≡◌, refl, some, List, codes, text_eq, length, All, from_byte, take, trim_space,
  encode_runes, arith,
}
use openconveyor.Policy.Outcome.{
  parse_result, sanitize_summary, max_result_bytes, max_termination_message_bytes,
  max_summary_chars,
}
use openconveyor.Policy.Outcome.Links.{IsSafe, parse_result-IsSafe}
use openconveyor.Policy.Outcome.Summary.{IsPrintable, sanitize_summary_lem}
use openconveyor.Policy.Outcome.Verdict.{IsConsistent, parse_result-IsConsistent}
use openconveyor.Examples.Instances.{small_net, small_parsers, entries, message, wire}

parse_result-IsSafe_example :
    IsSafe small_parsers small_net entries message
      (parse_result small_parsers small_net message entries)
parse_result-IsSafe_example = parse_result-IsSafe small_parsers small_net entries message

parse_result-IsConsistent_example :
    IsConsistent (parse_result small_parsers small_net message entries)
parse_result-IsConsistent_example =
    parse_result-IsConsistent small_parsers small_net entries message

body_found : from_byte b'{' (take max_termination_message_bytes message) ≡ some (codes "{}")
unfolding from_byte take
body_found = refl

body_small : length (codes "{}") ≤ max_result_bytes
body_small = omega arith

body_decoded : small_parsers.decode_strict (codes "{}") ≡ some wire
unfolding text_eq
body_decoded = refl

space_plain : small_parsers.is_format 32 ≡ false
space_plain = refl

sanitize_summary_lem_example :
    (rs : List ℕ) × (sanitize_summary small_parsers (codes "a\tb") ≡ trim_space (encode_runes rs))
    × (length rs ≤ max_summary_chars)
    × All (IsPrintable small_parsers) rs
sanitize_summary_lem_example = sanitize_summary_lem small_parsers space_plain (codes "a\tb")
