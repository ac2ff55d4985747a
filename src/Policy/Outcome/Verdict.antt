-- ===== src/Policy/Outcome/Verdict.antt =====
-- What the outcome of a parsed message says about its links and its Result.
use openconveyor.Prelude.{
  ℕ, ◌+◌, ◌≤◌, Bool, true, false, ◌&&◌, ◌≡◌, Option, none, some, List, [], Text, length, is_empty,
  is_some, ltb, arith, Bool-cases, Option-cases, inl, inr, from_byte, take,
}
use openconveyor.Net.{Net}
use openconveyor.Api.{TaskResult}
use openconveyor.Policy.Outcome.{
  Parsers, WireResult, ParsedResult, ResultOutcome, recorded, not_provided, invalid, keep_links,
  conclude, rejected, parse_wire, parse_body, parse_result, max_result_bytes,
  max_termination_message_bytes, sanitize_summary,
}
use openconveyor.Policy.Outcome.Links.{keep_links-counts}

abbrev pub link_count : Option TaskResult → ℕ
link_count none = 0
link_count (some r) = length r.links

abbrev says_nothing : TaskResult → Bool
says_nothing r = is_empty r.summary && is_empty r.links

-- Recorded means that a Result was kept and no link was dropped; a dropped link makes the message
-- invalid; and a kept Result says something.
pub record IsConsistent (p : ParsedResult) : Type 0 where
  pub recorded_complete :
      p.outcome ≡ recorded → (p.dropped_links ≡ 0) × (is_some p.task_result ≡ true)
  pub complete_recorded : p.dropped_links ≡ 0 → is_some p.task_result ≡ true → p.outcome ≡ recorded
  pub dropped_invalid : (1 ≤ p.dropped_links) → p.outcome ≡ invalid
  pub kept_says : (r : TaskResult) → p.task_result ≡ some r → says_nothing r ≡ false

conclude-IsConsistent : (out : TaskResult) (d n : ℕ) → IsConsistent (conclude out d n)
unfolding conclude
conclude-IsConsistent out d n = record {
  recorded_complete = λ e. ground arith;
  complete_recorded = λ e f. ground arith;
  dropped_invalid = λ e. ground arith;
  kept_says = λ r e. ground arith;
}

rejected-IsConsistent :
    (o : ResultOutcome) (t : Text) → (o ≡ recorded → ⊥) → IsConsistent (rejected o t)
unfolding rejected
rejected-IsConsistent o t h = record {
  recorded_complete = λ e. absurd (h e);
  complete_recorded = λ e f. cc;
  dropped_invalid = λ e. ground arith;
  kept_says = λ r e. cc;
}

module _ (parsers : Parsers) (net : Net) (allowlist : List Text) where
  parse_wire-IsConsistent :
      (w : Option WireResult) → IsConsistent (parse_wire parsers net allowlist w)
  unfolding parse_wire
  parse_wire-IsConsistent none = rejected-IsConsistent invalid _ (λ e. cc)
  parse_wire-IsConsistent (some wire) =
      let k =
        keep_links parsers net (record { links = []; seen = []; dropped = 0 }) wire.links
          allowlist in
      conclude-IsConsistent
        (record { summary = sanitize_summary parsers wire.summary; links = k.links }) k.dropped
        (length wire.links)

  -- The outcome of every message fits its Result and its dropped links.
  pub parse_result-IsConsistent :
      (message : Text) → IsConsistent (parse_result parsers net message allowlist)
  unfolding parse_result parse_body
  parse_result-IsConsistent message =
      elim (Option-cases (from_byte b'{' (take max_termination_message_bytes message))) [
        | inl no_object ↦ rw no_object (rejected-IsConsistent not_provided _ (λ e. cc))
        | inr (body, found) ↦ elim (Bool-cases (ltb max_result_bytes (length body))) [
          | inl large ↦ rw (found, parse_body, large) (rejected-IsConsistent invalid _ (λ e. cc))
          | inr small ↦
              rw (found, parse_body, small) (parse_wire-IsConsistent (parsers.decode_strict body))
        ]
      ]

  -- No link of a well-formed message is lost: each is recorded or counted as dropped.
  pub parse_result_counts :
      (message body : Text) (wire : WireResult)
      → from_byte b'{' (take max_termination_message_bytes message) ≡ some body
      → length body ≤ max_result_bytes
      → parsers.decode_strict body ≡ some wire
      → link_count (parse_result parsers net message allowlist).task_result
          + (parse_result parsers net message allowlist).dropped_links
        ≡ length wire.links
  unfolding parse_result parse_body parse_wire conclude
  parse_result_counts message body wire found small decoded = ground (
    arith,
    keep_links-counts parsers net allowlist (record { links = []; seen = []; dropped = 0 })
        wire.links,
  )
