-- ===== src/Policy/Outcome.antt =====
-- internal/policy/result.go: the Result that an agent reports in its termination message. The
-- decoder of strict JSON, url.Parse, strings.ToLower and the table of format characters are
-- parameters; the message is untrusted.
pub mod Hosts
pub mod Links
pub mod Summary
pub mod Verdict
use openconveyor.Prelude.{
  ℕ, zero, suc, ◌+◌, Bool, true, false, not, Option, none, some, List, [], ◌∷◌, ◌++◌, Text, codes,
  text_eq, contains, is_empty, length, is_some, leb, ltb, ◌==◌, ◌&&◌, ◌||◌, if◌then◌else◌, take,
  from_byte, trim_space, trim_suffix, valid_runes, encode_runes, decimal,
}
use openconveyor.Errors.{Result, ok, err}
use openconveyor.Net.{Net, IpNet}
use openconveyor.Api.{TaskResult, ResultLink}

abbrev pub max_result_bytes : ℕ
max_result_bytes = 2048

abbrev pub max_summary_chars : ℕ
max_summary_chars = 512

abbrev pub max_links : ℕ
max_links = 8

abbrev pub max_link_name_chars : ℕ
max_link_name_chars = 32

abbrev pub max_link_url_chars : ℕ
max_link_url_chars = 2048

abbrev pub max_termination_message_bytes : ℕ
max_termination_message_bytes = 4096

pub data ResultOutcome : Type 0 where
  recorded not_provided invalid : ResultOutcome

pub record ParsedResult : Type 0 where
  pub task_result : Option TaskResult
  pub outcome : ResultOutcome
  pub dropped_links : ℕ
  pub problem : Text

-- wireLink and wireResult, the strict file shape
pub record WireLink : Type 0 where
  pub name : Text
  pub url : Text

pub record WireResult : Type 0 where
  pub summary : Text
  pub links : List WireLink

-- *url.URL, as far as the program reads it; `full` is String().
pub record Url : Type 0 where
  pub scheme : Text
  pub opaque : Text
  pub has_user : Bool
  pub hostname : Text
  pub full : Text

pub record Parsers : Type 0 where
  -- decodeStrict into a wireResult; `none` is an error
  pub decode_strict : Text → Option WireResult
  -- url.Parse; `none` is an error
  pub parse_url : Text → Option Url
  -- strings.ToLower
  pub to_lower : Text → Text
  -- unicode.Is(unicode.Cf, r)
  pub is_format : ℕ → Bool

is_alnum : ℕ → Bool
is_alnum c = leb b'a' c && leb c b'z' || leb b'0' c && leb c b'9'

-- linkNamePattern: ^[a-z0-9]+(-[a-z0-9]+)*$, with whether a letter or digit must come next
kebab_from : Bool → Text → Bool
unfolding is_alnum
kebab_from due [] = not due
kebab_from due (c ∷ s) = (is_alnum c || (not due && c == b'-')) && kebab_from (not (is_alnum c)) s

unfoldable pub is_kebab : Text → Bool
unfolding kebab_from
is_kebab = kebab_from true

-- unicode.IsControl
abbrev pub is_control : ℕ → Bool
is_control r = ltb r 32 || leb 127 r && ltb r 160

abbrev is_line_space : ℕ → Bool
is_line_space r = r == 9 || r == 10 || r == 13

-- The variables of the loop of ParseResult.
pub record Kept : Type 0 where
  pub links : List ResultLink
  pub seen : List Text
  pub dropped : ℕ

keep_link : Kept → Option ResultLink → Kept
keep_link k none = record k { dropped = k.dropped + 1 }
keep_link k (some link) =
    if contains link.name k.seen || length k.links == max_links
    then record k { dropped = k.dropped + 1 }
    else record k { links = k.links ++ link ∷ []; seen = link.name ∷ k.seen }

dropped_problem : ℕ → ℕ → Text
dropped_problem dropped total =
    codes "Dropped "
    ++ decimal dropped
    ++ codes " of "
    ++ decimal total
    ++ codes " links that broke the contract"

-- The switch at the end of ParseResult.
conclude : TaskResult → ℕ → ℕ → ParsedResult
unfolding dropped_problem
conclude out dropped total =
    let empty = is_empty out.summary && is_empty out.links in
    if ltb 0 dropped
    then (record {
      task_result = if empty then none else some out;
      outcome = invalid;
      dropped_links = dropped;
      problem = dropped_problem dropped total;
    })
    else if empty
    then (record {
      task_result = none;
      outcome = not_provided;
      dropped_links = 0;
      problem = codes "Result is empty";
    })
    else (record { task_result = some out; outcome = recorded; dropped_links = 0; problem = [] })

rejected : ResultOutcome → Text → ParsedResult
rejected outcome problem = record {
  task_result = none;
  outcome = outcome;
  dropped_links = 0;
  problem = problem;
}

module _ (parsers : Parsers) where
  -- The loop of sanitizeSummary, with the runes that may still be written.
  pub clean_runes : ℕ → List ℕ → List ℕ
  clean_runes zero rs = []
  clean_runes (suc left) [] = []
  clean_runes (suc left) (r ∷ rs) =
      let as_space = 32 ∷ clean_runes left rs in
      let kept = r ∷ clean_runes left rs in
      let skipped = clean_runes (suc left) rs in
      if is_line_space r
      then as_space
      else if is_control r || parsers.is_format r
      then skipped
      else kept

  unfoldable pub sanitize_summary : Text → Text
  unfolding clean_runes
  sanitize_summary s = trim_space (encode_runes (clean_runes max_summary_chars (valid_runes s)))

  unfoldable pub host_name : Text → Text
  host_name s = trim_suffix (parsers.to_lower s) (codes ".")

  module _ (net : Net) where
    block_has : Text → Result IpNet → Bool
    block_has ip (ok cidr) = net.cidr_contains cidr ip
    block_has ip (err e) = false

    address_equals : Text → Option Text → Bool
    address_equals ip (some eip) = net.ip_equal eip ip
    address_equals ip none = false

    -- One round of the loop of hostAllowed, on the trimmed entry.
    entry_allows : Text → Option Text → Text → Bool
    unfolding block_has address_equals host_name
    entry_allows host (some ip) entry =
        block_has ip (net.parse_cidr entry) || address_equals ip (net.parse_ip entry)
    entry_allows host none entry = text_eq (host_name entry) host

    allowed_by : Text → Option Text → List Text → Bool
    unfolding entry_allows
    allowed_by host ip [] = false
    allowed_by host ip (e ∷ es) = entry_allows host ip (trim_space e) || allowed_by host ip es

    unfoldable pub host_allowed : Text → List Text → Bool
    unfolding allowed_by
    host_allowed h allowlist = allowed_by (host_name h) (net.parse_ip (host_name h)) allowlist

    url_acceptable : List Text → Url → Bool
    unfolding host_allowed
    url_acceptable allowlist u =
        text_eq u.scheme (codes "https")
        && is_empty u.opaque
        && not u.has_user
        && not (is_empty u.hostname)
        && host_allowed u.hostname allowlist
        && leb (length u.full) max_link_url_chars

    accept_url : Text → List Text → Option Url → Option ResultLink
    unfolding url_acceptable
    accept_url name allowlist none = none
    accept_url name allowlist (some u) =
        if url_acceptable allowlist u then some (record { name = name; url = u.full }) else none

    unfoldable pub validate_link : WireLink → List Text → Option ResultLink
    unfolding accept_url
    validate_link l allowlist =
        if ltb max_link_name_chars (length l.name) || not (is_kebab l.name)
        then none
        else if is_empty l.url || ltb max_link_url_chars (length l.url)
        then none
        else accept_url l.name allowlist (parsers.parse_url l.url)

    pub keep_links : Kept → List WireLink → List Text → Kept
    unfolding keep_link
    keep_links k [] allowlist = k
    keep_links k (l ∷ ls) allowlist =
        keep_links (keep_link k (validate_link l allowlist)) ls allowlist

    parse_wire : List Text → Option WireResult → ParsedResult
    unfolding rejected conclude keep_links
    parse_wire allowlist none =
        rejected invalid (codes "Result is not strict JSON of the contract shape")
    parse_wire allowlist (some wire) =
        let k = keep_links (record { links = []; seen = []; dropped = 0 }) wire.links allowlist in
        conclude (record { summary = sanitize_summary wire.summary; links = k.links }) k.dropped
          (length wire.links)

    parse_body : Text → List Text → Option Text → ParsedResult
    unfolding rejected parse_wire
    parse_body message allowlist none = rejected not_provided (
        if is_empty (trim_space message)
        then codes "Termination message is empty"
        else codes "Termination message holds no JSON object")
    parse_body message allowlist (some body) =
        if ltb max_result_bytes (length body)
        then rejected invalid (codes "Result is larger than 2048 bytes")
        else parse_wire allowlist (parsers.decode_strict body)

    unfoldable pub parse_result : Text → List Text → ParsedResult
    unfolding parse_body
    parse_result message allowlist =
        let read = take max_termination_message_bytes message in
        parse_body read allowlist (from_byte b'{' read)
