-- ===== src/Policy/Outcome/Links.antt =====
-- What ParseResult lets through from an untrusted message.
use openconveyor.Prelude.{
  ℕ, ◌+◌, ◌≤◌, true, false, ◌||◌, ◌≡◌, refl, sym, ap, is_empty, Option, none, some, List, [], ◌∷◌,
  ◌++◌, Text, text_eq, text_eq_iff, codes, contains, any-append, length, length-append, ltb, All,
  All-append, Distinct, arith, Bool-cases, inl, inr, subst, from_byte, take, ◌==◌,
}
use openconveyor.Net.{Net}
use openconveyor.Api.{TaskResult, ResultLink}
use openconveyor.Policy.Outcome.{
  Parsers, WireLink, WireResult, Url, ParsedResult, ResultOutcome, not_provided, invalid,
  host_allowed, is_kebab, validate_link, accept_url, url_acceptable, Kept, keep_link, keep_links,
  conclude, rejected, parse_wire, parse_body, parse_result, max_links, max_result_bytes,
  max_termination_message_bytes, max_link_name_chars, max_link_url_chars, sanitize_summary,
}

-- No two links share a name.
abbrev pub link_names : List ResultLink → List Text
link_names [] = []
link_names (l ∷ ls) = l.name ∷ link_names ls

module _ (parsers : Parsers) (net : Net) (allowlist : List Text) where
  -- A link that the contract allows, from the links of a message: its URL is the normal form of the
  -- URL of one of those with its name, an https URL with no user info, whose host the allowlist
  -- accepts.
  pub record IsAccepted (wires : List WireLink) (link : ResultLink) : Type 0 where
    pub before : List WireLink
    pub wire : WireLink
    pub after : List WireLink
    pub sent : wires ≡ before ++ (wire ∷ after)
    pub same_name : link.name ≡ wire.name
    pub name_kebab : is_kebab link.name ≡ true
    pub name_short : length link.name ≤ max_link_name_chars
    pub url_short : length link.url ≤ max_link_url_chars
    pub parsed : Url
    pub read : parsers.parse_url wire.url ≡ some parsed
    pub same_url : link.url ≡ parsed.full
    pub https : parsed.scheme ≡ codes "https"
    pub no_user : parsed.has_user ≡ false
    pub no_opaque : is_empty parsed.opaque ≡ true
    pub has_host : is_empty parsed.hostname ≡ false
    pub host : host_allowed parsers net parsed.hostname allowlist ≡ true

  accept_url-IsAccepted :
      (before after : List WireLink) (l : WireLink) (o : Option Url) (link : ResultLink)
      → parsers.parse_url l.url ≡ o
      → is_kebab l.name ≡ true
      → length l.name ≤ max_link_name_chars
      → accept_url parsers net l.name allowlist o ≡ some link
      → IsAccepted (before ++ (l ∷ after)) link
  unfolding accept_url url_acceptable
  accept_url-IsAccepted before after l none link p k n h = cc
  accept_url-IsAccepted before after l (some u) link p k n h = record {
    before = before;
    wire = l;
    after = after;
    sent = refl;
    same_name = ground arith;
    read = p;
    no_opaque = ground arith;
    has_host = ground arith;
    name_kebab = ground arith;
    name_short = ground arith;
    url_short = ground arith;
    parsed = u;
    same_url = ground arith;
    https = ground (arith, text_eq_iff u.scheme (codes "https"));
    no_user = ground arith;
    host = ground arith;
  }

  validate_link-IsAccepted :
      (before after : List WireLink) (l : WireLink) (link : ResultLink)
      → validate_link parsers net l allowlist ≡ some link
      → IsAccepted (before ++ (l ∷ after)) link
  unfolding validate_link
  validate_link-IsAccepted before after l link h =
      accept_url-IsAccepted before after l (parsers.parse_url l.url) link refl (ground arith)
        (ground arith) (ground arith)

  -- The invariant of the loop.
  record IsKept (wires : List WireLink) (k : Kept) : Type 0 where
    accepted : All (IsAccepted wires) k.links
    few : length k.links ≤ max_links
    distinct : Distinct (link_names k.links)
    seen_all : (n : Text) → contains n k.seen ≡ contains n (link_names k.links)

  link_names-append :
      (ls : List ResultLink) (l : ResultLink)
      → link_names (ls ++ l ∷ []) ≡ link_names ls ++ l.name ∷ []
  link_names-append [] l = refl
  link_names-append (x ∷ ls) l = ground (arith, link_names-append ls l)

  append_one-Distinct :
      (n : Text) (ns : List Text) → contains n ns ≡ false → Distinct ns → Distinct (ns ++ n ∷ [])
  append_one-Distinct n [] h d = (refl, tt)
  append_one-Distinct n (m ∷ ns) h (e, d) = (
    ground (arith, any-append (text_eq m) ns (n ∷ []), text_eq_iff n m, text_eq_iff m n),
    append_one-Distinct n ns (ground arith) d,
  )

  keep_link-IsKept :
      (before after : List WireLink) (k : Kept) (l : WireLink) (o : Option ResultLink)
      → validate_link parsers net l allowlist ≡ o
      → IsKept (before ++ (l ∷ after)) k
      → IsKept (before ++ (l ∷ after)) (keep_link k o)
  unfolding keep_link
  keep_link-IsKept before after k l none v h = record {
    accepted = h.accepted;
    few = h.few;
    distinct = h.distinct;
    seen_all = h.seen_all;
  }
  keep_link-IsKept before after k l (some link) v h =
      elim (Bool-cases (contains link.name k.seen || length k.links == max_links)) [
        | inl drop ↦ rw drop (record {
          accepted = h.accepted;
          few = h.few;
          distinct = h.distinct;
          seen_all = h.seen_all;
        })
        | inr keep ↦ rw keep (record {
          accepted =
              All-append (IsAccepted (before ++ (l ∷ after))) k.links (link ∷ []) h.accepted
                (validate_link-IsAccepted before after l link v, tt);
          few = ground (arith, length-append k.links (link ∷ []), h.few);
          distinct = rw link_names-append (
              append_one-Distinct link.name (link_names k.links)
                (ground (arith, h.seen_all link.name)) h.distinct);
          seen_all = λ n. rw link_names-append (
              ground (
                arith,
                h.seen_all n,
                any-append (text_eq n) (link_names k.links) (link.name ∷ []),
              ));
        })
      ]

  snoc_append :
      (before : List WireLink) (l : WireLink) (ls : List WireLink)
      → before ++ (l ∷ ls) ≡ (before ++ (l ∷ [])) ++ ls
  snoc_append [] l ls = refl
  snoc_append (b ∷ before) l ls = ap (λ rest. b ∷ rest) (snoc_append before l ls)

  keep_links-IsKept :
      (before : List WireLink) (k : Kept) (ls : List WireLink)
      → IsKept (before ++ ls) k
      → IsKept (before ++ ls) (keep_links parsers net k ls allowlist)
  unfolding keep_links
  keep_links-IsKept before k [] h = h
  keep_links-IsKept before k (l ∷ ls) h =
      let next = keep_link k (validate_link parsers net l allowlist) in
      let kept = keep_link-IsKept before ls k l (validate_link parsers net l allowlist) refl h in
      subst (λ ws. IsKept ws (keep_links parsers net next ls allowlist))
        (sym (snoc_append before l ls))
        (keep_links-IsKept (before ++ (l ∷ [])) next ls
          (subst (λ ws. IsKept ws next) (snoc_append before l ls) kept))

  -- Each link of the message is kept or counted as dropped.
  pub keep_links-counts :
      (k : Kept) (ls : List WireLink)
      → length (keep_links parsers net k ls allowlist).links
          + (keep_links parsers net k ls allowlist).dropped
        ≡ length k.links + k.dropped + length ls
  unfolding keep_links keep_link
  keep_links-counts k [] = omega arith
  keep_links-counts k (l ∷ ls) = omega (
    arith,
    keep_links-counts (keep_link k (validate_link parsers net l allowlist)) ls,
    keep_link-counts k (validate_link parsers net l allowlist),
  )
    where
      keep_link-counts :
          (k : Kept) (o : Option ResultLink)
          → length (keep_link k o).links + (keep_link k o).dropped ≡ length k.links + k.dropped + 1
      keep_link-counts k none = omega arith
      keep_link-counts k (some link) = ground (arith, length-append k.links (link ∷ []))

  -- What holds of every parsed message: a Result comes from the first object of its bounded prefix.
  pub record IsSafe (message : Text) (p : ParsedResult) : Type 0 where
    pub links_accepted :
        (r : TaskResult)
        → p.task_result ≡ some r
        → (body : Text) × (wire : WireResult) × (from_byte b'{'
              (take max_termination_message_bytes message)
            ≡ some body)
          × (parsers.decode_strict body ≡ some wire)
          × All (IsAccepted wire.links) r.links
    pub links_few : (r : TaskResult) → p.task_result ≡ some r → length r.links ≤ max_links
    pub names_distinct : (r : TaskResult) → p.task_result ≡ some r → Distinct (link_names r.links)

  module _ (message : Text) where
    conclude-IsSafe :
        (body : Text) (wire : WireResult) (k : Kept) (summary : Text) (total : ℕ)
        → from_byte b'{' (take max_termination_message_bytes message) ≡ some body
        → parsers.decode_strict body ≡ some wire
        → IsKept wire.links k
        → IsSafe message (conclude (record { summary = summary; links = k.links }) k.dropped total)
    unfolding conclude
    conclude-IsSafe body wire k summary total found decoded h = record {
      links_accepted = λ r e. (
        body,
        wire,
        found,
        decoded,
        subst (All (IsAccepted wire.links)) (links_of r e) h.accepted,
      );
      links_few = λ r e. subst (λ ls. length ls ≤ max_links) (links_of r e) h.few;
      names_distinct = λ r e. subst (λ ls. Distinct (link_names ls)) (links_of r e) h.distinct;
    }
      where
        links_of :
            (r : TaskResult)
            → (conclude (record { summary = summary; links = k.links }) k.dropped total).task_result
              ≡ some r
            → k.links ≡ r.links
        links_of r e = ground arith

    rejected-IsSafe : (o : ResultOutcome) (problem : Text) → IsSafe message (rejected o problem)
    unfolding rejected
    rejected-IsSafe o problem = record {
      links_accepted = λ r e. cc;
      links_few = λ r e. cc;
      names_distinct = λ r e. cc;
    }

    parse_wire-IsSafe :
        (body : Text) (w : Option WireResult)
        → from_byte b'{' (take max_termination_message_bytes message) ≡ some body
        → parsers.decode_strict body ≡ w
        → IsSafe message (parse_wire parsers net allowlist w)
    unfolding parse_wire
    parse_wire-IsSafe body none found decoded = rejected-IsSafe invalid _
    parse_wire-IsSafe body (some wire) found decoded =
        let start : Kept = record { links = []; seen = []; dropped = 0 } in
        conclude-IsSafe body wire (keep_links parsers net start wire.links allowlist)
          (sanitize_summary parsers wire.summary) (length wire.links) found decoded
          (keep_links-IsKept [] start wire.links
            (record { accepted = tt; few = omega arith; distinct = tt; seen_all = λ n. refl }))

    parse_body-IsSafe :
        (body : Option Text)
        → from_byte b'{' (take max_termination_message_bytes message) ≡ body
        → IsSafe message
            (parse_body parsers net (take max_termination_message_bytes message) allowlist body)
    unfolding parse_body
    parse_body-IsSafe none found = rejected-IsSafe not_provided _
    parse_body-IsSafe (some body) found = elim (Bool-cases (ltb max_result_bytes (length body))) [
      | inl large ↦ rw large (rejected-IsSafe invalid _)
      | inr small ↦ rw small (parse_wire-IsSafe body (parsers.decode_strict body) found refl)
    ]

    -- Whatever the message, the recorded links are at most eight and have different names. Each is one
    -- of the links of the JSON object in the message, with its short kebab-case name, and with the
    -- normal form of its URL, which is an https URL with a host and no user info, and whose host the
    -- egress allowlist accepts.
    pub parse_result-IsSafe : IsSafe message (parse_result parsers net message allowlist)
    unfolding parse_result
    parse_result-IsSafe =
        parse_body-IsSafe (from_byte b'{' (take max_termination_message_bytes message)) refl
