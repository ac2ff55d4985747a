-- ===== src/Policy/Egress/Entries.antt =====
-- Which blocks an allowlist entry stands for, and which of them resolveEgress returns.
use openconveyor.Prelude.{
  Bool, true, false, ◌≡◌, ◌↔◌, refl, sym, subst, ap, ◌∙◌, ◌⊎◌, inl, inr, Option, none, some, List,
  [], ◌∷◌, ◌++◌, Text, codes, text_eq, text_eq_iff, contains, any, any-append, is_empty, has_byte,
  trim_space, arith, Bool-cases, Option-cases,
}
use openconveyor.Errors.{ok, Result-cases}
use openconveyor.Net.{Net}
use openconveyor.Policy.Egress.{Resolver, ip_to_cidr, resolve_egress}
use openconveyor.Policy.Egress.Resolution.{
  address_is, name_has, entry_has, stands_for, contains-resolve_egress,
}

abbrev pub Among : Text → List Text → Type 0
Among x xs = (before : List Text) × (after : List Text) × (xs ≡ before ++ (x ∷ after))

pub any_iff :
    (P : Text → Bool) (xs : List Text)
    → (any P xs ≡ true) ↔ ((x : Text) × Among x xs × (P x ≡ true))
any_iff P xs = (
  finds xs,
  λ (x, (before, after, e), h). ap (any P) e ∙ ground (arith, any-append P before (x ∷ after)),
)
  where
    finds : (xs : List Text) → any P xs ≡ true → (x : Text) × Among x xs × (P x ≡ true)
    finds [] h = cc
    finds (x ∷ xs) h = elim (Bool-cases (P x)) [
      | inl here ↦ (x, ([], xs, refl), here)
      | inr there ↦
          let (y, (before, after, e), found) = finds xs (ground arith) in
          (y, (x ∷ before, after, ap (λ l. x ∷ l) e), found)
    ]

pub contains_iff : (x : Text) (xs : List Text) → (contains x xs ≡ true) ↔ Among x xs
contains_iff x xs =
    let (finds, back) = any_iff (text_eq x) xs in
    (
      λ h.
          let (y, (before, after, e), same) = finds h in
          (before, after, e ∙ ap (λ z. before ++ (z ∷ after)) (cc ((text_eq_iff x y).0 same))),
      λ a. back (x, a, (text_eq_iff x x).1 refl),
    )

module _ (net : Net) (resolver : Resolver) where
  -- The block of one address, with the length of its kind of address.
  abbrev pub IsHostBlock : Text → Text → Type 0
  IsHostBlock ip c =
      ((net.is_ipv4 ip ≡ true) × (c ≡ net.ip_string ip ++ codes "/32"))
      ⊎ ((net.is_ipv4 ip ≡ false) × (c ≡ net.ip_string ip ++ codes "/128"))

  -- A trimmed entry is a block, an address, or a name whose answer has the address of the block.
  pub data Means (entry c : Text) : Type 0 where
    as_block : has_byte b'/' entry ≡ true → c ≡ entry → Means entry c
    as_address :
        (ip : Text)
        → has_byte b'/' entry ≡ false
        → net.parse_ip entry ≡ some ip
        → IsHostBlock ip c
        → Means entry c
    as_name :
        (addrs : List Text) (address ip : Text)
        → has_byte b'/' entry ≡ false
        → net.parse_ip entry ≡ none
        → resolver entry ≡ ok addrs
        → Among address addrs
        → net.parse_ip address ≡ some ip
        → IsHostBlock ip c
        → Means entry c

  -- Entries of white space alone mean nothing.
  abbrev pub StandsFor : Text → Text → Type 0
  StandsFor entry c = (is_empty (trim_space entry) ≡ false) × Means (trim_space entry) c

  ip_to_cidr_iff : (ip c : Text) → (text_eq c (ip_to_cidr net ip) ≡ true) ↔ IsHostBlock ip c
  unfolding ip_to_cidr
  ip_to_cidr_iff ip c = elim (Bool-cases (net.is_ipv4 ip)) [
    | inl v4 ↦
        let (to, back) = text_eq_iff c (net.ip_string ip ++ codes "/32") in
        rw v4
          (λ h. inl (refl, to h), λ k. elim k [ inl (f, e) ↦ back e | inr (f, e) ↦ absurd (cc f) ])
    | inr v6 ↦
        let (to, back) = text_eq_iff c (net.ip_string ip ++ codes "/128") in
        rw v6
          (λ h. inr (refl, to h), λ k. elim k [ inl (f, e) ↦ absurd (cc f) | inr (f, e) ↦ back e ])
  ]

  address_is_iff :
      (c : Text) (o : Option Text)
      → (address_is net c o ≡ true) ↔ ((ip : Text) × (o ≡ some ip) × IsHostBlock ip c)
  address_is_iff c none = (λ h. cc, λ (ip, e, b). cc)
  address_is_iff c (some ip) = (
    λ h. (ip, refl, (ip_to_cidr_iff ip c).0 h),
    λ (j, e, b). (ip_to_cidr_iff ip c).1 (subst (λ x. IsHostBlock x c) (cc e) b),
  )

  entry_has-Means :
      (c entry : Text)
      → entry_has net resolver c entry ≡ true
      → (is_empty entry ≡ false) × Means entry c
  unfolding entry_has name_has
  entry_has-Means c entry h = elim (Bool-cases (is_empty entry)) [
    | inl blank ↦ absurd (cc (rw blank at h))
    | inr full ↦ elim (Bool-cases (has_byte b'/' entry)) [
      | inl slash ↦ (full, as_block slash ((text_eq_iff c entry).0 (rw (full, slash) at h)))
      | inr plain ↦ elim (Option-cases (net.parse_ip entry)) [
        | inr (ip, parsed) ↦ (
          full,
          as_address ip plain parsed ((ip_to_cidr_iff ip c).0 (rw (full, plain, parsed) at h)),
        )
        | inl unparsed ↦ elim (Result-cases (resolver entry)) [
          | inr (e, failed) ↦ absurd (cc (rw (full, plain, unparsed, failed) at h))
          | inl (addrs, answered) ↦
              let (a, among, is) =
                (any_iff (λ a. address_is net c (net.parse_ip a)) addrs).0
                  (rw (full, plain, unparsed, answered) at h) in
              let (ip, parsed, block) = (address_is_iff c (net.parse_ip a)).0 is in
              (full, as_name addrs a ip plain unparsed answered among parsed block)
        ]
      ]
    ]
  ]

  Means-entry_has :
      (c entry : Text)
      → is_empty entry ≡ false
      → Means entry c
      → entry_has net resolver c entry ≡ true
  unfolding entry_has name_has
  Means-entry_has c entry full (as_block slash e) = rw (full, slash) ((text_eq_iff c entry).1 e)
  Means-entry_has c entry full (as_address ip plain parsed block) =
      rw (full, plain, parsed) ((ip_to_cidr_iff ip c).1 block)
  Means-entry_has c entry full (as_name addrs a ip plain unparsed answered among parsed block) =
      rw (full, plain, unparsed, answered)
        ((any_iff (λ a. address_is net c (net.parse_ip a)) addrs).1
          (a, among, (address_is_iff c (net.parse_ip a)).1 (ip, parsed, block)))

  -- When the allowlist resolves, a block is in the result exactly if some entry stands for it: the
  -- entry, without white space around it, is the block; or it is the address of a block of length 32
  -- for IPv4 and 128 for IPv6; or it is a name whose answer has such an address.
  pub resolve_egress_iff :
      (entries cidrs : List Text)
      → resolve_egress net resolver entries ≡ ok cidrs
      → (c : Text) → Among c cidrs ↔ ((entry : Text) × Among entry entries × StandsFor entry c)
  unfolding stands_for
  resolve_egress_iff entries cidrs h c =
      let same = contains-resolve_egress net resolver c entries cidrs h in
      let (finds, back) = any_iff (stands_for net resolver c) entries in
      (
        λ a.
            let (entry, among, stands) = finds (sym same ∙ (contains_iff c cidrs).1 a) in
            (entry, among, entry_has-Means c (trim_space entry) stands),
        λ (entry, among, (full, means)).
            (contains_iff c cidrs).0
              (same ∙ back (entry, among, Means-entry_has c (trim_space entry) full means)),
      )
