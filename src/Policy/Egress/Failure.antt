-- ===== src/Policy/Egress/Failure.antt =====
-- When resolveEgress fails, with which error, and which errors fail the Task for good.
use openconveyor.Prelude.{
  true, ◌||◌, ◌≡◌, refl, Option, none, some, List, [], ◌∷◌, ◌⊎◌, inl, inr, Text, text_eq_refl,
  contains, is_empty, has_byte, trim_space, arith, Bool-cases,
}
use openconveyor.Errors.{Err, Result, ok, err, is_permanent, is_no_such_host, >>=-eq-err}
use openconveyor.Net.{Net, IpNet}
use openconveyor.Policy.Egress.{
  Resolver, add_block, add_answer, add_name, add_entry, add_entries, resolve_egress, lookup_failure,
}

module _ (net : Net) (resolver : Resolver) where
  -- The entry is a block that does not parse, or a name whose lookup fails; `e` is permanent for
  -- the first, and for a name that does not exist.
  abbrev pub FailsWith : Text → Err → Type 0
  FailsWith entry e =
      ((cause : Err) × (has_byte b'/' (trim_space entry) ≡ true)
        × (net.parse_cidr (trim_space entry) ≡ err cause)
        × (is_permanent e ≡ true))
      ⊎ ((cause : Err) × (net.parse_ip (trim_space entry) ≡ none)
          × (resolver (trim_space entry) ≡ err cause)
          × (is_permanent e ≡ (is_no_such_host cause || is_permanent cause)))

  permanent-lookup_failure :
      (entry : Text) (e : Err)
      → is_permanent (lookup_failure net resolver entry e) ≡ (is_no_such_host e || is_permanent e)
  unfolding lookup_failure is_permanent
  permanent-lookup_failure entry e = ground arith

  add_name-eq-err :
      (set : List Text) (entry : Text) (e : Err) (o : Option Text) (r : Result (List Text))
      → net.parse_ip entry ≡ o
      → resolver entry ≡ r
      → add_name net resolver set entry o ≡ err e
      → (cause : Err) × (net.parse_ip entry ≡ none)
        × (resolver entry ≡ err cause)
        × (is_permanent e ≡ (is_no_such_host cause || is_permanent cause))
  unfolding add_name add_answer
  add_name-eq-err set entry e (some ip) r p q h = cc
  add_name-eq-err set entry e none (ok addrs) p q h = absurd (cc (h, q))
  add_name-eq-err set entry e none (err cause) p q h =
      (cause, p, q, cc (h, q, permanent-lookup_failure entry cause))

  add_block-eq-err :
      (set : List Text) (entry : Text) (e : Err) (r : Result IpNet)
      → net.parse_cidr entry ≡ r
      → add_block net resolver set entry r ≡ err e
      → (cause : Err) × (net.parse_cidr entry ≡ err cause) × (is_permanent e ≡ true)
  unfolding add_block is_permanent
  add_block-eq-err set entry e (ok n) p h = cc
  add_block-eq-err set entry e (err cause) p h = (cause, p, ground arith)

  add_entry-FailsWith :
      (set : List Text) (entry : Text) (e : Err)
      → add_entry net resolver set (trim_space entry) ≡ err e
      → FailsWith entry e
  unfolding add_entry
  add_entry-FailsWith set entry e h = elim (Bool-cases (is_empty (trim_space entry))) [
    | inl empty ↦ absurd (ground arith)
    | inr full ↦ elim (Bool-cases (has_byte b'/' (trim_space entry))) [
      | inl slash ↦
          let (cause, parsed, perm) =
            add_block-eq-err set (trim_space entry) e (net.parse_cidr (trim_space entry)) refl
              (ground arith) in
          inl (cause, slash, parsed, perm)
      | inr plain ↦ inr (
          add_name-eq-err set (trim_space entry) e (net.parse_ip (trim_space entry))
            (resolver (trim_space entry)) refl refl (ground arith))
    ]
  ]

  add_entries-FailsWith :
      (es set : List Text) (e : Err)
      → add_entries net resolver set es ≡ err e
      → (entry : Text) × (contains entry es ≡ true) × FailsWith entry e
  unfolding add_entries
  add_entries-FailsWith [] set e h = cc
  add_entries-FailsWith (x ∷ es) set e h =
      elim (>>=-eq-err (add_entry net resolver set (trim_space x)) _ h) [
        | inl failed ↦ (x, rw (text_eq_refl x) refl, add_entry-FailsWith set x e failed)
        | inr (next, first, rest) ↦
            let (entry, listed, fails) = add_entries-FailsWith es next e rest in
            (entry, ground arith, fails)
      ]

  -- When the allowlist does not resolve, some entry of it is a block that does not parse, or a name
  -- whose lookup fails. The error is permanent for such a block, and for a lookup exactly if the
  -- resolver says that the host does not exist or returns a permanent error.
  pub resolve_egress-FailsWith :
      (entries : List Text) (e : Err)
      → resolve_egress net resolver entries ≡ err e
      → (entry : Text) × (contains entry entries ≡ true) × FailsWith entry e
  unfolding resolve_egress
  resolve_egress-FailsWith entries e h =
      elim (>>=-eq-err (add_entries net resolver [] entries) _ h) [
        | inl failed ↦ add_entries-FailsWith entries [] e failed
        | inr (set, filled, sorted) ↦ cc
      ]
