-- ===== src/Policy/Egress/Hostnames.antt =====
-- HasHostnames decides whether the allowlist depends on the resolver at all.
use openconveyor.Prelude.{
  Bool, true, false, ◌||◌, ◌≡◌, refl, ◌∙◌, ap, Option, none, some, List, [], ◌∷◌, Text, is_empty,
  has_byte, trim_space, sort, text_order, arith, is_some, Bool-cases, inl, inr,
}
use openconveyor.Errors.{
  Err, Result, ok, err, ◌>>=◌, is_ok, bind_same, is_ok-bind_first, is_ok-bind_rest,
}
use openconveyor.Net.{Net, IpNet}
use openconveyor.Policy.Egress.{
  Resolver, static_resolver, add_block, add_answer, add_name, add_entry, add_entries,
  resolve_egress, has_hostnames,
}

-- The test of HasHostnames on one trimmed entry.
abbrev needs_no_lookup : Net → Text → Bool
needs_no_lookup net entry = is_empty entry || has_byte b'/' entry || is_some (net.parse_ip entry)

module _ (net : Net) (r r' : Resolver) where
  add_name_same :
      (set : List Text) (entry : Text) (o : Option Text)
      → is_some o ≡ true
      → add_name net r set entry o ≡ add_name net r' set entry o
  unfolding add_name
  add_name_same set entry none h = cc
  add_name_same set entry (some ip) h = refl

  add_block_same :
      (set : List Text) (entry : Text) (c : Result IpNet)
      → add_block net r set entry c ≡ add_block net r' set entry c
  unfolding add_block
  add_block_same set entry (err e) = refl
  add_block_same set entry (ok n) = refl

  add_entry_same :
      (set : List Text) (entry : Text)
      → needs_no_lookup net entry ≡ true
      → add_entry net r set entry ≡ add_entry net r' set entry
  unfolding add_entry
  add_entry_same set entry h = ground (
    arith,
    add_name_same set entry (net.parse_ip entry),
    add_block_same set entry (net.parse_cidr entry),
  )

  add_entries_same :
      (es set : List Text)
      → has_hostnames net es ≡ false
      → add_entries net r set es ≡ add_entries net r' set es
  unfolding add_entries has_hostnames
  add_entries_same [] set h = refl
  add_entries_same (e ∷ es) set h = elim (Bool-cases (needs_no_lookup net (trim_space e))) [
    | inl free ↦
        ap (λ m. m >>= λ next. add_entries net r next es) (add_entry_same set (trim_space e) free)
        ∙ bind_same (add_entry net r' set (trim_space e)) _ _
            (λ next. add_entries_same es next (ground arith))
    | inr asks ↦ absurd (ground arith)
  ]

  -- Without a hostname in the allowlist, every resolver gives the same result.
  resolve_egress_same :
      (entries : List Text)
      → has_hostnames net entries ≡ false
      → resolve_egress net r entries ≡ resolve_egress net r' entries
  unfolding resolve_egress
  resolve_egress_same entries h =
      ap (λ m. m >>= λ set. ok (sort text_order set)) (add_entries_same entries [] h)

module _ (net : Net) (hosts : Text → List Text) (e : Err) where
  add_entry_asks :
      (set : List Text) (entry : Text)
      → needs_no_lookup net entry ≡ false
      → is_ok (add_entry net (static_resolver hosts (some e)) set entry) ≡ false
  unfolding add_entry add_name add_answer static_resolver
  add_entry_asks set entry h = ground arith

  add_entries_asks :
      (es set : List Text)
      → has_hostnames net es ≡ true
      → is_ok (add_entries net (static_resolver hosts (some e)) set es) ≡ false
  unfolding add_entries has_hostnames
  add_entries_asks [] set h = cc
  add_entries_asks (x ∷ es) set h = elim (Bool-cases (needs_no_lookup net (trim_space x))) [
    | inl free ↦
        is_ok-bind_rest (add_entry net (static_resolver hosts (some e)) set (trim_space x)) _
          (λ next. add_entries_asks es next (ground arith))
    | inr asks ↦ is_ok-bind_first _ _ (add_entry_asks set (trim_space x) asks)
  ]

  -- With a hostname in the allowlist, a resolver that fails every lookup fails the resolution.
  resolve_egress_asks :
      (entries : List Text)
      → has_hostnames net entries ≡ true
      → is_ok (resolve_egress net (static_resolver hosts (some e)) entries) ≡ false
  unfolding resolve_egress
  resolve_egress_asks entries h = is_ok-bind_first _ _ (add_entries_asks entries [] h)

-- HasHostnames is exact: it is false only if the resolved allowlist is the same for every resolver,
-- and true only if a resolver that fails every lookup makes the resolution fail.
pub has_hostnames_exact :
    (net : Net) (entries : List Text)
    → (has_hostnames net entries ≡ false
        → (r r' : Resolver) → resolve_egress net r entries ≡ resolve_egress net r' entries)
      × (has_hostnames net entries ≡ true
          → (hosts : Text → List Text) (e : Err)
          → is_ok (resolve_egress net (static_resolver hosts (some e)) entries) ≡ false)
has_hostnames_exact net entries = (
  (λ h r r'. resolve_egress_same net r r' entries h),
  λ h hosts e. resolve_egress_asks net hosts e entries h,
)
