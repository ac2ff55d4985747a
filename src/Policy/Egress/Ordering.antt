-- ===== src/Policy/Egress/Ordering.antt =====
-- The allowlist of a policy is sorted and names no block twice.
use openconveyor.Prelude.{
  ◌≡◌, Option, none, some, List, [], ◌∷◌, Text, is_empty, has_byte, trim_space, Distinct, Sorted,
  text_order, sort-Sorted, sort-Distinct, Bool-cases, inl, inr, subst,
}
use openconveyor.Errors.{Result, ok, err, >>=-eq-ok}
use openconveyor.Net.{Net, IpNet}
use openconveyor.Policy.Egress.{
  Resolver, ip_to_cidr, add_block, add_answer, add_name, add_entry, add_entries, resolve_egress,
}
use openconveyor.Policy.Egress.Resolution.{set_add-Distinct, add_addresses-Distinct}

module _ (net : Net) (resolver : Resolver) where
  -- A set in a result has no repetitions.
  abbrev HasDistinct : Result (List Text) → Type 0
  HasDistinct (err e) = Unit
  HasDistinct (ok set) = Distinct set

  add_answer-Distinct :
      (set : List Text) (entry : Text) (r : Result (List Text))
      → Distinct set
      → HasDistinct (add_answer net resolver set entry r)
  unfolding add_answer
  add_answer-Distinct set entry (err e) d = tt
  add_answer-Distinct set entry (ok addrs) d = add_addresses-Distinct net set addrs d

  add_name-Distinct :
      (set : List Text) (entry : Text) (o : Option Text)
      → Distinct set
      → HasDistinct (add_name net resolver set entry o)
  unfolding add_name
  add_name-Distinct set entry none d = add_answer-Distinct set entry (resolver entry) d
  add_name-Distinct set entry (some ip) d = set_add-Distinct (ip_to_cidr net ip) set d

  add_block-Distinct :
      (set : List Text) (entry : Text) (r : Result IpNet)
      → Distinct set
      → HasDistinct (add_block net resolver set entry r)
  unfolding add_block
  add_block-Distinct set entry (err e) d = tt
  add_block-Distinct set entry (ok n) d = set_add-Distinct entry set d

  add_entry-Distinct :
      (set : List Text) (entry : Text)
      → Distinct set
      → HasDistinct (add_entry net resolver set entry)
  unfolding add_entry
  add_entry-Distinct set entry d = elim (Bool-cases (is_empty entry)) [
    | inl e ↦ rw e d
    | inr e ↦ elim (Bool-cases (has_byte b'/' entry)) [
      | inl s ↦ rw (e, s) (add_block-Distinct set entry (net.parse_cidr entry) d)
      | inr s ↦ rw (e, s) (add_name-Distinct set entry (net.parse_ip entry) d)
    ]
  ]

  add_entries-Distinct :
      (es set set' : List Text)
      → Distinct set
      → add_entries net resolver set es ≡ ok set'
      → Distinct set'
  unfolding add_entries
  add_entries-Distinct [] set set' d h = subst HasDistinct h d
  add_entries-Distinct (e ∷ es) set set' d h =
      let (next, first, rest) = >>=-eq-ok (add_entry net resolver set (trim_space e)) _ h in
      add_entries-Distinct es next set'
        (subst HasDistinct first (add_entry-Distinct set (trim_space e) d)) rest

  abbrev HasSorted : Result (List Text) → Type 0
  HasSorted (err e) = Unit
  HasSorted (ok cs) = Sorted text_order cs

  -- The resolved allowlist is sorted and has no block twice.
  pub resolve_egress-Sorted :
      (entries cidrs : List Text)
      → resolve_egress net resolver entries ≡ ok cidrs
      → Sorted text_order cidrs × Distinct cidrs
  unfolding resolve_egress
  resolve_egress-Sorted entries cidrs h =
      let (set, filled, sorted) = >>=-eq-ok (add_entries net resolver [] entries) _ h in
      (
        subst HasSorted sorted (sort-Sorted text_order set),
        subst HasDistinct sorted
            (sort-Distinct set (add_entries-Distinct entries [] set tt filled)),
      )
