-- ===== src/Policy/Egress/Resolution.antt =====
-- What resolveEgress puts into the allowlist, entry by entry, and when it fails.
use openconveyor.Prelude.{
  Bool, false, ◌||◌, ◌≡◌, refl, Option, none, some, List, [], ◌∷◌, Text, text_eq, text_eq_iff,
  contains, any, is_empty, has_byte, trim_space, Distinct, text_order, any-sort, if◌then◌else◌,
  arith,
}
use openconveyor.Errors.{Result, ok, err, >>=-eq-ok}
use openconveyor.Net.{Net, IpNet}
use openconveyor.Policy.Egress.{
  Resolver, set_add, ip_to_cidr, add_address, add_addresses, add_entry, add_entries, resolve_egress,
  add_block, add_answer, add_name,
}

contains-set_add :
    (x v : Text) (set : List Text) → contains x (set_add v set) ≡ (text_eq x v || contains x set)
unfolding set_add
contains-set_add x v set = ground (arith, text_eq_iff x v)

pub set_add-Distinct : (v : Text) (set : List Text) → Distinct set → Distinct (set_add v set)
unfolding set_add
set_add-Distinct v set d = ground arith

module _ (net : Net) where
  -- The address `a` of an answer is written as the block `c`.
  abbrev pub address_is : Text → Option Text → Bool
  address_is c none = false
  address_is c (some ip) = text_eq c (ip_to_cidr net ip)

  abbrev pub answer_has : Text → Result (List Text) → Bool
  answer_has c (err e) = false
  answer_has c (ok addrs) = any (λ a. address_is c (net.parse_ip a)) addrs

  unfoldable pub name_has : Resolver → Text → Text → Option Text → Bool
  name_has resolver c entry (some ip) = text_eq c (ip_to_cidr net ip)
  name_has resolver c entry none = answer_has c (resolver entry)

  -- The trimmed entry stands for the block `c`: it is the block itself, or the address of it, or a
  -- name that has the address of it.
  unfoldable pub entry_has : Resolver → Text → Text → Bool
  unfolding name_has
  entry_has resolver c entry =
      if is_empty entry
      then false
      else if has_byte b'/' entry
      then text_eq c entry
      else name_has resolver c entry (net.parse_ip entry)

  unfoldable pub stands_for : Resolver → Text → Text → Bool
  unfolding entry_has
  stands_for resolver c e = entry_has resolver c (trim_space e)

  contains-add_address :
      (c : Text) (set : List Text) (o : Option Text)
      → contains c (add_address net set o) ≡ (address_is c o || contains c set)
  unfolding add_address
  contains-add_address c set none = refl
  contains-add_address c set (some ip) = contains-set_add c (ip_to_cidr net ip) set

  contains-add_addresses :
      (c : Text) (set addrs : List Text)
      → contains c (add_addresses net set addrs)
        ≡ (any (λ a. address_is c (net.parse_ip a)) addrs || contains c set)
  unfolding add_addresses
  contains-add_addresses c set [] = refl
  contains-add_addresses c set (a ∷ addrs) = ground (
    arith,
    contains-add_addresses c (add_address net set (net.parse_ip a)) addrs,
    contains-add_address c set (net.parse_ip a),
  )

  add_address-Distinct :
      (set : List Text) (o : Option Text) → Distinct set → Distinct (add_address net set o)
  unfolding add_address
  add_address-Distinct set none d = d
  add_address-Distinct set (some ip) d = set_add-Distinct (ip_to_cidr net ip) set d

  pub add_addresses-Distinct :
      (set addrs : List Text) → Distinct set → Distinct (add_addresses net set addrs)
  unfolding add_addresses
  add_addresses-Distinct set [] d = d
  add_addresses-Distinct set (a ∷ addrs) d =
      add_addresses-Distinct (add_address net set (net.parse_ip a)) addrs
        (add_address-Distinct set (net.parse_ip a) d)

  module _ (resolver : Resolver) where
    contains-add_block :
        (c entry : Text) (set set' : List Text) (r : Result IpNet)
        → add_block net resolver set entry r ≡ ok set'
        → contains c set' ≡ (text_eq c entry || contains c set)
    unfolding add_block
    contains-add_block c entry set set' (err e) h = cc
    contains-add_block c entry set set' (ok n) h = ground (arith, contains-set_add c entry set)

    contains-add_answer :
        (c entry : Text) (set set' : List Text) (r : Result (List Text))
        → add_answer net resolver set entry r ≡ ok set'
        → contains c set' ≡ (answer_has c r || contains c set)
    unfolding add_answer
    contains-add_answer c entry set set' (err e) h = cc
    contains-add_answer c entry set set' (ok addrs) h =
        ground (arith, contains-add_addresses c set addrs)

    contains-add_name :
        (c entry : Text) (set set' : List Text) (o : Option Text)
        → add_name net resolver set entry o ≡ ok set'
        → contains c set' ≡ (name_has resolver c entry o || contains c set)
    unfolding add_name name_has
    contains-add_name c entry set set' (some ip) h =
        ground (arith, contains-set_add c (ip_to_cidr net ip) set)
    contains-add_name c entry set set' none h =
        contains-add_answer c entry set set' (resolver entry) h

    contains-add_entry :
        (c entry : Text) (set set' : List Text)
        → add_entry net resolver set entry ≡ ok set'
        → contains c set' ≡ (entry_has resolver c entry || contains c set)
    unfolding add_entry entry_has
    contains-add_entry c entry set set' h = ground (
      arith,
      contains-add_block c entry set set' (net.parse_cidr entry),
      contains-add_name c entry set set' (net.parse_ip entry),
    )

    contains-add_entries :
        (c : Text) (es set set' : List Text)
        → add_entries net resolver set es ≡ ok set'
        → contains c set' ≡ (any (stands_for resolver c) es || contains c set)
    unfolding add_entries stands_for
    contains-add_entries c [] set set' h = ground arith
    contains-add_entries c (e ∷ es) set set' h =
        let (next, first, rest) = >>=-eq-ok (add_entry net resolver set (trim_space e)) _ h in
        ground (
          arith,
          contains-add_entry c (trim_space e) set next first,
          contains-add_entries c es next set' rest,
        )

    -- A block is in the allowlist exactly if some entry stands for it.
    pub contains-resolve_egress :
        (c : Text) (entries cidrs : List Text)
        → resolve_egress net resolver entries ≡ ok cidrs
        → contains c cidrs ≡ any (stands_for resolver c) entries
    unfolding resolve_egress
    contains-resolve_egress c entries cidrs h =
        let (set, filled, sorted) = >>=-eq-ok (add_entries net resolver [] entries) _ h in
        ground
          (arith, contains-add_entries c entries [] set filled, any-sort text_order (text_eq c) set)
