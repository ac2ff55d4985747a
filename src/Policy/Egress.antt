-- ===== src/Policy/Egress.antt =====
-- internal/policy/networkpolicy.go: the egress allowlist of a Task as a NetworkPolicy. The resolver
-- is a function from a host to its answer, the snapshot of DNS that one reconcile sees.
pub mod Resolution
pub mod Failure
pub mod Hostnames
pub mod Ordering
pub mod Entries
pub mod Traffic
use openconveyor.Prelude.{
  ℕ, Bool, true, false, not, Option, none, some, List, [], ◌∷◌, ◌++◌, Text, codes, contains,
  is_empty, has_byte, trim_space, sort, text_order, nat_order, compact, if◌then◌else◌, ◌||◌, ◌==◌,
  is_some,
}
use openconveyor.Errors.{Err, Result, ok, err, new, wrap, permanent, is_no_such_host, ◌>>=◌}
use openconveyor.Net.{Net, IpNet}
use openconveyor.Kube.{
  NetworkPolicy, EgressRule, Peer, ip_block, pods, Protocol, tcp, udp, PolicyPort, PolicyType,
  ingress, egress,
}
use openconveyor.Policy.Labels.{pod_selector_labels, owned_meta}

abbrev pub Resolver : Type 0
Resolver = Text → Result (List Text)

-- StaticResolver: fixed answers, or one error for every lookup.
unfoldable pub static_resolver : (Text → List Text) → Option Err → Resolver
static_resolver hosts none host = ok (hosts host)
static_resolver hosts (some e) host = err e

abbrev pub default_egress_port : ℕ
default_egress_port = 443

abbrev pub dns_port : ℕ
dns_port = 53

abbrev pub kube_system_labels : List (Text × Text)
kube_system_labels = (codes "kubernetes.io/metadata.name", codes "kube-system") ∷ []

abbrev pub kube_dns_labels : List (Text × Text)
kube_dns_labels = (codes "k8s-app", codes "kube-dns") ∷ []

-- set[v] = struct{}{}
unfoldable pub set_add : Text → List Text → List Text
set_add v set = if contains v set then set else v ∷ set

module _ (net : Net) where
  unfoldable pub ip_to_cidr : Text → Text
  ip_to_cidr ip =
      if net.is_ipv4 ip then net.ip_string ip ++ codes "/32" else net.ip_string ip ++ codes "/128"

  add_address : List Text → Option Text → List Text
  add_address set none = set
  add_address set (some ip) = set_add (ip_to_cidr ip) set

  -- The loop over the addresses of one answer.
  unfoldable pub add_addresses : List Text → List Text → List Text
  unfolding add_address
  add_addresses set [] = set
  add_addresses set (a ∷ addrs) = add_addresses (add_address set (net.parse_ip a)) addrs

  unfoldable pub has_hostnames : List Text → Bool
  has_hostnames [] = false
  has_hostnames (e ∷ es) =
      let entry = trim_space e in
      if is_empty entry || has_byte b'/' entry || is_some (net.parse_ip entry)
      then has_hostnames es
      else true

  module _ (resolver : Resolver) where
    lookup_failure : Text → Err → Err
    lookup_failure entry e =
        let wrapped = wrap (codes "egress entry %q: lookup failed: %w") (entry ∷ []) e in
        if is_no_such_host e then permanent wrapped else wrapped

    -- The CIDR branch of the loop, on the parser's answer.
    add_block : List Text → Text → Result IpNet → Result (List Text)
    add_block set entry (err e) =
        err (permanent (wrap (codes "egress entry %q: invalid CIDR: %w") (entry ∷ []) e))
    add_block set entry (ok cidr) = ok (set_add entry set)

    -- The hostname branch, on the resolver's answer.
    add_answer : List Text → Text → Result (List Text) → Result (List Text)
    unfolding lookup_failure
    add_answer set entry (err e) = err (lookup_failure entry e)
    add_answer set entry (ok addrs) = ok (add_addresses set addrs)

    -- The branch of an address, and the lookup of what is none.
    add_name : List Text → Text → Option Text → Result (List Text)
    unfolding add_answer
    add_name set entry (some ip) = ok (set_add (ip_to_cidr ip) set)
    add_name set entry none = add_answer set entry (resolver entry)

    -- One round of the loop of resolveEgress, on the trimmed entry.
    add_entry : List Text → Text → Result (List Text)
    unfolding add_block add_name
    add_entry set entry =
        if is_empty entry
        then ok set
        else if has_byte b'/' entry
        then add_block set entry (net.parse_cidr entry)
        else add_name set entry (net.parse_ip entry)

    add_entries : List Text → List Text → Result (List Text)
    add_entries set [] = ok set
    add_entries set (e ∷ es) = do next ← add_entry set (trim_space e); add_entries next es

    unfoldable pub resolve_egress : List Text → Result (List Text)
    unfolding add_entry add_entries
    resolve_egress entries = do set ← add_entries [] entries; ok (sort text_order set)

to_ip_blocks : List Text → List Peer
to_ip_blocks [] = []
to_ip_blocks (c ∷ cs) = ip_block c ∷ to_ip_blocks cs

both_protocols : List ℕ → List PolicyPort
both_protocols [] = []
both_protocols (p ∷ ps) =
    record { protocol = tcp; port = p } ∷ record { protocol = udp; port = p } ∷ both_protocols ps

-- ports, or DefaultEgressPort alone when there are none
unfoldable pub ports_or_default : List ℕ → List ℕ
ports_or_default [] = default_egress_port ∷ []
ports_or_default (p ∷ ps) = p ∷ ps

unfoldable pub egress_ports : List ℕ → List PolicyPort
unfolding both_protocols ports_or_default
egress_ports ports = both_protocols (compact ◌==◌ (sort nat_order (ports_or_default ports)))

dns_egress_rule : EgressRule
dns_egress_rule = record {
  to = pods kube_system_labels kube_dns_labels ∷ [];
  ports =
      record { protocol = udp; port = dns_port } ∷ record { protocol = tcp; port = dns_port } ∷ [];
}

egress_rules : List Text → List Text → List ℕ → List EgressRule
unfolding dns_egress_rule to_ip_blocks egress_ports
egress_rules [] cidrs ports = []
egress_rules (e ∷ es) [] ports = dns_egress_rule ∷ []
egress_rules (e ∷ es) (c ∷ cs) ports =
    dns_egress_rule ∷ record { to = to_ip_blocks (c ∷ cs); ports = egress_ports ports } ∷ []

unfoldable pub build_network_policy :
    Net → Resolver → Text → Text → List Text → List ℕ → Result NetworkPolicy
unfolding egress_rules
build_network_policy net resolver task_name namespace entries ports = do
  cidrs ← resolve_egress net resolver entries
  ok (record {
    meta = owned_meta task_name namespace task_name;
    pod_selector = pod_selector_labels task_name;
    policy_types = ingress ∷ egress ∷ [];
    ingress_rules = 0;
    egress_rules = egress_rules entries cidrs ports;
  })
