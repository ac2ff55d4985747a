-- ===== src/Policy/Egress/Traffic.antt =====
-- The traffic that a generated NetworkPolicy lets out, by the meaning of egress rules.
use openconveyor.Prelude.{
  ℕ, Bool, true, false, not, ◌&&◌, ◌||◌, ◌≡◌, ◌≢◌, ◌⊎◌, Option, none, some, List, [], ◌∷◌, Text,
  text_eq, any, lookup, Map, ◌==◌,
}
use openconveyor.Net.{Net}
use openconveyor.Kube.{
  NetworkPolicy, EgressRule, Peer, ip_block, pods, Protocol, tcp, udp, PolicyPort, PolicyType,
  ingress, egress,
}
use openconveyor.Policy.Egress.{Resolver, egress_rules, kube_system_labels, kube_dns_labels}
use openconveyor.Policy.Egress.Entries.{Among, StandsFor}

abbrev has_value : Option Text → Text → Bool
has_value none v = false
has_value (some w) v = text_eq w v

-- A selector picks what carries all its labels.
unfoldable pub selects : Map Text → Map Text → Bool
selects [] labels = true
selects ((k, v) ∷ rest) labels = has_value (lookup k labels) v && selects rest labels

-- Where a packet goes: an address, and the labels of the namespace and of the pod if a pod has it.
pub record Endpoint : Type 0 where
  pub address : Text
  pub labels : Option (Map Text × Map Text)

abbrev is_egress : PolicyType → Bool
is_egress egress = true
is_egress ingress = false

abbrev protocol_eq : Protocol → Protocol → Bool
protocol_eq tcp tcp = true
protocol_eq udp udp = true
protocol_eq _ _ = false

port_admits : PolicyPort → Protocol → ℕ → Bool
port_admits p proto n = protocol_eq p.protocol proto && p.port == n

-- `covers` says whether a block, as a text, has an address.
module _ (covers : (cidr address : Text) → Bool) where
  labels_admit : Map Text → Map Text → Option (Map Text × Map Text) → Bool
  labels_admit ns ls none = false
  labels_admit ns ls (some (ns', ls')) = selects ns ns' && selects ls ls'

  peer_admits : Peer → Endpoint → Bool
  unfolding labels_admit
  peer_admits (ip_block c) e = covers c e.address
  peer_admits (pods ns ls) e = labels_admit ns ls e.labels

  rule_admits : EgressRule → Endpoint → Protocol → ℕ → Bool
  unfolding peer_admits port_admits
  rule_admits r e proto n =
      any (λ p. peer_admits p e) r.to && any (λ p. port_admits p proto n) r.ports

  -- Traffic leaves a selected pod if the policy does not restrict egress, or some rule admits it.
  pub admits : NetworkPolicy → Endpoint → Protocol → ℕ → Bool
  unfolding rule_admits
  admits p e proto n =
      not (any is_egress p.policy_types) || any (λ r. rule_admits r e proto n) p.egress_rules

module _ (net : Net) (resolver : Resolver) (entries : List Text) (ports : List ℕ)
    (covers : (cidr address : Text) → Bool) where
  -- A pod of the cluster DNS server, on its port.
  abbrev pub IsDns : Endpoint → ℕ → Type 0
  IsDns e n =
      (entries ≢ [])
      × (n ≡ 53)
      × (ns : Map Text) × (ls : Map Text) × (e.labels ≡ some (ns, ls))
      × (selects kube_system_labels ns ≡ true)
      × (selects kube_dns_labels ls ≡ true)

  -- An address of a block for which an entry stands, on a declared port, or 443 if none is declared.
  abbrev pub IsListed : Endpoint → ℕ → Type 0
  IsListed e n =
      (entry : Text) × (c : Text) × Among entry entries
      × StandsFor net resolver entry c
      × (covers c e.address ≡ true)
      × (((ports ≡ []) × (n ≡ 443)) ⊎ (any (λ p. p == n) ports ≡ true))
