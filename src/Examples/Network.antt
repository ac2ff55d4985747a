-- ===== src/Examples/Network.antt =====
-- The egress theorems on a small network, and a few runs.
use openconveyor.Prelude.{
  true, false, ◌≡◌, ◌↔◌, refl, none, some, List, [], ◌∷◌, Text, codes, contains, text_eq, sort,
  has_byte, trim_space, text_le, compact,
}
use openconveyor.Errors.{Err, ok, err, wrap, permanent, is_ok}
use openconveyor.Kube.{NetworkPolicy, pods, ip_block, tcp, udp, ingress, egress}
use openconveyor.Policy.Egress.{
  Resolver, resolve_egress, has_hostnames, build_network_policy, static_resolver,
  kube_system_labels, kube_dns_labels, egress_ports, set_add, add_addresses, ip_to_cidr,
}
use openconveyor.Policy.Labels.{owned_meta, pod_selector_labels}
use openconveyor.Policy.Egress.Entries.{Among, StandsFor, resolve_egress_iff}
use openconveyor.Policy.Egress.Failure.{FailsWith, resolve_egress-FailsWith}
use openconveyor.Policy.Egress.Hostnames.{has_hostnames_exact}
use openconveyor.Policy.Egress.Traffic.{Endpoint}
use openconveyor.Examples.Instances.{
  small_net, small_resolver, entries, resolved, address_block, private_block,
}

resolution_known : resolve_egress small_net small_resolver entries ≡ ok resolved
unfolding resolve_egress sort text_eq trim_space has_byte set_add add_addresses ip_to_cidr text_le
resolution_known = refl

resolve_egress_iff_example : Among address_block resolved ↔ (
    (entry : Text) × Among entry entries × StandsFor small_net small_resolver entry address_block)
resolve_egress_iff_example =
    resolve_egress_iff small_net small_resolver entries resolved resolution_known address_block

abbrev bad_block : List Text
bad_block = address_block ∷ codes "9.9/x" ∷ []

abbrev block_error : Err
block_error = permanent (
    wrap (codes "egress entry %q: invalid CIDR: %w") (address_block ∷ [])
      (Err.new (codes "invalid CIDR address: %s") (address_block ∷ [])))

bad_block_fails : resolve_egress small_net small_resolver bad_block ≡ err block_error
unfolding resolve_egress sort text_eq trim_space has_byte
bad_block_fails = refl

resolve_egress-FailsWith_example :
    (entry : Text) × (contains entry bad_block ≡ true)
    × FailsWith small_net small_resolver entry block_error
resolve_egress-FailsWith_example =
    resolve_egress-FailsWith small_net small_resolver bad_block block_error bad_block_fails

has_hostnames_exact_example :
    (has_hostnames small_net entries ≡ false
      → (r r' : Resolver)
      → resolve_egress small_net r entries ≡ resolve_egress small_net r' entries)
    × (has_hostnames small_net entries ≡ true
        → (hosts : Text → List Text) (e : Err)
        → is_ok (resolve_egress small_net (static_resolver hosts (some e)) entries) ≡ false)
has_hostnames_exact_example = has_hostnames_exact small_net entries

abbrev pub the_policy : NetworkPolicy
the_policy = record {
  meta = owned_meta (codes "t1") (codes "ns") (codes "t1");
  pod_selector = pod_selector_labels (codes "t1");
  policy_types = ingress ∷ egress ∷ [];
  ingress_rules = 0;
  egress_rules =
      record {
        to = pods kube_system_labels kube_dns_labels ∷ [];
        ports = record { protocol = udp; port = 53 } ∷ record { protocol = tcp; port = 53 } ∷ [];
      }
      ∷ record {
        to = ip_block address_block ∷ ip_block private_block ∷ [];
        ports = record { protocol = tcp; port = 443 } ∷ record { protocol = udp; port = 443 } ∷ [];
      }
      ∷ [];
}

pub policy_built :
    build_network_policy small_net small_resolver (codes "t1") (codes "ns") entries []
    ≡ ok the_policy
unfolding build_network_policy resolve_egress sort text_eq trim_space has_byte egress_ports set_add
    add_addresses ip_to_cidr text_le compact
policy_built = refl

abbrev server : Endpoint
server = record { address = address_block; labels = none }
