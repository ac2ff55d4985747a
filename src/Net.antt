-- ===== src/Net.antt =====
-- What the program takes from Go's `net` package, as functions of the text that it hands over.
-- A net.IP is its bytes; a parsed CIDR block is its network address and its mask.
use openconveyor.Prelude.{Bool, Option, Text}
use openconveyor.Errors.{Result}

pub record IpNet : Type 0 where
  pub ip : Text
  pub mask : Text

pub record Net : Type 0 where
  -- net.ParseIP; `none` is nil
  pub parse_ip : Text → Option Text
  -- net.ParseCIDR, its second result
  pub parse_cidr : Text → Result IpNet
  -- (*net.IPNet).Contains
  pub cidr_contains : IpNet → Text → Bool
  -- net.IP.Equal
  pub ip_equal : Text → Text → Bool
  -- net.IP.To4() != nil
  pub is_ipv4 : Text → Bool
  -- net.IP.String
  pub ip_string : Text → Text
