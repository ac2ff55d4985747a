-- ===== src/Controller/Report/Fallback.antt =====
-- The allowlist of the links of a terminal Task whose ClusterAgentClass is gone.
use openconveyor.Prelude.{true, ◌≡◌, Text}
use openconveyor.Errors.{Err, ok, err}
use openconveyor.Api.{Task, ClusterAgentClass}
use openconveyor.Net.{Net}
use openconveyor.Policy.Outcome.{Parsers, host_allowed}
use openconveyor.Policy.Outcome.Hosts.{host_allowed-merge}
use openconveyor.Controller.Report.{terminal_egress}

-- A terminal Task whose ClusterAgentClass cannot be read accepts no host that it would refuse with
-- the class, whatever the class is: the fallback never accepts more links.
pub terminal_egress_lem :
    (parsers : Parsers) (net : Net) (task : Task) (agent : ClusterAgentClass) (e : Err)
    (host : Text)
    → host_allowed parsers net host (terminal_egress task (err e)) ≡ true
    → host_allowed parsers net host (terminal_egress task (ok agent)) ≡ true
unfolding terminal_egress
terminal_egress_lem parsers net task agent e host h =
    host_allowed-merge parsers net host task.spec.permissions.egress agent.spec.requires.egress h
