-- ===== src/Examples/Instances.antt =====
-- Small concrete networks, resolvers and parsers, a Task and an AgentClass.
use openconveyor.Prelude.{
  pos, true, false, none, some, List, [], ◌∷◌, Text, codes, text_eq, if◌then◌else◌, ◌==◌,
}
use openconveyor.Errors.{Err, new, ok, err}
use openconveyor.Net.{Net}
use openconveyor.Kube.{empty_meta}
use openconveyor.Api.{Task, PromptSource, RbacRule, pending, AgentInputs, ClusterAgentClass}
use openconveyor.Policy.Egress.{Resolver}
use openconveyor.Policy.Config.{Json, Decoder}
use openconveyor.Policy.Outcome.{Parsers, WireResult}

abbrev pub address : Text
address = codes "1.1.1.1"

abbrev pub address_block : Text
address_block = codes "1.1.1.1/32"

abbrev pub private_block : Text
private_block = codes "10.0.0.0/8"

abbrev pub host : Text
host = codes "api.dev"

-- One address, one block.
abbrev pub small_net : Net
small_net = record {
  parse_ip = λ t. if text_eq t address then some t else none;
  parse_cidr = λ t.
      if text_eq t private_block
      then ok (record { ip = codes "10.0.0.0"; mask = codes "8" })
      else err (new (codes "invalid CIDR address: %s") (t ∷ []));
  cidr_contains = λ n t. false;
  ip_equal = text_eq;
  is_ipv4 = λ t. true;
  ip_string = λ t. t;
}

-- One name.
abbrev pub small_resolver : Resolver
small_resolver h =
    if text_eq h host then ok (address ∷ []) else err (Err.dns true (codes "no such host"))

-- A block, a name with spaces around it, an empty entry and the address of the name.
abbrev pub entries : List Text
entries = private_block ∷ codes " api.dev " ∷ [] ∷ address ∷ []

abbrev pub resolved : List Text
resolved = address_block ∷ private_block ∷ []

abbrev pub two_fields : List (Text × Json)
two_fields = (codes "REPO", Json.text (codes "x")) ∷ (codes "deep", Json.nested) ∷ []

abbrev pub raw_fields : Text
raw_fields = codes "{\"REPO\":\"x\",\"deep\":{}}"

abbrev pub small_decoder : Decoder
small_decoder raw =
    if text_eq raw raw_fields then ok two_fields else err (new (codes "invalid character") [])

-- An agent that reads its prompt from a file, and its config from a file and a variable.
abbrev pub inputs : AgentInputs
inputs = record {
  prompt = some (record { mount = codes "/in/prompt"; env = [] });
  config = some (record { mount = codes "/in/config.json"; env = codes "CONFIG" });
}

-- An agent that reads scalar fields only.
abbrev pub plain_inputs : AgentInputs
plain_inputs = record { prompt = none; config = none }

abbrev pub inline_prompt : PromptSource
inline_prompt = record { inline = codes "fix it"; secret_ref = none; config_map_ref = none }

abbrev pub no_source : PromptSource
no_source = record { inline = []; secret_ref = none; config_map_ref = none }

abbrev pub rule : RbacRule
rule = record {
  api_groups = [] ∷ [];
  resources = codes "pods" ∷ [];
  verbs = codes "get" ∷ [];
  resource_names = [];
}

abbrev pub message : Text
message = codes "log {}"

abbrev pub wire : WireResult
wire = record {
  summary = codes "done";
  links =
      record { name = codes "pr"; url = codes "u" }
      ∷ record { name = codes "pr"; url = codes "u" }
      ∷ [];
}

abbrev pub small_parsers : Parsers
small_parsers = record {
  decode_strict = λ body. if text_eq body (codes "{}") then some wire else none;
  parse_url = λ u. some (record {
    scheme = codes "https";
    opaque = [];
    has_user = false;
    hostname = host;
    full = codes "https://api.dev/pr";
  });
  to_lower = λ s. s;
  is_format = λ r. r == 8203;
}

abbrev pub task : Task
task = record {
  meta = record empty_meta { name = codes "t1"; namespace = codes "ns" };
  spec = record {
    agent = record { ref = codes "coder"; config = some raw_fields };
    prompt = inline_prompt;
    permissions = record {
      secrets = codes "token" ∷ [];
      egress = entries;
      egress_ports = [];
      rbac = rule ∷ [];
    };
    resources = record { cpu = []; memory = []; timeout = pos 60_000_000_000 };
    ttl_seconds_after_finished = some 60;
  };
  status = record {
    phase = pending;
    observed_generation = 1;
    job_name = codes "t1";
    start_time = some 5;
    completion_time = some 9;
    task_result = none;
    conditions = [];
  };
}

abbrev pub agent : ClusterAgentClass
agent = record {
  meta = record empty_meta { name = codes "coder" };
  spec = record {
    image = codes "coder:1";
    image_pull_policy = [];
    command = [];
    args = [];
    inputs = inputs;
    requires = record { egress = []; secrets = codes "agent" ∷ [] };
  };
}
