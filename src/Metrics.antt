-- ===== src/Metrics.antt =====
-- internal/metrics/metrics.go: the labels of the metrics. The registry and the counters are those of
-- the Prometheus client; a call that counts is an entry in the log of a run.
use openconveyor.Prelude.{Text, codes}

abbrev pub step_validate : Text
step_validate = codes "validate"

abbrev pub step_agent_class_lookup : Text
step_agent_class_lookup = codes "agent_class_lookup"

abbrev pub step_service_account : Text
step_service_account = codes "service_account"

abbrev pub step_role : Text
step_role = codes "role"

abbrev pub step_role_binding : Text
step_role_binding = codes "role_binding"

abbrev pub step_network_policy : Text
step_network_policy = codes "network_policy"

abbrev pub step_prompt_config_map : Text
step_prompt_config_map = codes "prompt_configmap"

abbrev pub step_agent_config_map : Text
step_agent_config_map = codes "config_configmap"

abbrev pub step_job : Text
step_job = codes "job"

abbrev pub step_status : Text
step_status = codes "status"
