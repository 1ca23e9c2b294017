-- ===== src/Handle/Snapshots.antt =====
-- What a snapshot tells.
use unified_runtime_primitiv.Base.{◌==◌, if◌then◌else◌, String, Option, Bool, false, none, some}
use unified_runtime_primitiv.Handle.Defs.{AgentReadiness, ready, not_ready, degraded}

readiness_named : String → AgentReadiness
readiness_named s =
    if s == "READY"
    then ready
    else if s == "NOT_READY"
    then not_ready
    else if s == "DEGRADED"
    then degraded
    else AgentReadiness.terminated

abbrev says_over : Option String → Bool
says_over none = false
says_over (some t) = t == "Agent has been terminated"
