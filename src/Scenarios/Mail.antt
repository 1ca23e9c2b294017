-- ===== src/Scenarios/Mail.antt =====
-- A runtime at which another task sends a message whenever the agent is suspended, and logs it.
use unified_runtime_primitiv.Base.{refl, List, [], ◌∷◌, ◌++◌}
use unified_runtime_primitiv.Data.{MessageEnvelope}
use unified_runtime_primitiv.Exec.{ok, ⊤}
use unified_runtime_primitiv.Mailbox.{put}
use unified_runtime_primitiv.Agent.{Agent, Runtime, Program}
use unified_runtime_primitiv.Agent.Frame.{RuntimeRespects, Respects, Leaves-order}
use unified_runtime_primitiv.Agent.Queues.{Queues-same, BusLogs, Logs}
use unified_runtime_primitiv.Sample.{echo_agent}
use unified_runtime_primitiv.Sample.Echo.{echo_agent-Respects}
use unified_runtime_primitiv.Sample.Sending.{echo_agent-Logs}
use unified_runtime_primitiv.Scenarios.Bus.{Bus, hello, no_str}

abbrev pub sent : Bus → List MessageEnvelope
sent w = w.log

abbrev mailed : Agent ⊤ Bus → Agent ⊤ Bus
mailed a = record a {
  mailbox = put hello a.mailbox;
  world = record a.world { log = a.world.log ++ hello ∷ [] };
}

abbrev mail_runtime : Runtime ⊤ Bus
mail_runtime = record {
  uuid4 = λ w. ("id", w);
  utc_now = λ w. (w.time, w);
  call = λ c e a. (ok tt, a);
  others = λ a. (ok tt, mailed a);
}

mail_runtime-Respects : RuntimeRespects mail_runtime
mail_runtime-Respects = record {
  call = λ c e. record { at = Leaves-order.same };
  others = record {
    at = λ a. record {
      grows = record {
        arrivals = hello ∷ [];
        queued = refl;
        counted = refl;
        stops = λ h. h;
        same_task = refl;
        same_descriptor = refl;
        same_context = refl;
        same_session = refl;
      };
      same_status = refl;
      same_result = refl;
    };
  };
}

mail_runtime-BusLogs : BusLogs sent mail_runtime
mail_runtime-BusLogs = record {
  uuid4 = λ w. refl;
  utc_now = λ w. refl;
  call = λ c e. record { at = λ a. Queues-same sent a a refl refl };
  others = record { at = λ a. record { arrivals = hello ∷ []; queued = refl; logged = refl } };
}

abbrev pub mailed_echo : Program ⊤ Bus
mailed_echo = echo_agent no_str mail_runtime

pub mailed_echo-Respects : Respects mailed_echo
mailed_echo-Respects = echo_agent-Respects no_str mail_runtime mail_runtime-Respects

pub mailed_echo-Logs : Logs sent mailed_echo
mailed_echo-Logs = echo_agent-Logs no_str sent mail_runtime mail_runtime-BusLogs
