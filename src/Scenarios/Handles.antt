-- ===== src/Scenarios/Handles.antt =====
-- The theorems about handles at the handle of a new echo agent.
use unified_runtime_primitiv.Base.{◌≡◌, refl, ◌+◌, ◌↔◌, some, [], ◌∷◌, length}
use unified_runtime_primitiv.Exec.{⊤}
use unified_runtime_primitiv.Agent.{new, view}
use unified_runtime_primitiv.Handle.{
  AgentHandle, AgentReadiness, ready, not_ready, degraded, new_entry, key_text, readiness_value,
  handle_state, handle_readiness, handle_status, mailbox_size, reason_of, to_dict, repr, handle_key,
  runtime_id,
}
use unified_runtime_primitiv.Handle.Sending.{send_all, with_messages, send_all_lem}
use unified_runtime_primitiv.Handle.Identity.{HasNoColon, to_dict-key}
use unified_runtime_primitiv.Scenarios.Bus.{Bus, echo, descriptor, hello, silence}

abbrev handle_of : AgentReadiness → AgentHandle ⊤ Bus
handle_of r = record {
  entry =
      new_entry (record { agent_type = "archy"; module_name = "bms" }) (new echo descriptor silence)
        "r1" 7;
  readiness_fn = λ e. r;
}

repr-fresh :
    repr (handle_of degraded)
    ≡ "AgentHandle(key=archy:bms, status=AgentStatus.UNINITIALIZED, readiness=DEGRADED)"
unfolding repr key_text readiness_value handle_status handle_state handle_readiness view new
repr-fresh = refl

named :
    (key_text (handle_key (handle_of ready)) ≡ "archy:bms") × (runtime_id (handle_of ready) ≡ "r1")
unfolding key_text
named = (refl, refl)

reason-fresh :
    (to_dict (handle_of not_ready)).reason ≡ some "Agent is in AgentStatus.UNINITIALIZED state"
unfolding to_dict reason_of handle_status handle_state handle_readiness view new
reason-fresh = refl

-- The text of a key does not determine it.
key_text-clash :
    key_text (record { agent_type = "archy:bms"; module_name = "v1" })
    ≡ key_text (record { agent_type = "archy"; module_name = "bms:v1" })
unfolding key_text
key_text-clash = refl

send_all_lem_example :
    let h = handle_of ready in
    (send_all (hello ∷ hello ∷ []) h ≡ with_messages (hello ∷ hello ∷ []) h)
    × (mailbox_size (send_all (hello ∷ hello ∷ []) h)
        ≡ mailbox_size h + length (hello ∷ hello ∷ []))
send_all_lem_example =
    send_all_lem (hello ∷ hello ∷ []) (handle_of ready)
      (unfold handle_status handle_state view new in (λ e. cc))

abbrev versioned : AgentHandle ⊤ Bus
versioned = record {
  entry =
      new_entry (record { agent_type = "archy"; module_name = "bms:v1" })
        (new echo descriptor silence) "r2" 8;
  readiness_fn = λ e. ready;
}

archy-HasNoColon : HasNoColon "archy"
archy-HasNoColon = (λ e. cc, (λ e. cc, (λ e. cc, (λ e. cc, (λ e. cc, tt)))))

to_dict-key_example :
    ((to_dict (handle_of ready)).key ≡ (to_dict versioned).key)
    ↔ (handle_key (handle_of ready) ≡ handle_key versioned)
to_dict-key_example = to_dict-key (handle_of ready) versioned archy-HasNoColon archy-HasNoColon
