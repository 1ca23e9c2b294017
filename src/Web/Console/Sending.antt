-- ===== src/Web/Console/Sending.antt =====
-- A message from the page to an echo agent.
use unified_runtime_primitiv.Base.{
  ◌≡◌, refl, sym, subst, ◌∙◌, ap, ℕ, String, true, false, Option, some, List, [], ◌∷◌, ◌++◌, join,
  length, ◌==◌, inl,
}
use unified_runtime_primitiv.Data.{
  AgentStatus, uninitialized, initialized, waiting, processing, terminated, text, field, end,
  MessageEnvelope, Payload, ProcessResult,
}
use unified_runtime_primitiv.Exec.{Result, ok, ⊤, continue, pure}
use unified_runtime_primitiv.Mailbox.{put}
use unified_runtime_primitiv.Agent.{Agent, Task, polling, send, send_at, set_mailbox}
use unified_runtime_primitiv.Agent.Coherence.{IsOver, IsCoherent, Fits, send-IsCoherent}
use unified_runtime_primitiv.Agent.Taking.{run_task}
use unified_runtime_primitiv.Agent.Draining.{IsLive}
use unified_runtime_primitiv.Host.{
  host_runtime, HostFields, holds, set_fields, around, envelope_for, fields_after_envelope, send_to,
  send_message,
}
use unified_runtime_primitiv.Host.Sessions.{set_fields-IsCoherent}
use unified_runtime_primitiv.Host.Writing.{Note, notes_of}
use unified_runtime_primitiv.Sample.{echo_result}
use unified_runtime_primitiv.Sample.Echo.{echo_result_text}
use unified_runtime_primitiv.Sample.Hosted.{echoes_of, received, completed, run_task-echoes}
use unified_runtime_primitiv.Web.Conversations.{Files}
use unified_runtime_primitiv.Web.Browsing.{Directories}
use unified_runtime_primitiv.Web.Endpoints.{
  ServerFields, ServedHost, ServedAgent, Server, hosts, Platform, class_of, around_server,
  post_message, server_environment,
}
use unified_runtime_primitiv.Web.Echoing.{IsQuietPlatform, server-IsQuietEnvironment}
use unified_runtime_primitiv.Web.Console.Defs.{Tab}
use unified_runtime_primitiv.Web.Console.Handlers as Handlers
use unified_runtime_primitiv.Web.Console.Handlers.{text_payload}
use unified_runtime_primitiv.Web.Console.Site.{Site, site_backend}

polls-waiting :
    (s : AgentStatus) (t : Option Task) (r : Option ProcessResult)
    → t ≡ some polling
    → Fits s t r
    → s ≡ waiting
polls-waiting uninitialized t r e h = let f = sym e ∙ h in cc
polls-waiting initialized t r e h = let f = sym e ∙ h in cc
polls-waiting waiting t r e h = refl
polls-waiting processing t r e h = absurd (subst IsOver e h.1)
polls-waiting AgentStatus.error t r e h = absurd h
polls-waiting terminated t r e h = absurd (subst IsOver e h)

-- An agent whose loop waits takes what is sent, and its loop still waits.
module _ {C W : Type 0} where
  sent-live :
      (m : MessageEnvelope) (a : Agent C W)
      → IsLive a
      → send m a ≡ (ok tt, set_mailbox (put m a.mailbox) a)
  unfolding send send_at
  sent-live m a live =
      ap (λ s. send_at s m a) (polls-waiting a.state.status a.task _ live.waits live.coherent.fits)

echoes_of-append :
    (str : Payload → String) (ms ns : List MessageEnvelope)
    → echoes_of str (ms ++ ns) ≡ echoes_of str ms ++ echoes_of str ns
echoes_of-append str [] ns = refl
echoes_of-append str (m ∷ ms) ns =
    ap (λ notes. received str m ∷ completed str m ∷ notes) (echoes_of-append str ms ns)

set_fields-IsLive :
    {X : Type 0} (f : HostFields ⊤ (ServerFields X)) (a : ServedAgent X)
    → IsLive a
    → IsLive (set_fields f a)
set_fields-IsLive f a live = record {
  coherent = set_fields-IsCoherent f a live.coherent;
  waits = live.waits;
  open_yet = live.open_yet;
}

module _ {X : Type 0} (platform : Platform X) where
  abbrev message_of : String → Payload → ServedHost X → ServedAgent X → MessageEnvelope
  message_of type payload host a =
      envelope_for (class_of platform true) host.descriptor type payload "host" a.world

  -- The agent once the message is in its mailbox.
  abbrev mailed : String → Payload → ServedHost X → ServedAgent X → ServedAgent X
  mailed type payload host a =
      let b = set_fields (fields_after_envelope (class_of platform true) a.world) a in
      set_mailbox (put (message_of type payload host a) a.mailbox) b

  mailed-IsLive :
      (type : String) (payload : Payload) (host : ServedHost X) (a : ServedAgent X)
      → IsLive a
      → IsLive (mailed type payload host a)
  mailed-IsLive type payload host a live =
      let m = message_of type payload host a in
      let b = set_fields (fields_after_envelope (class_of platform true) a.world) a in
      let live_b = set_fields-IsLive _ a live in
      record {
        coherent =
            subst (λ (q : Result ⊤ × ServedAgent X). IsCoherent q.1) (sent-live m b live_b)
              (send-IsCoherent m b live_b.coherent);
        waits = live.waits;
        open_yet = live.open_yet;
      }

  posted :
      (type : String) (payload : Payload) (host : ServedHost X) (a : ServedAgent X)
      → IsLive a
      → host.held ≡ holds a
      → post_message platform type payload (hosts true host) ≡ (
        ok (message_of type payload host a).message_id,
        hosts true (record host { held = holds (mailed type payload host a) }),
      )
  unfolding post_message send_message
  posted type payload host a live held =
      let m = message_of type payload host a in
      let b = set_fields (fields_after_envelope (class_of platform true) a.world) a in
      let live_b = set_fields-IsLive _ a live in
      ap (λ s. around_server true (send_to (class_of platform true) s host type payload "host"))
        held
      ∙ ap
          (λ (q : Result ⊤ × ServedAgent X).
            around_server true (around host (continue q (λ _. pure m.message_id))))
          (sent-live m b live_b)

  -- What the page has sent, as the agent finds it and answers it: `before` were its events and `early`
  -- the messages that waited.
  pub record Reaches (t : String) (early : List MessageEnvelope) (before : List Note)
      (server : Server X) : Type 0 where
    pub host : ServedHost X
    pub agent : ServedAgent X
    pub message : MessageEnvelope
    pub is_hosted : server ≡ hosts true host
    pub is_held : host.held ≡ holds agent
    pub live : IsLive agent
    pub waits : agent.mailbox.items ≡ early ++ message ∷ []
    pub says : (message.type ≡ "MESSAGE") × (message.payload ≡ text_payload t)
    pub answered :
        notes_of (run_task (class_of platform true) (length agent.mailbox.items) agent)
        ≡ before
          ++ (echoes_of platform.str early
              ++ received platform.str message ∷ completed platform.str message ∷ [])
    pub echoed : (echo_result platform.str message.payload).text ≡ some (join "Echo: " t)

module _ {X D : Type 0} (platform : Platform X) (files : Files D) (directories : Directories)
    (n : ℕ) (quiet : IsQuietPlatform platform) where
  posted-Reaches :
      (t : String) (host : ServedHost X) (a : ServedAgent X)
      → IsLive a
      → a.emit_callback ≡ some tt
      → Reaches platform t a.mailbox.items (notes_of a) (
          hosts true
            (record host { held = holds (mailed platform "MESSAGE" (text_payload t) host a) }))
  posted-Reaches t host a live bound =
      let payload = text_payload t in
      let m = message_of platform "MESSAGE" payload host a in
      let b = mailed platform "MESSAGE" payload host a in
      let live_b = mailed-IsLive platform "MESSAGE" payload host a live in
      let (still, wrote) =
        run_task-echoes platform.str (server_environment platform)
          (server-IsQuietEnvironment platform quiet) b live_b bound in
      record {
        host = record host { held = holds b };
        agent = b;
        message = m;
        is_hosted = refl;
        is_held = refl;
        live = live_b;
        waits = refl;
        says = (refl, refl);
        answered =
            wrote
            ∙ ap (λ notes. notes_of a ++ notes)
                (echoes_of-append platform.str a.mailbox.items (m ∷ []));
        echoed =
            (echo_result_text platform.str (host_runtime (server_environment platform))
              (field "text" (text t) end) t (inl refl)).1;
      }

  -- No dump raises and the other tasks do not interfere (`IsQuietPlatform`), and the server's host
  -- holds an `EchoAgent` that is bound to it and whose loop waits. If a text was entered, sending it
  -- from the page says so in the console, clears the input, and puts one message with this text
  -- behind those that wait; the loop still waits. Once the agent's task has run as often as messages
  -- wait, the events in the host are those from before, then the two for each message from before,
  -- and then ECHO_RECEIVED and TASK_COMPLETED for this one, with "Echo: " and the text.
  pub send_message-Reaches :
      (tab : Tab (Site X D)) (host : ServedHost X) (a : ServedAgent X)
      → (tab.page.message_input == "") ≡ false
      → tab.server.server ≡ hosts true host
      → host.held ≡ holds a
      → IsLive a
      → a.emit_callback ≡ some tt
      → let t = tab.page.message_input in
        let q = Handlers.send_message (site_backend platform files directories n) tab in
        (q.0 ≡ ok tt)
        × (q.1.page.log
            ≡ tab.page.log ++ record { message = join "Sending: " t; type = "message" } ∷ [])
        × (q.1.page.message_input ≡ "")
        × Reaches platform t a.mailbox.items (notes_of a) q.1.server.server
  unfolding Handlers.send_message
  send_message-Reaches tab host a entered served held live bound =
      let t = tab.page.message_input in
      rw (entered, served, posted platform "MESSAGE" (text_payload t) host a live held)
        (refl, refl, refl, posted-Reaches t host a live bound)
