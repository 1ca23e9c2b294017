-- ===== src/Lib.antt =====
-- The unified runtime primitive (urp/): agents that read a mailbox and answer with events, the
-- runtime contract that they share, and what hosts and registries do with them.
--
-- The parts, and how they interact. An agent (`AbstractURPAgent`) is bound to a bus by
-- `initialize`, started by `start`, and then takes one message after the other from its mailbox in
-- a task of its own; it answers them with events that tell the outcome. Subclasses fill the
-- hooks: the checks before the start, before and after each message, and the work itself. A host
-- (`URPHost`) holds one agent, whose callback is a method of the host, and keeps the agent's
-- events in a queue. A registry holds factories of agents by name, and hooks that are called
-- around each creation. The web server holds one host for its clients: it makes a new one when
-- an agent is initialised, logs the events of its agent, and hands them on through web sockets.
--
-- Which file models what:
--   Base, Exec          helpers: numbers, texts and their order, sorting, lists, dicts as association
--                       lists in the order of insertion; actions that change a state and may raise
--   Data                urp/data_types.py: enumerations, envelopes, results and their validator
--   Mailbox             asyncio.Queue as the agent's mailbox and the host's event queue use it
--   Agent.State         the fields of AbstractURPAgent, and what a subclass and its bus provide
--   Agent.Events        emit, and the envelopes that the loop makes
--   Agent.Lifecycle     initialize, set_callback, start, send, state
--   Agent.Handling      the inner try statement of _lifecycle_loop, for one message
--   Agent.Loop          _lifecycle_loop as a task, and shutdown
--   Agent.Operations    schedules of these operations
--   Agent.Frame         what hooks, callbacks and other tasks may change
--   Agent.Keeping       what no event and no callback changes
--   Agent.Taking        the messages that the runs of the loop take
--   Agent.Queues        what comes into the mailbox, read off a log in the world
--   Agent.Drains        what comes and goes in the runs of the loop
--   Agent.Draining      runs that nobody ends
--   Agent.Founding      what the hook _on_initialize establishes
--   Agent.Edges         the moves of the status, each with its operation, and which are documented
--   Agent.Verdict       the table from what the hooks do to the event that answers a message
--   Registry.Defs       urp/agent_registry.py: the class AgentRegistry
--   Registry.Global     its functions for the global registry, a second copy of the same code
--   Registry.Table      what a registry is to those who only see its replies: a table of factories
--   Host.Defs           urp/host.py: URPHost
--   Handle.Defs         urp/agent_key.py: AgentKey, AgentReadiness, AgentEntry, AgentHandle
--   Sample              urp/sample_agent.py: EchoAgent
--   Sdk.Defs            urp/sdk_agent.py: SDKURPAgent, over openhands.sdk as a parameter
--   Web.Conversations   urp/web_server.py: list_conversations, save_conversation
--   Web.Browsing        its browse_directory
--   Web.Endpoints       its host and event log, create_host, initialize_agent, and the endpoints
--                       for the agent's messages and state
--   Web.Socket          its websocket_endpoint
--   Web.Console.Defs    its page (get_index): what the page shows and holds, addLog, updateStatus,
--                       loadConversations, saveCurrentConversation
--   Web.Console.Handlers  openPicker, closePicker, browse, selectCurrentDir, initAgent, sendMessage
--                       and the handler of the web socket's messages
--   Web.Console.Events  what happens to the page: its inputs, buttons and timers, and the web socket
--   Web.Console.Site    the server's endpoints as the page calls them
--   Web.Requests        sessions of requests
--   Scenarios           objects on which theorems are applied, and tests
-- The other files under Agent, Registry, Host, Handle, Sdk, Web, Data and Sample hold the proofs.
--
-- How the code is read. A method is a function from the object to the outcome (a value or an
-- exception) and the changed object. Exceptions are the classes that the code tells apart. What is
-- called and not written in the repository is a parameter: `uuid4`, `utc_now`, `str`, the callbacks,
-- the hooks of a subclass, the factories. Awaiting one of these lets other tasks run; their effect
-- on the object is part of the parameter's effect. `Respects` says what they leave alone: the status,
-- the recorded result and the task; they may send messages, ask for a shutdown, bind a callback
-- and change the world. `Logs` says in addition that the world has a log of the messages that they send
-- to the agent. So `start` is one step towards other calls of `start` and `shutdown`: calls that come
-- while it awaits its check of preconditions are excluded by `Respects`.
--
-- A task is where `_lifecycle_loop` stands: created, waiting for a message, returned, or ended by
-- an exception. `wake` is one run from a wait to the next. Its body is not recursive. `shutdown`
-- awaits the task for a number of runs that is its fuel: one more run is enough once the shutdown
-- event is set. The wait's timeout is the case in which a run finds no message. Statuses between
-- two waits are not seen by other operations.
--
-- A request to the server is one step, as a call on a host is: requests that run at the same time
-- are modelled one after the other. The loop of a web socket goes on for a number of rounds that is
-- its fuel: one more than there are events waiting is enough. The class of the agent that the server
-- hosts, SDKURPAgent in the code, is a parameter of the server, as is what get_conversation_id gives for
-- it: the theorems hold of any class that respects the agent's fields. The files of the conversations
-- are read and written without errors of the file system.
--
-- A handler of the page is a function of the page and the server. A call that is not awaited runs to
-- its end at once, and what it raises stops nothing else; a request without an answer is one that
-- fails. The time in front of a line of the console is left out. `JSON.stringify`, the text of a
-- number and `substring` are parameters. A session of the page is a sequence of events, in any order:
-- what is entered, the buttons that are shown, the timers whenever they are due, any object that
-- arrives on the socket, and requests of other clients. What a handler raises ends that handler.
--
-- Not modelled: logging; the locks of the registry, whose sections are single steps; validation of
-- field types by pydantic, which the types give; the tasks of an agent that its host has replaced;
-- the tools and the prompt of SDKURPAgent; of urp/web_server.py the styles of the page, the time of
-- its timers, handlers of the page that overlap, the routes of FastAPI and how answers are written
-- as JSON; the launcher (run_host.py), which starts uvicorn; the re-exports of urp/__init__.py.
pub mod Base
pub mod Data
pub mod Exec
pub mod Mailbox
pub mod Agent
pub mod Registry
pub mod Host
pub mod Handle
pub mod Sample
pub mod Sdk
pub mod Web
pub mod Scenarios
