-- ===== src/Lib.antt =====
-- Verification library of AgentWire-Cue.
--
-- AgentWire-Cue is a host for plugins, each of which is a state machine ("statechart") that reacts to
-- events: messages of other agents, timers, changes of a message history. Guards and templates are
-- written in a small expression language.
--
-- Files and the code that they model:
--   Value, Value/Dict           the Python values that the program handles; dicts keep their order
--   Outcome                     exceptions as values
--   Expression                  core/expression.py
--     Ast, Lexicon              the syntax trees; the classes of characters
--     Lexer, Parser             tokenize; the methods of _Parser
--     Source                    parse
--     Compare, Eval             _compare; _resolve_path, _call_function, evaluate
--     Template                  render_template
--   Statechart                  core/statechart.py
--     Model, Action             Event, EvalEnv, the engine's fields; computations of actions
--     Handlers, Dispatch        the _action_... functions; _dispatch_action
--     Transition                TransitionResult, _transition_locked
--     Persist                   persist, restore_from_persist
--     Tracked                   run_tracked_transition
--   Sandbox                     core/sandbox.py
--     Path                      _abs, _real, _is_under, with normpath and pathlib
--     Check, Surface            check_persist_path; check_surface_path
--   Permission                  core/permission.py
--     Glob                      fnmatch
--     Enforcer, Checks, Timers  registration; the check_... methods and the filter; timer slots
--   Triggers/Scheduler          core/trigger.py: TriggerScheduler
--   Triggers/Messages, Content, Polling, Cron
--                               core/trigger_impl.py: the four kinds of triggers
--   Loader/Overlay              core/loader.py: _deep_merge
--   Loader/Targets              core/loader.py: _validate_targets
--   Loader/Startup              core/loader.py: check_secrets, discover_plugins, load_all
--   Redact                      core/redact.py
--   A2a                         core/a2a_client.py
--     Retry, Cards              RetryPolicy; PeerCardCache
--     Aliases, Client           the tokens of aliases; A2AClient
--     Responses, Listener, Start
--                               A2AListener: its answers, _handle_inbound, its start
--     Listener/Jsonrpc          _handle_jsonrpc, with its own copy of the tests and the loop
--     Fallback                  FallbackDispatcher
--   History                     core/history_client.py and core/history_proxy.py
--     Cache, Client, Peers      the cache and the calls; the lookups; list_peers
--     Proxy                     what guards see as peers and history
--   Actions                     core/actions.py, with get_safe_env of core/loader.py
--   Host                        core/host.py: _check_requires, _setup_triggers, _wrap_send
--   Prelude                     numbers, tests, lists and integers that the others share
--   Tests                       concrete inputs
-- The modules below these (Laws, Invariant, Fuel, Lossless, Isolation, Ints, States, Guards, Runs, Words,
-- Same, Ensures) hold proofs.
--
-- State and operations. An engine is a record of the fields of StatechartEngine that change; its
-- plugin and its spec are a Chart. A transition is a function from an event and an engine to an
-- outcome and an engine. The context dict is shared by the engine and the environment of the actions:
-- it is passed along in a Run, with the number of readings of the clock and the list of effects on the
-- outside, so that what an action did before an exception stays done. The lock of an engine makes its
-- transitions follow one another, so a history of an engine is a list of events.
--
-- The parts meet as in the program. Actions asks Permission, and Permission the Sandbox; the peer
-- cards pass the Sandbox too. The listener runs handlers, which Triggers make of plugins; a
-- trigger runs a tracked transition of the engine. The fallbacks run the actions of the engine,
-- or end with the request for a transition, which the caller awaits; that a send among the
-- actions of a fallback or of a transition may dispatch fallbacks again is not modelled. The poll
-- of Triggers goes over the rows that the history client lists.
--
-- Given from outside, as records of functions: Runtime (floats and objects of Python), Lexicon
-- (classes of characters), Objects (getattr and calls), Host (clock, clients, json, registered
-- handlers), FileSystem (expanduser, getcwd, realpath), Urls (urlparse, which may raise), Net and
-- Web (the clock, the files and aiohttp), Secrets (files and variables with tokens), Gateway (the calls
-- of the history client), System (what the actions on the outside use). Their functions are pure; where
-- an answer changes with time they are given the number of the call. A call of a method in a guard is
-- taken to change nothing, though context.clear() would. An integer and a float are compared as floats.
--
-- Bounds. The parser runs on fuel, ten units for each token and seven more; the lexer on one unit for
-- each character and one more. Both are enough for every input. The loop over the pages of tasks in
-- History/Peers has no bound in the program; it runs on fuel, one unit for each page. Every other loop
-- is structural.
--
-- Not modelled: the texts of log lines and of exceptions where they repeat the input; the order of
-- awaits of different engines; the refresh of the history snapshot in guards; the file system but for
-- the files of peer cards and the success of a write; sessions of aiohttp. core/observability.py,
-- core/admin_api.py and core/doctor.py, the other functions of core/loader.py and core/host.py, the
-- set-up of triggers and __main__.py are not modelled.
pub mod Prelude
pub mod Value
pub mod Outcome
pub mod Expression
pub mod Statechart
pub mod Sandbox
pub mod Permission
pub mod Triggers
pub mod Loader
pub mod A2a
pub mod History
pub mod Actions
pub mod Host
pub mod Redact
pub mod Tests
