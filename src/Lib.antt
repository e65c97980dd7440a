-- ===== src/Lib.antt =====
-- A model of the Python clients, demonstrations, checks and release tooling of ai-protocol,
-- version 3 of the adaptive protocol between agents and a gateway.
--
-- The program. A gateway (Rust, not modelled) publishes a policy with the operations and the
-- limit of a principal. python/ai_protocol/protocol.py is the synchronous client: it discovers
-- the operations, and executes one with at most five attempts under one deadline.
-- python/ai_protocol/client.py is the adaptive client: any number of tasks share a gate that is
-- refreshed from the policy, and each call makes attempts through the gate, or hands its
-- operation to a local dispatcher by way of python/ai_protocol/dispatcher.py.
-- python/ai_protocol/conformance.py checks a running service, scripts/release.py validates and
-- publishes a release from the packages and the report of scripts/check_packages.py, the other
-- scripts/check_*.py check the repository, examples/ holds two services, clients of them and
-- demonstrations that start and stop processes, and benchmarks/ analyses measured runs.
--
-- The files.
--   Base, Base/*: tests on numbers and texts, lists, integers. Result: exceptions as values.
--     World: state passing with exceptions. Json: the values of the `json` module. Regex: the
--     regular expressions of the code, by derivatives; Regex/Language has their language, and the
--     equivalence. Http: responses, and `jsonschema` as a parameter.
--   Protocol/Origin, Operation, Discover, Retry, Execute: the functions of protocol.py, named as
--     there; Operation/*, Trace and Bounds hold what is proved of them.
--   Dispatcher: `DispatcherClient.call`. Dispatcher/Replies: its replies.
--   Client/Policy: `validate_policy`; Client/Revision: what it accepts. Client/Gate: the fields
--     of `AsyncClient` with `__init__`, `_acquire`, the `finally` of `call`, `refresh`, `aclose`,
--     `__aenter__` and `_poll`, each cut at its awaits. Client/System: the interleavings of many
--     tasks over one gate; System/Invariant and System/Continuity: what holds along them.
--     Client/Body: `_request`. Client/Call: `call`; Call/*: what holds of it.
--   Conformance: `check_service`, `validate_contract` and `main`.
--   Release/Version, Source, Bundle, Prepare, Registry, Assets, Notes, Publish, Main: the
--     functions of scripts/release.py; Release/Name, SumLines and Copied hold lemmas, Sound,
--     RoundTrip, Order and Visible the theorems.
--   Benchmark/Tasks, Partition: `partition` of benchmarks/multiclient/run.py; Round: its
--     theorems. Benchmark/Percentile, Records, Summary, Trace: `percentile`, `reconstruct`,
--     `summarize`, `read_trace` and the assertions of `analyze_run` of
--     benchmarks/stage4/analyze.py; Records/Own, Records/Ending and Counts: their theorems.
--     Benchmark/Delays, Phases: `failure_reasons`, `application_delays` and `phase_results` of
--     benchmarks/stage4_1/comparison.py. Benchmark/Clients: `client_policy` and the audit of
--     retries of benchmarks/multiclient/analyze_clients.py.
--   Demo/Process: `stop_process`, `child` and the `finally` of `run`, of
--     examples/dynamic_demo.py, quickstart.py and service_integration_demo.py; Process/Stopped:
--     what they leave behind. Demo/Until: `until` of service_integration_demo.py and the loops
--     that wait for a gateway; Until/Ends: how they end. Demo/Catalog,
--     Demo/Support: the handlers of examples/catalog_service.py and support_service.py;
--     Catalog/Answers, Support/Answers: what they answer. Demo/Agent: examples/llm_client.py, its
--     choice of an operation in Agent/Choice, and what it asks in Agent/Asks. Demo/Cli:
--     examples/discover_client.py and dispatch_client.py; Cli/Asks: the exit status. Demo/Sdk:
--     examples/sdk_client.py. Demo/Credentials: examples/setup_demo.py and the environments of
--     quickstart.py and dynamic_demo.py; Credentials/Private: who holds which credential.
--     Demo/Transitions: the reader of events and the script of dynamic_demo.py;
--     Transitions/Leaks: what is printed. Demo/Streams: the catalog and the streams of
--     examples/queue_demo.py, its assertions in Streams/Expiry; Streams/Counted: the counts.
--     Demo/Integration: the traces and assertions of service_integration_demo.py;
--     Integration/Rows: traces that are still written.
--   Checks/Docs, Packages, Snapshot, Consumer, Operations: scripts/check_docs.py,
--     check_packages.py, check_clean.py, check_rust_library.py and check_operations.py; their
--     children hold what a check that passes shows.
--   Examples/*: concrete runs.
--
-- Choices. A Python `dict` from JSON is a list of entries with distinct keys. Times are integers,
-- in milliseconds, of one clock, and sums of times are exact; the product of floats that `percentile`
-- rounds is an argument. The lock of the client is
-- never held across an await, so each section under it is one step, and a task that was notified
-- may look again at any time. What a service, a dispatcher or a registry answers, how long each
-- step takes, and how the gate decides for one call, are functions of what happened before, and
-- every theorem holds for all of them.
--
-- Parameters. `urlsplit`, `urlparse`, `parse_qs`, `int` of a text, `str.lower`, `json.dumps`,
-- `json.loads`, `sha256`, `jsonschema`, `pathlib`, what `re.findall` finds, the language model
-- and the random secrets are arguments; so is what a process, a file system or a peer does. A
-- property that needs more of them has it as a hypothesis: checksums are hexadecimal, secrets
-- differ, a rank is computed exactly. What `json.loads`, `json.dumps` and a validation raise in
-- `DispatcherClient.call` may be any exception; in the other clients `jsonschema` decides, and an
-- exception of its own is not modelled.
--
-- Bounds. The loops of `execute` and `call` are recursions on the five attempts that `range(1,
-- 6)` gives, and the wait for the registries one on its twelve queries. `until` runs on fuel: it
-- sleeps 30 ms in each round and gives up after ten seconds, so that 335 rounds are enough. The
-- wait of dynamic_demo.py sleeps 50 ms and gives up after ten seconds: 201 rounds are enough.
-- Every other loop is structural.
--
-- Not modelled: the Rust sources, the runners and reports of the benchmarks, the tests; printing,
-- the start of servers and processes, and the commands git, gh, cargo, pip and twine, of which
-- only the effects are recorded. A command that fails ends a publication early; that is not
-- modelled. Of examples/, dispatcher_demo.py, which calls a runner of the benchmarks, and the
-- parts of quickstart.py and service_integration_demo.py that only issue requests and compare the
-- answers with constants are left out, as is the prompt of llm_client.py.
pub mod Base
pub mod Result
pub mod Json
pub mod Regex
pub mod Http
pub mod World
pub mod Protocol
pub mod Dispatcher
pub mod Client
pub mod Release
pub mod Conformance
pub mod Examples
pub mod Benchmark
pub mod Demo
pub mod Checks
