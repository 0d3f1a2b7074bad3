-- ===== src/Lib.antt =====
-- The Rust core of Project Black Monolith: the credential broker that acts for an agent without
-- showing it a secret (the crate `pbm-secret-boundary`), and the proxy MCP-Shield that stands
-- between an agent and a server of tools.
--
-- The parts. A request of an agent goes to the broker (`SecretBoundaryBroker::execute`). The policy
-- engine decides it by its rules; the credential that the rule names is resolved by a provider; the
-- HTTP adapter checks and pins the destination, injects the credential, runs the request and cleans
-- the response; an event is logged. A request comes as JSON (`handle_json_request`), or as a call of
-- a secret-bound tool: then the proxy builds it from the tool's definition and its arguments, and
-- screens the answer. Every other call of a tool passes the check of revoked sessions and the scan
-- of its arguments before it goes to the server; what the server answers to a listing or a call is
-- screened by the same sanitizer. The proxy asks the store of trusted schemas about every tool that
-- a server lists; an operator approves and revokes tools in the file that the store is kept in. What
-- the proxy reports becomes an event with its identity and waits in a spool for delivery; what is
-- refused goes to a file of dead letters. The dashboard's responses bring the revoked sessions.
--
-- Which file models which part:
--   Boundary/Error      crates/pbm-secret-boundary/src/error.rs: `BoundaryError`. A message is kept
--                       as its format string and arguments.
--   Boundary/Secret     crates/pbm-secret-boundary/src/secret.rs: `SecretString`,
--                       `redact_secret_from_text`. Utf8 is the decoding of the standard library.
--   Boundary/Operation  crates/pbm-secret-boundary/src/operation/mod.rs: requests and responses.
--   Boundary/Policy     crates/pbm-secret-boundary/src/policy.rs: `PolicyRule`, `PolicyEngine`; one
--                       function for each numbered stage of `evaluate`, in its order.
--   Boundary/Event      crates/pbm-secret-boundary/src/event.rs: the events and the logger.
--   Boundary/Broker     crates/pbm-secret-boundary/src/broker.rs: `execute`. What it does to the
--                       outside is the list of its effects in their order.
--   Boundary/Http       crates/pbm-secret-boundary/src/operation/http.rs: `HttpOperationAdapter`.
--                       Address holds the address classes; Blocks and Blocks6 the tables of blocks
--                       that they are compared with.
--   Boundary/Provider   crates/pbm-secret-boundary/src/provider/env.rs and provider/mock.rs, and the
--                       simulated backend of operation/mock.rs.
--   Boundary/OnePassword  crates/pbm-secret-boundary/src/provider/onepassword.rs: Reference has
--                       `validate_secret_reference`, Settings the configuration and `with_runner`,
--                       Command `get_secret`, where `none` is a panic.
--   Boundary/Wire       crates/pbm-secret-boundary/src/adapter/json_wire.rs: `handle_json_request`.
--   Shield/Fingerprint  mcp-shield/src/fingerprint.rs: `canonicalize`.
--   Shield/Baseline     mcp-shield/src/fingerprint.rs: `BaselineStore` and its operations; Sync has
--                       `load`, `reload_if_changed` and `save`.
--   Shield/Outbox       mcp-shield/src/outbox.rs: `SpoolRecord`, `enforce_spool_bounds`,
--                       `replay_dead_letters`, `reconcile`, `drain`, `enqueue`. A file is what
--                       reading it gives; the outcome of each write, the answers of the
--                       dashboard and the instants of the clock are inputs.
--   Shield/Revocations  mcp-shield/src/outbox.rs: `observe_revoked_sessions`.
--   Shield/Sanitizer    mcp-shield/src/sanitizer.rs. Scan has `scan_description` and
--                       `scan_injection`, Credentials and AwsSecrets the detectors, Arguments
--                       `scan_tool_arguments`. A loop over byte positions is a recursion on the
--                       bytes that are left.
--   Shield/JsonRpc      mcp-shield/src/jsonrpc.rs: `JsonRpcMessage`.
--   Shield/SecretTools  mcp-shield/src/secret_boundary/mapping.rs: `SecretBoundToolDefinition`,
--                       `SecretToolRegistry`; Requests has `build_operation_request`, Controller
--                       the loading of tools and `execute_mcp_tool_call` of secret_boundary/mod.rs; a
--                       panic of the broker's task is an error after the first of its effects.
--   Shield/Proxy        mcp-shield/src/proxy.rs. Gate has the two refusals of a call, AgentSide one
--                       message of `forward_agent_to_server`, Responses the screening of what the
--                       server answers (`analyze_inspectable_response`). Turns is the relation of both directions on the queues of
--                       requests that wait for a response.
--   Shield/Events       mcp-shield/src/events.rs: `build_shield_event`; and
--                       mcp-shield/src/secret_boundary/events.rs: `PbmAuditBridge`.
--   Prelude, Text, Map, Json are shared: results and tests, texts as lists of code points, the
--   standard library's maps and sets as lists in their order of iteration, JSON values.
--
-- What is outside the repository is a parameter: the parsers of URLs and addresses and the
-- appending of query pairs, the clock, the resolver and the transport, the environment of the
-- process, the text of an error, HMAC and SHA-256, the parsers and printers of JSON,
-- `str::to_lowercase`, the lossy decoding of bytes, `std::path`, whether a blocking task panics,
-- the file system's answers. Numbers are natural numbers: sizes, counts and times stay below the
-- width of their types. The attempts of a record, which are read from the spool, and the sum of its
-- id's bytes need not: in `defer` they wrap at 32 bits, as a release build has it. The functions
-- are structural recursions, with fuel in three places: the printing of decimals is given one more
-- than the number, the runs of a text (`aws_secret_runs`) the count of its bytes, and the loop of
-- `has_vendor_token` one more than the count of its characters; it answers `none` out of fuel.
--
-- Not modelled: the erasure of freed memory, random ids, the real transports and resolvers, the
-- runner of programs with its threads and its deadline, the choice of a provider and the reading of
-- configurations, lock files, the analysis of `tools/list` responses, the reading and
-- writing of lines between the processes, the HTTP bridge, the command line, and the parts that are
-- not written in Rust.
pub mod Prelude
pub mod Text
pub mod Map
pub mod Json
pub mod Boundary
pub mod Shield
