-- ===== src/Lib.antt =====
-- A model of the Rust crates of Unified-Correctness-Oriented-Programming-Stack: a language of
-- message-driven services (crates/lang), a runtime that records a deterministic run of one node
-- and replays it (crates/runtime), and the verifier of the traces (crates/tool).
--
-- Parts, and the files that model them:
--   * Base: the helpers. Numbers are native; a u64 and a u128 are numbers with the saturating or
--     wrapping sums of the source (Base/Words), an i64 is an integer with checked_add (Base/Int), a
--     text is the list of its code points (Base/Text), a map is an association list in order of
--     insertion (Base/Dict), Result is a value or an error (Base/Results), and code that appends to
--     a trace or to the list of problems is a writer (Base/Writer).
--   * Lang: crates/lang/src/ast.rs (Lang/Ast) and parser.rs: tokenize (Lang/Tokens), the actions
--     and the line of tokens that one is written as (Lang/Actions), and parse_module by lines
--     (Lang/Modules).
--   * Runtime: crates/runtime/src. The events (Runtime/Event, Runtime/EventEquality), the ids
--     (Runtime/Ids), the scheduler (Runtime/Scheduler), fault phases (Runtime/Fault), the fault
--     injector (Runtime/Injector) and drain_network (Runtime/Network), the loading of a program
--     with its effect contract (Runtime/Program), actors, templates and actions (Runtime/Actor,
--     Runtime/Template, Runtime/Actions), the part of main that both modes share (Runtime/Node,
--     Runtime/Startup), the record mode (Runtime/Record), the replay mode (Runtime/Cursor,
--     Runtime/Replay), parse_config (Runtime/CommandLine), and the lines of JSON of trace.rs and
--     net.rs (Runtime/Lines).
--   * Tool: crates/tool/src/main.rs. verify_payload_lineage (Tool/Payload), verify_trace
--     (Tool/Checks, Tool/Verify), the lineage summary and the walk along a path (Tool/Lineage),
--     verify_cluster (Tool/Evidence, Tool/Cluster), which is compared with what the events alone say
--     (Tool/Cluster/Events), parse_command (Tool/CommandLine), what a report
--     says of a message (Tool/Diagnostics), and main (Tool/Main). A message that the source formats
--     is a constructor (Tool/Problems), and its text an argument of the reports.
--   * Tests: concrete inputs at which the theorems are applied.
--
-- The state of main is the record Node, with the fault injector, the trace and the replay cursor
-- beside it. A step in the record mode takes in the messages that arrived, fires the timers that are
-- due, and makes one delivery; a delivery runs the actions of a handler and sends what it put in its
-- outbox. The replay mode runs the same delivery, and compares what it emits with the trace.
-- The verifiers fold over the events of a trace and report problems.
--
-- The type V of JSON values is a parameter. What the runtime uses of serde_json and uuid is the
-- record Host (Runtime/Host), and what the verifiers use of them is the record Reader
-- (Tool/Payload); JSON on lines is the record Json (Runtime/Lines). IsLawful and IsJson state the
-- documented behaviour that a theorem may ask of them.
--
-- Loops over a list are structural. The loops of the replay over the trace take fuel, one more than
-- the events that are left, since each round reads an event. The loop of the injector that takes
-- full chunks out of its buffer has the length of the buffer as fuel, since a round takes at least
-- two messages out. The loops that read lines have one more than the length of the file, since a
-- line takes at least one character.
--
-- Not modelled: the printing, the listener and its threads, sleeping, the order of iteration over a
-- hash map (here it is that of insertion), the scripts, and the Lean sketch. The machine takes a
-- trace as the list of its events, and the messages that arrive in a step as an argument.
pub mod Base
pub mod Lang
pub mod Runtime
pub mod Tool
mod Tests
