-- ===== src/Lib.antt =====
-- Open Quant Studio: the research platform's durable domain service and its strategy catalog.
--
-- The domain service (services/quant-domain) takes commands over HTTP, checks them against JSON
-- schemas, and runs each one in a SQLite transaction that appends one event to the journal, with a
-- row of the outbox and a receipt of the command. Sessions send each other messages, whose
-- receipts go through four states. The catalog (strategies/) holds strategies that the service
-- replays bar by bar; a strategy's order intents make up the tape.
--
-- Base: shared names, Boolean tests, lists and integers over the native numbers, with what the code
-- uses of Python: its integers, `sorted` and the rounding of the decimal context.
-- Domain: services/quant-domain/src/quant_domain/domain.py. A table is the list of its rows; an
-- operation is an `Action`, which takes the tables and returns a result with the new ones or an
-- exception. Journal has _insert_event, _insert_outbox and _insert_log; Sessions has
-- _register_session, _bind_workbench and _validate_active_workbench; Messages has _queue_message
-- and _transition_message_receipt; Submit has _submit_session_command. Their child modules hold
-- the proofs; Submit/Filed has the sequences of commands. Identifiers, hashes, timestamps and texts
-- are natural numbers where the code only compares them. The clock, fresh identifiers, the SHA-256 of a body and the schema check of an
-- event are parameters. Attachments has _register_message_artifact and _validate_source_refs.
-- Revisions and Revise have _create_variant, _promote_revision and the parts of
-- _submit_revision_command that serve them, over the tables of the revision graph. Jobs has the
-- claim of run_next_job, Verification its verification of an artifact and _finish_job,
-- Lifecycle has _cancel_formal_run and _retry_formal_run.
-- Strategy: strategies/<id>/strategy.py, one module for each strategy, named for it: the global
-- STATE is a record, and `on_bar` takes and returns it; none stands for an exception. Host has the
-- bars and the replay; Discipline has the law of an order tape that each strategy's Rules module
-- proves. AShareRotation trades three symbols, with bars and orders of its own.
-- Formal: services/quant-domain/src/quant_domain/formal_runner.py. Protocol has what the host and a
-- strategy's process exchange; Host has run_strategy_host, which releases the bars one by one and
-- stamps each intent with the close at which it is known and the open at which it takes effect;
-- Frame has _read_bounded_frame; Gates has execute_formal_run. The operating system, the process and
-- the engine are parameters.
-- Forward: services/quant-domain/src/quant_domain/forward_replay.py. replay_forward_test runs the
-- same host over the bars of a succeeded run and _result groups the intents by session.
-- Report: services/quant-domain/src/quant_domain/run_report.py. Summary has _reference_summary,
-- Definitions has _definitions, Build has _reconciliation and build_run_report.
-- Data: services/quant-domain/src/quant_domain/data_import.py. Decimal has the numbers and _atoms,
-- Rows has _normalize_rows, Snapshot has build_data_snapshot and _build_portfolio_data_snapshot.
-- Not modelled: the submission and the end of formal runs, the commands that call git, the
-- programs that run inside a strategy's sandbox, the preview of an import,
-- the HTML of a report, and the HTTP routes, JSON schemas, archives and notebooks around them.
-- Every loop is a recursion on a list. The only fuel counts the excess digits of a product: the
-- product itself, which is more than its digits.
pub mod Base
pub mod Data
pub mod Domain
pub mod Formal
pub mod Forward
pub mod Report
pub mod Strategy
