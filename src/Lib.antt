-- ===== src/Lib.antt =====
-- EverOS: a verification library for the memory system's background machinery.
--
-- The program keeps memories as markdown files and derives a search index from them. Five parts of
-- it are modelled here.
--
-- The cascade (src/everos/memory/cascade) keeps the index in step with the files. The scanner walks
-- the disk and hands what it finds, with a snapshot of the work queue, to the reconciler, a pure
-- function that returns decisions; the scanner turns each into an upsert. The worker claims batches
-- of pending rows, calls a handler for each and marks the row done or failed; it also schedules the
-- maintenance of the index. All meet in one table, md_change_state.
--
--   Cascade/Queue.antt      infra/persistence/sqlite/repos/md_change_state.py and the table's file:
--                           a table is the list of its rows in insertion order, a call is one
--                           transaction, a function of the table with upsert, claim_pending_batch,
--                           mark_done and the others by their names. Recovery, lists, resets and
--                           the status report stand in Cascade/Queue/Upkeep.antt.
--   Cascade/Reconcile.antt  memory/cascade/reconciler.py and types.py: reconcile.
--   Cascade/Scan.antt       memory/cascade/scanner.py: _collect_scan_inputs, scan_once.
--   Cascade/Worker.antt     memory/cascade/worker.py: _process_one, drain_once and the loop of
--                           drain_until_empty; handlers/base.py as an interface.
--   Cascade/Optimizer.antt  memory/cascade/worker.py: _schedule_optimize, _run_optimize_once and the
--                           end of _run_rebuild_once.
--   Cascade/Supervise.antt  memory/cascade/worker.py: _supervise.
--   Cascade/Health.antt     memory/cascade/worker.py: health, _prune_staleness, reasons.
--   Cascade/DailyLog.antt   memory/cascade/handlers/_daily_log_base.py: the handler that brings the
--                           index rows of one file in line with its entries. The table is a
--                           parameter; Cascade/DailyLog/Lance.antt states what is relied on of it,
--                           and Cascade/DailyLog/ListTable.antt has a table that satisfies it.
--
-- The offline memory engine (src/everos/infra/ome) routes events to strategies.
--
--   Ome/Counter.antt        _stores/counter.py: incr_and_check, get_progress.
--   Ome/Registry.antt       decorator.py, gates.py, triggers.py, events.py, _dispatch/registry.py.
--   Ome/Dispatcher.antt     _dispatch/dispatcher.py: dispatch, inspect.
--   Ome/RunRecord.antt      _stores/run_record.py and records.py: the run records.
--   Ome/Runner.antt         _dispatch/runner.py: the attempts of a run.
--   Ome/CrashRecovery.antt  _background/crash_recovery.py: the start scan.
--
-- The markdown files (src/everos/core/persistence/markdown) hold marked entries behind a YAML
-- frontmatter. A text is the list of its code points.
--
--   Markdown/Text.antt        startswith, endswith and the search of a pattern in a text.
--   Markdown/Entries.antt     entries.py: the markers, split_entries, find_entry.
--   Markdown/EntryId.antt     entries.py: the ids of entries, their text and its parsing.
--   Markdown/Frontmatter.antt frontmatter.py: parse_frontmatter, dump_frontmatter.
--   Markdown/Writer.antt      writer.py and reader.py: write, append_entries, patch_frontmatter and
--                             read, on a map from paths to texts.
--
-- The memorize service (src/everos/service/_boundary.py) collects the messages of a session and has
-- a detector cut them into cells.
--
--   Memorize/Message.antt   memory/models.py: the message; the items that the detector is given.
--   Memorize/Merge.antt     _merge_dedupe_sort.
--   Memorize/Detect.antt    _detect with its retries, _split_messages_per_cell, _slice_tail.
--   Memorize/Boundary.antt  buffer_messages and prepare_cells on the state of one session.
--
-- The search (src/everos/memory/search) compiles the filters of a request for the index, and ranks
-- episodes and their facts.
--
--   Search/Filters.antt     filters.py: the filters, their texts, base_clauses.
--   Search/Filters/Compile.antt   filters.py: compile_filters and what it calls.
--   Search/Hierarchy.antt   hierarchy.py: the entries of the result and the facts that try to enter.
--   Search/Hierarchy/Expand.antt  hierarchy.py: heap_expand and its rounds.
--
-- The paths of the first two lists stand below src/everos and src/everos/infra/ome. The children
-- of a file hold the theorems about it, and modules called Tests the theorems at concrete
-- inputs.
--
-- Choices of the model. A modification time counts nanoseconds, so that the tolerance of 0.01 s
-- is a whole number; a time of the counter store counts microseconds; the worker's clock counts
-- seconds. What a clock returns is an argument of each call. The texts of errors are parameters,
-- and so are the handlers: each call returns a new world and how it ended. The rows of a batch
-- are handled one after the other, where the code starts them together: their marks touch
-- different rows. The drain loop counts the passes that the code allows it; the attempts of a
-- run count its retries down, so both are structural and need no fuel; the supervision runs over
-- the list of rounds that its environment plays. A glob and stat answer with values, an error
-- other than a missing file ends the walk. The scan of a body has the length of the body as
-- fuel, and each entry takes at least one character of it. The retries of the detection count
-- down from three. The rounds of the heap expansion run over the list of episodes in the heap's
-- order. Scores are any type with an order. A write at the start or the end of an attempt may
-- fail, as may each commit of the boundary stage. An upsert reads its lsn and writes its row in
-- one step, except in Cascade/Queue/Races, where other writers come between the two.
--
-- The YAML library, the calendar, the ISO text of a moment, the ranking library, the file
-- system's answers, the boundary detector and the vector store are parameters; a theorem that
-- relies on one names what it relies on among its hypotheses.
--
-- Not modelled: the periodic loops' bodies, the tasks in flight of the maintenance, the text of
-- log lines, the engine's scheduler and its configuration, the structured form of an entry's
-- body, the other handlers, the rest of the search, the knowledge service, and all that calls
-- language models or third-party stores: they are input and output, or stand for a later part of
-- the library.
mod Prelude
pub mod Cascade
pub mod Ome
pub mod Markdown
pub mod Memorize
pub mod Search
