-- ===== src/Lib.antt =====
-- A verification library for LV_DCP, the Developer Context Platform: a local service that scans
-- the repositories of a developer and answers questions of an assistant about them.
--
-- Paths below are from the root of the repository.
--
-- The timeline of symbols (libs/symbol_timeline) is the main part modelled. A scan yields a
-- snapshot of the symbols of a project; the snapshot is compared with the one before, symbols that
-- were removed and added are paired as renames, and what remains goes to a sink, which writes it to
-- the SQLite store. Queries read the store, the reconciler marks the events of commits that
-- git no longer knows, and a tag of the repository makes a release snapshot.
--
--   Base          the shared helpers: Boolean tests, lists, texts, Python's dict.
--   Timeline.Events     the records of store.py, differ.py and rename_detect.py.
--   Timeline.Differ     differ.py: diff_ast_snapshots.
--   Timeline.Rename     rename_detect.py: pair_renames, _similarity.
--   Timeline.Store      store.py: the tables, append_event, the queries, snapshots, scan state.
--   Timeline.Sinks      sinks.py: TimelineSink, MemoryTimelineSink, SqliteTimelineSink.
--   Timeline.Bracket    scan_bracket.py: emit_timeline.
--   Timeline.Reconcile  reconcile.py, and reconcile_orphaned_events of store.py.
--   Timeline.Capture    snapshot_builder.py: the symbols of a scan become a snapshot, and its file.
--   Timeline.Query      query.py: resolve_git_ref, find_removed_since, diff, symbol_timeline.
--   Timeline.Snapshots  snapshot.py, driven by tag events.
--   Timeline.TagWatch   libs/gitintel/tag_watcher.py: list_git_tags, poll_tags.
--
--   Agent               apps/agent/handler.py and daemon.py: the buffer of file events of the
--                       watching daemon, and the step that works off a flush of it. The services
--                       that the step calls are an interface (Services) that it is given.
--   Graph               libs/graph/builder.py: the graph of relations, and its breadth-first search.
--   Impact              libs/impact/analyzer.py: the dependents of a file, by a search of its own.
--   Refresh             libs/copilot/wiki_background.py and _wiki_bg_runner.py: the background
--                       refresh of the wiki, its lock file, and the process it runs in.
--   Refresh.System      the calls and processes as a step relation.
--   Wiki                libs/wiki/state.py: the modules whose article is out of date.
--   Wiki.Lint           libs/wiki/lint.py: the checks of a wiki.
--   Wiki.Update         libs/copilot/orchestrator.py: _run_wiki_update_in_process.
--   Copilot             libs/copilot/models.py and orchestrator.py: check, watch, refresh and ask.
--   Storage             libs/storage/sqlite_cache.py: the tables of a project's cache.
--   Scanning            libs/scanning/scanner.py: the scan of a project into its cache.
--   Scanning.Links      libs/parsers/docs_linker.py: the links from documents to files.
--   Registry            libs/status/registry_audit.py and registry_prune.py: the registry of projects.
--   ScanHistory         libs/scan_history/store.py: the log of scans.
--   Memories            libs/memory/store.py: notes that a person reviews.
--   Paths               libs/core/paths.py: the paths that are ignored, and those of tests.
--
-- How state corresponds. A table of the store is the list of its rows in the order of their ids,
-- `Store` is the tuple of the tables, and each SQL statement of the source is the function on rows
-- that it denotes. A function that changes the store takes it as an argument and returns it.
-- A method that may raise returns an Option or a Result. The clock is a parameter. Points in time
-- are natural numbers of one fixed unit (microseconds where a day is counted), scores are natural
-- numbers of a fixed fraction of 1.0, and a hash is a function on texts.
--
-- Bounds. Three loops run on fuel. The searches of `expand` and `analyze_impact` have one turn
-- for each entry that the queue starts with and one for each target of an edge, since a node enters
-- the queue once. `watch_loop` has one turn for each interval that fits into its time, and one more:
-- each turn takes the clock on by an interval, so the time is over by then. Every other loop is
-- structural recursion on the list that the source iterates over. Python's integers do not overflow,
-- so no width is written out.
--
-- Parameters. `Matcher` is difflib's SequenceMatcher with its documented bound (a ratio is at most
-- 1.0), `GitRunner` and `GitProcess` are the git process, `sha256` is hashlib's, `encode` is UTF-8,
-- `dumps` and `loads` are json's, `Yaml` is the load and dump of PyYAML, and `float` and `str` are
-- Python's.
--
-- Not modelled: files and connections, logging, Prometheus counters, the command line, the tools of
-- the MCP server, the web pages and the editor extension, which pass the answers of the parts above on;
-- parsers of languages, embeddings and language models, which are services or third-party code; the
-- ranking of libs/retrieval and the metrics of libs/eval, which compute with floating-point scores; the
-- dashboards of libs/status and the checks of an installation in libs/mcp_ops, which gather what they
-- read from the disk and from processes.
mod Base
pub mod Timeline
pub mod Agent
pub mod Graph
pub mod Impact
pub mod Paths
pub mod Refresh
pub mod Wiki
pub mod Copilot
pub mod Storage
pub mod Scanning
pub mod Registry
pub mod ScanHistory
pub mod Memories
