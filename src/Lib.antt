-- ===== src/Lib.antt =====
-- The engram daemon captures the sessions of coding assistants into a SQLite store, and serves them
-- over HTTP. A session file goes through a parser (internal/capture), which produces engrams and the
-- offset up to which the file is consumed; the watcher hands a batch of engrams to the store
-- (internal/store), whose triggers keep a full-text index and one counter for each surface; the HTTP
-- server (internal/api), behind a bearer token (internal/auth), reads and writes the store. Around the
-- store stand webhooks for new engrams (internal/hooks), the import of files (internal/bundle) and the
-- backup of the database (internal/sync). Apart from it, internal/ccr wakes agents by events, and
-- internal/versioncheck looks for a newer release.
--
-- Which file models which part
--   Prelude           numbers, lists, counting, integers, and what the source uses of Go's packages
--                     bytes and strings.
--   Engram            internal/engram/engram.go. Bytes are natural numbers; the meta text is a value
--                     with the fields that the format strings print.
--   Store/Schema      internal/store/schema.sql: the tables, and every trigger as a function.
--   Store/Engine      what the code relies on of SQLite: fresh positive row ids, and ORDER BY as an
--                     ordered list of the same rows. Tests/Sqlite is an engine that has these laws.
--   Store/Session     a statement that may fail, and an action on the database as a function from a
--                     session to a result and a session. A session holds the schedule of failures.
--   Store/Write       Insert, InsertBatch, DeleteByID, Purge and UpdateMeta of
--                     internal/store/store.go.
--   Store/Read        Count, CountEngrams, CountBySurface, GetByID, Retrieve, Recent, RetrieveAfter.
--   Store/Open        Open with backfillFTS and backfillCounts.
--   Store/Search      Search, doSearch and isFTS5SyntaxError.
--   Store/Stats       Stats, its probes and its percentile.
--   Store/*           theorems on these: Counters and Index (what the triggers keep), Invariant,
--                     Batch (transactions), Lookup, Queries, Totals, Paging, Unchanged (what leaves
--                     the database as it was).
--   Capture/Chunks    splitOversized of internal/capture/parser_jsonl.go.
--   Capture/Jsonl     JSONLParser.Parse of the same file, from the bytes of a file and an offset.
--   Capture/Inflight  scheduleParse, flushAll and the timers' callbacks of internal/capture/watcher.go.
--   Capture/State     internal/capture/state.go; encoding/json is a parameter.
--   Capture/Commit    parseAndCommit of internal/capture/watcher.go.
--   Capture/Cursor    internal/capture/parser_cursor.go.
--   Capture/Events    matches and onEvent of internal/capture/watcher.go.
--   TextSearch        QuestionToFTS of internal/textsearch/textsearch.go.
--   Api/Export        handleExport of internal/api/routes.go.
--   Api/Params        strconv.ParseInt and strings.TrimSpace, as the handlers use them.
--   Api/Http          requests, answers, and the methods that a handler admits.
--   Api/Engrams       the handlers of internal/api/routes.go for /engrams and the paths below it.
--   Api/Queries       those for /healthz, /surfaces, /hooks, /search and /recent.
--   Api/Timeline, Api/Digest, Api/Ask    those for /timeline, /digest and /ask.
--   Api/Sort          the insertion sort that the timeline and the digest share.
--   Api/AskCache      internal/api/ask_cache.go; its children compare it with a list by key.
--   Api/Metrics       handleMetrics of internal/api/metrics.go, and its provider in
--                     cmd/eideticd/main.go.
--   Api/Effects       what the handlers leave in the database.
--   Api/Routes        the routes and the middleware of New in internal/api/server.go. A server is its
--                     session of the store, its latency window and the answer cache.
--   Auth              internal/auth/auth.go: the encoding of a token, Validate, the middleware.
--   Dict, Files       maps with texts as keys, and what the code uses of Go's package os.
--   Sync              internal/sync/syncer.go: the configuration and the state file.
--   Sync/Upload       upload, SyncNow and TriggerIfDue; its children are about sequences of them.
--   Sync/Restore      RestoreFromConfig.
--   Hooks             internal/hooks/hooks.go, with the sink around the store's InsertBatch.
--   Ccr               the broker of internal/ccr/broker.go. Ccr/Mailbox is what one subscription alone
--                     goes through, Ccr/Served compares the broker with it.
--   Ccr/Tools         the requests of internal/ccr/mcp.go, unix.go and ws.go.
--   Ccr/Relay         the loop of internal/ccr/watcher.go.
--   Bundle            internal/bundle/bundle.go. A body is the list of its runes; Bundle/Paragraphs is
--                     splitParagraphs.
--   VersionCheck      internal/versioncheck/versioncheck.go.
--   Api/Latency       LatencyTracker of internal/api/latency.go.
--   Tests             evaluations and concrete inputs for the theorems.
--
-- Numbers. An int64 is an integer without a bound: times are nanoseconds and ids are row ids, and sums
-- and differences of them are exact. The nanoseconds that the minutes of the sync and the seconds of a
-- hook come to, the numbers of a version and the offset of the Cursor parser wrap around at 64 bits. A
-- length, or a place within a file, is a natural number.
--
-- Fuel. The loop of the export runs on fuel, one unit for each page; a page that is not the last has
-- at least one new row, so more fuel than rows is enough. The probes of Stats have as many rounds as
-- there are rows, which is at least as many as the loop takes. The loop that collapses newlines has
-- one unit for each round, of which the length of the text is enough, since a round shortens it. The
-- other loops are structural.
--
-- Not modelled: SQLite itself, text search, the clock, the hash and time.Parse (arguments), reading of
-- session files by the JSONL parser (it does not fail, and a file is its bytes), JSON (how the capture
-- state is encoded, and what a request's body or a line decodes to, are arguments), a state file that
-- holds null for a map, the order in which Go iterates over a map (an argument of the digest),
-- floating point, what net/http parses of a request (its path is clean and decoded), sockets,
-- processes and commands, the token file, the text formats of /metrics, the package internal/autotag,
-- which is regular expressions, and WatchConfig of internal/sync, which is timers and notifications.
pub mod Prelude
pub mod Engram
pub mod Store
pub mod Capture
pub mod TextSearch
pub mod Api
pub mod VersionCheck
pub mod Auth
pub mod Bundle
pub mod Ccr
pub mod Hooks
pub mod Dict
pub mod Files
pub mod Sync
pub mod Tests
