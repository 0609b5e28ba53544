-- ===== src/Lib.antt =====
-- dsql-emulator: a proxy between a PostgreSQL client and a PostgreSQL server that lets the server pass for
-- Aurora DSQL. It refuses what DSQL refuses, applies DSQL's rules on transactions, reports conflicts at
-- COMMIT, and answers asynchronous index builds with a job id.
--
-- The parts and their files:
--   Kind, Verdict   internal/classify/classify.go: the kinds of statement and what the classifier answers;
--                   isCommit and endsTransaction of internal/proxy/session.go.
--   Rules           rules/rules.go: the ruleset (Rules) and its validation (Rules/Validate).
--   Classify        internal/classify: `classify` is Classify, `scan` its loop over the statements and
--                   `broken_rule` that over the rules. Syntax is what the source reads of a parse tree, Walk
--                   walk.go, Columns, Options and Alter the readers of eval.go by subject, Match `matches`,
--                   Kinds kind.go, Isolation isolation.go, Refusal message.go. Violations, Reasons, Async,
--                   Order, Levels, Caches and Writes are about what is refused, which refusal it is, the
--                   ASYNC option, the order of the fields of a message, isolation levels, the caches of
--                   identity columns, and written relations.
--   Txn             internal/txn/txn.go: the tracker of one session's transaction. `admit` is Tracker.Admit:
--                   `settle` its reset outside a transaction, `has_rollback` its first loop, `check` its
--                   second, `note_all` its third. Txn/Segments cuts a batch at the transaction boundaries,
--                   Txn/History is the specification that the tracker refines, Txn/Batch is about one batch.
--   Occ             internal/occ/occ.go: the conflict codes, the intent and its command tag. Occ/Analyze is
--                   Analyze with countIntent and shadowIntent, Occ/Tree the trees that they build, walk and
--                   renumber, Occ/Renumber the numbers in renumberParams. Occ/Positions and Occ/Relabelled
--                   are about the numbers and the trees.
--   Wire            internal/wire: the framed message, and DecodeFrontend over a codec. Wire/Framing is
--                   ReadTagged and ReadStartup, Wire/Startup RewriteStartup; Wire/Frames and
--                   Wire/Parameters are about them.
--   Rewrite         internal/proxy/rewrite.go: stripAsync, statements, asyncKeyword, serverVersionNum;
--                   Rewrite/JobId is newJobID; Rewrite/JobShape, Scanned, Forms, Cuts
--                   and Ordinal are about them.
--   Session         internal/proxy/session.go and adjudicator.go. Session/State is the session's fields and
--                   what it writes; Output, Failure, Conflict, Shadow, Adjudicator and Jobs are its methods
--                   by subject; Backend is pumpBackend (`backend` handles one message of the upstream),
--                   Frontend is pumpFrontend (`frontend` handles one message of the client), with
--                   Frontend/Admission and Frontend/Async; Adjudicator/Savepoint is what precedes a
--                   statement. The other files are proofs: on one failure (Swallow), on the steps of each pump (Exchanges, Steps,
--                   Tracked, Client; Server, Served), on both interleaved (Interleaving), on refusals
--                   (Refusal), on conflicts (Injection, Commit), on a refused lock (Deferral, Repair,
--                   Answered), on the values of a shadow (ShadowValues) and on job ids (JobAnswer).
--                   Handshake is what precedes the pumps, handshake and negotiateTLS, and Negotiation is
--                   about it. Classified puts the classifier of Classify into a session, and
--                   Analyzed the analysis of Occ. Sample is a small environment for tests.
--   Conformance     internal/conformance: the records of what a target answered, and their comparison. Data is
--                   the types, Compare compareObservations, Race Compare with compareSessions and
--                   compareConflictRace, Suites CompareSuites, Unrecorded and Failures, Json and Tag what
--                   they call, Content enforcedCase, Observe the observations and retries of record.go,
--                   Run RunSuite, over a target that answers by what was asked of it so far. Enforced,
--                   Agreement, Alike, Unchanged and Covered are about the comparison, Retries about
--                   execRetryingConflicts, Ran and Complete about RunSuite. Files is Save and SaveDir on a
--                   directory of files, Saved and NotEmpty are about it.
--   Prelude         helpers: lists, text as bytes and its order, integers, durations, Boolean tests.
--
-- How the model stands to the code: a session is a record, each handler a function from sessions to
-- sessions, and what is written to the two connections is kept in two logs, `to_client` and
-- `to_upstream`. The two goroutines of a session handle whole messages, one at a time; an execution is a
-- sequence of such steps in any order. The closures of a hiddenExchange are the constructors of `Hidden`,
-- which hold the captured variables. The map of prepared statements is an association list, the set of
-- touched relations a list.
--
-- The parse tree of pg_query is a record of the fields that the source reads, by statement, with a finite
-- tree of the messages that reflection shows, each with its name, and with the calls that it makes. The
-- fields of a message come in the order in which reflection yields them, which is not fixed.
--
-- Parameters: the parser of pg_query is an argument of `classify` and of `analyze`, which has the deparser
-- too; its scanner and the codec of pgproto3 are fields of `Env`, and so are the classifier and the
-- conflict analysis, so that the proofs about a session hold for any. Nothing is assumed of them but where
-- a theorem says so; Session/Sample and Classify/Sample have concrete ones. The target of a conformance
-- run and the disk that a record is saved on are records of what they answer, Target and Disk.
--
-- Bounds: text is a list of bytes and numbers are unbounded. A time is a number of nanoseconds; a maximal
-- age that is not positive is 0. A loop over a list needs no fuel; reading a connection takes one unit for
-- each message, and as many as there are messages are enough.
--
-- Left out: of a session, writes that fail, logging, TLS itself and the atomicity of steps finer than a
-- message; the bytes that json.Marshal makes of a record, which only Files has, as a parameter; the
-- listener and the relay (internal/proxy/proxy.go, relay.go, tls.go); the probes of the conformance suite,
-- the connections that a case with sessions runs on, and the reading of a directory of records; the
-- commands.
pub mod Prelude
pub mod Kind
pub mod Verdict
pub mod Rules
pub mod Classify
pub mod Txn
pub mod Occ
pub mod Wire
pub mod Rewrite
pub mod Session
pub mod Conformance
