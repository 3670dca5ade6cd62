-- ===== src/Lib.antt =====
-- A model of file-pubsub, which collects files from source directories, archives each as a message,
-- and places copies in the directories of the topic's subscriptions, at least once for each.
--
-- The parts, and the files that model them:
--   Base       shared types and parts of Go's library that the code uses (Base/Pattern is path.Match).
--   Domain     internal/domain: life cycle, pending subscriptions, completion, stability, deadlines.
--   Store      internal/gateway/store. Store/World has the disk, the memory between cycles and the
--              environment; Store/Manifest the record of manifest.go and its methods;
--              Store/ManifestStore and Store/Update the store, the update lock and Update;
--              Store/Race the same Update as interleaved steps of several processes; Store/Lease
--              the process lock and the lease of lock.go; Store/Files the operations of archive.go,
--              dlq.go and processed.go over those of atomic.go, and Store/Files/Directory those of
--              the work directory and of reading back; Store/Atomic the moments of one atomic write.
--   Source     internal/gateway/source: the connector interface and the local connector;
--              Source/Download and Source/Remote what the remote connectors share (remote.go, the ssh
--              part of sftp.go, downloadAndClose of ftp.go), Source/Ftp, Source/Sftp and Source/Scp
--              the connectors, Source/Listing parseSCPList, Source/Shell shellQuote, Source/Sessions
--              the requests of a collection to any of them.
--   Config     internal/config: records, applyDefaults, Validate; Config/Expand is ExpandEnv and
--              Config/Load is Load.
--   Usecase    internal/usecase: Pipeline (pipeline.go), Collect (collect.go), Fanout, Retry,
--              Retention, Replay, Status and Cycle, each named for its Go file; Fenced is about the
--              lease check that the stages share, Keeps about the stages and the lock file.
--   Runtime    internal/runtime/daemon.go: Inbox (the queue of topics), Heartbeat (the renewal of the
--              lease), Active and Run (the two start modes and the loops), Names (identity).
--   Command    cmd/file-pubsub: Flags (the flag package's part that the commands use) and Run (the
--              commands with their exit codes).
--   Tests      one small installation and the theorems at it.
-- A stage reads manifests, calls the stores and ends each message with Update, which merges what
-- this process knows into what the store holds under the message's lock. RunCycle is
-- Usecase/Cycle.run_cycle. A Go method becomes a function of the same name in snake case that takes
-- the world and returns its result with the next world; a loop body and the continuation after a
-- call are helpers beside it.
--
-- Conventions. Times are nanoseconds from Go's zero time. A JSON file holds the value that was
-- encoded. Each access to the disk counts one operation, and the environment decides by that count
-- which accesses fail, whether a failing creation leaves its file, what the clock and the local time
-- zone show and what other processes do while this one sleeps, reads between two calls or is about
-- to rename: `fault` and `others` are arbitrary functions, IsHealthy and IsAlone are the hypotheses
-- that nothing fails and that no other process writes. Error values are the sentinels of the stores;
-- texts of errors are left out, except the one that the manifest keeps of a failed delivery.
--
-- Loops. Loops over lists are structural. The update lock is tried 50 times, Update has 10 rounds,
-- Acquire 2 and uniqueMessageID 9999: these are the bounds of the source, at which its code returns an
-- error or the last candidate too, so no fuel is added. The daemon's loops run over a finite list of
-- rounds or events, what a process saw until some moment, so a theorem about every list is about every
-- prefix of an endless run. Race and Atomic are step relations, and their theorems hold at each
-- reachable state.
--
-- Not modelled: the libraries for FTP, SFTP and SSH, which are a server that answers each counted
-- call of the connectors as it likes; in the stages a connector is a value that collect is given.
-- The watcher, the HTTP server and the tickers: the daemon is given their events. The printed tables
-- and messages, the logger and the metrics. The YAML decoder, time.Parse and filepath.Dir are given
-- functions. In the stages an atomic write happens as a whole or not at all; only Store/Atomic looks
-- inside it. Overflow of time.Duration. A subscription's or a source's directory that is data_dir or
-- one of its own directories, which Validate does not exclude: placed files, originals and the
-- stores are apart here.
pub mod Base
pub mod Domain
pub mod Store
pub mod Source
pub mod Config
pub mod Usecase
pub mod Runtime
pub mod Command
pub mod Tests
