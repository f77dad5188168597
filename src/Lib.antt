-- ===== src/Lib.antt =====
-- The verification library of docker-vrising, a supervisor of a V Rising dedicated server in a
-- container. It updates the game through SteamCMD, resolves and stages a pinned set of mods, swaps
-- the mod files below the server's directory in a journalled transaction, starts the server, and
-- makes the new generation the active one when the server is ready. The library models the parts
-- that decide what is started, what is on the disk and what is in `state.json`.
--
-- How the parts interact. `Application.Run` (run.go) puts a run together: it recovers what an earlier
-- run left, fences the server that that run may have left alive, updates the game after a backup,
-- stages a candidate, applies it, starts the server, and promotes the candidate or rolls it back. The
-- candidate is the graph that `Resolve` (thunderstore.go) returns; its lock and its manifest pass the
-- checks of mods.go. `Apply` (mods.go) builds a journal of the managed files, saves it and
-- moves the files one by one. `RecoverInterruptedTransaction` (state.go) undoes an unfinished
-- journal; `Load` and `Save` (state.go) check every journal that they read or write, and recovery
-- relies on what they check. The server counts as ready when the monitor of logs.go says so.
-- `CommitPromotion` writes its intent, the package lock and the new state in this order, and
-- `reconcilePromotion` finishes what it finds.
--
-- Which file models which part:
--   Prelude     shared types, Boolean tests on bytes and numbers, lists, the type of outcomes.
--   State       the records of state.go (`State`, `JournalEntry`, `PackageLock`, ...).
--   Path        `relativePathParts` of state.go; Path/Parts has its meaning.
--   Journal     `validateTransactionState` of state.go; Journal/Accepted and
--               Journal/Config have what it guarantees.
--   Disk        the file system: `snapshotFileBelow`, `moveFileNoReplace`, `publishServerFile`'s
--               rename, `removeJournalArtifact`, the syncs, and `state.json` itself.
--   Recovery    `recoverQuarantinedJournalEntry`, `recoverConfigJournalEntry` of state.go;
--               Recovery/States lists the states of an entry, Recovery/Sound, Crash, Complete and
--               Frame have the theorems on one entry, Recovery/Config that on the configuration.
--   Transaction `Load`, `Save`, `transactionArtifacts`, `RecoverInterruptedTransaction` of state.go;
--               Transaction/Entries, Restored and Recovered have the theorems on a whole journal, and
--               Transaction/Records what each call does to `state.json`.
--   Promotion   `reconcilePromotion` and (Promotion/Commit) `CommitPromotion`, `RecoverPromotion` of mods.go,
--               `commitTransactionArtifacts` of state.go; Promotion/Stages lists the documents that an
--               interrupted promotion leaves, Promotion/Cleanup what the removal of a generation does,
--               Promotion/Settling, Recovered and Commit/Outcome have the theorems.
--   Vdf         the parser of Valve's data format in steam.go; Vdf/Total and Vdf/Strings have the
--               theorems.
--   Steam       `readInstalledBuild`, `parseRemoteBuild`, `validateUpdatedInstallation` and `Update` of
--               steam.go, with Steam/Console for the lines that SteamCMD prints.
--   Apply       the part of `Apply` from the inspection of the paths on, `quarantineManagedFile` and
--               `publishServerFile` of mods.go; Apply/Displaced, Steps, Frame and Rollback have the theorems.
--   Order       byte strings compared as by `strings.Compare`, and sorting; Order/Laws says when two
--               sortings agree.
--   Config      `LoadConfig`, its readers and `EnvironmentMap` of config.go; Config/Bounds and
--               Config/Game have the theorems.
--   Graph       thunderstore.go: Graph/Refs the order of references, Roots the two managed roots,
--               Metadata `validateMetadata`, `parseDependency` and the retried requests, Canonical
--               `canonicalPackageOrder`, Resolver `Resolve` with `graphResolver.visit`, Digest
--               `PackageLockDigest`. Their child modules have the theorems.
--   Staging     mods.go: `validateManagedManifest` and the checks of files (theorem in
--               Staging/Manifest); Staging/Lock `validateManagedPackageLock` and
--               `validateManagedArchiveSet` (theorem in Staging/Lock/Accepted).
--   Startup     `Application.Run` of run.go: Startup/Host has the interfaces and the log of calls, Trace
--               what is asked of a log, Fallback the fence, `prepareSteam` and `recordFallback`, Stage
--               `stageCandidate`, Launch `launch` with the promotion and the roll-back, Whole `Run`.
--   Health      `CheckHealth` and `procFSInspector.Identity` of health.go; Health/Stat has the text of a
--               process's stat file, Health/Identity and Healthy the theorems.
--   Readiness   the monitor of logs.go: Readiness/Round `observeReadinessRound`, Wait its loop
--               `watch`, Wait/Shown the account of the evidence by the history of the lines, Lines
--               `completeLines` (theorem in Lines/Chunks).
--   Sample      the example disk that the tests share.
--
-- State and failures. A `World` is the server tree, the state tree, `state.json`, the package lock,
-- and the outcomes of the system calls to come: each call takes the next Boolean of `faults`, and a
-- `true` makes it fail. A crash before a call and a failure of it are the same in this model: the
-- rest of the run does nothing; so is a cancelled context, which the code looks at between calls. A list that has run out stands for calls that succeed. Strings are
-- lists of bytes. Numbers are natural numbers, process identifiers and exit codes integers; the
-- sizes and times in these records are copied and compared, and none is computed with at a width.
--
-- In Startup the interfaces of `Application` are functions of what happened before, so they may answer
-- anything; the state document and the log of the calls are what the model keeps.
--
-- Parameters: `time.ParseDuration`, the check of an address by `url.Parse`, what the package service
-- answers, JSON with SHA-256 (a hash of the canonical lock), what the log followers hand over, whether
-- a write to the output fails, and the interfaces of `Application`.
--
-- Bounds and fuel. `Journal.decimal` takes fuel n + 1 for the digits of n. The parser of an object takes one
-- unit of fuel for each round and starts with one more than there are bytes; `completeLines` starts
-- with as many as there are bytes, and each round takes a newline. The depth of
-- `canonicalPackageOrder` is one more than there are packages, and that of the resolver, which the
-- code does not bound, is an argument: one more than there are known packages is enough
-- (Graph/Canonical/Total and Graph/Resolver/Finite). The loop of `watch`, which need not end, is
-- modelled for any number of rounds. Every other loop is a structural recursion on the list, or on
-- the number of tries, that the code ranges over.
--
-- Not modelled: JSON encoding, the kernel's view of symbolic links and of directory descriptors
-- (a path is opened component by component with O_NOFOLLOW in the source, one step here), the test
-- hooks of the structures (nil in the program), processes, the transport of network requests, archives
-- and backups, the copying of files when a generation is staged, the reading of the log files and
-- their pruning, the step of `Apply` that reads the BepInEx configuration (a parameter of it), white
-- space and case folding outside ASCII, and the regular expression of SteamCMD's download lines,
-- which is a parameter.
pub mod Prelude
pub mod State
pub mod Path
pub mod Journal
pub mod Disk
pub mod Recovery
pub mod Transaction
pub mod Apply
pub mod Promotion
pub mod Vdf
pub mod Steam
pub mod Console
pub mod Order
pub mod Config
pub mod Graph
pub mod Startup
pub mod Health
pub mod Staging
pub mod Readiness
pub mod Sample
