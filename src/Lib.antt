-- ===== src/Lib.antt =====
-- persona keeps a patch file as a persistent state store: it mounts a view of a Git repository with
-- the patch applied, lets a command change the view, and writes what changed back to the patch. A
-- daemon keeps such views mounted between commands.
--
-- The parts. internal/patchio reads, checks and filters patch files, and replaces them. cmd/persona
-- holds the commands and the daemon: a session has a key, options, a mounted view and the state of
-- its lease; a request acquires a lease, attaches a process to it, releases it (which exports the
-- view to the patch), flushes, marks or ends the session, and each step saves metadata from which a
-- later daemon restores it.
--
-- Base has what the modules share: lists, results, tests and integers. Text has the parts of the
-- packages bytes, strings, strconv and encoding/hex of Go that the sources use, as far as they use
-- them; white space is that of ASCII.
--
-- Patchio models internal/patchio/patchio.go. Patchio/Paths is checkPath and sanitizePatchPath;
-- Patchio/Quoting the names in header lines (parsePatchHeaderPath, parseMaybeQuotedPathBytes,
-- unescapeGitPath, readQuotedTokenBytes, trimLineBytes); Patchio/Hunk is parseHunkHeader;
-- Patchio/Walk is walkPatchLines over a reader, which gives its bytes and then ends or fails;
-- Patchio/DiffHeader is diffHeaderPaths; Patchio/Validate is ValidatePatchReader; Patchio/Block is
-- patchBlock with shouldSkipNewFileBlock, over a work tree that is given by what lstat and open
-- answer; Patchio/Filter is FilterExistingNewFilesReader; Patchio/Untracked is
-- FilterUntrackedPaths. Bytes are natural numbers. The loops are recursions on the lines or bytes;
-- unquoting has as much fuel as the text has bytes, and each step takes a byte at least.
--
-- Replacing is the replacing of a file by renaming a temporary one over it: the system calls that
-- succeed, in their order, and what they do to a directory of which the machine keeps what the last
-- fsync of it saw. Patchio/Store is writeFileAt with statAtomicTargetAt, createAtomicTempFileAt and
-- commitAtomicTempFileAt, Daemon/MetaFile is writeDaemonSessionMeta and readDaemonSessionMeta over
-- a package json that is a parameter; the answers of the calls are given, so that a theorem for all
-- answers covers every error. Daemon/Stored says which outcome of a session's save such a run is.
--
-- Daemon models cmd/persona. Daemon/Config is buildDaemonSessionConfig with parseEnum;
-- Daemon/Metadata is validateDaemonSessionMeta; Daemon/Calls has the answers of everything that an
-- operation calls outside of the daemon (the clock, processes, mounts, the export, the writing of
-- files), so that a theorem for all answers covers every error; a file that is replaced is
-- replaced, or not, or replaced with an error reported all the same. Daemon/Session is
-- daemonSession with persistSessionLocked; Daemon/Session/Exec is acquireExecWithLease, attachExec,
-- releaseExecGeneration, finishBusyLocked, recoverBusyLocked and abortAcquire; Daemon/Session/Save
-- is flushSessionLocked, markDirtySession and endSessionLocked. Daemon/Group is
-- executionGroupActive, three inspections of /proc at most, and Daemon/Status is
-- parseExecutionProcess and processStartTime; Daemon/Cleanup is cleanupStack. Daemon/Create is
-- createSessionWithCheckpoint with setupMountTargetEnv, with its cleanup stack; Daemon/Restore is
-- restoreSessionWithCheckpoint behind lookupSessionLocked and restoreSessionByKeyLocked;
-- Daemon/Shutdown is closeSessions for one key. Daemon/Gate is lockSessionDuringDrain and
-- trySession with the parts of drainMutations and closeSessions that take a gate: moves of any
-- number of workers in any order. The operations stand under the gate of the session, one at a
-- time, and for a session that the daemon has. Times are nanoseconds from 1970, the zero time is
-- none; generations are of 64 bits and wrap around.
--
-- Daemon/Filename is daemonSafeName, the names of the metadata files and validDaemonMetaFilename.
--
-- Roots models internal/session/session.go: Roots/Mounts is HasMounts, Roots/Owner is validateRoot,
-- Open and RemoveAll, Roots/Create is Create. Text/Filepath is what is used of package
-- path/filepath, Text/Sort is sort.Strings.
--
-- View models the command without the daemon. View/Run is runOnNamespaceThread in
-- cmd/persona/run_with_options.go with prepareBase and setupMountTargetEnv in
-- cmd/persona/mount_env.go, with its cleanup stack, and the exit code of main. It calls the other
-- parts: View/Apply is applyPatchStore in cmd/persona/apply_patch.go, View/Masks is
-- maskIgnoredFiles in cmd/persona/mount_env.go, View/Child is runCommand and View/Export is
-- exportPatchToWriter in cmd/persona/command_exec.go, with gitDiffToWriter in internal/gitx/git.go.
-- View/Paths has isSubpath, patchStatePathsForRepo and planGitDirMount, View/Failure the failures
-- and shouldRemoveSession. A run of git diff is the pieces that it writes and its exit code. The
-- loop of runCommand has fuel for 22 rounds, as many as sleeps of ten milliseconds fit before its
-- deadline, and one.
--
-- Gitx models internal/gitx/git.go. Gitx/Output is boundedOutput; Gitx/Program is git as a function
-- from its arguments to its output and exit code, with withDirArgs, withExcludePathspecs,
-- gitOutputBytes, runQuiet and splitNullList; Gitx/Clean is IsCleanExceptUntracked and
-- IsCleanExceptPaths; Gitx/Base is resolveBaseOID; Gitx/Environment is FilterGitEnv and envWith;
-- Gitx/Attributes is checkStorageAttributes over the answers of the calls that it makes. Paths have
-- slashes, as on Linux.
--
-- Not modelled: the system calls of the mounts, what git does when it applies and compares, sockets
-- and JSON, the flags of the command line, the diagnostics, and the base that is kept for a
-- recovery. An error is kept as what it says where the session stores it, and else as which of the
-- refusals it is.
pub mod Base
pub mod Text
pub mod Daemon
pub mod Gitx
pub mod Patchio
pub mod Replacing
pub mod Roots
pub mod Tests
pub mod View
