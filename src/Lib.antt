-- ===== src/Lib.antt =====
-- artifact-fs mounts git repositories as file systems: tracked files come from a snapshot of the git
-- tree, their contents are fetched when they are read, and what a user writes goes to an overlay.
--
-- The parts and how they interact. The git store (internal/gitstore) reads the tree of HEAD, the
-- snapshot (internal/snapshot) keeps it under a generation number, the overlay (internal/overlay)
-- keeps local changes and whiteouts, the resolver (internal/fusefs/merged.go) merges the two, and
-- the FUSE adapter and the engine (internal/fusefs) serve the kernel from it. The watcher
-- (internal/watcher) sees HEAD move, and the daemon (internal/daemon) then publishes a new
-- generation and reconciles the overlay with it.
--
-- The files. Base has the helpers that all modules share: bytes, lists, tables with a key, errors,
-- and methods that change a state and may fail (an error comes back with the state it left).
-- Path models model.CleanPath and model.ValidateRepoName (internal/model/types.go), childName
-- (internal/fusefs/merged.go), cleanChildPath (internal/fusefs/fuse_unix.go) and parentDir
-- (internal/snapshot/store.go), and what they use of Go's path/filepath on Unix.
-- Model has the data of internal/model/types.go.
-- Platform is what the code calls and the repository does not implement: files of the system,
-- failures of the database, SQLite's LIKE. It is a parameter of the definitions that use it;
-- Platform.Memory is an instance for running examples.
-- Overlay models internal/overlay/store.go: a Store has the configuration, the directory of the
-- backing files, the rows of overlay_entries and the state of the disk. Overlay.Write has
-- EnsureCopyOnWrite, CreateFile, WriteFile, Remove, Mkdir and SetMtime, Overlay.Rename has Rename,
-- Overlay.Reconcile has Reconcile, DirtyCount and ListByPrefix. The other children have the proofs.
-- Snapshot models internal/snapshot/store.go: the rows of base_nodes by generation and path, and the
-- state of the current generation; each call takes a function that says which of its statements fail.
-- Resolver models internal/fusefs/merged.go over the two stores as interfaces; Resolver.Paths puts
-- the overlay store into that interface.
-- Watcher models internal/watcher/watcher.go (one state of the files for each poll), Inflight models
-- internal/hydrator/inflight.go (channels are numbers), and Inodes models the table of inodes in
-- internal/fusefs/fuse_unix.go (allocInode, ForgetInode, requireInode).
-- Strings is what the code uses of Go's strings and strconv to read what git prints.
-- Hydrator models internal/hydrator/hydrator.go: the queue, the check of cached blobs, ReadBlob and
-- EnsureHydrated as functions of a Service. Hydrator.Workers has callers and workers at the same
-- time: a step is what one of them does under the lock, or with the channel workReady. The heap is a
-- list, and heap.Pop is what container/heap documents: it takes a task that no other precedes.
-- Gitstore models internal/gitstore/gitstore.go. Gitstore.Tree is BuildTreeIndex with
-- addImplicitDirs, Gitstore.Batch the protocol of `git cat-file --batch` (batchCatFile),
-- Gitstore.Batch.Pool the pools and the two reads through them (batchPool, BlobToCache, ReadBlob),
-- Gitstore.Commands the commands that run to their end, with credentialEnv.
-- Engine models internal/fusefs/ops.go over Overlay, Resolver and the hydrator as an interface; its
-- state is that of the overlay, whose disk the hydrator shares.
-- Fuse models the operations of internal/fusefs/fuse_unix.go over Inodes and Engine, one request at a
-- time, with the handles of open files and directories.
-- Redact models internal/auth/redact.go, with net/url and the expression tokenLike as parameters.
-- Registry models internal/registry/registry.go: the rows of the table repos. The interval in seconds
-- is a quotient, as the float64 between gives it for intervals below a month.
-- The modules named Tests and Samples run the code on small inputs.
--
-- Bounds and fuel: loops over lists are structural recursion. The climb in addImplicitDirs has
-- fuel, the length of the node's path: a directory is "." or "/", or shorter than what lies in
-- it; and so has drain, the length of the queue, of which each step takes one task. Times,
-- offsets and modes are natural numbers, and sizes are where the code never compares them with
-- zero; int64 is written out in strconv's limits. A table with no key twice is a list of rows.
-- The time of a call is an argument.
--
-- Not modelled: opening databases, logging, the command line, the daemon, git itself
-- and the kernel's side of FUSE. A transaction is atomic and a failing statement changes nothing, as
-- SQLite documents. White space between fields of git's output is that of ASCII. What is still
-- unread when a process ends is the end of its output. A context that ends is modelled for a caller
-- of the hydrator that gives up, and not elsewhere. readFileChunk (an open, a seek and one read of a
-- file) is one operation of Platform.
mod Base
pub mod Path
pub mod Model
pub mod Platform
pub mod Overlay
pub mod Snapshot
pub mod Watcher
pub mod Inflight
pub mod Inodes
pub mod Hydrator
pub mod Strings
pub mod Gitstore
pub mod Engine
pub mod Fuse
pub mod Redact
pub mod Registry
pub mod Resolver
