-- ===== src/Lib.antt =====
-- Verification of orlop's server: the part that keeps the metadata of the tenants' files and
-- decides which agent may write.
--
-- A mount on an agent's machine talks to cmd/orlop-server over a connection whose certificate names
-- the agent. The server keeps a database for each tenant (cmd/orlop-server/tenantdb.go) with the
-- rows of files, symbolic links, special nodes and directories, the chunks that files are made of
-- with their refcounts, and a journal of each session's writes. Every mutation is one transaction of
-- cmd/orlop-server/manifests.go; it takes a revision of the change feed
-- (cmd/orlop-server/changes.go) and, in a session, appends the inverse operation to the journal
-- (cmd/orlop-server/journal.go). Path leases (cmd/orlop-server/lease.go) say who may write under a
-- path, and the registry of mount leases (cmd/orlop-server/mount_lease_registry.go) says which
-- session of an allocation is the active one; a write carries its session and is checked against it.
--
-- Files, all under the library's root:
-- - Prelude: what the modules share. Go strings and byte arrays are lists of bytes (Texts), Go maps
--   functions into Option (Map); a range over a map takes the order of the keys as an argument.
-- - Fence: mountLeaseRegistry; Install is `install`, Get is `active_lease`, Clear is `clear`.
--   Fence/Resurrection: sequences of its calls.
-- - Lease: leaseManager. The records live on a heap, since the maps by path and by id share them and
--   calls change them in place. Each definition is a section under the mutex: Grant is
--   `grant_locked`, YieldFor is `yield_check` and, after the wait, `yield_timeout`,
--   AuthorizeOrRebindSession is `authorize_or_rebind_session`; Lease/Calls has Refresh, Release,
--   SweepExpired and ReleaseAllForConn. Time, random ids and orders of ranges are arguments. A wait is
--   the interval between two sections, in which any other section may run (Lease/Sessions, `run`).
--   Lease/Invariant and Lease/Preservation: the agreement of the maps. Lease/Removal, Lease/Grants
--   and Lease/Sessions: what removal, grants and reconnects do.
-- - Session: checkSessionFence of cmd/orlop-server/dataplane_server.go, the check of a write's session over the lease
--   manager and the registry, with the decoding of its hex text.
-- - DataPlane: the write handlers of cmd/orlop-server/dataplane_server.go from the decoded request on, with the policy of
--   cmd/orlop-server/policy.go; doublestar.Match is an argument. The parent has the checks and the answers that they share,
--   DataPlane/Puts and DataPlane/Writes a definition per handler, DataPlane/Serve the table of handlers and sequences of requests. A put
--   that waits in YieldFor leaves the server as it is and comes again as an event of its own. The tenant has a lease
--   manager. The proofs are in Soundness, Gates, Cleared and Retry, and in Manifest/Store/Conflicts.
-- - Paths: splitParentName and checkAgentPath, with path.Clean and path.Dir of Go as they are
--   documented.
-- - Manifest: the manifest store. Manifest/Db has the tables as lists of rows (the column of chunks
--   holds the list itself) and the statements that several transactions use; a transaction is a
--   function from the database to a result, so that an error rolls back. Manifest/Chunks: the
--   refcounts. Manifest/Journal: journal, revisions, tombstones, the session check. Manifest/Store:
--   Get and Put. Manifest/Links: Link and Delete. Manifest/Nodes: directories, symbolic links,
--   special nodes. Manifest/Attrs: SetMode, SetOwner, SetAtime. Manifest/Rename: renameOpt, by Steps
--   and Subtree. Manifest/Mutations: all of them, one after another. Manifest/Peel,
--   Manifest/Ownership, Manifest/Mutations/Soundness, Manifest/Store/ReadBack and
--   Manifest/Links/Removal: the proofs.
-- - Manifest/Revert: RevertPaths and applyInverse (cmd/orlop-server/revert.go), the undoing of journaled writes by the
--   store's own transactions; the proofs below it. Manifest/Journal/Query: Query, QueryAfterSeq, LookupLastWriter and the
--   other reads of the journal, and the stream of cmd/orlop-server/control_journal.go over a sequence of broadcasts.
-- - Chunking: the content-defined cuts of cmd/orlop-server/cdc.go, v2020Cut and chunkBytes; BLAKE3 is an argument.
-- - Manifest/Feed: the change feed, queryChanges and the handler of CHANGES_FETCH (cmd/orlop-server/changes.go,
--   dataplane_changes.go), with its order, pages and pruning below it. Manifest/Collection: the batches of the garbage
--   collection (cmd/orlop-server/gc.go).
-- - Control: the control plane's service for disks (cmd/orlop-control/internal). Control/Store has the tables of its
--   database and its reads; Control/Store/Disks the statements on disk_allocations and Control/Store/Pool those on
--   server_pool, server_vms and owner_capacity_reservations, as the SQLite store has them, each with its guard.
--   Control/Allocations: Allocate, Bind, Revoke and GetForUser. Control/Leases: the mount lease, with the
--   classification of a statement that met no row. Control/Placement: Reserve, ResizeOwnerCapacity and the release of
--   unused capacity; Resize and Purge below it. A call that commits several times returns the store with its result, and
--   takes as arguments the answers of the servers and what other calls do to the database during them.
-- - Wire: the bytes of frames, WriteFrame and ReadFrame of cmd/orlop-server/dataplane/codec.go over a stream that is the
--   list of its bytes. Manifest/Chunks/Packing: packChunks and unpackChunks, the bytes of a file's column of chunks.
-- - Quota: the quota manager of cmd/orlop-server/internal/quota/quota.go, with its state in memory and in the file. What
--   the disk and the quota commands answer are arguments; a restart loads the file.
-- - Tests: runs at concrete inputs, and each theorem with hypotheses at one of them.
--
-- A database is sound (`IsSound`, Manifest/Ownership) when every stored refcount is the number of
-- references in the chunk lists of all inodes, each inode counted once however many names it has,
-- the names of an inode agree in chunks and version, no path has two rows, and no inode is beyond the
-- counter.
--
-- Conventions. A uint64 version wraps at 2 ^ 64 (`succ64`); revisions, inodes, sequence numbers,
-- sizes and times are natural numbers, taken below the bounds of their columns. Times are
-- milliseconds and never negative. SQLite's like, glob, substr and length are arguments (`Sqlite`), with
-- nothing assumed of them; a rewrite of several keys is refused when the keys of the result meet.
-- In the control plane times are microseconds, a size of 0 stands for every size that is not positive, and the sum of
-- the quota's test is an int64 that wraps; a sum of allocations that does not fit one is an error, as in SQLite. The presence of chunks in the chunk store is an argument of Put. Recursion is on
-- lists, but for two loops: the chunking has as much fuel as there are bytes, since every cut takes one at least
-- (Chunking/Cover), and the digits of a decimal number have more fuel than the number (Prelude/Decimal). A revert's
-- transactions follow one another with no other writer between. The journal's rows carry SQLite's rowid.
--
-- Not modelled: the handlers that only read and those of chunks, the listing of directories, the channels of the notifications after a
-- commit (the revision rung is the new last_rev, the entry broadcast the new head of the journal), audit
-- and metrics, the chunk store with its files, the arguments of the quota commands, the rest of the
-- control plane (sessions, tokens, certificates and handlers), and the clients.
pub mod Prelude
pub mod DataPlane
pub mod Fence
pub mod Lease
pub mod Paths
pub mod Manifest
pub mod Control
pub mod Chunking
pub mod Wire
pub mod Quota
pub mod Session
pub mod Tests
