-- ===== src/Lib.antt =====
-- Verification of the catalog of xsync (internal/store): the store that takes files from
-- uploaders, publishes them and hands each to one downloader under a lease.
--
-- Parts. An upload writes a staging file; its coverage (Upload/Coverage.antt) says which bytes
-- were written and its streaming hasher (Upload/Hasher.antt) digests them on the way, both of
-- internal/store/upload.go, and Upload/File.antt is the file itself. Upload/Tracking.antt keeps
-- the three together (`writeLocked`, `Truncate`) beside the sparse file that the uploader means.
-- The upload handle chooses what a transfer continues (Store/Handle.antt,
-- Store/Handle/Open.antt), takes writes, truncations and failures (Store/Handle/Writing.antt),
-- and `Close` settles, publishes, parks or drops the upload (Store/Handle/Closing.antt);
-- Store/Handle/Steps.antt has the life of a handle, with what its client has written and what
-- others do to the store and the disk meanwhile. `publish` makes an object of a complete upload (Store/Publish.antt) and puts it at
-- the tail of its tenant's queue (Store/Queue.antt). `Claim` takes objects from the queue and
-- leases them (Store/Claiming.antt); `Renew`, `ReleaseWith` and `Commit` of
-- internal/store/delivery.go extend a lease, give it back or delete the object (Store/Lease.antt,
-- Store/Delivery.antt, Store/Outcome.antt, Store/Delete.antt). Uploaders see a tree of names
-- (internal/store/namespace.go: Store/Namespace.antt, Store/Rename.antt, Store/Listing.antt;
-- paths of internal/store/path.go: Store/Path.antt). Passes expire leases and abandoned uploads
-- and `Check` looks for damage (internal/store/maintain.go: Store/Maintain.antt); `Recover` of
-- the same file brings uploads to an end that a crash cut short (Store/Recover.antt). The keys of
-- the indexes are texts (internal/store/schema.go: Store/Keys.antt, Store/Decimal.antt), and the
-- indexes can be rebuilt from the records (Store/Rebuild.antt); the counters are kept beside the
-- catalog (internal/store/store.go: Store/Tx.antt, Store/Counters.antt), and Store/Run.antt is
-- `update` with the runs of a store; Store/Calls.antt has the calls that clean a name first. The
-- store asks a gate for room on the disk (internal/capacity/controller.go: Capacity.antt). Before
-- any of this, internal/netguard/netguard.go bounds connections (Netguard/Listener.antt) and
-- failed logins (Netguard/AuthLimiter.antt). The records are those of internal/model/model.go
-- (Model.antt).
--
-- State. `Db` has a bucket for each bucket of schema.go, `Tx` is a catalog inside a write
-- transaction with the counter delta, and a closure that the source passes to `update` is a
-- function from `Tx` that returns `Result`. What it reports to its caller through captured
-- variables is a component of the result. go.etcd.io/bbolt is the parameter `Bolt` (Bolt.antt), a
-- record of operations with their documented laws; Bolt/Memory.antt meets it. bbolt serialises
-- write transactions, so the interleavings of a store's users are the orders of its transactions
-- (`Reach`); what a transaction was told by an earlier read (the candidates of a claim, the ids
-- of an expiry) is any list.
--
-- Conventions. Instants are UnixNano as natural numbers, the zero time is 0. One reading of the
-- clock serves a transaction, but for `ExpireLeases`, which has two. Texts are lists of bytes;
-- EqualFold and path.Match are those of ASCII texts. Sums of sizes do not overflow. The catalog
-- holds decoded records: the JSON round trip is taken as exact, and so a record that does not
-- decode does not occur. Failures of bbolt itself roll the transaction back and are not modelled.
-- The functions of Store/Namespace.antt and Store/Rename.antt take paths that `CleanPath` has
-- cleaned. A reservation is a ticket in the controller's list of live ones, in place of the
-- release function that is returned. The share of the disk that `reserveFloor` computes in
-- floating point is a field of the controller. `checkAncestors` visits the ancestors from the
-- root down; the answer is the same. `Claim` takes the catalogs that its at most four rounds
-- meet. The hasher's digest is the sequence of bytes that were fed to SHA-256. Its loop has the
-- number of pending chunks as fuel.
--
-- Files. `Disk` gives the content of a file by its name, and a name stands for an open file. `Os`
-- is what one call of a handle meets: the clock, the gate, a random id, and whether each
-- operation on files succeeds, with the bytes that a transfer moved before an error. `sha` (the
-- hexadecimal SHA-256 of a text), `text` (the message of an error), `root` (the store's
-- directory) and `policy` are parameters of the definitions. A removal of a file does not fail,
-- and a transaction whose closure succeeds commits. `ReadAt` and `BaseSize`, which change
-- nothing, are left out, and so is the unlinking of a blob that a publication replaces. What
-- `Recover` meets is a function of the upload's id. The walk of `ListKeys` has fuel, since it
-- does not end for every name; without a delimiter the number of names and one is enough. The
-- loop of `WaitN` over the rate limiters is one answer of the gate. `UpdateObject` is taken with
-- functions that change protocol metadata only, as its comment demands. A limit
-- of the network guard that is not positive is none, and is a natural number.
--
-- Not modelled: files, directories and fsync but for the content of staging files and blobs; the
-- collection of blobs after a commit, `Reconcile` and `sweepGC`, which walk the disk; `List` and
-- `Stat`; logging; wake-ups of waiting downloaders; the schema version and when a rebuild runs;
-- the measurements, rates and upload slots of capacity control; deadlines and the stall guard of
-- internal/netguard; protocols, HTTP, configuration and the command line, which only call the
-- store.
pub mod Prelude
pub mod Bolt
pub mod Model
pub mod Upload
pub mod Store
pub mod Capacity
pub mod Netguard
