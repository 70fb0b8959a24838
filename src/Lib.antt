-- ===== src/Lib.antt =====
-- relswap: a release installer and updater.
--
-- The parts of the program and the files that model them:
--   App           src/app.rs: the names of the consumer.
--   Release       src/release: Error (limits and errors of mod.rs), Target (target.rs), Manifest
--                 (manifest.rs), Signature (signature.rs), Archive (archive.rs: Names, Pax, Member, Tar,
--                 Zip, Inspect; the proofs are in Kept, ZipKept, ZipAccount, TarKept, TarLoop, Rounds,
--                 Inspected),
--                 Download (download.rs: Urls, Responses, Body, Metadata; the proofs are in Released,
--                 Authentic, Resolved, Exact, Bounded, Canonical).
--   Install       src/install and the parts of src/fs that it uses: State and Journal (the documents of
--                 mod.rs and journal.rs), Host and Config (what an Installation is given), Disk (the
--                 managed files, and actions on them), Pointer (the command symlink), Verify (version
--                 directories and metadata), Staging (transactions), Activate (the self-test, the
--                 journal, the switch and the state document), Recovery (recovery.rs), Manager (install,
--                 update, rollback).
--   Install.Health and Install.Disk.Triple, Install.Disk.Runs: what a healthy disk is, and rules for
--                 actions under every schedule of failures and under none. The proofs on whole operations
--                 are in Install.Recovery (Keeps, Completes, Locked, Managed) and Install.Activate
--                 (CrashSafe, Prepared, Rollback, RolledBack, Previous for rollbacks; Staged, Written,
--                 Download, Installed, Landed, Versioned, Updated for installs and updates). Install.Sessions puts
--                 sessions into sequences and compares them with an abstract machine on the active
--                 version.
--   External      semver, sha2, base64, ed25519-dalek and chrono, as operations with named laws.
--   Tests         a concrete host, two documents' codec and runs.
--
-- An operation is a function of the same name as in the source. A method of Installation that touches
-- files is an action: it takes the disk, a schedule of outcomes for the coming file system calls and the
-- identifiers that the random generator will give, and answers a result and what is left. Strings and
-- files are lists of bytes; a path is a list of components; numbers are unbounded, and every sum that
-- the source checks for overflow is bounded by the limit that is tested right after it.
--
-- Loops are structural recursion, or recursion on fuel where the source advances a cursor: the blocks of
-- a tar stream (one round more than the stream has bytes; a round reads a 512-byte block), the records of
-- a PAX header (its length; a record is not empty), the headers of a ZIP directory (one round more than
-- the archive has bytes; a header is 46 bytes or more). The ZIP preflight counts down its windows.
--
-- The theorems on the installation take IsLawfulHost: the order of versions is total and printing is
-- undone by parsing, serde_json reads back what it wrote, and a valid document stays under the size limit.
--
-- A disk is called recoverable when its directories are private, its documents decode and are valid, and
-- they agree: without a journal, the pointer's version verifies, or there is no pointer and no active
-- version; with one, the pointer is where the journal found it, as just said, or at the journal's new
-- version, which verifies and belongs to the installation. The state document of a recoverable disk need
-- not name the pointer's version: where a theorem says that it does, it says so.
--
-- A downloader is a function from a URL and a limit to a response; the url crate and the ureq agent are
-- parameters. An update takes what the downloader resolved, metadata and archive, as arguments.
--
-- Not modelled: Windows branches (the model is cfg(unix)), the construction of the ureq agent, the
-- polling loop of the self-test, whether another process has moved a directory that is being written
-- to (a parameter of the host), the command line tool of src/bin/relswap.rs, and file handles.
pub mod Base
pub mod External
pub mod App
pub mod Release
pub mod Install
pub mod Tests
