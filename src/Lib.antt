-- ===== src/Lib.antt =====
-- The core of InkHole, a program that hands files and folders to nearby devices: the Rust crate
-- rust/crates/inkhole-core. Peers find one another by discovery, authenticate over QUIC, and
-- exchange a signed offer and the content; a store of transfers commits what has arrived to an
-- inbox, and a service reports to the application through a queue of events. All paths below are
-- from the root of the repository.
--
--   * Base and its children: truth values, lists, texts as lists of Unicode scalar values with
--     their UTF-8 bytes, and integers, over native naturals.
--   * Errors: `CoreError` and `Result` of rust/crates/inkhole-core/src/error.rs. An error keeps
--     its constructor and its message; the payload of a foreign error is dropped.
--   * Protocol: rust/crates/inkhole-core/src/protocol.rs and `valid_blake3` of hash.rs. Hex has
--     the texts of hexadecimal digits; Names, Filenames and Paths the rules on file names and on
--     the paths of folder entries, with `folder_entry_path` of state.rs; Manifest the validation
--     of folder manifests; Authentication the handshake with a shared secret; Capabilities,
--     Signatures, Offers and Probes what peers announce and sign; Frames what goes over a stream.
--   * Service.EventQueue: the queue of rust/crates/inkhole-core/src/service.rs, its operations as
--     functions on the state that the mutex guards. Waiting adds the loop of `pop`, with what
--     other tasks do between two looks at the queue as an explicit schedule.
--   * Wormhole: rust/crates/inkhole-core/src/wormhole/tunnel.rs. Records has the writer and the
--     reader of encrypted records, with the loops of their tasks; the reader's loop has fuel, for
--     which any number above that of the records is enough. Peer is the loop of `run_sender` and
--     Upstream that of `run_receiver`, one step for each turn of their `select!`. Times are in
--     milliseconds.
--   * Ssh.Pairing: `ActivePairing` and the operations of a session on it, of
--     rust/crates/inkhole-core/src/ssh/session.rs, as functions on what its lock guards.
--   * Store: rust/crates/inkhole-core/src/state.rs. For transfers of single files, Disk has the
--     records of the store and what stands on disk, for one transfer id and the root that its file
--     goes to; Destination the choice of a name, a loop over the indices up to the largest `u32`;
--     Finalize and Prepare the operations. For transfers of folders, Tree has what stands below a
--     directory, as a list of paths, and the check of a folder against its manifest, a walk whose
--     fuel is one more than the number of entries; Folders has the records, Folders/Prepare,
--     Folders/Finalize and Folders/Files the operations, with the turn of the loop of
--     rust/crates/inkhole-core/src/transport.rs that receives one file of a folder. The commit
--     lock makes each of them one step. Failures of the operating system other than a missing file
--     are left out, as are times of modification.
--   * Discovery: rust/crates/inkhole-core/src/discovery.rs. Addresses has the addresses of the
--     standard library; Config the settings and their check; Announcements the datagrams;
--     Candidates what may be probed, and what a resolved mDNS service gives; Registry the table of
--     peers, with what the outcome of a probe and a goodbye do to it and the list that is
--     published; Tracker the probes in flight; Handlers the branches of the loop of
--     `run_discovery`, and Loop the loop, one event at a time. A hash map is the list of its
--     entries, a hash set that of its elements. A probe is a task that is in flight until an event
--     says how it ended; times are in nanoseconds.
--   * Transport: rust/crates/inkhole-core/src/transport.rs, the two ends of the transfer of a file
--     after the offer. Receiving is the end of `handle_stream`, from the lock of the transfer on,
--     Sending that of `send_file`, from the first response on, each for a single file; Folders is
--     `handle_folder_stream`. What a connection or a file gives is a list of reads. An end that is
--     cancelled or paused, and a connection that fails, are left out.
--   * Inbox: rust/crates/inkhole-core/src/inbox.rs, the root for each category of files; a path is
--     a text.
--   * Identity: `validate_metadata` and `summary` of rust/crates/inkhole-core/src/identity.rs.
--   * Tests: runs at concrete inputs.
--
-- Code of other crates is a parameter of the definitions that use it: serde_json (`to_vec`,
-- `from_slice`, `request_json`), blake3, hex (`Crates`, with what is relied on in `IsFaithful`),
-- base64 and ed25519-dalek (`Signatures`), uuid (`parse_str`), crypto_secretbox (`Cipher`, with
-- what is relied on in `IsSealing`), unicode-normalization (`nfc`) and the tables of
-- `char::to_lowercase` and `str::to_lowercase`, tokio (`TaskIds`, ids that no running task has)
-- and mdns_sd (`ResolvedService`, what is read of a service); serde_json for announcements is
-- `AnnouncementJson`, the texts of IP addresses `AddressTexts`, each with its round trip. Random
-- bytes are arguments. A `usize` is 64 bits wide and no list reaches that length; a `u64` that the
-- code adds with `checked_add` is bounded where it is added.
--
-- Not modelled: the handlers of the service; sockets, the rest of the QUIC transport and TLS, the
-- rest of the ssh and wormhole transports, the foreign function interface and the applications,
-- whose code is input and output or calls of other crates.

pub mod Base
pub mod Errors
pub mod Discovery
pub mod Identity
pub mod Inbox
pub mod Protocol
pub mod Service
pub mod Ssh
pub mod Store
pub mod Transport
pub mod Wormhole
pub mod Tests
