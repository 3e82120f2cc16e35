-- ===== src/Lib.antt =====
-- yank replicates the clipboard of a person's machines over a private peer-to-peer mesh. Each machine
-- runs a daemon that holds one clip, the latest copy made anywhere, and a copy of the mesh state, the
-- machines that are paired. This library models the parts that decide: what counts as the latest
-- copy, what a machine does with one, what it offers to applications, and how mesh states converge.
--
-- How the parts interact: the compositor, the command line and the peers hand selections and clips to
-- the clipboard state machine, which returns effects (save, offer or empty the selection, fetch
-- files). Its stamps order the copies, the mime policy says which types are carried and announced,
-- and the manifest says which files a copy names. The clipboard service performs the effects under one
-- lock. The file service fetches what a copy names into the spool, from the machines connected, and lays
-- it out. The mesh state is changed by pairing and removal, merged with what peers gossip, and decides
-- whom to keep a connection to; names pass a check before they are stored or shown.
--
-- Files and what they model:
--   Prelude          Boolean tests, results with `ensure!` and `?`, mutations that can refuse, lists,
--                    texts and their order, and a `BTreeMap` as its sorted entries.
--   Clip.Time        the clock and durations of the standard library, as src/clip/stamp.rs uses them.
--   Clip.Stamp       src/clip/stamp.rs: `Stamp`, `Stamp::next`, `is_plausible`, `time` and the order.
--   Clip.Mime        src/clip/mime.rs: the tables, `select`, `choose`, `aliases` and the tests.
--   Clip.Copy        src/clip/copy.rs: `Clip`, `Copy` (here `Copied`), `Selection`, `Rep`, `check`.
--   Clip.Settings    src/config/settings.rs: the settings and `max_bytes`.
--   Clip.State       src/clip/state.rs: `Clipboard` and its mutations `copy`, `captured`, `accept`,
--                    `clear`, `expire`, `materialized`. Effects has the types of src/clip/backend.rs,
--                    Offer what a copy is offered as (`carried`, `stripped`, `rehomed`, `serves`,
--                    `fit`), Calls one step for all mutations.
--   Config.Name      src/config/name.rs: `validate_name`, `sanitize`, `sanitize_bounded`.
--   Config.Mesh      src/config/mesh.rs: `MeshState`, `Peer`, `outranks`, `merge`, `add_peer`,
--                    `remove_peer`, `resolve_peer`.
--   Files            src/files/mod.rs: the manifest and its checks, and the URI lists. Files.Crates
--                    holds what other packages give: the blake3 hash, hex and percent encoding.
--   Files.Spool      src/files/store.rs: `Store` and `Incoming`, every operation on the spool.
--   Files.Walk       src/files/store.rs: `walk`.
--   Daemon.Service   src/daemon/clip.rs: `ClipService`, how it performs the effects of a change on the
--                    disk, the peers' watch, the file service and the compositor.
--                    Reading has `paste` and `located`.
--   Daemon.Fetch     src/daemon/files.rs: `materialize`, `pull_all`, `pull` and `receive`, with the sweeps
--                    and the files taken in beside them.
--   Daemon.Copying   src/daemon/files.rs: `spool` and `Job::Copy`, and src/daemon/clip.rs: `copy_files`.
--   Daemon.Control   src/daemon/control: `Request`, `Response` and `answer`.
--   Daemon.Store     src/daemon/store.rs: `MeshStore`, which persists, commits and connects as one.
--   Daemon.Peers     src/daemon/peers.rs: `PeerSet::sync`, `route_inbound` and `connected`; Link which of
--                    two connections is kept, Pulls the claims of pulls.
--   Daemon.Exchange  src/daemon/peers.rs: `serve_ask`, `serve_uni`, `fetch` and a round of `run_fetcher`.
--   Daemon.Pairing   src/daemon/pairing.rs: the outstanding ticket and its redemption.
--   Daemon.Backoff   src/daemon/backoff.rs: the growing delays.
--   Net.Pair         src/net/pair.rs: `pair_with`, `join` and `resolve_peer_name`.
--   Net.Ticket       src/net/pair.rs: how a ticket is printed and read.
--   Net.Wire         src/net/wire.rs: the framing of messages, over a stream of bytes.
--   Net.Contents     src/daemon/peers.rs: `send_contents`.
--   Net.Proto        src/net/proto.rs: the messages, and `Ask::validate`.
--   Tests            runs at concrete inputs, and the theorems at inputs that meet their conditions.
--
-- Conventions: a method returns the new state and its effects, and one that fails returns a `Result`,
-- beside the state where it has that at hand by `&mut`: what it wrote before an error stays.
-- Each reading of the clock is an argument of its own. A text is the list of its code points. An
-- endpoint id is the number that the key's bytes spell. Arithmetic on u64 wraps where a release build
-- wraps it and saturates where the source does. Every loop is a recursion on a list, but that
-- of the attempts of a fetch, which has the number of attempts for its fuel, as the source has.
--
-- Not modelled: the file system and serde (a file is what would be read of it, and whether a write
-- succeeds is an argument), iroh and QUIC, that a disk is full or broken, what happens in the middle of
-- one operation on the spool, the loops of the file service, the peers and the clipboard, Wayland, the
-- socket that requests come over, and the command line.
pub mod Prelude
pub mod Config
pub mod Files
pub mod Clip
pub mod Daemon
pub mod Net
mod Tests
