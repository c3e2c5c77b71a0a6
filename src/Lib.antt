-- ===== src/Lib.antt =====
-- ClipBridge: a relay that carries encrypted clipboard clips between the devices of a group, and the
-- shared client library that the hosts are built on.
--
-- The relay (relay/src) keeps three things. The blob store (relay/src/blob.rs) holds ciphertexts of
-- images under their hash, within a budget and a time-to-live; its HTTP handlers are
-- relay/src/blob_routes.rs. The hub (relay/src/hub.rs) has, for each group, a channel for clips, a
-- cache of the last three, and the presence map through which devices behind one egress address
-- learn of each other's LAN addresses. A WebSocket connection (relay/src/ws.rs) turns messages into
-- calls of the hub.
--
-- The client library (core/src) drops clips it has seen (`DedupCache` and `handle_server` of
-- core/src/client.rs), keeps a session with the relay and reconnects, takes the host's commands,
-- finds LAN peers, links up with them, serves and fetches blobs among them, and sends files to them
-- (core/src/lan.rs, core/src/file_transfer.rs). The two programs meet in the messages of
-- core/src/protocol.rs and in the name of a blob, the hex text of a hash. The Windows client
-- (clients/windows/src) stands between the library and the clipboard: it publishes what the user
-- copies, pastes what arrives, and keeps the histories that its window shows.
--
-- Files, and the code that each of them models:
--   Prelude          shared helpers: tests, equality, lists, maps, the characters of Rust
--   Core/Crypto      core/src/crypto.rs: hex digests, `encrypt` and `decrypt` around the cipher
--   Core/Protocol    core/src/protocol.rs: the messages
--   Core/Net         std::net as far as it is used; `ip_in_prefix` of relay/src/hub.rs
--   Core/Dedup       core/src/client.rs: `DedupCache`
--   Core/Delivery    core/src/client.rs: `handle_server`, the task that drains LAN clips
--   Core/Client      core/src/client.rs: `wait_while_relay_suspended`, `apply_session_cmd` and the
--                    choice of addresses to advertise; `Relay` the session with its event loop,
--                    `Reconnect` the outer loop of `run` with its backoff, `Images` the sending and
--                    fetching of images
--   Core/BlobClient  core/src/blob.rs: URLs, and the results that an HTTP status stands for
--   Core/FileTransfer and its children
--                    core/src/file_transfer.rs: `Names` the file names, `Outgoing` the sender's side,
--                    `Incoming` the writer of a received file
--   Core/Lan         core/src/lan.rs: the messages; `Send` and `Receive` the transfer of a file,
--                    `BlobCache` and `Blobs` the blobs, `Peers` the registry of peers, `Records`
--                    what the host is told of them, `Interfaces` the addresses to advertise,
--                    `Node` the shared state of `LanNode` and its tasks,
--                    `Session` the connection of a peer (`run_peer`), `Frames` the socket's frames
--   Relay/Blob       relay/src/blob.rs
--   Relay/Routes     relay/src/blob_routes.rs
--   Relay/Candidates relay/src/hub.rs: what is kept and forwarded of an advertisement
--   Relay/Hub        relay/src/hub.rs: groups, clips, presence
--   Relay/Ws         relay/src/ws.rs
--   Windows          clients/windows/src/bridge.rs: the histories and the set of image hashes;
--                    `Encoding` the choice of an image's encoding, `Clipboard` a change of the
--                    clipboard and a clip that arrives, `Sending` what the user sends by hand and
--                    the files that were received
-- The modules below these hold the proofs, and the modules called Tests the theorems at small inputs.
--
-- A state is a record, an operation a function from the state to its result and the new state, and
-- a call that sends something returns it in a list. Time is a number that the caller passes, since
-- the code reads a clock. A hash map is an association list whose order stands for the unspecified
-- order of iteration. A text is the list of its code points. Numbers are natural numbers; where a
-- counter of the code wraps or saturates (`total_bytes` of the blob store, the byte count of a
-- received file) that is written out.
--
-- The tasks of a LAN node share maps: each event of a task is one step of a relation on the node
-- (Core/Lan/Node/Steps), in any order. An event loop is a function of the list of turns that its
-- `select!` takes, each with the time and the flags as they are then; a list that ends leaves the
-- loop running. A write to a socket fails where the turn says so.
--
-- Parameters: the hash function, the cipher, JSON, base64, the image crate, the texts of socket
-- addresses, the file system with its failures and its `join` of paths, what a socket gives to read, and what an HTTP request
-- answers. Loops recurse on their list; `evict_loop`, `hash_loop`, `send_chunks`, `serve_loop` and
-- `evict_images` run on fuel, which the length of what they work on bounds. Each operation of the hub
-- and the store is one step, since the code locks for each.
--
-- Not modelled: the mDNS daemon and the sockets themselves (registering a service, listening,
-- `dial_and_run`), the client's calls that only read a shared value or queue a command, the sending
-- of HTTP requests, the settings of the relay's process, starting and stopping the Windows client
-- with its window, tray and pairing files, the hosts in other languages (clients/), and the generator
-- of bindings. In the relay's connection a write to the client fails only for a ping.
pub mod Prelude
pub mod Core
pub mod Relay
pub mod Windows
