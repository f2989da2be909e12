-- ===== src/Lib.antt =====
-- TapAuth: a Linux login that a paired phone confirms. The parts that are modelled and how they meet:
--
-- * client-pam/src/pam_logic.rs is loaded into the process that asks for a password. It replays
--   the verdict of a moment ago to a duplicate call (Pam/Reuse), waits for the daemon (Pam/Waiting, Pam/Terminal),
--   turns the daemon's outcome into a PAM code (Pam/Outcome), knows its hosts (Pam/Host), and makes a whole
--   call of `authenticate` of these (Pam/Attempt, Pam/Transaction).
-- * tapauthd/src/main.rs lets a user's request through once a second (Daemon/Requests) and starts an
--   `AuthSession` of tapauthd/src/auth_handler.rs (Daemon/Handle) on the `DaemonState` (Daemon/State).
--   The session signs and encrypts a request and races two transports (Daemon/Auth/Race), each of
--   which runs `authenticate_with_transport` (Daemon/Auth/Loop) over the handling of single
--   responses (Daemon/Auth/Response).
-- * tapauthd/src/admin_handler.rs administers pairings: the slot of the pairing in progress
--   (Daemon/Admin/Pairing), the settings (Daemon/Admin/Settings), the dispatch of requests
--   (Daemon/Admin/Dispatch) and the completion of a pairing (Daemon/Admin/Complete), which writes
--   the client's directory through `ClientConfigManager` of shared/src/config.rs (Config/Manager, Config/Files).
-- * client-pam/src/ipc_client.rs and the connections of tapauthd/src/main.rs exchange framed
--   envelopes over the daemon's socket (Ipc): the readers of the client (Ipc/Client, Ipc/Polling),
--   a connection of the daemon and the cancels (Ipc/Connection).
-- * shared/src/protocol/pairing.rs holds the sessions of the two sides of a pairing
--   (Protocol/Pairing) over a stream with frames of at most 16 KiB (Protocol/Framing).
-- * shared/src/jni_api.rs is what the Android server calls (Phone): it reads requests, signs grants
--   and encrypts packets.
-- * shared/src/models.rs makes and reads the URL of the pairing's QR code (Models).
-- * shared/src/firewall.rs opens a port while a guard of it is held (Network/Firewall).
-- * shared/src/protocol (Protocol) makes and checks the messages with shared/src/crypto (Crypto) and
--   shared/src/network/discovery.rs (Network) has the retry intervals.
--
-- State and time. An operation that changes state takes the state and returns it with its result.
-- What comes from outside is an argument: the rounds of a transport, the events of a race, the turns
-- of a waiting loop, clocks, random bytes, and which calls of the file system succeed. A loop
-- without a bound of its own runs over the list of what it meets and returns `none` when the list
-- has run out while it still waits; theorems say when a list is long enough for a result. Times are
-- milliseconds in Daemon/Auth and nanoseconds where the code compares `Instant`s.
--
-- Third-party code. The crates of shared/src/crypto are the record `Crates` with the documented laws
-- `CrateLaws` (Crypto/Crates), and prost's encoding is the record `Codec` (Protocol/Message); the
-- envelopes of the socket are `IpcCodec` (Ipc) and the packets of the phone `PacketCodec`
-- (Phone/Messages). A hypothesis that a message is carried says that prost gives back this message.
-- The modules under Tests instantiate all of them and run the model.
--
-- Not modelled: sockets, Bluetooth, D-Bus, TPM and firewall commands, which are I/O; the GUI, the
-- command line, bindings, logs and translations; the Android server's own code, which is not Rust;
-- and for now the peer's identity, the firewall guard inside an attempt and the
-- signing key on disk.
pub mod Prelude
pub mod Crypto
pub mod Protocol
pub mod Config
pub mod Network
pub mod Ipc
pub mod Models
pub mod Daemon
pub mod Phone
pub mod Pam
pub mod Tests
