-- ===== src/Ipc.antt =====
-- proto/ipc.proto and its framing on the daemon's socket: the daemon's side of
-- tapauthd/src/main.rs, and client-pam/src/ipc_client.rs. Administrative messages are of any type.
pub mod Client
pub mod Polling
pub mod Connection
use tapauth.Prelude.{
  ℕ, ◌*◌, ◌%◌, ◌^◌, String, Bool, Option, some, none, ◌++◌, [], ◌∷◌, Result, ok, err, ok_or,
  fail_if, ◌>>=◌, ◌>>◌, Bytes, length, drop, ltb, get_to, to_be_bytes, from_be_bytes,
}

pub data PamOutcome : Type 0 where
  success denied timeout ignore error : PamOutcome

-- `outcome as i32`.
abbrev pub raw_of : PamOutcome → ℕ
raw_of success = 0
raw_of denied = 1
raw_of timeout = 2
raw_of ignore = 3
raw_of error = 4

pub record PamAuthenticateRequest : Type 0 where
  pub username : String
  pub tty_present : Bool
  pub timeout_seconds : ℕ
  pub request_id : String

pub record PamCancelRequest : Type 0 where
  pub reason : String
  pub request_id : String

-- prost keeps the outcome as the number that came, here its 32 bits.
pub record PamAuthenticateResponse : Type 0 where
  pub outcome : ℕ
  pub detail : String
  pub challenge : Bytes

-- `ipc_envelope::Msg`, over the administrative requests and responses.
pub data Msg (Q R : Type 0) : Type 0 where
  pam_authenticate : PamAuthenticateRequest → Msg Q R
  pam_cancel : PamCancelRequest → Msg Q R
  pam_response : PamAuthenticateResponse → Msg Q R
  admin_request : Q → Msg Q R
  admin_response : R → Msg Q R

pub record IpcEnvelope (Q R : Type 0) : Type 0 where
  pub msg : Option (Msg Q R)

-- prost's `encode` and `decode` of an envelope, which a build generates.
pub record IpcCodec (Q R : Type 0) : Type 0 where
  pub encode : IpcEnvelope Q R → Bytes
  pub decode : Bytes → Option (IpcEnvelope Q R)

-- `io::ErrorKind`, as far as the code tells kinds apart.
pub data IoError : Type 0 where
  unexpected_eof invalid_data timed_out permission_denied : IoError
  broken_pipe connection_reset other : IoError

-- `write_framed` and `send_message`: what is written for an encoded message.
unfoldable pub framed : Bytes → Bytes
framed msg_bytes = to_be_bytes 4 (length msg_bytes % 2 ^ 32) ++ msg_bytes

-- `read_exact` on what the peer sends before it closes.
unfoldable pub read_exact : ℕ → Bytes → Result IoError (Bytes × Bytes)
read_exact n bytes = do buf ← ok_or (get_to n bytes) unexpected_eof; ok (buf, drop n bytes)

-- The daemon's limit of 10 MiB, and the limit of the PAM module.
abbrev pub daemon_limit : ℕ
daemon_limit = 10485760

abbrev pub pam_limit : ℕ
pam_limit = 1048576

unfoldable pub read_framed : Bytes → Result IoError Bytes
unfolding read_exact
read_framed stream = do
  head ← read_exact 4 stream
  let len = from_be_bytes 0 head.0
  fail_if (ltb daemon_limit len) invalid_data
  data_read ← read_exact len head.1
  ok data_read.0
