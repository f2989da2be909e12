-- ===== src/Ipc/Connection.antt =====
-- tapauthd/src/main.rs: one connection of the daemon's socket, and the cancels. The handlers of the
-- other requests are parameters here; the daemon's own are in Daemon/Requests and Daemon/Admin.
pub mod Cancel
use tapauth.Prelude.{
  ℕ, String, Bool, true, false, Option, some, none, List, [], ◌∷◌, Result, ok, err, if◌then◌else◌,
  Bytes, is_empty, Map, lookup, remove, ◌==◌, string_eq,
}
use tapauth.Ipc.{
  PamOutcome, raw_of, ignore, error, PamAuthenticateRequest, PamCancelRequest,
  PamAuthenticateResponse, Msg, pam_authenticate, pam_cancel, pam_response, admin_request,
  admin_response, IpcEnvelope, IpcCodec, IoError, unexpected_eof, invalid_data, timed_out,
  permission_denied, broken_pipe, connection_reset, other, framed, read_framed,
}

-- `ServerState`: the channel of each request that can be cancelled, the channels that were told,
-- and what the other handlers keep.
pub record ServerState (S : Type 0) : Type 0 where
  pub cancel_registry : Map String ℕ
  pub told : List ℕ
  pub rest : S

-- How a connection ends, and the bytes that were written before.
pub record Served (S : Type 0) : Type 0 where
  pub result : Result IoError (Unit {0})
  pub written : Bytes
  pub state : ServerState S

-- What the read of the request gives.
pub data Arrival : Type 0 where
  arrives : Bytes → Arrival
  takes_too_long : Arrival

abbrev pub plain : PamOutcome → String → PamAuthenticateResponse
plain outcome detail = record { outcome = raw_of outcome; detail = detail; challenge = [] }

-- The classification of errors in `write_response`.
unfoldable pub forgive : IoError → Result IoError (Unit {0})
forgive broken_pipe = ok tt
forgive connection_reset = ok tt
forgive unexpected_eof = ok tt
forgive invalid_data = err invalid_data
forgive timed_out = err timed_out
forgive permission_denied = err permission_denied
forgive other = err other

module _ {S : Type 0} where
  unfoldable pub handle_pam_cancel :
      PamCancelRequest → ServerState S → PamAuthenticateResponse × ServerState S
  handle_pam_cancel req s = elim (lookup req.request_id s.cancel_registry) [
    | some tx ↦ (
      plain ignore "Cancel forwarded",
      record s { cancel_registry = remove req.request_id s.cancel_registry; told = tx ∷ s.told },
    )
    | none ↦ (plain ignore "No matching request to cancel", s)
  ]

  -- `envelope_pam_response`.
  unfoldable pub answer_pam :
      {Q R : Type 0} → PamAuthenticateResponse × ServerState S → Msg Q R × ServerState S
  answer_pam (response, after) = (pam_response response, after)

  module _ {Q R : Type 0} (p : IpcCodec Q R) where
    -- `write_framed`, with the error of `write_all` where it fails.
    unfoldable pub write_response : Option IoError → IpcEnvelope Q R → ServerState S → Served S
    unfolding framed forgive
    write_response none msg s = record {
      result = ok tt;
      written = framed (p.encode msg);
      state = s;
    }
    write_response (some e) msg s = record { result = forgive e; written = []; state = s }

    unfoldable pub reply : Option IoError → Msg Q R × ServerState S → Served S
    unfolding write_response
    reply broken (answer, after) = write_response broken (record { msg = some answer }) after

    module _
        (authenticate : PamAuthenticateRequest
          → ServerState S
          → PamAuthenticateResponse × ServerState S)
        (administer : Q → ServerState S → R × ServerState S) where
      unfoldable pub dispatch : Option (IpcEnvelope Q R) → ServerState S → Msg Q R × ServerState S
      unfolding handle_pam_cancel answer_pam
      dispatch none s = (pam_response (plain error "Unknown IPC message"), s)
      dispatch (some envelope) s = elim envelope.msg [
        | some (pam_authenticate req) ↦ answer_pam (authenticate req s)
        | some (pam_cancel req) ↦ answer_pam (handle_pam_cancel req s)
        | some (admin_request req) ↦
            let (response, after) = administer req s in (admin_response response, after)
        | some (pam_response _) ↦ (pam_response (plain error "Unknown IPC message"), s)
        | some (admin_response _) ↦ (pam_response (plain error "Unknown IPC message"), s)
        | none ↦ (pam_response (plain error "Unknown IPC message"), s)
      ]

      -- The end of `handle_conn`, with what `read_framed` gave.
      unfoldable pub serve : Option IoError → ServerState S → Result IoError Bytes → Served S
      unfolding reply dispatch
      serve broken s (err e) = record { result = err e; written = []; state = s }
      serve broken s (ok req_bytes) =
          if is_empty req_bytes
          then record { result = ok tt; written = []; state = s }
          else reply broken (dispatch (p.decode req_bytes) s)

      -- `known` is whether the socket gives the credentials of the peer, and `broken` the error of
      -- the write.
      unfoldable pub handle_conn : Bool → Arrival → Option IoError → ServerState S → Served S
      unfolding serve read_framed
      handle_conn false arrival broken s = record {
        result = err permission_denied;
        written = [];
        state = s;
      }
      handle_conn true takes_too_long broken s = record {
        result = err timed_out;
        written = [];
        state = s;
      }
      handle_conn true (arrives stream) broken s = serve broken s (read_framed stream)
