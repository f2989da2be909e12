-- ===== src/Ipc/Connection/Cancel.antt =====
-- A cancel from client-pam/src/ipc_client.rs through tapauthd/src/main.rs and back.
use tapauth.Prelude.{
  ◌≡◌, refl, ap, ◌∙◌, ℕ, ◌%◌, ◌^◌, ◌≤◌, ◌<◌, String, true, false, some, none, [], ◌∷◌, ok, Bytes,
  length, from_be_bytes, to_be_bytes, is_empty, lookup, remove, string_eq, append-nil,
  take-length-append, drop-length-append, arith,
}
use tapauth.Ipc.{
  ignore, PamAuthenticateRequest, PamAuthenticateResponse, PamCancelRequest, pam_cancel,
  pam_response, IpcEnvelope, IpcCodec, framed, read_exact, read_framed, pam_limit,
}
use tapauth.Ipc.Client.{recv_response, send_message, send_cancel, decode_response, expect_response}
use tapauth.Ipc.Connection.{
  ServerState, Served, arrives, plain, handle_pam_cancel, write_response, dispatch, serve, reply,
  answer_pam, handle_conn,
}

-- An envelope that the encoding gives back, not empty, and small enough for both sides.
pub record IsCarried {Q R : Type 0} (p : IpcCodec Q R) (m : IpcEnvelope Q R) : Type 0 where
  pub decoded : p.decode (p.encode m) ≡ some m
  pub fits : length (p.encode m) ≤ pam_limit
  pub not_empty : 0 < length (p.encode m)

from_be_bytes-to_be_bytes : (n : ℕ) → n ≤ pam_limit → from_be_bytes 0 (to_be_bytes 4 n) ≡ n
from_be_bytes-to_be_bytes n h = omega arith

read_exact-whole : (b : Bytes) → read_exact (length b) b ≡ ok (b, [])
unfolding read_exact
read_exact-whole b =
    let taken = take-length-append b [] (length b) refl in
    let left = drop-length-append b [] (length b) refl in ground (arith, append-nil b)

is_empty-eq-false : (b : Bytes) → 0 < length b → is_empty b ≡ false
is_empty-eq-false [] h = absurd (omega arith)
is_empty-eq-false (x ∷ b) h = refl

-- The length that a reader finds in front of a small message.
read_head :
    (b : Bytes)
    → length b ≤ pam_limit
    → from_be_bytes 0 (to_be_bytes 4 (length b % 2 ^ 32)) ≡ length b
read_head b fits =
    let same : length b % 4294967296 ≡ length b = omega arith in
    rw same (from_be_bytes-to_be_bytes (length b) fits)

read_exact-framed :
    (b : Bytes) → read_exact 4 (framed b) ≡ ok (to_be_bytes 4 (length b % 2 ^ 32), b)
unfolding read_exact framed
read_exact-framed b = ground arith

-- The daemon reads what the client writes.
read_framed-framed : (b : Bytes) → length b ≤ pam_limit → read_framed (framed b) ≡ ok b
unfolding read_framed
read_framed-framed b fits =
    rw (read_exact-framed b, read_head b fits, read_exact-whole b) (ground arith)

module _ {Q R : Type 0} (p : IpcCodec Q R) where
  recv_response-framed :
      (m : IpcEnvelope Q R) (response : PamAuthenticateResponse)
      → IsCarried p m
      → m.msg ≡ some (pam_response response)
      → recv_response p (framed (p.encode m)) ≡ ok response
  unfolding recv_response decode_response expect_response
  recv_response-framed m response carried is_response =
      let b : Bytes = p.encode m in
      rw
        (
          read_exact-framed b,
          read_head b carried.fits,
          read_exact-whole b,
          carried.decoded,
          is_response,
        )
        (ground arith)

module _ {S Q R : Type 0} (p : IpcCodec Q R)
    (authenticate : PamAuthenticateRequest
      → ServerState S
      → PamAuthenticateResponse × ServerState S)
    (administer : Q → ServerState S → R × ServerState S) where
  handle_pam_cancel-some :
      (req : PamCancelRequest) (tx : ℕ) (s : ServerState S)
      → lookup req.request_id s.cancel_registry ≡ some tx
      → handle_pam_cancel req s ≡ (
        plain ignore "Cancel forwarded",
        record s { cancel_registry = remove req.request_id s.cancel_registry; told = tx ∷ s.told },
      )
  unfolding handle_pam_cancel
  handle_pam_cancel-some req tx s waiting = rw (handle_pam_cancel, waiting) refl

  dispatch-cancel :
      (req : PamCancelRequest) (tx : ℕ) (s : ServerState S)
      → lookup req.request_id s.cancel_registry ≡ some tx
      → dispatch p authenticate administer (some (record { msg = some (pam_cancel req) })) s ≡ (
        pam_response (plain ignore "Cancel forwarded"),
        record s { cancel_registry = remove req.request_id s.cancel_registry; told = tx ∷ s.told },
      )
  unfolding dispatch answer_pam
  dispatch-cancel req tx s waiting = ap answer_pam (handle_pam_cancel-some req tx s waiting)

  handle_conn-cancel :
      (req : PamCancelRequest) (tx : ℕ) (s : ServerState S)
      → lookup req.request_id s.cancel_registry ≡ some tx
      → IsCarried p (record { msg = some (pam_cancel req) })
      → handle_conn p authenticate administer true
          (arrives (framed (p.encode (record { msg = some (pam_cancel req) }))))
          none
          s
        ≡ record {
          result = ok tt;
          written =
              framed
                (p.encode (record { msg = some (pam_response (plain ignore "Cancel forwarded")) }));
          state = record s {
            cancel_registry = remove req.request_id s.cancel_registry;
            told = tx ∷ s.told;
          };
        }
  unfolding handle_conn serve reply write_response
  handle_conn-cancel req tx s waiting carried =
      let b : Bytes = p.encode (record { msg = some (pam_cancel req) }) in
      let not_empty : is_empty b ≡ false = is_empty-eq-false b carried.not_empty in
      ap (serve p authenticate administer none s) (read_framed-framed b carried.fits)
      ∙ rw (carried.decoded, not_empty) (ap (reply p none) (dispatch-cancel req tx s waiting))

  send_message-framed :
      (m : IpcEnvelope Q R) → IsCarried p m → send_message p m ≡ ok (framed (p.encode m))
  unfolding send_message
  send_message-framed m carried = let small = carried.fits in ground arith

  -- A cancel that the PAM module sends for a registered request is read by the daemon, which tells
  -- the request's channel, takes it out of the registry and changes nothing else, and the module
  -- reads the daemon's answer; prost is taken to give both messages back, neither empty nor above
  -- 1 MiB.
  pub handle_conn-send_cancel :
      (reason request_id : String) (tx : ℕ) (s : ServerState S)
      → lookup request_id s.cancel_registry ≡ some tx
      → IsCarried p
          (record { msg = some (pam_cancel (record { reason = reason; request_id = request_id })) })
      → IsCarried p (record { msg = some (pam_response (plain ignore "Cancel forwarded")) })
      → (sent : Bytes) × (served : Served S) × (handle_conn p authenticate administer true
            (arrives sent)
            none
            s
          ≡ served)
        × (send_cancel p reason request_id served.written
            ≡ ok (sent, plain ignore "Cancel forwarded"))
        × (served.result ≡ ok tt)
        × (served.state ≡ record s {
          cancel_registry = remove request_id s.cancel_registry;
          told = tx ∷ s.told;
        })
  unfolding send_cancel
  handle_conn-send_cancel reason request_id tx s waiting carried back =
      let req : PamCancelRequest = record { reason = reason; request_id = request_id } in
      let asked : IpcEnvelope Q R = record { msg = some (pam_cancel req) } in
      let reply : IpcEnvelope Q R = record {
        msg = some (pam_response (plain ignore "Cancel forwarded"));
      } in
      (
        framed (p.encode asked),
        _,
        handle_conn-cancel req tx s waiting carried,
        rw (send_message-framed asked carried, recv_response-framed p reply _ back refl) refl,
        refl,
        refl,
      )
