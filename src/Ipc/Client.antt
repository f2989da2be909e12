-- ===== src/Ipc/Client.antt =====
-- client-pam/src/ipc_client.rs: the response is read blocking, or in pieces out of a poll loop.
use tapauth.Prelude.{
  ℕ, ◌+◌, Option, some, none, List, [], ◌∷◌, ◌++◌, Result, ok, err, ok_or, map_err, fail_if, ◌>>=◌,
  ◌>>◌, Bytes, length, take, drop, ltb, leb, get_from, from_be_bytes, if◌then◌else◌, String, Bool,
}
use tapauth.Ipc.{
  PamAuthenticateResponse, Msg, pam_authenticate, pam_cancel, pam_response, admin_request,
  admin_response, IpcEnvelope, IpcCodec, IoError, invalid_data, framed, read_exact, pam_limit,
}

pub data IpcError : Type 0 where
  io : IoError → IpcError
  decode : IpcError
  frame_too_large : ℕ → IpcError

pub record IpcClient : Type 0 where
  pub read_buf : Bytes
  pub expected_total : Option ℕ

-- `connect_nonblocking`: the client of a new connection.
abbrev pub fresh : IpcClient
fresh = record { read_buf = []; expected_total = none }

-- What one `stream.read` gives: bytes, or a reason to stop (`WouldBlock`, `Interrupted`, the end
-- of the stream), or another error.
pub data Read : Type 0 where
  chunk : Bytes → Read
  stops : Read
  fails : IoError → Read

-- The loop that reads until there is nothing more, and the buffer that it leaves.
unfoldable pub fill : List Read → Bytes → Result IpcError (Unit {0}) × Bytes
fill [] buf = (ok tt, buf)
fill (chunk b ∷ reads) buf = fill reads (buf ++ b)
fill (stops ∷ reads) buf = (ok tt, buf)
fill (fails e ∷ reads) buf = (err (io e), buf)

-- The first outcome, if it is one, and else the later one.
unfoldable pub or_later :
    {A : Type 0}
    → Result IpcError (Option A)
    → Result IpcError (Option A)
    → Result IpcError (Option A)
or_later (ok none) later = later
or_later (ok (some a)) later = ok (some a)
or_later (err e) later = err e

module _ {Q R : Type 0} (p : IpcCodec Q R) where
  unfoldable pub expect_response : Option (Msg Q R) → Result IpcError PamAuthenticateResponse
  expect_response (some (pam_response response)) = ok response
  expect_response (some (pam_authenticate _)) = err (io invalid_data)
  expect_response (some (pam_cancel _)) = err (io invalid_data)
  expect_response (some (admin_request _)) = err (io invalid_data)
  expect_response (some (admin_response _)) = err (io invalid_data)
  expect_response none = err (io invalid_data)

  unfoldable pub decode_response : Bytes → Result IpcError PamAuthenticateResponse
  unfolding expect_response
  decode_response frame = do envelope ← ok_or (p.decode frame) decode; expect_response envelope.msg

  -- The end of `try_read_response_nonblocking`, with the total that is expected.
  unfoldable pub take_frame :
      ℕ → Bytes → Result IpcError (Option PamAuthenticateResponse) × IpcClient
  unfolding decode_response
  take_frame total buf =
      if leb total (length buf)
      then (
        (do
          payload ← ok_or (get_from 4 (take total buf)) (io invalid_data)
          response ← decode_response payload
          ok (some response)),
        record { read_buf = drop total buf; expected_total = none },
      )
      else (ok none, record { read_buf = buf; expected_total = some total })

  -- What follows the loop.
  unfoldable pub parse :
      Option ℕ → Bytes → Result IpcError (Option PamAuthenticateResponse) × IpcClient
  unfolding take_frame
  parse (some total) buf = take_frame total buf
  parse none buf =
      let waiting : IpcClient = record { read_buf = buf; expected_total = none } in
      let len = from_be_bytes 0 (take 4 buf) in
      if leb 4 (length buf)
      then (if ltb pam_limit len
          then (err (frame_too_large len), waiting)
          else take_frame (4 + len) buf)
      else (ok none, waiting)

  -- `fill` is given what the reader goes on with.
  unfoldable pub resume :
      IpcClient
      → Result IpcError (Unit {0}) × Bytes
      → Result IpcError (Option PamAuthenticateResponse) × IpcClient
  unfolding parse
  resume self (err e, buf) = (err e, record self { read_buf = buf })
  resume self (ok _, buf) = parse self.expected_total buf

  unfoldable pub try_read_response_nonblocking :
      List Read → IpcClient → Result IpcError (Option PamAuthenticateResponse) × IpcClient
  unfolding fill resume
  try_read_response_nonblocking reads self = resume self (fill reads self.read_buf)

  -- The blocking reader, on what the daemon sends before it closes or the read times out.
  unfoldable pub recv_response : Bytes → Result IpcError PamAuthenticateResponse
  unfolding read_exact decode_response
  recv_response stream = do
    head ← map_err io (read_exact 4 stream)
    let len = from_be_bytes 0 head.0
    fail_if (ltb pam_limit len) (frame_too_large len)
    payload ← map_err io (read_exact len head.1)
    decode_response payload.0

  -- `send_message`: a message whose length does not fit 32 bits is refused.
  unfoldable pub send_message : IpcEnvelope Q R → Result IpcError Bytes
  unfolding framed
  send_message msg = do
    let encoded = p.encode msg
    fail_if (ltb 4294967295 (length encoded)) (frame_too_large 4294967295)
    ok (framed encoded)

  unfoldable pub send_authenticate_start : String → Bool → ℕ → String → Result IpcError Bytes
  unfolding send_message
  send_authenticate_start username tty_present timeout_seconds request_id = send_message (record {
    msg = some (
        pam_authenticate (record {
          username = username;
          tty_present = tty_present;
          timeout_seconds = timeout_seconds;
          request_id = request_id;
        }));
  })

  -- The bytes that are sent, and what is read back.
  unfoldable pub send_cancel :
      String → String → Bytes → Result IpcError (Bytes × PamAuthenticateResponse)
  unfolding send_message recv_response
  send_cancel reason request_id incoming = do
    sent ←
        send_message
          (record { msg = some (pam_cancel (record { reason = reason; request_id = request_id })) })
    response ← recv_response incoming
    ok (sent, response)

  -- The poll loop's use of the reader: reads until there is a response or an error.
  unfoldable pub poll :
      List (List Read) → IpcClient → Result IpcError (Option PamAuthenticateResponse)
  unfolding try_read_response_nonblocking or_later
  poll [] self = ok none
  poll (reads ∷ polls) self =
      or_later (try_read_response_nonblocking reads self).0
        (poll polls (try_read_response_nonblocking reads self).1)
