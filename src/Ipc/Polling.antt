-- ===== src/Ipc/Polling.antt =====
-- The poll loop's reader of client-pam/src/ipc_client.rs against the blocking one: how the bytes
-- are cut into reads makes no difference.
use tapauth.Prelude.{
  ◌≡◌, ◌≢◌, refl, sym, ◌∙◌, ap, ℕ, zero, suc, ◌≤◌, Option, some, none, List, [], ◌∷◌, ◌++◌, map,
  append-nil, Result, ok, err, Bytes, length, take, from_be_bytes, arith, length-append,
}
use tapauth.Ipc.{
  PamAuthenticateResponse, IpcCodec, unexpected_eof, invalid_data, timed_out, permission_denied,
  broken_pipe, connection_reset, other,
}
use tapauth.Ipc.Client.{
  IpcError, io, decode, frame_too_large, IpcClient, fresh, Read, chunk, fill, take_frame, parse,
  try_read_response_nonblocking, resume, recv_response, poll, or_later,
}

-- A stream that ends too soon is, for the poll loop, one that is not complete yet.
unfoldable pub nonblocking : {A : Type 0} → Result IpcError A → Result IpcError (Option A)
nonblocking (ok a) = ok (some a)
nonblocking (err (io unexpected_eof)) = ok none
nonblocking (err (io invalid_data)) = err (io invalid_data)
nonblocking (err (io timed_out)) = err (io timed_out)
nonblocking (err (io permission_denied)) = err (io permission_denied)
nonblocking (err (io broken_pipe)) = err (io broken_pipe)
nonblocking (err (io connection_reset)) = err (io connection_reset)
nonblocking (err (io other)) = err (io other)
nonblocking (err decode) = err decode
nonblocking (err (frame_too_large n)) = err (frame_too_large n)

abbrev pub concat : {A : Type 0} → List (List A) → List A
concat [] = []
concat (xs ∷ xss) = xs ++ concat xss

append_assoc : {A : Type 0} (xs ys zs : List A) → (xs ++ ys) ++ zs ≡ xs ++ (ys ++ zs)
append_assoc [] ys zs = refl
append_assoc (x ∷ xs) ys zs = ap (◌∷◌ x) (append_assoc xs ys zs)

take-append : {A : Type 0} (n : ℕ) (xs ys : List A) → n ≤ length xs → take n (xs ++ ys) ≡ take n xs
take-append zero xs ys h = refl
take-append (suc n) [] ys h = absurd (omega arith)
take-append (suc n) (x ∷ xs) ys h = ap (◌∷◌ x) (take-append n xs ys (omega arith))

fill-chunk : (bs : List Bytes) (buf : Bytes) → fill (map chunk bs) buf ≡ (ok tt, buf ++ concat bs)
unfolding fill
fill-chunk [] buf = rw (append-nil buf) refl
fill-chunk (b ∷ bs) buf = rw (fill-chunk bs (buf ++ b), append_assoc buf b (concat bs)) refl

append-concat :
    {A : Type 0} (b : List A) (bs cs : List (List A))
    → b ++ concat (bs ++ cs) ≡ (b ++ concat bs) ++ concat cs
append-concat b [] cs = rw (append-nil b) refl
append-concat b (x ∷ bs) cs =
    sym (append_assoc b x (concat (bs ++ cs)))
    ∙ append-concat (b ++ x) bs cs
    ∙ ap (λ front. front ++ concat cs) (append_assoc b x (concat bs))

module _ {Q R : Type 0} (p : IpcCodec Q R) where
  -- A complete buffer: more bytes change nothing of the outcome.
  parse-append :
      (b more : Bytes)
      → (parse p none b).0 ≢ ok none
      → (parse p none (b ++ more)).0 ≡ (parse p none b).0
  unfolding parse take_frame
  parse-append [] more h = absurd (h refl)
  parse-append (w ∷ []) more h = absurd (h refl)
  parse-append (w ∷ x ∷ []) more h = absurd (h refl)
  parse-append (w ∷ x ∷ y ∷ []) more h = absurd (h refl)
  parse-append (w ∷ x ∷ y ∷ z ∷ b) more h =
      let len : ℕ = from_be_bytes 0 (w ∷ x ∷ y ∷ z ∷ []) in
      ground (arith, length-append b more, take-append len b more)

  -- An incomplete buffer: the reader goes on as if it had read all at once.
  parse_again :
      (b more : Bytes)
      → (parse p none b).0 ≡ ok none
      → ((parse p none b).1.read_buf ≡ b)
        × (parse p (parse p none b).1.expected_total (b ++ more) ≡ parse p none (b ++ more))
  unfolding parse take_frame
  parse_again [] more h = (refl, refl)
  parse_again (w ∷ []) more h = (refl, refl)
  parse_again (w ∷ x ∷ []) more h = (refl, refl)
  parse_again (w ∷ x ∷ y ∷ []) more h = (refl, refl)
  parse_again (w ∷ x ∷ y ∷ z ∷ b) more h =
      let len : ℕ = from_be_bytes 0 (w ∷ x ∷ y ∷ z ∷ []) in ground (arith, length-append b more)

  parse-recv_response : (b : Bytes) → (parse p none b).0 ≡ nonblocking (recv_response p b)
  unfolding parse take_frame recv_response nonblocking
  parse-recv_response [] = refl
  parse-recv_response (w ∷ []) = refl
  parse-recv_response (w ∷ x ∷ []) = refl
  parse-recv_response (w ∷ x ∷ y ∷ []) = refl
  parse-recv_response (w ∷ x ∷ y ∷ z ∷ b) = ground arith

  try_read-chunk :
      (bs : List Bytes) (self : IpcClient)
      → try_read_response_nonblocking p (map chunk bs) self
        ≡ parse p self.expected_total (self.read_buf ++ concat bs)
  unfolding try_read_response_nonblocking resume
  try_read-chunk bs self = ap (resume p self) (fill-chunk bs self.read_buf)

  poll_again :
      (polls : List (List Bytes)) (b : Bytes)
      → (parse p none b).0 ≡ ok none
      → poll p (map (map chunk) polls) (parse p none b).1
        ≡ (parse p none (b ++ concat (concat polls))).0
  unfolding poll or_later
  poll_again [] b h = rw (append-nil b) (sym h)
  poll_again (bs ∷ polls) b h =
      let more : Bytes = concat bs in
      let late : List (List Read) = map (map chunk) polls in
      let (buffered, resumed) = parse_again b more h in
      let tried : try_read_response_nonblocking p (map chunk bs) (parse p none b).1
          ≡ parse p none (b ++ more) =
        try_read-chunk bs (parse p none b).1
        ∙ ap (λ buf. parse p (parse p none b).1.expected_total (buf ++ more)) buffered
        ∙ resumed in
      ap (λ t. or_later t.0 (poll p late t.1)) tried
      ∙ settle bs polls b (parse p none (b ++ more)).0 refl (poll_again polls (b ++ more))
    where
      settle :
          (bs : List Bytes) (polls : List (List Bytes)) (b : Bytes)
          (r : Result IpcError (Option PamAuthenticateResponse))
          → (parse p none (b ++ concat bs)).0 ≡ r
          → ((parse p none (b ++ concat bs)).0 ≡ ok none
              → poll p (map (map chunk) polls) (parse p none (b ++ concat bs)).1
                ≡ (parse p none ((b ++ concat bs) ++ concat (concat polls))).0)
          → or_later
              (parse p none (b ++ concat bs)).0
              (poll p (map (map chunk) polls) (parse p none (b ++ concat bs)).1)
            ≡ (parse p none (b ++ concat (concat (bs ∷ polls)))).0
      settle bs polls b (ok none) e later =
          rw e
            (later e ∙ ap (λ all. (parse p none all).0) (sym (append-concat b bs (concat polls))))
      settle bs polls b (ok (some response)) e later = rw e (
          sym (
            rw (append-concat b bs (concat polls))
              (parse-append (b ++ concat bs) (concat (concat polls)) (λ n. ground arith) ∙ e)))
      settle bs polls b (err problem) e later = rw e (
          sym (
            rw (append-concat b bs (concat polls))
              (parse-append (b ++ concat bs) (concat (concat polls)) (λ n. ground arith) ∙ e)))

  -- However the bytes from the daemon are cut into reads and the reads into turns, the non-
  -- blocking reader of the PAM module ends with the response or the error that the blocking reader
  -- ends with on all the bytes, and still waits where the blocking reader finds the stream too
  -- short.
  pub poll-recv_response :
      (polls : List (List Bytes))
      → poll p (map (map chunk) polls) fresh ≡ nonblocking (recv_response p (concat (concat polls)))
  unfolding parse
  poll-recv_response polls = poll_again polls [] refl ∙ parse-recv_response (concat (concat polls))
