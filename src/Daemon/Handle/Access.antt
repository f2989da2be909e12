-- ===== src/Daemon/Handle/Access.antt =====
-- What a success that tapauthd/src/auth_handler.rs reports to PAM rests on.
use tapauth.Prelude.{
  ◌≡◌, inl, inr, ℕ, true, Option, some, Result, ok, Bytes, Option-cases, Result-cases, arith,
}
use tapauth.Crypto.Crates.{Crates}
use tapauth.Crypto.Keys.{Ed25519KeyPair, ClientSymmetricKey}
use tapauth.Protocol.Message.{Codec, EncryptedPacket}
use tapauth.Daemon.Auth.Response.{AuthHandlerError}
use tapauth.Daemon.Handle.{
  success, PamAuthenticateResponse, AuthSession, World, try_parallel_authentication, conclude,
  respond, attempt, create_request_packet, timeout_duration, allowed_servers, handle_authenticate,
}
use tapauth.Daemon.Handle.Transports.{Brought, try_parallel-Brought}

module _ (c : Crates) (p : Codec) where
  conclude-success :
      (challenge : Bytes) (x : Option (Result AuthHandlerError (Unit {0})))
      → (conclude c p challenge x).outcome ≡ success
      → x ≡ some (ok tt)
  unfolding conclude respond
  conclude-success challenge x h = ground arith

  -- What stands behind a success: keys, a server that the user is allowed, the request's packet, and
  -- a grant that a transport brought.
  pub record Authenticated (w : World) (s : AuthSession) : Type 0 where
    pub keypair : Ed25519KeyPair
    pub csk : ClientSymmetricKey
    pub has_keypair : s.state.keypair ≡ some keypair
    pub has_csk : s.state.csk ≡ some csk
    pub is_allowed : allowed_servers c p s.username s.state.paired_servers ≡ true
    pub request : EncryptedPacket
    pub brought :
        Brought c p s.transports w
          (record {
            challenge = s.challenge;
            keypair = keypair;
            csk = csk;
            servers = s.state.paired_servers;
          })
          request

  same_outcome :
      {a b : PamAuthenticateResponse}
      → ◌≡◌ {A = Result AuthHandlerError PamAuthenticateResponse} (ok a) (ok b)
      → b.outcome ≡ success
      → a.outcome ≡ success
  same_outcome h won = ground arith

  attempt-success :
      (w : World) (s : AuthSession) (timeout_seconds : Option ℕ) (keypair : Ed25519KeyPair)
      (csk : ClientSymmetricKey) {response : PamAuthenticateResponse}
      → s.state.keypair ≡ some keypair
      → s.state.csk ≡ some csk
      → allowed_servers c p s.username s.state.paired_servers ≡ true
      → attempt c p w s timeout_seconds keypair csk ≡ ok response
      → response.outcome ≡ success
      → Authenticated w s
  unfolding attempt
  attempt-success w s timeout_seconds keypair csk {response} has_keypair has_csk allowed h won =
      elim (Result-cases (
        create_request_packet c p w.clock w.request_nonce s.username s.state.hostname keypair csk
          s.challenge)) [
            | inr (e, failed) ↦ absurd (ground arith)
            | inl (packet, made) ↦
                let concluded =
                  conclude-success s.challenge
                    (try_parallel_authentication c p s.transports w
                      (record {
                        challenge = s.challenge;
                        keypair = keypair;
                        csk = csk;
                        servers = s.state.paired_servers;
                      })
                      packet (timeout_duration c p timeout_seconds))
                    (same_outcome {b = response} (rw (attempt, made) at h) won) in
                record {
                  keypair = keypair;
                  csk = csk;
                  has_keypair = has_keypair;
                  has_csk = has_csk;
                  is_allowed = allowed;
                  request = packet;
                  brought = try_parallel-Brought c p _ w _ packet _ concluded;
                }
          ]

  -- If the daemon reports a success to PAM, whatever the transports met and whenever PAM cancelled,
  -- it holds both keys, some paired server is allowed to the user, and over a transport that is
  -- enabled it received a packet that decrypts under its client key to a wrapper signed by a
  -- paired server, granting this session's challenge.
  pub handle_authenticate-success :
      (w : World) (s : AuthSession) (timeout_seconds : Option ℕ)
      {response : PamAuthenticateResponse}
      → handle_authenticate c p w s timeout_seconds ≡ ok response
      → response.outcome ≡ success
      → Authenticated w s
  unfolding handle_authenticate respond
  handle_authenticate-success w s timeout_seconds {response} h won =
      elim (Option-cases s.state.keypair) [
        | inl no_keypair ↦ absurd (ground arith)
        | inr (keypair, has_keypair) ↦ elim (Option-cases s.state.csk) [
          | inl no_csk ↦ absurd (ground arith)
          | inr (csk, has_csk) ↦
              attempt-success w s timeout_seconds keypair csk {response = response} has_keypair
                has_csk (ground arith) (ground arith) won
        ]
      ]
