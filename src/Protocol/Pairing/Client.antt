-- ===== src/Protocol/Pairing/Client.antt =====
-- shared/src/protocol/pairing.rs, the side of `ClientPairingSession`, which the daemon takes.
use tapauth.Prelude.{
  ℕ, String, not, Option, some, List, [], ◌∷◌, Result, ok, ok_or, map_err, fail_if, ◌>>=◌, ◌>>◌,
  Bytes, ◌==◌, nat_eq, bytes_eq, to_array,
}
use tapauth.Crypto.Crates.{Crates}
use tapauth.Crypto.Keys.{ClientSymmetricKey, diffie_hellman}
use tapauth.Crypto.Kdf.{derive_psk_from_x25519, derive_sas}
use tapauth.Crypto.Encryption.{encrypt_with_psk, decrypt_with_psk}
use tapauth.Protocol.Message.{
  Codec, PairingHello, PairingResponse, ProtocolError, crypto, missing_field, deserialization,
  invalid_message_format, ed25519, aes_256_gcm, sha_256,
}
use tapauth.Protocol.Framing.{TcpStream, read_message, write_message}
use tapauth.Protocol.Pairing.{ClientPairingSession, pairing_version}

-- What `initiate_pairing` returns, and the session that it leaves.
pub record Initiated : Type 0 where
  pub session : ClientPairingSession
  pub stream : TcpStream
  pub server_ed25519_public : Bytes
  pub server_device_name : String
  pub sas : Bytes

-- `first().copied().unwrap_or(default)`.
unfoldable pub first_or : ℕ → List ℕ → ℕ
first_or default [] = default
first_or default (algorithm ∷ rest) = algorithm

-- The response that a session answers with.
unfoldable pub response_of : ClientPairingSession → String → PairingResponse
unfolding first_or
response_of self client_device_name = record {
  version = pairing_version;
  x25519_public_key = self.x25519_keypair.public;
  ed25519_public_key = self.ed25519_keypair.verifying_key;
  device_name = client_device_name;
  selected_symmetric_algorithm = first_or aes_256_gcm self.server_supported_symmetric;
  selected_hash_algorithm = first_or sha_256 self.server_supported_hash;
  selected_signature_algorithm = first_or ed25519 self.server_supported_signature;
}

module _ (c : Crates) (p : Codec) where
  unfoldable pub receive_pairing_hello : TcpStream → Result ProtocolError (PairingHello × TcpStream)
  receive_pairing_hello stream = do
    got ← read_message stream
    hello ← ok_or (p.decode_hello got.0) deserialization
    fail_if (not (hello.version == pairing_version)) invalid_message_format
    ok (hello, got.1)

  unfoldable pub send_pairing_response :
      ClientPairingSession → TcpStream → String → Result ProtocolError TcpStream
  send_pairing_response self stream client_device_name =
      write_message stream (p.encode_response (response_of self client_device_name))

  unfoldable pub initiate_pairing :
      ClientPairingSession → TcpStream → String → Result ProtocolError Initiated
  unfolding diffie_hellman
  initiate_pairing self stream client_device_name = do
    got ← receive_pairing_hello stream
    let hello = got.0
    server_x25519_pub ← ok_or (to_array 32 hello.x25519_public_key) invalid_message_format
    shared_secret ← map_err crypto (diffie_hellman c self.x25519_keypair server_x25519_pub)
    psk ← map_err crypto (derive_psk_from_x25519 c shared_secret)
    sas ← map_err crypto (derive_sas c psk self.x25519_keypair.public server_x25519_pub)
    let session : ClientPairingSession = record self {
      server_x25519_public = some server_x25519_pub;
      psk = some psk;
      sas = some sas;
      server_supported_symmetric = hello.supported_symmetric_algorithms;
      server_supported_hash = hello.supported_hash_algorithms;
      server_supported_signature = hello.supported_signature_algorithms;
    }
    sent ← send_pairing_response session got.1 client_device_name
    server_ed25519_public ← ok_or (to_array 32 hello.ed25519_public_key) invalid_message_format
    ok (record {
      session = session;
      stream = sent;
      server_ed25519_public = server_ed25519_public;
      server_device_name = hello.device_name;
      sas = sas;
    })

  unfoldable pub send_csk_message :
      ClientPairingSession
      → TcpStream
      → Option Bytes
      → ClientSymmetricKey
      → String
      → Result ProtocolError TcpStream
  send_csk_message self stream random csk username = do
    psk ← ok_or self.psk (missing_field "psk")
    encrypted_csk ← map_err crypto (encrypt_with_psk c psk random csk.as_bytes)
    write_message stream
        (p.encode_csk_message (record { encrypted_csk = encrypted_csk; username = username }))

  unfoldable pub receive_pairing_complete :
      ClientPairingSession → TcpStream → ClientSymmetricKey → Result ProtocolError (Unit {0})
  receive_pairing_complete self stream csk = do
    got ← read_message stream
    complete ← ok_or (p.decode_complete got.0) deserialization
    fail_if (not complete.success) invalid_message_format
    psk ← ok_or self.psk (missing_field "psk")
    decrypted_hash ← map_err crypto (decrypt_with_psk c psk complete.csk_hash)
    let expected_hash = c.sha256 csk.as_bytes
    fail_if (not (decrypted_hash == expected_hash)) invalid_message_format

  -- What was sent, where the pairing ended well.
  unfoldable pub finish_pairing :
      ClientPairingSession
      → TcpStream
      → Option Bytes
      → ClientSymmetricKey
      → String
      → Result ProtocolError TcpStream
  finish_pairing self stream random csk username = do
    sent ← send_csk_message self stream random csk username
    receive_pairing_complete self sent csk
    ok sent
