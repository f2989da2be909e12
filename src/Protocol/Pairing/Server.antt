-- ===== src/Protocol/Pairing/Server.antt =====
-- shared/src/protocol/pairing.rs, the side of `ServerPairingSession`. The phone takes
-- this side; in this repository only the tests of the file run it, the phone's own code is Kotlin.
use tapauth.Prelude.{
  String, true, not, Option, some, [], ◌∷◌, Result, ok, ok_or, map_err, fail_if, ◌>>=◌, ◌>>◌, Bytes,
  ◌==◌, nat_eq, length, to_array,
}
use tapauth.Crypto.Crates.{Crates}
use tapauth.Crypto.Keys.{ClientSymmetricKey, diffie_hellman}
use tapauth.Crypto.Kdf.{derive_psk_from_x25519, derive_sas}
use tapauth.Crypto.Encryption.{encrypt_with_psk, decrypt_with_psk}
use tapauth.Protocol.Message.{
  Codec, PairingHello, PairingResponse, ProtocolError, crypto, missing_field, deserialization,
  invalid_message_format, ed25519, aes_256_gcm, sha_256,
}
use tapauth.Protocol.Framing.{TcpStream, read_message, write_message}
use tapauth.Protocol.Pairing.{ServerPairingSession, pairing_version}

-- What `complete_pairing` returns, with the session and the stream that it leaves.
pub record Completed : Type 0 where
  pub session : ServerPairingSession
  pub stream : TcpStream
  pub csk : ClientSymmetricKey
  pub client_ed25519_public : Bytes
  pub client_device_name : String
  pub sas : Bytes

-- The greeting of a session.
unfoldable pub hello_of : ServerPairingSession → String → PairingHello
hello_of self server_device_name = record {
  version = pairing_version;
  x25519_public_key = self.x25519_keypair.public;
  ed25519_public_key = self.ed25519_public_key;
  device_name = server_device_name;
  supported_symmetric_algorithms = aes_256_gcm ∷ [];
  supported_hash_algorithms = sha_256 ∷ [];
  supported_signature_algorithms = ed25519 ∷ [];
}

module _ (c : Crates) (p : Codec) where
  unfoldable pub send_pairing_hello :
      ServerPairingSession → TcpStream → String → Result ProtocolError TcpStream
  send_pairing_hello self stream server_device_name =
      write_message stream (p.encode_hello (hello_of self server_device_name))

  unfoldable pub receive_pairing_response :
      TcpStream → Result ProtocolError (PairingResponse × TcpStream)
  receive_pairing_response stream = do
    got ← read_message stream
    response ← ok_or (p.decode_response got.0) deserialization
    fail_if (not (response.version == pairing_version)) invalid_message_format
    ok (response, got.1)

  -- The key, its hash, and the stream after the message.
  unfoldable pub receive_csk_message :
      ServerPairingSession
      → TcpStream
      → Result ProtocolError (ClientSymmetricKey × Bytes × TcpStream)
  receive_csk_message self stream = do
    got ← read_message stream
    encrypted_msg ← ok_or (p.decode_csk_message got.0) deserialization
    psk ← ok_or self.psk (missing_field "psk")
    plaintext ← map_err crypto (decrypt_with_psk c psk encrypted_msg.encrypted_csk)
    fail_if (not (length plaintext == 32)) invalid_message_format
    ok (record { as_bytes = plaintext }, c.sha256 plaintext, got.1)

  unfoldable pub send_pairing_complete :
      ServerPairingSession → TcpStream → Option Bytes → Bytes → Result ProtocolError TcpStream
  send_pairing_complete self stream random csk_hash = do
    psk ← ok_or self.psk (missing_field "psk")
    encrypted_hash ← map_err crypto (encrypt_with_psk c psk random csk_hash)
    write_message stream (
        p.encode_complete
          (record { success = true; hash_algorithm = sha_256; csk_hash = encrypted_hash }))

  unfoldable pub complete_pairing :
      ServerPairingSession → TcpStream → Option Bytes → String → Result ProtocolError Completed
  unfolding diffie_hellman
  complete_pairing self stream random server_device_name = do
    greeted ← send_pairing_hello self stream server_device_name
    answered ← receive_pairing_response greeted
    let response = answered.0
    client_x25519_pub ← ok_or (to_array 32 response.x25519_public_key) invalid_message_format
    shared_secret ← map_err crypto (diffie_hellman c self.x25519_keypair client_x25519_pub)
    psk ← map_err crypto (derive_psk_from_x25519 c shared_secret)
    sas ← map_err crypto (derive_sas c psk client_x25519_pub self.x25519_keypair.public)
    let session : ServerPairingSession = record self {
      client_x25519_public = some client_x25519_pub;
      psk = some psk;
      sas = some sas;
    }
    keyed ← receive_csk_message session answered.1
    told ← send_pairing_complete session keyed.2 random keyed.1
    client_ed25519_public ← ok_or (to_array 32 response.ed25519_public_key) invalid_message_format
    ok (record {
      session = session;
      stream = told;
      csk = keyed.0;
      client_ed25519_public = client_ed25519_public;
      client_device_name = response.device_name;
      sas = sas;
    })
