-- ===== src/Phone/Pairing.antt =====
-- shared/src/jni_api.rs: the messages of a pairing, as the phone writes and reads them.
use tapauth.Prelude.{ℕ, String, Bool, List, Result, ok, ◌>>=◌, Bytes}
use tapauth.Protocol.Message.{Codec, PairingResponse, PairingComplete}
use tapauth.Phone.{Exception, decoded}

module _ (p : Codec) where
  unfoldable pub create_pairing_hello :
      ℕ → Bytes → Bytes → String → List ℕ → List ℕ → List ℕ → Bytes
  create_pairing_hello version x25519_public_key ed25519_public_key device_name symmetric hash
        signature =
      p.encode_hello (record {
        version = version;
        x25519_public_key = x25519_public_key;
        ed25519_public_key = ed25519_public_key;
        device_name = device_name;
        supported_symmetric_algorithms = symmetric;
        supported_hash_algorithms = hash;
        supported_signature_algorithms = signature;
      })

  unfoldable pub parse_pairing_response : Bytes → Result Exception PairingResponse
  parse_pairing_response response_bytes = decoded (p.decode_response response_bytes)

  unfoldable pub create_pairing_csk_message : Bytes → String → Bytes
  create_pairing_csk_message encrypted_csk username =
      p.encode_csk_message (record { encrypted_csk = encrypted_csk; username = username })

  unfoldable pub parse_pairing_csk_message : Bytes → Result Exception (Bytes × String)
  parse_pairing_csk_message message_bytes = do
    message ← decoded (p.decode_csk_message message_bytes)
    ok (message.encrypted_csk, message.username)

  unfoldable pub create_pairing_complete : Bool → ℕ → Bytes → Bytes
  create_pairing_complete success hash_algorithm encrypted_csk_hash =
      p.encode_complete (record {
        success = success;
        hash_algorithm = hash_algorithm;
        csk_hash = encrypted_csk_hash;
      })

  unfoldable pub parse_pairing_complete : Bytes → Result Exception PairingComplete
  parse_pairing_complete complete_bytes = decoded (p.decode_complete complete_bytes)
