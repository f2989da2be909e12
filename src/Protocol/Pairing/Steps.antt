-- ===== src/Protocol/Pairing/Steps.antt =====
-- Each call of shared/src/protocol/pairing.rs on the bytes that an honest peer sends.
use tapauth.Prelude.{
  ◌≡◌, refl, sym, append-nil, String, true, some, [], ◌++◌, ok, Bytes, nat_eq, bytes_eq, length,
}
use tapauth.Crypto.Crates.{Crates, CrateLaws}
use tapauth.Crypto.Keys.{PairingSymmetricKey, ClientSymmetricKey, diffie_hellman}
use tapauth.Crypto.Kdf.{derive_psk_from_x25519, derive_sas}
use tapauth.Crypto.Encryption.{encrypt_with_psk}
use tapauth.Protocol.Message.{
  Codec, PairingHello, PairingResponse, PairingCskMessage, PairingComplete, sha_256,
}
use tapauth.Protocol.Framing.{TcpStream, frame, write_message}
use tapauth.Protocol.Pairing.{ClientPairingSession, ServerPairingSession, pairing_version}
use tapauth.Protocol.Pairing.Client.{
  response_of, send_pairing_response, initiate_pairing, send_csk_message, finish_pairing,
}
use tapauth.Protocol.Pairing.Server.{
  hello_of, send_pairing_hello, send_pairing_complete, complete_pairing,
}
use tapauth.Protocol.Pairing.Frames.{
  IsCarried, connected, receive_pairing_hello-frame, receive_pairing_response-frame,
  receive_csk_message-frame, receive_pairing_complete-frame,
}

-- The session of a client that has read the greeting.
abbrev pub greeted :
    ClientPairingSession → PairingHello → PairingSymmetricKey → Bytes → ClientPairingSession
greeted self hello psk sas = record self {
  server_x25519_public = some hello.x25519_public_key;
  psk = some psk;
  sas = some sas;
  server_supported_symmetric = hello.supported_symmetric_algorithms;
  server_supported_hash = hello.supported_hash_algorithms;
  server_supported_signature = hello.supported_signature_algorithms;
}

-- The session of a server that has read the response.
abbrev pub answered :
    ServerPairingSession → Bytes → PairingSymmetricKey → Bytes → ServerPairingSession
answered self client_public psk sas = record self {
  client_x25519_public = some client_public;
  psk = some psk;
  sas = some sas;
}

module _ (c : Crates) (p : Codec) where
  pub initiate_pairing-frame :
      (self : ClientPairingSession) (hello : PairingHello) (rest : Bytes) (name : String)
      (psk : PairingSymmetricKey) (sas : Bytes)
      → hello.version ≡ pairing_version
      → IsCarried p.encode_hello p.decode_hello hello
      → length hello.x25519_public_key ≡ 32
      → length hello.ed25519_public_key ≡ 32
      → derive_psk_from_x25519 c
          (c.x25519_shared self.x25519_keypair.secret_bytes hello.x25519_public_key)
        ≡ ok psk
      → derive_sas c psk self.x25519_keypair.public hello.x25519_public_key ≡ ok sas
      → initiate_pairing c p self (connected (frame (p.encode_hello hello) ++ rest)) name
        ≡ ok (record {
          session = greeted self hello psk sas;
          stream = record {
            incoming = rest;
            outgoing = frame (p.encode_response (response_of (greeted self hello psk sas) name));
            writable = true;
          };
          server_ed25519_public = hello.ed25519_public_key;
          server_device_name = hello.device_name;
          sas = sas;
        })
  unfolding initiate_pairing send_pairing_response write_message diffie_hellman
  initiate_pairing-frame self hello rest name psk sas current carried point key keyed shown =
      rw
        (
          receive_pairing_hello-frame c p hello rest
              (connected (frame (p.encode_hello hello) ++ rest)) current carried refl,
          point,
          keyed,
          shown,
          key,
        )
        refl

  pub complete_pairing-frame :
      CrateLaws c
      → (self : ServerPairingSession) (response : PairingResponse) (username name : String)
      → (psk : PairingSymmetricKey) (csk : ClientSymmetricKey)
        (sas nonce random sealed hash : Bytes)
      → response.version ≡ pairing_version
      → IsCarried p.encode_response p.decode_response response
      → IsCarried p.encode_csk_message p.decode_csk_message
          (record { encrypted_csk = sealed; username = username })
      → length response.x25519_public_key ≡ 32
      → length response.ed25519_public_key ≡ 32
      → length nonce ≡ 12
      → length csk.as_bytes ≡ 32
      → derive_psk_from_x25519 c
          (c.x25519_shared self.x25519_keypair.secret_bytes response.x25519_public_key)
        ≡ ok psk
      → derive_sas c psk response.x25519_public_key self.x25519_keypair.public ≡ ok sas
      → encrypt_with_psk c psk (some nonce) csk.as_bytes ≡ ok sealed
      → encrypt_with_psk c psk (some random) (c.sha256 csk.as_bytes) ≡ ok hash
      → complete_pairing c p self
          (connected (
            frame (p.encode_response response)
            ++ frame
                (p.encode_csk_message (record { encrypted_csk = sealed; username = username }))))
          (some random)
          name
        ≡ ok (record {
          session = answered self response.x25519_public_key psk sas;
          stream = record {
            incoming = [];
            outgoing =
                frame (p.encode_hello (hello_of self name))
                ++ frame (
                    p.encode_complete
                      (record { success = true; hash_algorithm = sha_256; csk_hash = hash }));
            writable = true;
          };
          csk = csk;
          client_ed25519_public = response.ed25519_public_key;
          client_device_name = response.device_name;
          sas = sas;
        })
  unfolding complete_pairing send_pairing_hello send_pairing_complete write_message diffie_hellman
  complete_pairing-frame laws self response username name psk csk sas nonce random sealed hash
        current carried carried_key point key sized whole keyed shown sealing hashing =
      let m : PairingCskMessage = record { encrypted_csk = sealed; username = username } in
      rw
        (
          receive_pairing_response-frame c p response (frame (p.encode_csk_message m))
              (record {
                incoming = frame (p.encode_response response) ++ frame (p.encode_csk_message m);
                outgoing = frame (p.encode_hello (hello_of self name));
                writable = true;
              })
              current carried refl,
          point,
          keyed,
          shown,
          receive_csk_message-frame c p laws psk nonce csk
              (answered self response.x25519_public_key psk sas) m []
              (record {
                incoming = frame (p.encode_csk_message m);
                outgoing = frame (p.encode_hello (hello_of self name));
                writable = true;
              })
              refl sized whole sealing carried_key
              (sym (append-nil (frame (p.encode_csk_message m)))),
          hashing,
          key,
        )
        refl

  send_csk_message-frame :
      (self : ClientPairingSession) (comes out : Bytes) (username : String)
      (psk : PairingSymmetricKey) (csk : ClientSymmetricKey) (nonce sealed : Bytes)
      → self.psk ≡ some psk
      → encrypt_with_psk c psk (some nonce) csk.as_bytes ≡ ok sealed
      → send_csk_message c p self
          (record { incoming = comes; outgoing = out; writable = true })
          (some nonce)
          csk
          username
        ≡ ok (record {
          incoming = comes;
          outgoing =
              out
              ++ frame
                  (p.encode_csk_message (record { encrypted_csk = sealed; username = username }));
          writable = true;
        })
  unfolding send_csk_message write_message
  send_csk_message-frame self comes out username psk csk nonce sealed keyed sealing =
      rw (keyed, sealing) refl

  pub finish_pairing-frame :
      CrateLaws c
      → (self : ClientPairingSession) (out : Bytes) (username : String)
      → (psk : PairingSymmetricKey) (csk : ClientSymmetricKey) (nonce random sealed hash : Bytes)
      → self.psk ≡ some psk
      → length random ≡ 12
      → IsCarried p.encode_complete p.decode_complete
          (record { success = true; hash_algorithm = sha_256; csk_hash = hash })
      → encrypt_with_psk c psk (some nonce) csk.as_bytes ≡ ok sealed
      → encrypt_with_psk c psk (some random) (c.sha256 csk.as_bytes) ≡ ok hash
      → finish_pairing c p self
          (record {
            incoming = frame (
                p.encode_complete
                  (record { success = true; hash_algorithm = sha_256; csk_hash = hash }));
            outgoing = out;
            writable = true;
          })
          (some nonce)
          csk
          username
        ≡ ok (record {
          incoming = frame (
              p.encode_complete
                (record { success = true; hash_algorithm = sha_256; csk_hash = hash }));
          outgoing =
              out
              ++ frame
                  (p.encode_csk_message (record { encrypted_csk = sealed; username = username }));
          writable = true;
        })
  unfolding finish_pairing
  finish_pairing-frame laws self out username psk csk nonce random sealed hash keyed sized carried
        sealing hashing =
      let m : PairingComplete = record {
        success = true;
        hash_algorithm = sha_256;
        csk_hash = hash;
      } in
      let sent : TcpStream = record {
        incoming = frame (p.encode_complete m);
        outgoing =
            out
            ++ frame
                (p.encode_csk_message (record { encrypted_csk = sealed; username = username }));
        writable = true;
      } in
      let handed : send_csk_message c p self
            (record { incoming = frame (p.encode_complete m); outgoing = out; writable = true })
            (some nonce) csk username
          ≡ ok sent =
        send_csk_message-frame self (frame (p.encode_complete m)) out username psk csk nonce sealed
          keyed sealing in
      rw
        (
          handed,
          receive_pairing_complete-frame c p laws psk random csk self m sent keyed sized refl
              hashing carried (sym (append-nil (frame (p.encode_complete m)))),
        )
        refl
