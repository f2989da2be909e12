-- ===== src/Protocol/Pairing/Agreement.antt =====
-- The two sides of shared/src/protocol/pairing.rs, each reading what the other one wrote.
use tapauth.Prelude.{◌≡◌, refl, ap, ◌∙◌, String, true, some, none, [], ok, Bytes, length, arith}
use tapauth.Crypto.Crates.{Crates, CrateLaws}
use tapauth.Crypto.Keys.{
  Ed25519KeyPair, PairingSymmetricKey, ClientSymmetricKey, exchange_keypair_of,
  generate_exchange_keypair,
}
use tapauth.Crypto.Kdf.{derive_psk_from_x25519, derive_sas}
use tapauth.Crypto.Encryption.{encrypt_with_psk}
use tapauth.Protocol.Message.{Codec, PairingHello, PairingComplete, sha_256}
use tapauth.Protocol.Framing.{TcpStream, frame}
use tapauth.Protocol.Pairing.{ClientPairingSession, ServerPairingSession, new_client, new_server}
use tapauth.Protocol.Pairing.Client.{Initiated, response_of, initiate_pairing, finish_pairing}
use tapauth.Protocol.Pairing.Server.{Completed, hello_of, complete_pairing}
use tapauth.Protocol.Pairing.Frames.{IsCarried, connected}
use tapauth.Protocol.Pairing.Steps.{
  greeted, initiate_pairing-frame, complete_pairing-frame, finish_pairing-frame,
}

-- A run of both sides in which each reads what the other wrote, and what it ends with.
pub record Agreement (c : Crates) (p : Codec) (client : ClientPairingSession)
    (server : ServerPairingSession) (client_name server_name username : String)
    (csk : ClientSymmetricKey) (nonce random : Bytes) : Type 0 where
  pub initiated : Initiated
  pub sent : TcpStream
  pub completed : Completed
  pub initiates :
      initiate_pairing c p client (connected completed.stream.outgoing) client_name ≡ ok initiated
  pub finishes :
      finish_pairing c p initiated.session initiated.stream (some nonce) csk username ≡ ok sent
  pub completes :
      complete_pairing c p server (connected sent.outgoing) (some random) server_name ≡ ok completed
  pub same_sas : initiated.sas ≡ completed.sas
  pub csk_handed_over : completed.csk ≡ csk
  pub server_key : initiated.server_ed25519_public ≡ server.ed25519_public_key
  pub server_named : initiated.server_device_name ≡ server_name
  pub client_key : completed.client_ed25519_public ≡ client.ed25519_keypair.verifying_key
  pub client_named : completed.client_device_name ≡ client_name

-- The sessions that `new` makes of random bytes.
abbrev fresh_client : Crates → Ed25519KeyPair → Bytes → ClientPairingSession
fresh_client c keypair a = record {
  x25519_keypair = exchange_keypair_of c a;
  ed25519_keypair = keypair;
  server_x25519_public = none;
  psk = none;
  sas = none;
  server_supported_symmetric = [];
  server_supported_hash = [];
  server_supported_signature = [];
}

abbrev fresh_server : Crates → Bytes → Bytes → ServerPairingSession
fresh_server c key b = record {
  x25519_keypair = exchange_keypair_of c b;
  ed25519_public_key = key;
  client_x25519_public = none;
  psk = none;
  sas = none;
}

module _ (c : Crates) (p : Codec) (laws : CrateLaws c) where
  Agreement-fresh :
      (keypair : Ed25519KeyPair) (server_key a b : Bytes)
      (client_name server_name username : String) (psk : PairingSymmetricKey)
      (csk : ClientSymmetricKey) (sas nonce random sealed hash : Bytes)
      → length keypair.verifying_key ≡ 32
      → length server_key ≡ 32
      → length csk.as_bytes ≡ 32
      → length nonce ≡ 12
      → length random ≡ 12
      → derive_psk_from_x25519 c (c.x25519_shared a (c.x25519_public b)) ≡ ok psk
      → derive_sas c psk (c.x25519_public a) (c.x25519_public b) ≡ ok sas
      → encrypt_with_psk c psk (some nonce) csk.as_bytes ≡ ok sealed
      → encrypt_with_psk c psk (some random) (c.sha256 csk.as_bytes) ≡ ok hash
      → IsCarried p.encode_hello p.decode_hello (hello_of (fresh_server c server_key b) server_name)
      → IsCarried p.encode_response p.decode_response
          (response_of (fresh_client c keypair a) client_name)
      → IsCarried p.encode_csk_message p.decode_csk_message
          (record { encrypted_csk = sealed; username = username })
      → IsCarried p.encode_complete p.decode_complete
          (record { success = true; hash_algorithm = sha_256; csk_hash = hash })
      → Agreement c p
          (fresh_client c keypair a)
          (fresh_server c server_key b)
          client_name
          server_name
          username
          csk
          nonce
          random
  unfolding hello_of response_of
  Agreement-fresh keypair server_key a b client_name server_name username psk csk sas nonce random
        sealed hash key_c key_s whole sized_n sized_r keyed shown sealing hashing carried_h
        carried_r carried_m carried_d =
      let client : ClientPairingSession = fresh_client c keypair a in
      let server : ServerPairingSession = fresh_server c server_key b in
      let done : PairingComplete = record {
        success = true;
        hash_algorithm = sha_256;
        csk_hash = hash;
      } in
      let hello : PairingHello = hello_of server server_name in
      record {
        initiated = _;
        sent = _;
        completed = _;
        initiates =
            initiate_pairing-frame c p client hello (frame (p.encode_complete done)) client_name psk
              sas refl carried_h (laws.x25519_public_length b) key_s keyed shown;
        finishes =
            finish_pairing-frame c p laws (greeted client hello psk sas)
              (frame (p.encode_response (response_of (greeted client hello psk sas) client_name)))
              username psk csk nonce random sealed hash refl sized_r carried_d sealing hashing;
        completes =
            complete_pairing-frame c p laws server (response_of client client_name) username
              server_name psk csk sas nonce random sealed hash refl carried_r carried_m
              (laws.x25519_public_length a) key_c sized_n whole
              (ap (derive_psk_from_x25519 c) (laws.shared_comm b a) ∙ keyed) shown sealing hashing;
        same_sas = refl;
        csk_handed_over = refl;
        server_key = refl;
        server_named = refl;
        client_key = refl;
        client_named = refl;
      }

  -- Two new sessions that each read what the other writes agree: the client's initiation and
  -- completion and the phone's pairing all succeed, both sides show the same short authentication
  -- string, the phone holds the client's key, and each side has the other's public key and name.
  -- The keys and nonces have their lengths, the derivations and encryptions succeed, and prost
  -- gives the four messages back, none above 16 KiB.
  pub initiate_pairing-complete_pairing :
      (client : ClientPairingSession) (server : ServerPairingSession) (keypair : Ed25519KeyPair)
      (server_key a b : Bytes) (client_name server_name username : String)
      (psk : PairingSymmetricKey) (csk : ClientSymmetricKey) (sas nonce random sealed hash : Bytes)
      → new_client c keypair (some a) ≡ ok client
      → new_server c server_key (some b) ≡ ok server
      → length keypair.verifying_key ≡ 32
      → length server_key ≡ 32
      → length csk.as_bytes ≡ 32
      → length nonce ≡ 12
      → length random ≡ 12
      → derive_psk_from_x25519 c (c.x25519_shared a (c.x25519_public b)) ≡ ok psk
      → derive_sas c psk (c.x25519_public a) (c.x25519_public b) ≡ ok sas
      → encrypt_with_psk c psk (some nonce) csk.as_bytes ≡ ok sealed
      → encrypt_with_psk c psk (some random) (c.sha256 csk.as_bytes) ≡ ok hash
      → IsCarried p.encode_hello p.decode_hello (hello_of server server_name)
      → IsCarried p.encode_response p.decode_response (response_of client client_name)
      → IsCarried p.encode_csk_message p.decode_csk_message
          (record { encrypted_csk = sealed; username = username })
      → IsCarried p.encode_complete p.decode_complete
          (record { success = true; hash_algorithm = sha_256; csk_hash = hash })
      → Agreement c p client server client_name server_name username csk nonce random
  unfolding new_client new_server generate_exchange_keypair
  initiate_pairing-complete_pairing client server keypair server_key a b client_name server_name
        username psk csk sas nonce random sealed hash new_c new_s =
      let same_c : fresh_client c keypair a ≡ client = ground arith in
      let same_s : fresh_server c server_key b ≡ server = ground arith in
      rw (← same_c, ← same_s)
        (Agreement-fresh keypair server_key a b client_name server_name username psk csk sas nonce
          random sealed hash)
