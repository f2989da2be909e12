-- ===== src/Tests/Pairing.antt =====
-- A run of a pairing between a laptop and a phone.
use tapauth.Prelude.{
  ◌≡◌, refl, true, none, some, [], ◌∷◌, ◌++◌, ok, Bytes, take, drop, arith, codes,
}
use tapauth.Crypto.Keys.{PairingSymmetricKey, exchange_keypair_of, generate_exchange_keypair}
use tapauth.Crypto.Kdf.{derive_psk_from_x25519, derive_sas}
use tapauth.Crypto.Encryption.{encrypt_with_psk}
use tapauth.Protocol.Message.{Codec}
use tapauth.Protocol.Pairing.{ClientPairingSession, ServerPairingSession, new_client, new_server}
use tapauth.Protocol.Pairing.Client.{response_of, send_csk_message}
use tapauth.Protocol.Pairing.Server.{hello_of}
use tapauth.Protocol.Pairing.Agreement.{Agreement, initiate_pairing-complete_pairing}
use tapauth.Protocol.Pairing.Safety.{IsConfirmed, finish_pairing-IsConfirmed}
use tapauth.Tests.Toy.{crates, crates-laws, codec, csk, nonce, keypair, fit}

-- The codec of the other runs, with pairing messages of the two devices "Laptop" and "Phone".
abbrev pairing_codec : Codec
pairing_codec = record codec {
  encode_hello = λ m. m.x25519_public_key ++ m.ed25519_public_key;
  decode_hello = λ b. some (record {
    version = 1;
    x25519_public_key = take 32 b;
    ed25519_public_key = drop 32 b;
    device_name = "Phone";
    supported_symmetric_algorithms = 1 ∷ [];
    supported_hash_algorithms = 1 ∷ [];
    supported_signature_algorithms = 1 ∷ [];
  });
  encode_response = λ m. m.x25519_public_key ++ m.ed25519_public_key;
  decode_response = λ b. some (record {
    version = 1;
    x25519_public_key = take 32 b;
    ed25519_public_key = drop 32 b;
    device_name = "Laptop";
    selected_symmetric_algorithm = 1;
    selected_hash_algorithm = 1;
    selected_signature_algorithm = 1;
  });
  encode_csk_message = λ m. m.encrypted_csk;
  decode_csk_message = λ b. some (record { encrypted_csk = b; username = "alice" });
  encode_complete = λ m. m.csk_hash;
  decode_complete = λ b. some (record { success = true; hash_algorithm = 1; csk_hash = b });
}

abbrev server_key : Bytes
server_key = fit 32 (6 ∷ [])

abbrev laptop : ClientPairingSession
laptop = record {
  x25519_keypair = exchange_keypair_of crates (1 ∷ []);
  ed25519_keypair = keypair;
  server_x25519_public = none;
  psk = none;
  sas = none;
  server_supported_symmetric = [];
  server_supported_hash = [];
  server_supported_signature = [];
}

abbrev device : ServerPairingSession
device = record {
  x25519_keypair = exchange_keypair_of crates (2 ∷ []);
  ed25519_public_key = server_key;
  client_x25519_public = none;
  psk = none;
  sas = none;
}

abbrev psk : PairingSymmetricKey
psk = record { as_bytes = fit 32 [] }

abbrev sealed_under : Bytes → Bytes
sealed_under m = nonce ++ (fit 16 (psk.as_bytes ++ nonce) ++ m)

abbrev six_zeros : Bytes
six_zeros = codes "000000"

initiate_pairing-complete_pairing_example :
    Agreement crates pairing_codec laptop device "Laptop" "Phone" "alice" csk nonce nonce
unfolding new_client new_server generate_exchange_keypair derive_psk_from_x25519 derive_sas
    encrypt_with_psk hello_of response_of
initiate_pairing-complete_pairing_example =
    initiate_pairing-complete_pairing crates pairing_codec crates-laws laptop device keypair
      server_key (1 ∷ []) (2 ∷ []) "Laptop" "Phone" "alice" psk csk six_zeros nonce nonce
      (sealed_under csk.as_bytes) (sealed_under (fit 32 csk.as_bytes)) refl refl refl refl refl refl
      refl refl refl refl refl (record { decoded = refl; fits = omega arith })
      (record { decoded = refl; fits = omega arith })
      (record { decoded = refl; fits = omega arith })
      (record { decoded = refl; fits = omega arith })

-- The same run, for the other properties to start from.
abbrev agreed :
    Agreement crates pairing_codec laptop device "Laptop" "Phone" "alice" csk nonce nonce
unfolding new_client new_server generate_exchange_keypair derive_psk_from_x25519 derive_sas
    encrypt_with_psk hello_of response_of
agreed =
    initiate_pairing-complete_pairing crates pairing_codec crates-laws laptop device keypair
      server_key (1 ∷ []) (2 ∷ []) "Laptop" "Phone" "alice" psk csk six_zeros nonce nonce
      (sealed_under csk.as_bytes) (sealed_under (fit 32 csk.as_bytes)) refl refl refl refl refl refl
      refl refl refl refl refl (record { decoded = refl; fits = omega arith })
      (record { decoded = refl; fits = omega arith })
      (record { decoded = refl; fits = omega arith })
      (record { decoded = refl; fits = omega arith })

finish_pairing-IsConfirmed_example :
    (send_csk_message crates pairing_codec agreed.initiated.session agreed.initiated.stream
        (some nonce)
        csk
        "alice"
      ≡ ok agreed.sent)
    × IsConfirmed crates pairing_codec agreed.initiated.session agreed.sent csk
finish_pairing-IsConfirmed_example =
    finish_pairing-IsConfirmed crates pairing_codec agreed.initiated.session agreed.initiated.stream
      (some nonce) csk "alice" agreed.sent agreed.finishes
