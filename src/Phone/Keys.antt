-- ===== src/Phone/Keys.antt =====
-- shared/src/jni_api.rs: keys, key exchange, encryption and signatures.
use tapauth.Prelude.{String, Bool, Option, Result, ok, map_err, ◌>>=◌, Bytes, fail_if, not, ◌>>◌}
use tapauth.Crypto.Crates.{Crates}
use tapauth.Crypto.Keys.{
  exchange_keypair_of, diffie_hellman, generate_keypair as generate_ed25519,
  generate_exchange_keypair,
}
use tapauth.Crypto.Kdf.{derive_psk_from_x25519, derive_sas}
use tapauth.Crypto.Encryption.{
  encrypt_with_psk as seal_with_psk, decrypt_with_psk as open_with_psk,
  encrypt_with_csk as seal_with_csk, decrypt_with_csk as open_with_csk,
}
use tapauth.Phone.{
  Exception, illegal_argument, security, aead_bad_tag, invalid_key, exception_of, to_fixed,
  throwing,
}

module _ (c : Crates) where
  -- The private key and the public key.
  unfoldable pub generate_keypair : Option Bytes → Result Exception (Bytes × Bytes)
  unfolding generate_ed25519 exception_of
  generate_keypair random = do
    keypair ← map_err exception_of (generate_ed25519 c random)
    ok (keypair.signing_key_bytes, keypair.verifying_key)

  unfoldable pub generate_x25519_keypair : Option Bytes → Result Exception (Bytes × Bytes)
  unfolding generate_exchange_keypair exception_of
  generate_x25519_keypair random = do
    keypair ← map_err exception_of (generate_exchange_keypair c random)
    ok (keypair.secret_bytes, keypair.public)

  unfoldable pub key_exchange : Bytes → Bytes → Result Exception Bytes
  unfolding to_fixed diffie_hellman
  key_exchange our_private_key their_public_key = do
    ours ← to_fixed 32 our_private_key
    theirs ← to_fixed 32 their_public_key
    shared_secret ← throwing illegal_argument (diffie_hellman c (exchange_keypair_of c ours) theirs)
    psk ← throwing illegal_argument (derive_psk_from_x25519 c shared_secret)
    ok psk.as_bytes

  unfoldable pub get_sas : Bytes → Bytes → Bytes → Result Exception Bytes
  unfolding to_fixed
  get_sas psk client_public server_public = do
    psk_array ← to_fixed 32 psk
    client_pub_array ← to_fixed 32 client_public
    server_pub_array ← to_fixed 32 server_public
    throwing illegal_argument
        (derive_sas c (record { as_bytes = psk_array }) client_pub_array server_pub_array)

  unfoldable pub decrypt_with_psk : Bytes → Bytes → Result Exception Bytes
  unfolding to_fixed
  decrypt_with_psk psk ciphertext = do
    psk_array ← to_fixed 32 psk
    throwing aead_bad_tag (open_with_psk c (record { as_bytes = psk_array }) ciphertext)

  unfoldable pub encrypt_with_psk : Bytes → Option Bytes → Bytes → Result Exception Bytes
  unfolding to_fixed
  encrypt_with_psk psk random plaintext = do
    psk_array ← to_fixed 32 psk
    throwing security (seal_with_psk c (record { as_bytes = psk_array }) random plaintext)

  unfoldable pub sha256 : Bytes → String
  sha256 bytes = c.hex_encode (c.sha256 bytes)

  -- `context` stands for the bytes of the text that Java passes.
  unfoldable pub encrypt_with_csk : Bytes → Bytes → Bytes → Bytes → Result Exception Bytes
  unfolding to_fixed
  encrypt_with_csk csk challenge context plaintext = do
    csk_array ← to_fixed 32 csk
    challenge_array ← to_fixed 32 challenge
    throwing security
        (seal_with_csk c (record { as_bytes = csk_array }) challenge_array context plaintext)

  unfoldable pub decrypt_with_csk : Bytes → Bytes → Bytes → Bytes → Result Exception Bytes
  unfolding to_fixed
  decrypt_with_csk csk challenge context ciphertext = do
    csk_array ← to_fixed 32 csk
    challenge_array ← to_fixed 32 challenge
    throwing aead_bad_tag
        (open_with_csk c (record { as_bytes = csk_array }) challenge_array context ciphertext)

  unfoldable pub verify_signature : Bytes → Bytes → Bytes → Result Exception Bool
  unfolding to_fixed
  verify_signature public_key message signature = do
    public_key_array ← to_fixed 32 public_key
    signature_array ← to_fixed 64 signature
    fail_if (not (c.ed25519_is_point public_key_array)) invalid_key
    ok (c.ed25519_verify public_key_array message signature_array)

  unfoldable pub sign_data : Bytes → Bytes → Result Exception Bytes
  unfolding to_fixed
  sign_data private_key message = do
    private_key_array ← to_fixed 32 private_key
    ok (c.ed25519_sign private_key_array message)
