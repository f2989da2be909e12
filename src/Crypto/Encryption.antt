-- ===== src/Crypto/Encryption.antt =====
-- shared/src/crypto/encryption.rs.
pub mod RoundTrip
use tapauth.Prelude.{
  Option, [], ◌∷◌, ◌++◌, Result, ok, ok_or, fail_if, ◌>>=◌, ◌>>◌, Bytes, length, ltb, get_to,
  get_from, to_array,
}
use tapauth.Crypto.Crates.{
  Crates, CryptoError, encryption_failed, decryption_failed, key_derivation_failed,
  random_generation_failed,
}
use tapauth.Crypto.Keys.{ClientSymmetricKey, PairingSymmetricKey}

module _ (c : Crates) where
  unfoldable pub encrypt_aes_gcm : Bytes → Bytes → Bytes → Bytes → Result CryptoError Bytes
  encrypt_aes_gcm key nonce plaintext associated =
      ok_or (c.aes_encrypt key nonce plaintext associated) encryption_failed

  unfoldable pub decrypt_aes_gcm : Bytes → Bytes → Bytes → Bytes → Result CryptoError Bytes
  decrypt_aes_gcm key nonce ciphertext associated =
      ok_or (c.aes_decrypt key nonce ciphertext associated) decryption_failed

  unfoldable pub derive_nonce : Bytes → Bytes → Result CryptoError Bytes
  derive_nonce challenge info = ok_or (c.hkdf_expand challenge (info ∷ []) 12) key_derivation_failed

  unfoldable pub encrypt_with_csk :
      ClientSymmetricKey → Bytes → Bytes → Bytes → Result CryptoError Bytes
  unfolding derive_nonce encrypt_aes_gcm
  encrypt_with_csk csk challenge context plaintext = do
    nonce ← derive_nonce challenge context
    encrypt_aes_gcm csk.as_bytes nonce plaintext []

  unfoldable pub decrypt_with_csk :
      ClientSymmetricKey → Bytes → Bytes → Bytes → Result CryptoError Bytes
  unfolding derive_nonce decrypt_aes_gcm
  decrypt_with_csk csk challenge context ciphertext = do
    nonce ← derive_nonce challenge context
    decrypt_aes_gcm csk.as_bytes nonce ciphertext []

  -- The common body of the two pairs below: the nonce stands in front of the ciphertext.
  unfoldable pub seal_prepending : Bytes → Option Bytes → Bytes → Result CryptoError Bytes
  unfolding encrypt_aes_gcm
  seal_prepending key random plaintext = do
    nonce ← ok_or random random_generation_failed
    ciphertext ← encrypt_aes_gcm key nonce plaintext []
    ok (nonce ++ ciphertext)

  unfoldable pub open_prepended : Bytes → Bytes → Result CryptoError Bytes
  unfolding decrypt_aes_gcm
  open_prepended key sealed = do
    fail_if (ltb (length sealed) 12) decryption_failed
    front ← ok_or (get_to 12 sealed) decryption_failed
    nonce ← ok_or (to_array 12 front) decryption_failed
    ciphertext ← ok_or (get_from 12 sealed) decryption_failed
    decrypt_aes_gcm key nonce ciphertext []

  -- `random` is what `getrandom::fill` made of the 12-byte nonce.
  unfoldable pub encrypt_with_csk_and_random_nonce :
      ClientSymmetricKey → Option Bytes → Bytes → Result CryptoError Bytes
  unfolding seal_prepending
  encrypt_with_csk_and_random_nonce csk random plaintext =
      seal_prepending csk.as_bytes random plaintext

  unfoldable pub decrypt_with_csk_and_prepended_nonce :
      ClientSymmetricKey → Bytes → Result CryptoError Bytes
  unfolding open_prepended
  decrypt_with_csk_and_prepended_nonce csk sealed = open_prepended csk.as_bytes sealed

  unfoldable pub encrypt_with_psk :
      PairingSymmetricKey → Option Bytes → Bytes → Result CryptoError Bytes
  unfolding seal_prepending
  encrypt_with_psk psk random plaintext = seal_prepending psk.as_bytes random plaintext

  unfoldable pub decrypt_with_psk : PairingSymmetricKey → Bytes → Result CryptoError Bytes
  unfolding open_prepended
  decrypt_with_psk psk sealed = open_prepended psk.as_bytes sealed
