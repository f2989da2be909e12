-- ===== src/Crypto/Encryption/RoundTrip.antt =====
-- What the prepended-nonce functions of shared/src/crypto/encryption.rs seal, they open.
use tapauth.Prelude.{
  ◌≡◌, some, [], ◌++◌, ok, Bytes, length, length-append, take-length-append, drop-length-append,
  arith, Option-cases, inl, inr,
}
use tapauth.Crypto.Crates.{Crates, CrateLaws}
use tapauth.Crypto.Keys.{ClientSymmetricKey, PairingSymmetricKey}
use tapauth.Crypto.Encryption.{
  seal_prepending, open_prepended, encrypt_with_csk_and_random_nonce,
  decrypt_with_csk_and_prepended_nonce, encrypt_with_psk, decrypt_with_psk,
}

module _ (c : Crates) (laws : CrateLaws c) where
  open_prepended-append :
      (key nonce ciphertext m : Bytes)
      → length nonce ≡ 12
      → c.aes_decrypt key nonce ciphertext [] ≡ some m
      → open_prepended c key (nonce ++ ciphertext) ≡ ok m
  unfolding open_prepended
  open_prepended-append key nonce ciphertext m sized opened = ground (
    arith,
    length-append nonce ciphertext,
    take-length-append nonce ciphertext 12 sized,
    drop-length-append nonce ciphertext 12 sized,
  )

  open_prepended-seal :
      (key nonce m : Bytes) {s : Bytes}
      → length nonce ≡ 12
      → seal_prepending c key (some nonce) m ≡ ok s
      → open_prepended c key s ≡ ok m
  unfolding seal_prepending
  open_prepended-seal key nonce m {s} sized h = elim (Option-cases (c.aes_encrypt key nonce m [])) [
    | inl failed ↦ absurd (ground arith)
    | inr (t, sealed) ↦ ground (
      arith,
      open_prepended-append key nonce t m sized (laws.decrypt-encrypt key nonce m [] t sealed),
    )
  ]

  pub decrypt-encrypt_csk :
      (csk : ClientSymmetricKey) (nonce m : Bytes) {s : Bytes}
      → length nonce ≡ 12
      → encrypt_with_csk_and_random_nonce c csk (some nonce) m ≡ ok s
      → decrypt_with_csk_and_prepended_nonce c csk s ≡ ok m
  unfolding encrypt_with_csk_and_random_nonce decrypt_with_csk_and_prepended_nonce
  decrypt-encrypt_csk csk nonce m sized h = open_prepended-seal csk.as_bytes nonce m sized h

  pub decrypt-encrypt_psk :
      (psk : PairingSymmetricKey) (nonce m : Bytes) {s : Bytes}
      → length nonce ≡ 12
      → encrypt_with_psk c psk (some nonce) m ≡ ok s
      → decrypt_with_psk c psk s ≡ ok m
  unfolding encrypt_with_psk decrypt_with_psk
  decrypt-encrypt_psk psk nonce m sized h = open_prepended-seal psk.as_bytes nonce m sized h
