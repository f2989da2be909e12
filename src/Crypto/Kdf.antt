-- ===== src/Crypto/Kdf.antt =====
-- shared/src/crypto/kdf.rs. A short authentication string is its list of ASCII codes.
use tapauth.Prelude.{
  ℕ, ◌+◌, ◌/◌, ◌%◌, [], ◌∷◌, ◌++◌, Result, ok, ok_or, ◌>>=◌, if◌then◌else◌, Bytes, ◌==◌, nat_eq,
  length, take, drop, codes, from_be_bytes,
}
use tapauth.Crypto.Crates.{Crates, CryptoError, key_derivation_failed}
use tapauth.Crypto.Keys.{PairingSymmetricKey}

-- `format!("{:06}", n)` of a number below a million: six digits.
unfoldable pub six_digits : ℕ → Bytes
six_digits n =
    (b'0' + n / 100000 % 10)
    ∷ (b'0' + n / 10000 % 10)
    ∷ (b'0' + n / 1000 % 10)
    ∷ (b'0' + n / 100 % 10)
    ∷ (b'0' + n / 10 % 10)
    ∷ (b'0' + n % 10)
    ∷ []

unfoldable pub format_sas : Bytes → Bytes
format_sas sas = if length sas == 6 then take 3 sas ++ b'-' ∷ drop 3 sas else sas

module _ (c : Crates) where
  unfoldable pub derive_psk_from_x25519 : Bytes → Result CryptoError PairingSymmetricKey
  derive_psk_from_x25519 shared_secret = do
    psk ←
        ok_or (c.hkdf_expand shared_secret (codes "tapauth-pairing-key" ∷ []) 32)
          key_derivation_failed
    ok (record { as_bytes = psk })

  unfoldable pub derive_sas : PairingSymmetricKey → Bytes → Bytes → Result CryptoError Bytes
  unfolding six_digits
  derive_sas psk client_public server_public = do
    let input = client_public ++ server_public
    output ←
        ok_or (c.hkdf_expand psk.as_bytes (codes "tapauth-sas" ∷ input ∷ []) 8)
          key_derivation_failed
    ok (six_digits (from_be_bytes 0 output % 1000000))
