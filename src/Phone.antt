-- ===== src/Phone.antt =====
-- shared/src/jni_api.rs and shared/src/jni/conversions.rs: what the Android server calls. Arrays,
-- strings and objects of Java are values here, and an exception is an error. That Java passes null
-- or has no memory left is not modelled, nor is a caught panic.
pub mod Keys
pub mod Identifiers
pub mod Messages
pub mod Pairing
pub mod Approval
pub mod Request
use tapauth.Prelude.{
  ℕ, Option, some, none, Result, ok, err, ok_or, ◌>>=◌, Bytes, length, take, to_array, ◌==◌, nat_eq,
  ◌≡◌, arith, if◌then◌else◌,
}
use tapauth.Crypto.Crates.{
  Crates, CryptoError, invalid_key_length, invalid_signature, encryption_failed, decryption_failed,
  key_derivation_failed, random_generation_failed, system_time_error,
}
use tapauth.Crypto.Keys.{Ed25519KeyPair, keypair_of}

pub data Exception : Type 0 where
  illegal_argument illegal_state io security aead_bad_tag invalid_key : Exception

-- `TapAuthError::from` and `throw_tapauth_error`.
unfoldable pub exception_of : CryptoError → Exception
exception_of invalid_key_length = illegal_argument
exception_of decryption_failed = aead_bad_tag
exception_of system_time_error = illegal_state
exception_of invalid_signature = security
exception_of key_derivation_failed = security
exception_of encryption_failed = security
exception_of random_generation_failed = security

-- `jbytearray_to_fixed::<N>`.
unfoldable pub to_fixed : ℕ → Bytes → Result Exception Bytes
to_fixed n bytes = ok_or (to_array n bytes) illegal_argument

-- `jbytearray_to_ed25519_keypair`: of 64 bytes the first half is the signing key.
unfoldable pub to_ed25519_keypair : Crates → Bytes → Result Exception Ed25519KeyPair
to_ed25519_keypair c bytes =
    if length bytes == 64
    then ok (keypair_of c (take 32 bytes))
    else if length bytes == 32
    then ok (keypair_of c bytes)
    else err illegal_argument

-- A result whose every error is one exception.
abbrev pub throwing : {E A : Type 0} → Exception → Result E A → Result Exception A
throwing exception (ok a) = ok a
throwing exception (err e) = err exception

-- `decode_message` of what prost decodes.
abbrev pub decoded : {A : Type 0} → Option A → Result Exception A
decoded o = ok_or o io

pub to_fixed-whole : (n : ℕ) (b : Bytes) → length b ≡ n → to_fixed n b ≡ ok b
unfolding to_fixed
to_fixed-whole n b sized = ground arith
