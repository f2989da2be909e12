-- ===== src/Tests/Toy.antt =====
-- A toy instance of the third-party crates and of the wire format, which satisfies the documented
-- laws, and the data that the runs share. The toy is no cryptography.
use tapauth.Prelude.{
  ◌≡◌, refl, ℕ, zero, suc, String, true, Option, none, some, [], ◌∷◌, ◌++◌, if◌then◌else◌, Bytes,
  ◌==◌, bytes_eq, nat_eq, string_eq, length, take, drop, beq_refl, take-length-append,
  drop-length-append, arith,
}
use tapauth.Crypto.Crates.{Crates, CrateLaws}
use tapauth.Crypto.Keys.{Ed25519KeyPair, ClientSymmetricKey, keypair_of}
use tapauth.Config.Servers.{PairedServer}
use tapauth.Protocol.Message.{
  Codec, WrapperMessage, Payload, auth_request, auth_grant, auth_denial, grant_confirmation,
  auth_cancel, EncryptedPacket, AuthenticationGrant,
}
use tapauth.Daemon.Auth.Response.{Servers, Context}

-- The first bytes, filled up with zeros.
abbrev pub fit : ℕ → Bytes → Bytes
fit zero xs = []
fit (suc n) [] = 0 ∷ fit n []
fit (suc n) (x ∷ xs) = x ∷ fit n xs

pub length-fit : (n : ℕ) (xs : Bytes) → length (fit n xs) ≡ n
length-fit zero xs = refl
length-fit (suc n) [] = omega (arith, length-fit n [])
length-fit (suc n) (x ∷ xs) = omega (arith, length-fit n xs)

abbrev seal : Bytes → Bytes → Bytes → Bytes → Option Bytes
seal k n m a = some (fit 16 (k ++ n) ++ m)

abbrev unseal : Bytes → Bytes → Bytes → Bytes → Option Bytes
unseal k n s a = if take 16 s == fit 16 (k ++ n) then some (drop 16 s) else none

unseal-seal : (k n m a s : Bytes) → seal k n m a ≡ some s → unseal k n s a ≡ some m
unseal-seal k n m a s h =
    let same : fit 16 (k ++ n) ++ m ≡ s = ground arith in
    rw
      (
        ← same,
        take-length-append (fit 16 (k ++ n)) m 16 (length-fit 16 (k ++ n)),
        drop-length-append (fit 16 (k ++ n)) m 16 (length-fit 16 (k ++ n)),
        beq_refl (fit 16 (k ++ n)),
      )
      refl

abbrev toy_public : Bytes → Bytes
toy_public k = fit 32 k

abbrev toy_sign : Bytes → Bytes → Bytes
toy_sign k m = fit 64 (toy_public k ++ m)

abbrev pub phone_key : Bytes
phone_key = fit 32 (7 ∷ 7 ∷ [])

abbrev pub other_key : Bytes
other_key = fit 32 (8 ∷ 8 ∷ [])

abbrev toy_hex_decode : String → Option Bytes
toy_hex_decode s =
    if s == "phone" then some phone_key else if s == "other" then some other_key else none

abbrev toy_hex_encode : Bytes → String
toy_hex_encode b = if b == phone_key then "phone" else "other"

abbrev pub crates : Crates
crates = record {
  ed25519_public = toy_public;
  ed25519_sign = toy_sign;
  ed25519_is_point = λ _. true;
  ed25519_verify = λ key m s. s == fit 64 (key ++ m);
  x25519_public = toy_public;
  x25519_shared = λ _ _. fit 32 [];
  aes_encrypt = seal;
  aes_decrypt = unseal;
  hkdf_expand = λ k i n. some (fit n k);
  hmac_sha256 = λ k m. some (fit 32 (k ++ m));
  sha256 = fit 32;
  hex_encode = toy_hex_encode;
  hex_decode = toy_hex_decode;
}

pub crates-laws : CrateLaws crates
crates-laws = record {
  sign_verifies = λ k m. beq_refl (toy_sign k m);
  public_is_point = λ k. refl;
  sign_length = λ k m. length-fit 64 (toy_public k ++ m);
  ed25519_public_length = λ k. length-fit 32 k;
  decrypt-encrypt = unseal-seal;
  shared_comm = λ a b. refl;
  x25519_public_length = λ k. length-fit 32 k;
  hmac_total = λ k m. (fit 32 (k ++ m), refl, length-fit 32 (k ++ m));
  sha256_length = λ m. length-fit 32 m;
  hkdf_length = λ k i n t h. let same : fit n k ≡ t = ground arith in rw (← same) (length-fit n k);
}

-- A wrapper is its signature in 64 bytes, a tag and the bytes of the payload.
abbrev pub encode_payload : Option Payload → Bytes
encode_payload (some (auth_request r)) = 1 ∷ r.challenge
encode_payload (some (auth_grant g)) = 2 ∷ g.signed_challenge
encode_payload (some (auth_denial d)) = 3 ∷ d.challenge
encode_payload (some (grant_confirmation g)) = 4 ∷ g.challenge
encode_payload (some (auth_cancel a)) = 5 ∷ a.challenge
encode_payload none = []

abbrev pub decode_payload : Bytes → Option Payload
decode_payload [] = none
decode_payload (tag ∷ b) =
    if tag == 2
    then some (auth_grant (record { signed_challenge = b }))
    else if tag == 3
    then some (auth_denial (record { challenge = b }))
    else if tag == 4
    then some (grant_confirmation (record { challenge = b }))
    else some (auth_cancel (record { challenge = b }))

abbrev pub decode_wrapper : Bytes → Option WrapperMessage
decode_wrapper b = some (record {
  version = 1;
  signature_algorithm = 1;
  signature = take 64 b;
  payload = decode_payload (drop 64 b);
})

abbrev pub codec : Codec
codec = record {
  encode_wrapper = λ w. fit 64 w.signature ++ encode_payload w.payload;
  decode_wrapper = decode_wrapper;
  encode_hello = λ _. [];
  decode_hello = λ _. none;
  encode_response = λ _. [];
  decode_response = λ _. none;
  encode_csk_message = λ _. [];
  decode_csk_message = λ _. none;
  encode_complete = λ _. [];
  decode_complete = λ _. none;
}

abbrev pub phone_seed : Bytes
phone_seed = 7 ∷ 7 ∷ []

abbrev pub challenge : Bytes
challenge = fit 32 (1 ∷ 2 ∷ 3 ∷ [])

abbrev pub csk : ClientSymmetricKey
csk = record { as_bytes = fit 32 (5 ∷ []) }

abbrev pub nonce : Bytes
nonce = fit 12 (9 ∷ [])

abbrev pub keypair : Ed25519KeyPair
keypair = keypair_of crates (4 ∷ [])

abbrev pub phone : PairedServer
phone = record { name = "Phone"; public_key = "phone"; allowed_users = "alice" ∷ []; paired_at = 0 }

abbrev pub servers : Servers
servers = ("phone", phone) ∷ []

abbrev pub ctx : Context
ctx = record { challenge = challenge; keypair = keypair; csk = csk; servers = servers }

-- The phone's signature over a payload.
abbrev pub signed_by_phone : Payload → WrapperMessage
signed_by_phone payload =
    let unsigned : WrapperMessage = record {
      version = 1;
      signature_algorithm = 1;
      signature = [];
      payload = some payload;
    } in
    record unsigned { signature = toy_sign phone_seed (codec.encode_wrapper unsigned) }

abbrev pub packed : WrapperMessage → EncryptedPacket
packed wrapper = record {
  temporal_identifier = fit 16 [];
  encryption_algorithm = 1;
  ciphertext = nonce ++ (fit 16 (csk.as_bytes ++ nonce) ++ codec.encode_wrapper wrapper);
}

abbrev pub granted : AuthenticationGrant
granted = record { signed_challenge = toy_sign phone_seed challenge }

abbrev pub grant : WrapperMessage
grant = signed_by_phone (auth_grant granted)

abbrev pub denial : WrapperMessage
denial = signed_by_phone (auth_denial (record { challenge = challenge }))
