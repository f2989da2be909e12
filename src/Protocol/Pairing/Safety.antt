-- ===== src/Protocol/Pairing/Safety.antt =====
-- What a side of shared/src/protocol/pairing.rs knows after a call that ended well, whatever the
-- peer sent.
use tapauth.Prelude.{
  ◌≡◌, ◌∙◌, ap, String, true, not, Option, some, ok, ok_or, map_err, fail_if, Bytes, bytes_eq,
  nat_eq, length, >>=-eq-ok, map_err-eq-ok, ok_or-eq-ok, fail_if-eq-ok, arith,
}
use tapauth.Crypto.Crates.{Crates}
use tapauth.Crypto.Keys.{PairingSymmetricKey, ClientSymmetricKey}
use tapauth.Crypto.Kdf.{derive_psk_from_x25519, derive_sas}
use tapauth.Crypto.Encryption.{decrypt_with_psk}
use tapauth.Protocol.Message.{
  Codec, PairingHello, PairingComplete, deserialization, invalid_message_format, missing_field,
  crypto,
}
use tapauth.Protocol.Framing.{TcpStream, read_message}
use tapauth.Protocol.Pairing.{ClientPairingSession, pairing_version}
use tapauth.Protocol.Pairing.Client.{
  Initiated, receive_pairing_hello, send_csk_message, receive_pairing_complete, finish_pairing,
}

-- The peer confirmed, under the session's key, that it holds this client key.
pub record IsConfirmed (c : Crates) (p : Codec) (self : ClientPairingSession) (incoming : TcpStream)
    (csk : ClientSymmetricKey) : Type 0 where
  pub psk : PairingSymmetricKey
  pub message : Bytes
  pub rest : TcpStream
  pub complete : PairingComplete
  pub keyed : self.psk ≡ some psk
  pub received : read_message incoming ≡ ok (message, rest)
  pub decoded : p.decode_complete message ≡ some complete
  pub success : complete.success ≡ true
  pub same_hash : decrypt_with_psk c psk complete.csk_hash ≡ ok (c.sha256 csk.as_bytes)

-- What the user of the client compares: the short authentication string covers the key that this
-- session owns and the key of the greeting, under the secret that the two keys give.
pub record IsBound (c : Crates) (p : Codec) (self : ClientPairingSession) (stream : TcpStream)
    (i : Initiated) : Type 0 where
  pub hello : PairingHello
  pub rest : TcpStream
  pub psk : PairingSymmetricKey
  pub received : receive_pairing_hello c p stream ≡ ok (hello, rest)
  pub current : hello.version ≡ pairing_version
  pub point : length hello.x25519_public_key ≡ 32
  pub agreed :
      derive_psk_from_x25519 c
        (c.x25519_shared self.x25519_keypair.secret_bytes hello.x25519_public_key)
      ≡ ok psk
  pub shown : derive_sas c psk self.x25519_keypair.public hello.x25519_public_key ≡ ok i.sas
  pub keyed : i.session.psk ≡ some psk
  pub kept : i.session.x25519_keypair ≡ self.x25519_keypair
  pub key : i.server_ed25519_public ≡ hello.ed25519_public_key
  pub key_length : length i.server_ed25519_public ≡ 32
  pub named : i.server_device_name ≡ hello.device_name

module _ (c : Crates) (p : Codec) where
  receive_pairing_complete-IsConfirmed :
      (self : ClientPairingSession) (stream : TcpStream) (csk : ClientSymmetricKey)
      → receive_pairing_complete c p self stream csk ≡ ok tt
      → IsConfirmed c p self stream csk
  unfolding receive_pairing_complete
  receive_pairing_complete-IsConfirmed self stream csk h =
      let (got, received, h₁) = >>=-eq-ok (read_message stream) _ h in
      let (complete, decoded, h₂) =
        >>=-eq-ok (ok_or (p.decode_complete got.0) deserialization) _ h₁ in
      let (_, success, h₃) =
        >>=-eq-ok (fail_if (not complete.success) invalid_message_format) _ h₂ in
      let (psk, keyed, h₄) = >>=-eq-ok (ok_or self.psk (missing_field "psk")) _ h₃ in
      let (hash, opened, h₅) =
        >>=-eq-ok (map_err crypto (decrypt_with_psk c psk complete.csk_hash)) _ h₄ in
      let same : hash ≡ c.sha256 csk.as_bytes =
        (bytes_eq.beq_iff hash (c.sha256 csk.as_bytes)).0 (ground (arith, fail_if-eq-ok _ _ h₅)) in
      record {
        psk = psk;
        message = got.0;
        rest = got.1;
        complete = complete;
        keyed = ok_or-eq-ok _ _ keyed;
        received = received;
        decoded = ok_or-eq-ok _ _ decoded;
        success = ground (arith, fail_if-eq-ok _ _ success);
        same_hash = map_err-eq-ok crypto _ opened ∙ ap ok same;
      }

  -- Whatever the peer sends, a client that finishes a pairing has sent its key and has read a
  -- completion that reports success and whose hash opens under the pairing key to the SHA-256 of
  -- the key that it sent.
  pub finish_pairing-IsConfirmed :
      (self : ClientPairingSession) (stream : TcpStream) (random : Option Bytes)
      (csk : ClientSymmetricKey) (username : String) (sent : TcpStream)
      → finish_pairing c p self stream random csk username ≡ ok sent
      → (send_csk_message c p self stream random csk username ≡ ok sent)
        × IsConfirmed c p self sent csk
  unfolding finish_pairing
  finish_pairing-IsConfirmed self stream random csk username sent h =
      let (out, handed, h₁) =
        >>=-eq-ok (send_csk_message c p self stream random csk username) _ h in
      let (_, told, ended) = >>=-eq-ok (receive_pairing_complete c p self out csk) _ h₁ in
      let same : out ≡ sent = ground arith in
      rw (← same) (handed, receive_pairing_complete-IsConfirmed self out csk told)
