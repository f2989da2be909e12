-- ===== src/Protocol/Pairing/Frames.antt =====
-- What each side of shared/src/protocol/pairing.rs makes of a frame that the other side wrote.
use tapauth.Prelude.{
  ◌≡◌, refl, ◌≤◌, true, Option, some, [], ◌++◌, ok, Bytes, nat_eq, bytes_eq, length, beq_refl,
}
use tapauth.Crypto.Crates.{Crates, CrateLaws}
use tapauth.Crypto.Keys.{PairingSymmetricKey, ClientSymmetricKey}
use tapauth.Crypto.Encryption.{encrypt_with_psk}
use tapauth.Crypto.Encryption.RoundTrip.{decrypt-encrypt_psk}
use tapauth.Protocol.Message.{
  Codec, PairingHello, PairingResponse, PairingCskMessage, PairingComplete,
}
use tapauth.Protocol.Framing.{TcpStream, max_message_size, frame, read_message-frame}
use tapauth.Protocol.Pairing.{ClientPairingSession, ServerPairingSession, pairing_version}
use tapauth.Protocol.Pairing.Client.{receive_pairing_hello, receive_pairing_complete}
use tapauth.Protocol.Pairing.Server.{receive_pairing_response, receive_csk_message}

-- A message that the encoding gives back, and that is not too large for a frame.
pub record IsCarried {M : Type 0} (encode : M → Bytes) (decode : Bytes → Option M) (m : M)
    : Type 0 where
  pub decoded : decode (encode m) ≡ some m
  pub fits : length (encode m) ≤ max_message_size

-- A new connection on which the peer sends these bytes.
abbrev pub connected : Bytes → TcpStream
connected bytes = record { incoming = bytes; outgoing = []; writable = true }

module _ (c : Crates) (p : Codec) where
  pub receive_pairing_hello-frame :
      (hello : PairingHello) (rest : Bytes) (stream : TcpStream)
      → hello.version ≡ pairing_version
      → IsCarried p.encode_hello p.decode_hello hello
      → stream.incoming ≡ frame (p.encode_hello hello) ++ rest
      → receive_pairing_hello c p stream ≡ ok (hello, record stream { incoming = rest })
  unfolding receive_pairing_hello
  receive_pairing_hello-frame hello rest stream current carried comes =
      rw
        (
          read_message-frame (p.encode_hello hello) rest stream carried.fits comes,
          carried.decoded,
          current,
        )
        refl

  pub receive_pairing_response-frame :
      (response : PairingResponse) (rest : Bytes) (stream : TcpStream)
      → response.version ≡ pairing_version
      → IsCarried p.encode_response p.decode_response response
      → stream.incoming ≡ frame (p.encode_response response) ++ rest
      → receive_pairing_response c p stream ≡ ok (response, record stream { incoming = rest })
  unfolding receive_pairing_response
  receive_pairing_response-frame response rest stream current carried comes =
      rw
        (
          read_message-frame (p.encode_response response) rest stream carried.fits comes,
          carried.decoded,
          current,
        )
        refl

  -- The message that hands the key over is opened by the holder of the pairing key.
  module _ (laws : CrateLaws c) (psk : PairingSymmetricKey) (nonce : Bytes)
      (csk : ClientSymmetricKey) where
    pub receive_csk_message-frame :
        (self : ServerPairingSession) (m : PairingCskMessage) (rest : Bytes) (stream : TcpStream)
        → self.psk ≡ some psk
        → length nonce ≡ 12
        → length csk.as_bytes ≡ 32
        → encrypt_with_psk c psk (some nonce) csk.as_bytes ≡ ok m.encrypted_csk
        → IsCarried p.encode_csk_message p.decode_csk_message m
        → stream.incoming ≡ frame (p.encode_csk_message m) ++ rest
        → receive_csk_message c p self stream
          ≡ ok (csk, c.sha256 csk.as_bytes, record stream { incoming = rest })
    unfolding receive_csk_message
    receive_csk_message-frame self m rest stream keyed sized whole sealed carried comes =
        rw
          (
            read_message-frame (p.encode_csk_message m) rest stream carried.fits comes,
            carried.decoded,
            keyed,
            decrypt-encrypt_psk c laws psk nonce csk.as_bytes sized sealed,
            whole,
          )
          refl

    pub receive_pairing_complete-frame :
        (self : ClientPairingSession) (m : PairingComplete) (stream : TcpStream)
        → self.psk ≡ some psk
        → length nonce ≡ 12
        → m.success ≡ true
        → encrypt_with_psk c psk (some nonce) (c.sha256 csk.as_bytes) ≡ ok m.csk_hash
        → IsCarried p.encode_complete p.decode_complete m
        → stream.incoming ≡ frame (p.encode_complete m) ++ []
        → receive_pairing_complete c p self stream csk ≡ ok tt
    unfolding receive_pairing_complete
    receive_pairing_complete-frame self m stream keyed sized done sealed carried comes =
        rw
          (
            read_message-frame (p.encode_complete m) [] stream carried.fits comes,
            carried.decoded,
            done,
            keyed,
            decrypt-encrypt_psk c laws psk nonce (c.sha256 csk.as_bytes) sized sealed,
            beq_refl (c.sha256 csk.as_bytes),
          )
          refl
