-- ===== src/Protocol/Framing.antt =====
-- The frames of shared/src/protocol/pairing.rs on a TCP stream: four bytes of length, the most
-- significant first, and the encoded message.
use tapauth.Prelude.{
  ◌≡◌, refl, ℕ, ◌%◌, ◌^◌, ◌≤◌, ◌<◌, Bool, not, ◌++◌, Result, ok, err, ok_or, fail_if, ◌>>=◌, ◌>>◌,
  Bytes, length, drop, ltb, le→leb, get_to, to_be_bytes, from_be_bytes, length-append,
  take-length-append, drop-length-append, arith,
}
use tapauth.Protocol.Message.{ProtocolError, io, invalid_message_format}

-- A stream as one side holds it: the bytes that the peer sends before it closes, the bytes sent so
-- far, and whether the connection still takes bytes.
pub record TcpStream : Type 0 where
  pub incoming : Bytes
  pub outgoing : Bytes
  pub writable : Bool

-- `MAX_MESSAGE_SIZE`.
abbrev pub max_message_size : ℕ
max_message_size = 16384

-- `stream.read_exact(&mut buf)` of `n` bytes.
unfoldable pub read_exact : ℕ → TcpStream → Result ProtocolError (Bytes × TcpStream)
read_exact n stream = do
  buf ← ok_or (get_to n stream.incoming) io
  ok (buf, record stream { incoming = drop n stream.incoming })

-- `read_u32`, the bound on the length, and `read_exact`: the common beginning of the functions
-- that receive.
unfoldable pub read_message : TcpStream → Result ProtocolError (Bytes × TcpStream)
unfolding read_exact
read_message stream = do
  head ← read_exact 4 stream
  let len = from_be_bytes 0 head.0
  fail_if (ltb max_message_size len) invalid_message_format
  read_exact len head.1

unfoldable pub frame : Bytes → Bytes
frame buf = to_be_bytes 4 (length buf % 2 ^ 32) ++ buf

-- `write_u32`, `write_all` and `flush`: the common end of the functions that send.
unfoldable pub write_message : TcpStream → Bytes → Result ProtocolError TcpStream
unfolding frame
write_message stream buf = do
  fail_if (not stream.writable) io
  ok (record stream { outgoing = stream.outgoing ++ frame buf })

from_be_bytes-to_be_bytes : (n : ℕ) → n < 4294967296 → from_be_bytes 0 (to_be_bytes 4 n) ≡ n
from_be_bytes-to_be_bytes n h = omega arith

pub read_exact-append :
    (n : ℕ) (buf rest : Bytes) (stream : TcpStream)
    → length buf ≡ n
    → stream.incoming ≡ buf ++ rest
    → read_exact n stream ≡ ok (buf, record stream { incoming = rest })
unfolding read_exact
read_exact-append n buf rest stream sized comes =
    rw
      (
        comes,
        take-length-append buf rest n sized,
        drop-length-append buf rest n sized,
        le→leb n (length (buf ++ rest)) (omega (arith, length-append buf rest)),
      )
      refl

-- A frame of admissible size is read back whole, and what follows it stays.
pub read_message-frame :
    (buf rest : Bytes) (stream : TcpStream)
    → length buf ≤ max_message_size
    → stream.incoming ≡ frame buf ++ rest
    → read_message stream ≡ ok (buf, record stream { incoming = rest })
unfolding read_message frame
read_message-frame buf rest stream fits comes =
    let n : ℕ = length buf % 2 ^ 32 in
    let small : n ≡ length buf = omega arith in
    rw
      (
        read_exact-append 4 (to_be_bytes 4 n) (buf ++ rest) stream refl (comes),
        from_be_bytes-to_be_bytes n (omega arith),
        small,
      )
      (ground (
        arith,
        length-append buf rest,
        take-length-append buf rest (length buf) refl,
        drop-length-append buf rest (length buf) refl,
      ))

-- A length above the bound is refused before the message is read.
pub read_message-oversized :
    (head rest : Bytes) (stream : TcpStream)
    → length head ≡ 4
    → stream.incoming ≡ head ++ rest
    → max_message_size < from_be_bytes 0 head
    → read_message stream ≡ err invalid_message_format
unfolding read_message
read_message-oversized head rest stream sized comes large =
    ground (arith, read_exact-append 4 head rest stream sized comes)
