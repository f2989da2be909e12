-- ===== src/Models.antt =====
-- shared/src/models.rs: the URL of the QR code that pairs a phone. Texts are their bytes.
use tapauth.Prelude.{
  ◌≡◌, ◌≢◌, ℕ, String, Bool, true, false, not, ◌&&◌, Option, none, some, List, [], ◌∷◌, ◌++◌, Bytes,
  codes, take, drop, ◌==◌, bytes_eq, nat_beq, if◌then◌else◌, Result, ok, err, ok_or, fail_if, ◌>>=◌,
  ◌>>◌, digits, parse_decimal,
}
pub mod Url

-- `Display` and `FromStr` of an address of the standard library.
pub record AddressText (A : Type 0) : Type 0 where
  pub display : A → Bytes
  pub from_str : Bytes → Option A

pub data PairingInfoError : Type 0 where
  invalid_scheme invalid_query invalid_version invalid_port : PairingInfoError
  invalid_ipv4 invalid_ipv6 : PairingInfoError
  missing_field : String → PairingInfoError

abbrev pub u16_max : ℕ
u16_max = 65535

abbrev pub u32_max : ℕ
u32_max = 4294967295

-- `text.split(c)`: the pieces between the separators, of which there is always one.
prefix_piece : ℕ → List Bytes → List Bytes
prefix_piece b [] = (b ∷ []) ∷ []
prefix_piece b (piece ∷ pieces) = (b ∷ piece) ∷ pieces

unfoldable pub split : ℕ → Bytes → List Bytes
unfolding prefix_piece
split c [] = [] ∷ []
split c (b ∷ bytes) =
    let pieces = split c bytes in if nat_beq b c then [] ∷ pieces else prefix_piece b pieces

-- The key and the value of `pair`; what comes after a second `=` is left.
unfoldable pub key_value : Bytes → Result PairingInfoError (Bytes × Bytes)
unfolding split
key_value pair = elim (split 61 pair) [
  | [] ↦ err invalid_query
  | key ∷ parts ↦ elim parts [ [] ↦ err invalid_query | value ∷ _ ↦ ok (key, value) ]
]

-- The locals of `parse`.
pub record Fields (V4 V6 : Type 0) : Type 0 where
  pub version : Option ℕ
  pub public_key_hex : Option Bytes
  pub port : Option ℕ
  pub ipv4 : Option V4
  pub ipv6 : Option V6

pub record PairingInfo (V4 V6 : Type 0) : Type 0 where
  pub version : ℕ
  pub public_key_hex : Bytes
  pub port : ℕ
  pub ipv4 : Option V4
  pub ipv6 : Option V6

module _ {V4 V6 : Type 0} (v4 : AddressText V4) (v6 : AddressText V6) where
  abbrev pub no_fields : Fields V4 V6
  no_fields = record {
    version = none;
    public_key_hex = none;
    port = none;
    ipv4 = none;
    ipv6 = none;
  }

  address : {A : Type 0} → String → AddressText A → Option A → Bytes
  address key text none = []
  address key text (some ip) = codes key ++ text.display ip

  -- `port` is a `u16`.
  unfoldable pub generate_pairing_url : Bytes → ℕ → Option V4 → Option V6 → Bytes
  unfolding address
  generate_pairing_url public_key_hex port ipv4 ipv6 =
      codes "tapauth://pair?v=1&pk="
      ++ (public_key_hex
          ++ (codes "&p="
              ++ (digits 5 port ++ (address "&ip4=" v4 ipv4 ++ address "&ip6=" v6 ipv6))))

  -- The arms of the `match` on the key.
  unfoldable pub set_field : Fields V4 V6 → Bytes → Bytes → Result PairingInfoError (Fields V4 V6)
  set_field f key value =
      if key == codes "v"
      then (ok_or (parse_decimal u32_max value) invalid_version >>= λ n.
          ok (record f { version = some n }))
      else if key == codes "pk"
      then ok (record f { public_key_hex = some value })
      else if key == codes "p"
      then (ok_or (parse_decimal u16_max value) invalid_port >>= λ n.
          ok (record f { port = some n }))
      else if key == codes "ip4"
      then (ok_or (v4.from_str value) invalid_ipv4 >>= λ ip. ok (record f { ipv4 = some ip }))
      else if key == codes "ip6"
      then (ok_or (v6.from_str value) invalid_ipv6 >>= λ ip. ok (record f { ipv6 = some ip }))
      else ok f

  -- The loop over the pairs.
  unfoldable pub set_fields : List Bytes → Fields V4 V6 → Result PairingInfoError (Fields V4 V6)
  unfolding key_value set_field
  set_fields [] f = ok f
  set_fields (pair ∷ pairs) f = do
    (key, value) ← key_value pair
    next ← set_field f key value
    set_fields pairs next

  unfoldable pub finish : Fields V4 V6 → Result PairingInfoError (PairingInfo V4 V6)
  finish f = do
    version ← ok_or f.version (missing_field "version")
    public_key_hex ← ok_or f.public_key_hex (missing_field "public key")
    port ← ok_or f.port (missing_field "port")
    ok (record {
      version = version;
      public_key_hex = public_key_hex;
      port = port;
      ipv4 = f.ipv4;
      ipv6 = f.ipv6;
    })

  unfoldable pub parse : Bytes → Result PairingInfoError (PairingInfo V4 V6)
  unfolding set_fields finish split
  parse url = do
    fail_if (not (take 15 url == codes "tapauth://pair?")) invalid_scheme
    fields ← set_fields (split 38 (drop 15 url)) no_fields
    finish fields
