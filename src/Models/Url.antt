-- ===== src/Models/Url.antt =====
-- shared/src/models.rs: a URL that was generated is parsed to what it was generated from.
use tapauth.Prelude.{
  ◌≡◌, refl, ap, ◌∙◌, ℕ, ◌≤◌, Bool, true, not, ◌&&◌, Option, none, some, List, [], ◌∷◌, ◌++◌, Bytes,
  codes, bytes_eq, nat_beq, ok, ◌>>=◌, digits, number_from, parse_decimal, parse_decimal-digits,
  are_digits, are_digits-digits, arith, append-nil,
}
use tapauth.Models.{
  AddressText, address, no_fields, u16_max, split, key_value, generate_pairing_url, set_field,
  set_fields, finish, Fields, parse,
}

-- A text that no pair is cut in.
abbrev pub is_plain : Bytes → Bool
is_plain [] = true
is_plain (b ∷ bytes) = (not (nat_beq b 38) && not (nat_beq b 61)) && is_plain bytes

is_plain-digits : (bytes : Bytes) → are_digits bytes ≡ true → is_plain bytes ≡ true
is_plain-digits [] all = refl
is_plain-digits (b ∷ bytes) all = let rest = is_plain-digits bytes in ground arith

split-next :
    (text rest : Bytes)
    → is_plain text ≡ true
    → split 38 (text ++ (38 ∷ rest)) ≡ text ∷ split 38 rest
unfolding split
split-next [] rest plain = refl
split-next (b ∷ text) rest plain = let tail = split-next text rest in ground arith

split-last : (text : Bytes) → is_plain text ≡ true → split 38 text ≡ text ∷ []
unfolding split
split-last [] plain = refl
split-last (b ∷ text) plain = let tail = split-last text in ground arith

split-value : (text : Bytes) → is_plain text ≡ true → split 61 text ≡ text ∷ []
unfolding split
split-value [] plain = refl
split-value (b ∷ text) plain = let tail = split-value text in ground arith

split-head :
    (pk rest : Bytes)
    → is_plain pk ≡ true
    → split 38 (codes "v=1&pk=" ++ (pk ++ (codes "&p=" ++ rest)))
      ≡ codes "v=1" ∷ (codes "pk=" ++ pk) ∷ split 38 (codes "p=" ++ rest)
unfolding split
split-head pk rest plain = rw (split-next pk (codes "p=" ++ rest) plain) refl

-- The text of an address is parsed to the address, and holds no `&` and no `=`.
pub record AddressLaws {A : Type 0} (text : AddressText A) : Type 0 where
  pub round_trip : (a : A) → text.from_str (text.display a) ≡ some a
  pub plain : (a : A) → is_plain (text.display a) ≡ true

port-is_plain : (port : ℕ) → is_plain (digits 5 port) ≡ true
port-is_plain port = is_plain-digits (digits 5 port) (are_digits-digits 5 port)

module _ {V4 V6 : Type 0} (v4 : AddressText V4) (v6 : AddressText V6) (laws4 : AddressLaws v4)
    (laws6 : AddressLaws v6) where
  step-v :
      (pairs : List Bytes) (f : Fields V4 V6)
      → set_fields v4 v6 (codes "v=1" ∷ pairs) f
        ≡ set_fields v4 v6 pairs (record f { version = some 1 })
  unfolding set_fields set_field key_value split parse_decimal number_from
  step-v pairs f = refl

  step-pk :
      (text : Bytes) (pairs : List Bytes) (f : Fields V4 V6)
      → is_plain text ≡ true
      → set_fields v4 v6 ((codes "pk=" ++ text) ∷ pairs) f
        ≡ set_fields v4 v6 pairs (record f { public_key_hex = some text })
  unfolding set_fields set_field key_value split
  step-pk text pairs f plain = rw (split-value text plain) refl

  step-p :
      (text : Bytes) {port : ℕ} (pairs : List Bytes) (f : Fields V4 V6)
      → is_plain text ≡ true
      → parse_decimal u16_max text ≡ some port
      → set_fields v4 v6 ((codes "p=" ++ text) ∷ pairs) f
        ≡ set_fields v4 v6 pairs (record f { port = some port })
  unfolding set_fields set_field key_value split
  step-p text pairs f plain number = rw (split-value text plain, number) refl

  step-ip4 :
      (ip : V4) (pairs : List Bytes) (f : Fields V4 V6)
      → set_fields v4 v6 ((codes "ip4=" ++ v4.display ip) ∷ pairs) f
        ≡ set_fields v4 v6 pairs (record f { ipv4 = some ip })
  unfolding set_fields set_field key_value split
  step-ip4 ip pairs f = rw (split-value (v4.display ip) (laws4.plain ip), laws4.round_trip ip) refl

  step-ip6 :
      (ip : V6) (pairs : List Bytes) (f : Fields V4 V6)
      → set_fields v4 v6 ((codes "ip6=" ++ v6.display ip) ∷ pairs) f
        ≡ set_fields v4 v6 pairs (record f { ipv6 = some ip })
  unfolding set_fields set_field key_value split
  step-ip6 ip pairs f = rw (split-value (v6.display ip) (laws6.plain ip), laws6.round_trip ip) refl

  -- The pairs of the addresses.
  abbrev address_pairs : Option V4 → Option V6 → List Bytes
  address_pairs none none = []
  address_pairs (some a) none = (codes "ip4=" ++ v4.display a) ∷ []
  address_pairs none (some b) = (codes "ip6=" ++ v6.display b) ∷ []
  address_pairs (some a) (some b) =
      (codes "ip4=" ++ v4.display a) ∷ (codes "ip6=" ++ v6.display b) ∷ []

  split-addresses :
      (text : Bytes) (ipv4 : Option V4) (ipv6 : Option V6)
      → is_plain text ≡ true
      → split 38
          (codes "p=" ++ (text ++ (address v4 v6 "&ip4=" v4 ipv4 ++ address v4 v6 "&ip6=" v6 ipv6)))
        ≡ (codes "p=" ++ text) ∷ address_pairs ipv4 ipv6
  unfolding split address
  split-addresses text none none plain = rw (append-nil text, split-last text plain) refl
  split-addresses text (some a) none plain =
      rw
        (
          split-next text (codes "ip4=" ++ (v4.display a ++ [])) plain,
          append-nil (v4.display a),
          split-last (v4.display a) (laws4.plain a),
        )
        refl
  split-addresses text none (some b) plain =
      rw
        (
          split-next text (codes "ip6=" ++ v6.display b) plain,
          split-last (v6.display b) (laws6.plain b),
        )
        refl
  split-addresses text (some a) (some b) plain =
      rw
        (
          split-next text (codes "ip4=" ++ (v4.display a ++ (38 ∷ (codes "ip6=" ++ v6.display b))))
              plain,
          split-next (v4.display a) (codes "ip6=" ++ v6.display b) (laws4.plain a),
          split-last (v6.display b) (laws6.plain b),
        )
        refl

  fields : Bytes → ℕ → Option V4 → Option V6 → Fields V4 V6
  fields pk port ipv4 ipv6 = record {
    version = some 1;
    public_key_hex = some pk;
    port = some port;
    ipv4 = ipv4;
    ipv6 = ipv6;
  }

  set_fields-addresses :
      (pk : Bytes) (port : ℕ) (ipv4 : Option V4) (ipv6 : Option V6)
      → set_fields v4 v6 (address_pairs ipv4 ipv6) (fields pk port none none)
        ≡ ok (fields pk port ipv4 ipv6)
  unfolding fields set_fields
  set_fields-addresses pk port none none = refl
  set_fields-addresses pk port (some a) none = step-ip4 a [] (fields pk port none none)
  set_fields-addresses pk port none (some b) = step-ip6 b [] (fields pk port none none)
  set_fields-addresses pk port (some a) (some b) =
      step-ip4 a ((codes "ip6=" ++ v6.display b) ∷ []) (fields pk port none none)
      ∙ step-ip6 b [] (fields pk port (some a) none)

  set_fields-url :
      (pk text : Bytes) (port : ℕ) (ipv4 : Option V4) (ipv6 : Option V6)
      → is_plain pk ≡ true
      → is_plain text ≡ true
      → parse_decimal u16_max text ≡ some port
      → set_fields v4 v6
          (codes "v=1" ∷ (codes "pk=" ++ pk) ∷ (codes "p=" ++ text) ∷ address_pairs ipv4 ipv6)
          (no_fields v4 v6)
        ≡ ok (fields pk port ipv4 ipv6)
  unfolding fields
  set_fields-url pk text port ipv4 ipv6 plain plain_text number =
      let tail = address_pairs ipv4 ipv6 in
      let f1 : Fields V4 V6 = record (no_fields v4 v6) { version = some 1 } in
      let f2 : Fields V4 V6 = record f1 { public_key_hex = some pk } in
      step-v ((codes "pk=" ++ pk) ∷ (codes "p=" ++ text) ∷ tail) (no_fields v4 v6)
      ∙ (step-pk pk ((codes "p=" ++ text) ∷ tail) f1 plain
          ∙ (step-p text tail f2 plain_text number ∙ set_fields-addresses pk port ipv4 ipv6))

  -- A URL that is generated from a key without & and =, a port of 16 bits and any addresses is
  -- parsed to version 1, this key, this port and these addresses, where the text of an address is
  -- parsed to the address and holds no & and no =.
  pub parse-generate_pairing_url :
      (public_key_hex : Bytes) (port : ℕ) (ipv4 : Option V4) (ipv6 : Option V6)
      → is_plain public_key_hex ≡ true
      → port ≤ u16_max
      → parse v4 v6 (generate_pairing_url v4 v6 public_key_hex port ipv4 ipv6)
        ≡ ok (record {
          version = 1;
          public_key_hex = public_key_hex;
          port = port;
          ipv4 = ipv4;
          ipv6 = ipv6;
        })
  unfolding parse generate_pairing_url finish fields
  parse-generate_pairing_url pk port ipv4 ipv6 plain small =
      let text = digits 5 port in
      let rest = text ++ (address v4 v6 "&ip4=" v4 ipv4 ++ address v4 v6 "&ip6=" v6 ipv6) in
      let pairs =
        split-head pk rest plain
        ∙ ap (λ l. codes "v=1" ∷ (codes "pk=" ++ pk) ∷ l)
            (split-addresses text ipv4 ipv6 (port-is_plain port)) in
      ap (λ l. set_fields v4 v6 l (no_fields v4 v6) >>= finish v4 v6) pairs
      ∙ ap (λ r. r >>= finish v4 v6)
          (set_fields-url pk text port ipv4 ipv6 plain (port-is_plain port)
            (parse_decimal-digits u16_max 4 port small (omega arith)))
