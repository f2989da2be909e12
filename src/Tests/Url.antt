-- ===== src/Tests/Url.antt =====
-- A pairing URL that is made and read.
use tapauth.Prelude.{
  ◌≡◌, refl, Bool, true, false, none, some, codes, ◌==◌, bytes_eq, ok, arith, if◌then◌else◌,
}
use tapauth.Models.{AddressText, generate_pairing_url, parse}
use tapauth.Models.Url.{is_plain, AddressLaws, parse-generate_pairing_url}

-- Two addresses each, told apart by a Boolean.
abbrev ipv4 : AddressText Bool
ipv4 = record {
  display = λ home. if home then codes "127.0.0.1" else codes "10.0.0.7";
  from_str = λ text.
      if text == codes "127.0.0.1"
      then some true
      else if text == codes "10.0.0.7"
      then some false
      else none;
}

abbrev ipv6 : AddressText Bool
ipv6 = record {
  display = λ home. if home then codes "::1" else codes "fe80::7";
  from_str = λ text.
      if text == codes "::1"
      then some true
      else if text == codes "fe80::7"
      then some false
      else none;
}

ipv4-round_trip : (ip : Bool) → ipv4.from_str (ipv4.display ip) ≡ some ip
ipv4-round_trip true = refl
ipv4-round_trip false = refl

ipv4-plain : (ip : Bool) → is_plain (ipv4.display ip) ≡ true
ipv4-plain true = refl
ipv4-plain false = refl

ipv4-laws : AddressLaws ipv4
ipv4-laws = record { round_trip = ipv4-round_trip; plain = ipv4-plain }

ipv6-round_trip : (ip : Bool) → ipv6.from_str (ipv6.display ip) ≡ some ip
ipv6-round_trip true = refl
ipv6-round_trip false = refl

ipv6-plain : (ip : Bool) → is_plain (ipv6.display ip) ≡ true
ipv6-plain true = refl
ipv6-plain false = refl

ipv6-laws : AddressLaws ipv6
ipv6-laws = record { round_trip = ipv6-round_trip; plain = ipv6-plain }

parse-generate_pairing_url_example :
    parse ipv4 ipv6 (generate_pairing_url ipv4 ipv6 (codes "00ff") 36692 (some false) (some true))
    ≡ ok (record {
      version = 1;
      public_key_hex = codes "00ff";
      port = 36692;
      ipv4 = some false;
      ipv6 = some true;
    })
parse-generate_pairing_url_example =
    parse-generate_pairing_url ipv4 ipv6 ipv4-laws ipv6-laws (codes "00ff") 36692 (some false)
      (some true) refl (omega arith)
