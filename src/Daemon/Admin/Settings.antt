-- ===== src/Daemon/Admin/Settings.antt =====
-- tapauthd/src/admin_handler.rs, `handle_save_config`. A text is the list of its code points.
use tapauth.Prelude.{
  ◌≡◌, ℕ, ◌≤◌, ◌<◌, ◌%◌, ◌^◌, Bool, false, not, ◌&&◌, ◌||◌, Option, none, some, List, [], ◌∷◌,
  is_empty, Result, ok, err, leb, ltb, ◌==◌, nat_eq, if◌then◌else◌, arith, Bool-cases, inl, inr,
}

abbrev pub Text : Type 0
Text = List ℕ

pub record Toml : Type 0 where
  pub udp_port : ℕ  -- u16
  pub enable_ble : Bool
  pub enable_network : Bool

-- The two files: `TapAuthConfig` and the hostname of `ClientConfig`.
pub record Settings : Type 0 where
  pub toml : Toml
  pub hostname : Text

pub record SaveConfigRequest : Type 0 where
  pub hostname : Text
  pub udp_port : ℕ  -- u32
  pub enable_ble : Option Bool
  pub enable_network : Option Bool

pub data SaveError : Type 0 where
  invalid_port empty_hostname toml_not_saved client_not_saved : SaveError

-- `char::is_whitespace`.
abbrev pub is_whitespace : ℕ → Bool
is_whitespace x =
    (leb 9 x && leb x 13)
    || (x == 32
        || (x == 133
            || (x == 160
                || (x == 5760
                    || ((leb 8192 x && leb x 8202)
                        || (x == 8232
                            || (x == 8233 || (x == 8239 || (x == 8287 || x == 12288)))))))))

trim_start : Text → Text
trim_start [] = []
trim_start (x ∷ xs) = let rest = trim_start xs in if is_whitespace x then rest else x ∷ xs

trim_end : Text → Text
trim_end [] = []
trim_end (x ∷ xs) =
    let rest = trim_end xs in if is_whitespace x && is_empty rest then [] else x ∷ rest

unfoldable pub trim : Text → Text
unfolding trim_start trim_end
trim text = trim_end (trim_start text)

abbrev pub chosen : Option Bool → Bool → Bool
chosen none old = old
chosen (some new) old = new

-- Whether each of the two files can be saved is an argument. `req.udp_port as u16` wraps around.
unfoldable pub handle_save_config :
    Bool → Bool → SaveConfigRequest → Settings → Result SaveError (Unit {0}) × Settings
unfolding trim
handle_save_config saves_toml saves_client req s =
    let toml : Toml = record {
      udp_port = req.udp_port % 2 ^ 16;
      enable_ble = chosen req.enable_ble s.toml.enable_ble;
      enable_network = chosen req.enable_network s.toml.enable_network;
    } in
    if req.udp_port == 0 || ltb 65535 req.udp_port
    then (err invalid_port, s)
    else if is_empty (trim req.hostname)
    then (err empty_hostname, s)
    else if not saves_toml
    then (err toml_not_saved, s)
    else if not saves_client
    then (err client_not_saved, record s { toml = toml })
    else (ok tt, record { toml = toml; hostname = trim req.hostname })

-- A save that succeeded stores the port as it was asked for, from 1 to 65535, and a hostname that
-- is not empty; a transport that the request does not mention stays as it was.
pub handle_save_config-ok :
    (saves_toml saves_client : Bool) (req : SaveConfigRequest) (s : Settings) {s' : Settings}
    → handle_save_config saves_toml saves_client req s ≡ (ok tt, s')
    → (s'.toml.udp_port ≡ req.udp_port)
      × (0 < s'.toml.udp_port)
      × (s'.toml.udp_port ≤ 65535)
      × (s'.hostname ≡ trim req.hostname)
      × (is_empty s'.hostname ≡ false)
      × (req.enable_ble ≡ none → s'.toml.enable_ble ≡ s.toml.enable_ble)
      × (req.enable_network ≡ none → s'.toml.enable_network ≡ s.toml.enable_network)
unfolding handle_save_config
handle_save_config-ok saves_toml saves_client req s {s'} h =
    elim (Bool-cases (req.udp_port == 0 || ltb 65535 req.udp_port)) [
      | inl invalid ↦ absurd (ground arith)
      | inr valid ↦ elim (Bool-cases (is_empty (trim req.hostname))) [
        | inl blank ↦ absurd (ground arith)
        | inr named ↦
            let small : req.udp_port % 2 ^ 16 ≡ req.udp_port = ground arith in
            (
              ground arith,
              ground arith,
              ground arith,
              ground arith,
              ground arith,
              ground arith,
              ground arith,
            )
      ]
    ]
