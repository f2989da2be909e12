-- ===== src/Pam/Host.antt =====
-- client-pam/src/pam_logic.rs: how the host's conversation may be driven, and which services are
-- left to the display manager. The name of the process is an argument.
use tapauth.Prelude.{
  ◌↔◌, ◌⊎◌, ◌≡◌, refl, ℕ, ◌+◌, String, Bool, true, false, not, ◌&&◌, ◌||◌, Option, none, some, List,
  [], ◌∷◌, any, take, drop, codes, Bytes, length, bytes_eq, string_eq, ◌==◌, leb, if◌then◌else◌,
  arith, map, Bool-cases, inl, inr,
}

pub data ConversationMode : Type 0 where
  threaded pre_collected sequential : ConversationMode

-- `to_ascii_lowercase` of a byte, and of an ASCII text.
abbrev pub lower_byte : ℕ → ℕ
lower_byte b = if leb 65 b && leb b 90 then b + 32 else b

abbrev pub to_ascii_lowercase : Bytes → Bytes
to_ascii_lowercase bytes = map lower_byte bytes

-- `s.eq_ignore_ascii_case("gdm-password")`: the literal is in lower case.
abbrev pub is_gdm_password : Bytes → Bool
is_gdm_password service = to_ascii_lowercase service == codes "gdm-password"

abbrev is_one_of : String → List String → Bool
is_one_of name names = any (λ n. name == n) names

abbrev always_threaded : List String
always_threaded =
    "polkit-agent-helper-1" ∷ "polkit-agent-he" ∷ "kscreenlocker_worker" ∷ "kscreenlocker_w"
    ∷ "hyprlock" ∷ "authproto_pam" ∷ []

abbrev pub gdm_workers : List String
gdm_workers = "gdm-session-worker" ∷ "gdm-session-wor" ∷ []

abbrev pre_collecting : List String
pre_collecting = "swaylock" ∷ "gtklock" ∷ "i3lock" ∷ []

unfoldable pub conversation_mode : Bytes → Option String → Bool → ConversationMode
conversation_mode service none reauth = if service == codes "polkit-1" then threaded else sequential
conversation_mode service (some process) reauth =
    if is_one_of process always_threaded
    then threaded
    else if is_one_of process gdm_workers && (reauth && is_gdm_password service)
    then threaded
    else if is_one_of process pre_collecting
    then pre_collected
    else sequential

-- `variable_is_set`: `GDM_SESSION_FOR_REAUTH` is in the environment.
unfoldable pub is_gdm_reauth : Bytes → Bool → Bool
is_gdm_reauth service variable_is_set = is_gdm_password service && variable_is_set

abbrev dm_prefixes : List Bytes
dm_prefixes = map codes (
    "sddm" ∷ "gdm" ∷ "gdm3" ∷ "lightdm" ∷ "lxdm" ∷ "slim" ∷ "xdm" ∷ "kdm" ∷ "greetd" ∷ "ly" ∷ "nodm"
    ∷ "entrance" ∷ "plasmalogin" ∷ [])

-- The text is the prefix, or goes on after it with a dash.
abbrev matches : Bytes → Bytes → Bool
matches text prefix =
    text == prefix
    || (take (length prefix) text == prefix && take 1 (drop (length prefix) text) == codes "-")

unfoldable pub is_dm_service : Bytes → Bool
is_dm_service service = any (matches (to_ascii_lowercase service)) dm_prefixes

-- `guard_display_manager_bypass`: whether it ends the call with `PAM_AUTHINFO_UNAVAIL`. A service
-- without a name is not skipped.
unfoldable pub guard_display_manager_bypass : Option Bytes → Bool → Bool
guard_display_manager_bypass none variable_is_set = false
guard_display_manager_bypass (some service) variable_is_set =
    is_dm_service service && not (is_gdm_reauth service variable_is_set)

lower_byte_idem : (b : ℕ) → lower_byte (lower_byte b) ≡ lower_byte b
lower_byte_idem b = ground arith

to_ascii_lowercase_idem :
    (service : Bytes) → to_ascii_lowercase (to_ascii_lowercase service) ≡ to_ascii_lowercase service
to_ascii_lowercase_idem [] = refl
to_ascii_lowercase_idem (b ∷ service) = λ i. lower_byte_idem b i ∷ to_ascii_lowercase_idem service i

-- Every spelling of a service's name in capitals is skipped or not alike.
pub guard_display_manager_bypass-lowercase :
    (service : Bytes) (variable_is_set : Bool)
    → guard_display_manager_bypass (some (to_ascii_lowercase service)) variable_is_set
      ≡ guard_display_manager_bypass (some service) variable_is_set
unfolding guard_display_manager_bypass is_dm_service is_gdm_reauth
guard_display_manager_bypass-lowercase service variable_is_set =
    rw (to_ascii_lowercase_idem service) refl

gdm_password-is_dm :
    (service : Bytes) → is_gdm_password service ≡ true → is_dm_service service ≡ true
unfolding is_dm_service
gdm_password-is_dm service named =
    let same : to_ascii_lowercase service ≡ codes "gdm-password" =
      (bytes_eq.beq_iff (to_ascii_lowercase service) (codes "gdm-password")).0 named in
    rw same refl

worker-cases :
    (process : String)
    → any (λ name. process == name) gdm_workers ≡ true
    → (process ≡ "gdm-session-worker") ⊎ (process ≡ "gdm-session-wor")
worker-cases process worker = elim (Bool-cases (process == "gdm-session-worker")) [
  | inl long ↦ inl ((string_eq.beq_iff process "gdm-session-worker").0 long)
  | inr not_long ↦
      inr ((string_eq.beq_iff process "gdm-session-wor").0 (ground (arith, worker, not_long)))
]

worker-unlisted :
    (process : String)
    → any (λ name. process == name) gdm_workers ≡ true
    → (is_one_of process always_threaded ≡ false) × (is_one_of process pre_collecting ≡ false)
worker-unlisted process worker = elim (worker-cases process worker) [
  | inl same ↦ rw same (refl, refl)
  | inr same ↦ rw same (refl, refl)
]

-- The bypass and the mode agree on GDM: a call of its password service is let past the bypass
-- exactly when GDM_SESSION_FOR_REAUTH is set, and from GDM's worker its conversation is driven on a
-- thread exactly then.
pub guard-conversation_mode :
    (service : Bytes) (process : String) (variable_is_set : Bool)
    → is_gdm_password service ≡ true
    → any (λ name. process == name) gdm_workers ≡ true
    → ((guard_display_manager_bypass (some service) variable_is_set ≡ false)
        ↔ (variable_is_set ≡ true))
      × ((conversation_mode service (some process) (is_gdm_reauth service variable_is_set)
            ≡ threaded)
          ↔ (variable_is_set ≡ true))
unfolding guard_display_manager_bypass conversation_mode is_gdm_reauth
guard-conversation_mode service process variable_is_set named worker =
    let is_dm = gdm_password-is_dm service named in
    let (unlisted, waits) = worker-unlisted process worker in
    elim (Bool-cases variable_is_set) [ inl present ↦ ground arith | inr absent ↦ ground arith ]
