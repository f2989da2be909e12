-- ===== src/Pam/Attempt.antt =====
-- client-pam/src/pam_logic.rs: what a call of `authenticate` meets, and what it derives from that
-- before it asks the daemon. Instants are in nanoseconds.
use tapauth.Prelude.{
  ℕ, ◌+◌, ◌*◌, min, String, Bool, true, false, not, ◌&&◌, Option, none, some, List, if◌then◌else◌,
  ltb, codes, Bytes,
}
use tapauth.Pam.Host.{ConversationMode, pre_collected, sequential, conversation_mode, is_gdm_reauth}
use tapauth.Ipc.{PamAuthenticateRequest}
use tapauth.Pam.Waiting
use tapauth.Pam.Terminal

pub record PamConfig : Type 0 where
  pub pam_operation_timeout_secs : ℕ
  pub pam_gui_timeout_secs : ℕ

-- What one call meets. `none` for the service and for the user is that libpam does not tell,
-- `request_id` is the hex of the random bytes, if there are any, and the turns are those of the
-- loop that waits on a graphical host or on a terminal.
pub record Attempt : Type 0 where
  pub config : PamConfig
  pub service : Option String
  pub user : Option String
  pub process : Option String
  pub variable_is_set : Bool  -- `GDM_SESSION_FOR_REAUTH`
  pub has_conversation : Bool
  pub tty_opens : Bool
  pub looked_up_at : ℕ
  pub request_id : Option String
  pub connected : Bool
  pub sent : Bool
  pub pipe_made : Bool
  pub thread_spawned : Bool
  pub waits_from : ℕ
  pub turns : List Waiting.PollTurn
  pub terminal_turns : List Terminal.PollTurn
  pub returned_at : ℕ

-- `get_service_name(pamh)` as bytes, and with `unwrap_or_default()`.
abbrev pub service_item : Attempt → Option Bytes
service_item a = elim a.service [ some service ↦ some (codes service) | none ↦ none ]

abbrev pub service_name : Attempt → Bytes
service_name a = elim a.service [ some service ↦ codes service | none ↦ codes "" ]

unfoldable pub mode_of : Attempt → ConversationMode
mode_of a =
    conversation_mode (service_name a) a.process (is_gdm_reauth (service_name a) a.variable_is_set)

abbrev pub is_sequential : ConversationMode → Bool
is_sequential sequential = true
is_sequential _ = false

abbrev pub is_pre_collected : ConversationMode → Bool
is_pre_collected pre_collected = true
is_pre_collected _ = false

unfoldable pub has_terminal : Attempt → Bool
has_terminal a = is_sequential (mode_of a) && a.tty_opens

unfoldable pub effective_timeout_secs : Attempt → ℕ
effective_timeout_secs a =
    if not (has_terminal a) && is_sequential (mode_of a)
    then min a.config.pam_gui_timeout_secs a.config.pam_operation_timeout_secs
    else a.config.pam_operation_timeout_secs

abbrev pub u32_max : ℕ
u32_max = 4294967295

unfoldable pub timeout_secs : Attempt → ℕ
timeout_secs a = let secs = effective_timeout_secs a in if ltb u32_max secs then u32_max else secs

unfoldable pub deadline : Attempt → ℕ
deadline a = a.waits_from + timeout_secs a * 1000000000

-- What `send_authenticate_start` sends.
pub request_of : Attempt → String → String → PamAuthenticateRequest
request_of a username request_id = record {
  username = username;
  tty_present = has_terminal a;
  timeout_seconds = timeout_secs a;
  request_id = request_id;
}
