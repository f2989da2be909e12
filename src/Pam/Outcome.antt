-- ===== src/Pam/Outcome.antt =====
-- client-pam/src/pam_logic.rs: the daemon's outcome and the PAM code that the host is given.
use tapauth.Prelude.{◌≡◌, ◌≢◌, ◌↔◌, ℕ, zero, suc, arith}

-- The codes of Linux-PAM that the module names.
pub data PamCode : Type 0 where
  pam_success pam_perm_denied pam_auth_err pam_authinfo_unavail : PamCode
  pam_user_unknown pam_ignore : PamCode

-- `shared::ipc::pb::PamOutcome`, numbered from 0 in proto/ipc.proto.
pub data Outcome : Type 0 where
  success denied timeout ignore error : Outcome

-- The raw `i32` as its 32 bits.
unfoldable pub outcome_from_raw : ℕ → Outcome
outcome_from_raw zero = success
outcome_from_raw (suc zero) = denied
outcome_from_raw (suc (suc zero)) = timeout
outcome_from_raw (suc (suc (suc zero))) = ignore
outcome_from_raw (suc (suc (suc (suc zero)))) = error
outcome_from_raw (suc (suc (suc (suc (suc _))))) = error

code_of : Outcome → PamCode
code_of success = pam_success
code_of denied = pam_perm_denied
code_of timeout = pam_authinfo_unavail
code_of ignore = pam_authinfo_unavail
code_of error = pam_auth_err

-- The messages that the conversation shows are left out.
unfoldable pub map_pam_outcome : ℕ → PamCode
unfolding code_of outcome_from_raw
map_pam_outcome raw = code_of (outcome_from_raw raw)

-- The host is told of a success exactly when the daemon's raw outcome is 0, so an outcome that a
-- newer daemon adds is no grant, and no outcome at all becomes `PAM_IGNORE`.
pub map_pam_outcome-success :
    (raw : ℕ)
    → ((map_pam_outcome raw ≡ pam_success) ↔ (raw ≡ 0)) × (map_pam_outcome raw ≢ pam_ignore)
unfolding map_pam_outcome code_of outcome_from_raw
map_pam_outcome-success zero = ground arith
map_pam_outcome-success (suc zero) = ground arith
map_pam_outcome-success (suc (suc zero)) = ground arith
map_pam_outcome-success (suc (suc (suc zero))) = ground arith
map_pam_outcome-success (suc (suc (suc (suc zero)))) = ground arith
map_pam_outcome-success (suc (suc (suc (suc (suc _))))) = ground arith
