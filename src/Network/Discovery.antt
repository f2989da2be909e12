-- ===== src/Network/Discovery.antt =====
-- shared/src/network/discovery.rs. Durations are in milliseconds.
use tapauth.Prelude.{ℕ, ◌*◌, ◌^◌, min}

-- `2u64.pow(attempt.min(5))` is at most 32, so the product does not wrap.
unfoldable pub get_client_retry_interval : ℕ → ℕ
get_client_retry_interval attempt = 200 * 2 ^ min attempt 5

abbrev pub get_server_retry_interval : ℕ
get_server_retry_interval = 500

-- 120 seconds.
abbrev pub get_session_timeout : ℕ
get_session_timeout = 120000
