-- ===== src/Config/Servers.antt =====
-- shared/src/config.rs: paired servers and clients, and who may use them.
use tapauth.Prelude.{ℕ, String, Bool, List, any, ◌==◌, string_eq}

pub record PairedServer : Type 0 where
  pub name : String
  pub public_key : String  -- hex
  pub allowed_users : List String
  pub paired_at : ℕ

pub record PairedClient : Type 0 where
  pub hostname : String
  pub public_key : String  -- hex
  pub csk : String  -- hex
  pub allowed_users : List String
  pub paired_at : ℕ

-- `PairedServer::is_user_allowed`.
unfoldable pub is_user_allowed : PairedServer → String → Bool
is_user_allowed server username = any (λ u. u == username) server.allowed_users

-- `PairedClient::is_user_allowed`.
unfoldable pub is_client_user_allowed : PairedClient → String → Bool
is_client_user_allowed client username = any (λ u. u == username) client.allowed_users
