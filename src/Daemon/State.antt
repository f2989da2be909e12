-- ===== src/Daemon/State.antt =====
-- tapauthd/src/auth_handler.rs, `DaemonState`: what the daemon keeps in memory, loaded at its start
-- and again after an admin change. The result of each load is an argument.
use tapauth.Prelude.{
  is_some, ◌≡◌, ◌↔◌, Bool, true, ◌&&◌, String, Option, none, some, List, [], ◌∷◌, ◌++◌, Result, ok,
  err, arith, ◌>>=◌,
}
use tapauth.Crypto.Keys.{Ed25519KeyPair, ClientSymmetricKey}
use tapauth.Daemon.Auth.Response.{AuthHandlerError, config, Servers}

-- The parts of the text in `init_error`.
pub data InitProblem : Type 0 where
  keypair_failed csk_failed : String → InitProblem
  keypair_unavailable csk_unavailable : InitProblem

pub record DaemonState : Type 0 where
  pub paired_servers : Servers
  pub keypair : Option Ed25519KeyPair
  pub csk : Option ClientSymmetricKey
  pub hostname : String
  pub init_error : Option (List InitProblem)

-- What `ClientConfigManager` gave; an error is its text.
pub record Loads : Type 0 where
  pub load_keypair : Result String Ed25519KeyPair
  pub load_csk : Result String ClientSymmetricKey
  pub load_paired_servers : Result String Servers
  pub load_config : Result String String  -- the hostname

loaded : {A : Type 0} → (String → InitProblem) → Result String A → Option A × List InitProblem
loaded problem (ok a) = (some a, [])
loaded problem (err e) = (none, problem e ∷ [])

combine : List InitProblem → Option (List InitProblem)
combine [] = none
combine (x ∷ xs) = some (x ∷ xs)

or_else : {A : Type 0} → Result String A → A → A
or_else (ok a) old = a
or_else (err _) old = old

or_config : {A : Type 0} → Result String A → Result AuthHandlerError A
or_config (ok a) = ok a
or_config (err _) = err config

unfoldable pub new : Loads → Result AuthHandlerError DaemonState
unfolding loaded combine or_config
new l = do
  let (keypair, no_keypair) = loaded keypair_failed l.load_keypair
  let (csk, no_csk) = loaded csk_failed l.load_csk
  paired_servers ← or_config l.load_paired_servers
  hostname ← or_config l.load_config
  ok (record {
    paired_servers = paired_servers;
    keypair = keypair;
    csk = csk;
    hostname = hostname;
    init_error = combine (no_keypair ++ no_csk);
  })

unfoldable pub is_healthy : DaemonState → Bool
is_healthy s = is_some s.keypair && is_some s.csk

-- A load that succeeds replaces what is kept; one that fails leaves it.
keep : {A : Type 0} → Result String A → Option A → Option A
keep (ok a) old = some a
keep (err _) old = old

missing : {A : Type 0} → InitProblem → Option A → List InitProblem
missing problem none = problem ∷ []
missing problem (some _) = []

unfoldable pub reload : Loads → DaemonState → DaemonState
unfolding keep missing combine or_else
reload l s =
    let keypair = keep l.load_keypair s.keypair in
    let csk = keep l.load_csk s.csk in
    record {
      paired_servers = or_else l.load_paired_servers s.paired_servers;
      keypair = keypair;
      csk = csk;
      hostname = or_else l.load_config s.hostname;
      init_error = combine (missing keypair_unavailable keypair ++ missing csk_unavailable csk);
    }

-- The invariant: an error is kept exactly when the state is not healthy.
abbrev pub IsConsistent : DaemonState → Type 0
IsConsistent s = (s.init_error ≡ none) ↔ (is_healthy s ≡ true)

-- The daemon's first state has an error exactly when a key is missing.
pub new-IsConsistent : (l : Loads) {s : DaemonState} → new l ≡ ok s → IsConsistent s
unfolding new is_healthy loaded combine or_config
new-IsConsistent l {s} h = ground arith

-- A reload yields a consistent state from any state, and no reload, whatever fails to load, makes
-- a healthy daemon unhealthy.
pub reload-IsConsistent :
    (l : Loads) (s : DaemonState)
    → IsConsistent (reload l s) × (is_healthy s ≡ true → is_healthy (reload l s) ≡ true)
unfolding reload is_healthy keep missing combine or_else
reload-IsConsistent l s = ground arith
