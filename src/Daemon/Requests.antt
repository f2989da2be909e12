-- ===== src/Daemon/Requests.antt =====
-- tapauthd/src/main.rs: requests for one user that follow each other closely, and cancels.
-- Instants are in nanoseconds.
use tapauth.Prelude.{
  ◌≡◌, refl, ℕ, ◌-◌, ◌*◌, String, Bool, true, false, Option, none, some, List, [], ◌∷◌, ok, err,
  if◌then◌else◌, ◌==◌, string_eq, ltb, leb, ◌&&◌, any, Bool-cases, inl, inr, Map, lookup, insert,
  arith, lookup-insert,
}
use tapauth.Crypto.Crates.{Crates}
use tapauth.Protocol.Message.{Codec}
use tapauth.Daemon.Handle.{World, AuthSession, PamAuthenticateResponse, handle_authenticate}

abbrev pub second : ℕ
second = 1000000000

abbrev pub dedup_window : ℕ
dedup_window = second

-- `recent_requests`: when the last request of each user came.
abbrev pub RecentRequests : Type 0
RecentRequests = Map String ℕ

-- `retain`: entries of two seconds and more go.
abbrev pub retain_recent : ℕ → RecentRequests → RecentRequests
retain_recent now [] = []
retain_recent now ((user, at) ∷ recent) =
    let rest = retain_recent now recent in
    if ltb (now - at) (2 * second) then (user, at) ∷ rest else rest

abbrev pub is_recent : ℕ → Option ℕ → Bool
is_recent now none = false
is_recent now (some at) = ltb (now - at) dedup_window

-- The guard of `handle_pam_authenticate`: whether the request goes on, and the entries after it.
unfoldable pub admit_request : ℕ → String → RecentRequests → Bool × RecentRequests
admit_request now username recent =
    let kept = retain_recent now recent in
    if is_recent now (lookup username kept) then (false, kept) else (true, insert username now kept)

-- The answer: a duplicate and a failure have no challenge, so they are told apart here.
pub data Answer : Type 0 where
  duplicate internal_error : Answer
  answered : PamAuthenticateResponse → Answer

module _ (c : Crates) (p : Codec) where
  -- `session` is `AuthSession::new`, which fails without a random challenge.
  unfoldable pub handle_pam_authenticate :
      World → ℕ → String → ℕ → Option AuthSession → RecentRequests → Answer × RecentRequests
  unfolding admit_request
  handle_pam_authenticate w now username timeout_seconds session recent =
      let (goes_on, after) = admit_request now username recent in
      if goes_on
      then (
        elim session [
          | none ↦ internal_error
          | some s ↦ elim (handle_authenticate c p w s (some timeout_seconds)) [
            | ok response ↦ answered response
            | err _ ↦ internal_error
          ]
        ],
        after,
      )
      else (duplicate, after)

-- The requests that are admitted out of a list of instants and users, oldest first.
abbrev pub admitted : List (ℕ × String) → RecentRequests → List (ℕ × String)
admitted [] recent = []
admitted ((now, user) ∷ requests) recent =
    let (goes_on, after) = admit_request now user recent in
    let rest = admitted requests after in if goes_on then (now, user) ∷ rest else rest

-- All requests come less than a second after the instant.
abbrev pub all_within : ℕ → List (ℕ × String) → Bool
all_within start [] = true
all_within start ((now, _) ∷ requests) =
    leb start now && (ltb (now - start) dedup_window && all_within start requests)

lookup-retain_recent :
    (now at : ℕ) (user : String) (recent : RecentRequests)
    → ltb (now - at) (2 * second) ≡ true
    → lookup user recent ≡ some at
    → lookup user (retain_recent now recent) ≡ some at
lookup-retain_recent now at user [] fresh h = cc
lookup-retain_recent now at user ((u, t) ∷ recent) fresh h =
    ground (arith, string_eq.beq_iff u user, lookup-retain_recent now at user recent)

admit_request-other :
    (now at : ℕ) (user other : String) (recent : RecentRequests)
    → ltb (now - at) dedup_window ≡ true
    → lookup user recent ≡ some at
    → (lookup user (admit_request now other recent).1 ≡ some at)
      × ((other == user) ≡ true → (admit_request now other recent).0 ≡ false)
unfolding admit_request
admit_request-other now at user other recent soon h =
    let kept = lookup-retain_recent now at user recent (ground arith) h in
    elim (Bool-cases (other == user)) [
      | inl same ↦
          let is : other ≡ user = ground (arith, string_eq.beq_iff other user) in
          let found : is_recent now (lookup other (retain_recent now recent)) ≡ true =
            rw (is, kept) soon in
          (rw (admit_request, found) kept, λ _. rw (admit_request, found) refl)
      | inr differs ↦ (
        ground (
          arith,
          lookup-insert other user now (retain_recent now recent),
          string_eq.beq_iff other user,
        ),
        λ same. absurd (ground arith),
      )
    ]

admit_request-stored :
    (now : ℕ) (user : String) (recent : RecentRequests)
    → (admit_request now user recent).0 ≡ true
    → lookup user (admit_request now user recent).1 ≡ some now
unfolding admit_request
admit_request-stored now user recent goes_on =
    ground
      (arith, lookup-insert user user now (retain_recent now recent), string_eq.beq_iff user user)

admitted-none :
    (start : ℕ) (user : String) (requests : List (ℕ × String)) (recent : RecentRequests)
    → lookup user recent ≡ some start
    → all_within start requests ≡ true
    → any (λ r. r.1 == user) (admitted requests recent) ≡ false
admitted-none start user [] recent h within = refl
admitted-none start user ((now, other) ∷ requests) recent h within =
    let (still, refused) = admit_request-other now start user other recent (ground arith) h in
    let rest =
      admitted-none start user requests (admit_request now other recent).1 still (ground arith) in
    ground arith

-- Once a user's request was admitted, none of that user's requests of the next second is, whatever
-- requests of whichever users come between.
pub admitted-spaced :
    (start : ℕ) (user : String) (recent : RecentRequests) (requests : List (ℕ × String))
    → (admit_request start user recent).0 ≡ true
    → all_within start requests ≡ true
    → any (λ r. r.1 == user) (admitted requests (admit_request start user recent).1) ≡ false
admitted-spaced start user recent requests goes_on within =
    admitted-none start user requests (admit_request start user recent).1
      (admit_request-stored start user recent goes_on) within
