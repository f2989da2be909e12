-- ===== src/Pam/Reuse.antt =====
-- client-pam/src/pam_logic.rs: the verdict that this process concluded last, replayed for the
-- duplicate calls that some hosts make. Instants are in nanoseconds.
use tapauth.Prelude.{
  ◌≡◌, refl, ℕ, ◌-◌, String, Bool, true, false, not, ◌&&◌, Option, none, some, List, [], ◌∷◌,
  if◌then◌else◌, ◌==◌, string_eq, ltb, arith, Result, ok, err,
}

abbrev pub verdict_reuse_window : ℕ
verdict_reuse_window = 500000000

pub record LastConclusion : Type 0 where
  pub concluded_at : ℕ
  pub username : String
  pub service : String
  pub code : ℕ

pub record Verdict : Type 0 where
  pub username : String
  pub service : Option String
  pub from_cache : Bool

-- The mutex around the last conclusion may be poisoned.
pub data Lock : Type 0 where
  poisoned : Lock
  held : Option LastConclusion → Lock

unfoldable pub reusable_conclusion : LastConclusion → String → String → ℕ → Option ℕ
reusable_conclusion prev username service now =
    if prev.username == username
      && (prev.service == service && ltb (now - prev.concluded_at) verdict_reuse_window)
    then some prev.code
    else none

unfoldable pub cached_from : Lock → String → String → ℕ → Option (ℕ × ℕ)
unfolding reusable_conclusion
cached_from poisoned username service now = none
cached_from (held none) username service now = none
cached_from (held (some prev)) username service now =
    elim (reusable_conclusion prev username service now) [
      | none ↦ none
      | some code ↦ some (code, now - prev.concluded_at)
    ]

unfoldable pub record_conclusion : String → String → ℕ → ℕ → Lock → Lock
record_conclusion username service code now poisoned = poisoned
record_conclusion username service code now (held _) =
    held (some (record { concluded_at = now; username = username; service = service; code = code }))

unfoldable pub record_verdict : Option Verdict → ℕ → ℕ → Lock → Lock
unfolding record_conclusion
record_verdict none code now lock = lock
record_verdict (some v) code now lock = if v.from_cache then lock else elim v.service [
  | none ↦ lock
  | some service ↦ record_conclusion v.username service code now lock
]

pub data StartError : Type 0 where
  connect_failed send_failed : StartError

-- The verdict is armed only after both steps: `connected` and `sent` are how they went.
unfoldable pub start_authentication :
    Bool
    → Bool
    → String
    → Option String
    → Option Verdict
    → Result StartError (Unit {0}) × Option Verdict
start_authentication connected sent username service verdict =
    if not connected
    then (err connect_failed, verdict)
    else if not sent
    then (err send_failed, verdict)
    else (ok tt, some (record { username = username; service = service; from_cache = false }))

-- One call of `authenticate` that reaches the daemon path: who asks, when the cache is looked up,
-- how the connection goes, the code that the transaction concludes with or that a failure to start
-- gives, and when the module returns.
pub record Call : Type 0 where
  pub username : String
  pub service : Option String
  pub looked_up_at : ℕ
  pub connected : Bool
  pub sent : Bool
  pub code : ℕ
  pub returned_at : ℕ

abbrev look_up : Lock → Call → Option (ℕ × ℕ)
look_up lock call = elim call.service [
  | none ↦ none
  | some service ↦ cached_from lock call.username service call.looked_up_at
]

-- `authenticate_inner`, from the lookup of a duplicate on: the code and the verdict.
unfoldable pub authenticate_inner : Lock → Call → ℕ × Option Verdict
unfolding cached_from start_authentication
authenticate_inner lock call = elim (look_up lock call) [
  | some (code, age) ↦
      (code, some (record { username = call.username; service = call.service; from_cache = true }))
  | none ↦
      (call.code, (start_authentication call.connected call.sent call.username call.service none).1)
]

unfoldable pub authenticate : Lock → Call → ℕ × Lock
unfolding authenticate_inner record_verdict
authenticate lock call =
    let (code, verdict) = authenticate_inner lock call in
    (code, record_verdict verdict code call.returned_at lock)

-- Calls one after another: their codes, and the lock after them.
abbrev pub authenticate_all : Lock → List Call → List ℕ × Lock
authenticate_all lock [] = ([], lock)
authenticate_all lock (call ∷ calls) =
    let (code, next) = authenticate lock call in
    let (codes, last) = authenticate_all next calls in (code ∷ codes, last)

-- The same user and service, looked up within the window after the conclusion.
abbrev pub is_duplicate : LastConclusion → Call → Bool
is_duplicate prev call = elim call.service [
  | none ↦ false
  | some service ↦
      prev.username == call.username
      && (prev.service == service
          && ltb (call.looked_up_at - prev.concluded_at) verdict_reuse_window)
]

abbrev pub are_duplicates : LastConclusion → List Call → Bool
are_duplicates prev [] = true
are_duplicates prev (call ∷ calls) = is_duplicate prev call && are_duplicates prev calls

abbrev pub repeated : ℕ → List Call → List ℕ
repeated code [] = []
repeated code (call ∷ calls) = code ∷ repeated code calls

-- Calls inside the window are answered with the recorded code, and they leave the record as it
-- was, so its window is fixed and does not slide with the duplicates.
pub authenticate_all-duplicates :
    (prev : LastConclusion) (calls : List Call)
    → are_duplicates prev calls ≡ true
    → authenticate_all (held (some prev)) calls ≡ (repeated prev.code calls, held (some prev))
unfolding authenticate authenticate_inner record_verdict cached_from reusable_conclusion
authenticate_all-duplicates prev [] h = refl
authenticate_all-duplicates prev (call ∷ calls) h =
    ground (arith, authenticate_all-duplicates prev calls)

-- A call that is no duplicate of the record returns its own code; the record becomes its own
-- if the request reached the wire and the service is known, and else is left as it was: a local
-- failure to connect or to send arms nothing.
pub authenticate-fresh :
    (prev : LastConclusion) (call : Call)
    → is_duplicate prev call ≡ false
    → authenticate (held (some prev)) call ≡ (
      call.code,
      elim call.service [
        | none ↦ held (some prev)
        | some service ↦
            if call.connected && call.sent
            then record_conclusion call.username service call.code call.returned_at
                (held (some prev))
            else held (some prev)
      ],
    )
unfolding authenticate authenticate_inner record_verdict cached_from reusable_conclusion
    start_authentication
authenticate-fresh prev call h = ground arith
