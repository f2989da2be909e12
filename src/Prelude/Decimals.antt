-- ===== src/Prelude/Decimals.antt =====
-- `Display` and `FromStr` of the unsigned integers: the decimal digits of a number, and the number
-- that digits stand for, which is refused where it is above `max`.
use Prim.Native.Nat.{ℕ, zero, suc, ◌+◌, ◌-◌, ◌*◌, ◌/◌, ◌%◌, ◌^◌, ◌≤◌, ◌<◌}
use mathlib.Core.Path.{◌≡◌, refl, ◌∙◌, sym, ap}
use mathlib.Core.Logic.{◌≢◌, inl, inr}
use mathlib.Core.Bool.{Bool, true, ◌&&◌}
use mathlib.Core.Option.{Option, none, some}
use mathlib.Core.List.{[], ◌∷◌, ◌++◌}
use native.Mathlib.Omega.{arith}
use tapauth.Prelude.Tests.{if◌then◌else◌, ltb, leb, nat_beq, Bool-cases}
use tapauth.Prelude.Equality.{Bytes}

-- The fuel counts the digits.
unfoldable pub digits : ℕ → ℕ → Bytes
digits zero n = []
digits (suc fuel) n =
    let front = digits fuel (n / 10) in
    if ltb n 10 then (48 + n) ∷ [] else front ++ ((48 + n % 10) ∷ [])

abbrev pub is_digit : ℕ → Bool
is_digit b = leb 48 b && leb b 57

unfoldable pub number_from : ℕ → ℕ → Bytes → Option ℕ
number_from max n [] = some n
number_from max n (b ∷ bytes) =
    let rest = number_from max (n * 10 + (b - 48)) bytes in
    if is_digit b && leb (n * 10 + (b - 48)) max then rest else none

-- `str::parse::<uN>`, which takes a sign `+`.
unfoldable pub parse_decimal : ℕ → Bytes → Option ℕ
parse_decimal max [] = none
parse_decimal max (b ∷ bytes) =
    if nat_beq b 43
    then elim bytes [ [] ↦ none | c ∷ rest ↦ number_from max 0 (c ∷ rest) ]
    else number_from max 0 (b ∷ bytes)

number_from-snoc :
    (max n m b : ℕ) (bytes : Bytes)
    → number_from max n bytes ≡ some m
    → number_from max n (bytes ++ (b ∷ [])) ≡ number_from max m (b ∷ [])
unfolding number_from
number_from-snoc max n m b [] h = ground arith
number_from-snoc max n m b (c ∷ bytes) h =
    let step = number_from-snoc max (n * 10 + (c - 48)) m b bytes in ground arith

last_digit :
    (max m d : ℕ)
    → d < 10
    → m * 10 + d ≤ max
    → number_from max m ((48 + d) ∷ []) ≡ some (m * 10 + d)
unfolding number_from
last_digit max m d small enough = ground arith

number_from-digits :
    (max fuel n : ℕ) → n ≤ max → n < 10 ^ fuel → number_from max 0 (digits fuel n) ≡ some n
unfolding number_from digits
number_from-digits max zero n small enough = ground arith
number_from-digits max (suc fuel) n small enough = elim (Bool-cases (ltb n 10)) [
  | inl one ↦ ground arith
  | inr more ↦
      let power : 10 ^ suc fuel ≡ 10 * 10 ^ fuel = ground arith in
      let front : number_from max 0 (digits fuel (n / 10)) ≡ some (n / 10) =
        number_from-digits max fuel (n / 10) (omega arith) (omega arith) in
      let whole : n / 10 * 10 + n % 10 ≡ n = omega arith in
      let last : number_from max (n / 10) ((48 + n % 10) ∷ []) ≡ some (n / 10 * 10 + n % 10) =
        last_digit max (n / 10) (n % 10) (omega arith) (omega arith) in
      rw more (
        number_from-snoc max 0 (n / 10) (48 + n % 10) (digits fuel (n / 10)) front
        ∙ (last ∙ (λ i. some (whole i))))
]

abbrev pub are_digits : Bytes → Bool
are_digits [] = true
are_digits (b ∷ bytes) = is_digit b && are_digits bytes

are_digits-snoc :
    (bytes : Bytes) (b : ℕ)
    → are_digits bytes ≡ true
    → is_digit b ≡ true
    → are_digits (bytes ++ (b ∷ [])) ≡ true
are_digits-snoc [] b all last = ground arith
are_digits-snoc (c ∷ bytes) b all last = let rest = are_digits-snoc bytes b in ground arith

pub are_digits-digits : (fuel n : ℕ) → are_digits (digits fuel n) ≡ true
unfolding digits
are_digits-digits zero n = refl
are_digits-digits (suc fuel) n = elim (Bool-cases (ltb n 10)) [
  | inl one ↦ ground arith
  | inr more ↦
      let small : n % 10 < 10 = omega arith in
      rw more (
        are_digits-snoc (digits fuel (n / 10)) (48 + n % 10) (are_digits-digits fuel (n / 10))
          (ground arith))
]

parse_decimal-are_digits :
    (max : ℕ) (bytes : Bytes) {n : ℕ}
    → are_digits bytes ≡ true
    → number_from max 0 bytes ≡ some n
    → bytes ≢ []
    → parse_decimal max bytes ≡ some n
unfolding parse_decimal number_from
parse_decimal-are_digits max [] all value nonempty = absurd (nonempty refl)
parse_decimal-are_digits max (b ∷ bytes) all value nonempty = ground arith

snoc-some : (bytes : Bytes) (b : ℕ) → bytes ++ (b ∷ []) ≢ []
snoc-some [] b = λ e. cc
snoc-some (c ∷ bytes) b = λ e. cc

digits-some : (fuel n : ℕ) → digits (suc fuel) n ≢ []
unfolding digits
digits-some fuel n empty = elim (Bool-cases (ltb n 10)) [
  | inl one ↦ ground arith
  | inr more ↦ snoc-some (digits fuel (n / 10)) (48 + n % 10) (
      rw
        (sym (
          ap (λ t. if t then (48 + n) ∷ [] else digits fuel (n / 10) ++ ((48 + n % 10) ∷ [])) more))
        empty)
]

-- Parsing a number's digits gives the number.
pub parse_decimal-digits :
    (max fuel n : ℕ)
    → n ≤ max
    → n < 10 ^ suc fuel
    → parse_decimal max (digits (suc fuel) n) ≡ some n
parse_decimal-digits max fuel n small enough =
    parse_decimal-are_digits max (digits (suc fuel) n) (are_digits-digits (suc fuel) n)
      (number_from-digits max (suc fuel) n small enough) (digits-some fuel n)
