-- ===== src/Prelude/Texts.antt =====
-- Texts as bytes, big-endian words, and slices.
use Prim.Native.Nat.{ℕ, zero, suc, ◌+◌, ◌*◌, ◌/◌, ◌%◌, ◌^◌}
use Prim.Native.Char.{code}
use Prim.Native.String.{String}
use mathlib.Core.Option.{Option, none, some}
use mathlib.Core.List.{List, [], ◌∷◌}
use tapauth.Prelude.Tests.{leb, nat_beq, if◌then◌else◌}
use tapauth.Prelude.Lists.{length, take, drop}
use tapauth.Prelude.Equality.{Bytes}

-- `s.as_bytes()` of an ASCII text.
abbrev pub codes : String → Bytes
codes String.[] = []
codes (String.◌∷◌ letter rest) = code letter ∷ codes rest

-- `x.to_be_bytes()` of a word of `n` bytes.
abbrev pub to_be_bytes : ℕ → ℕ → Bytes
to_be_bytes zero x = []
to_be_bytes (suc n) x = (x / 256 ^ n % 256) ∷ to_be_bytes n x

-- `from_be_bytes`, with what is already read.
abbrev pub from_be_bytes : ℕ → Bytes → ℕ
from_be_bytes acc [] = acc
from_be_bytes acc (b ∷ bs) = from_be_bytes (acc * 256 + b) bs

-- `slice.get(..n)`.
abbrev pub get_to {ℓ} : {A : Type ℓ} → ℕ → List A → Option (List A)
get_to n xs = if leb n (length xs) then some (take n xs) else none

-- `slice.get(n..)`.
abbrev pub get_from {ℓ} : {A : Type ℓ} → ℕ → List A → Option (List A)
get_from n xs = if leb n (length xs) then some (drop n xs) else none

-- `slice.try_into::<[u8; n]>()`.
abbrev pub to_array {ℓ} : {A : Type ℓ} → ℕ → List A → Option (List A)
to_array n xs = if nat_beq (length xs) n then some xs else none
