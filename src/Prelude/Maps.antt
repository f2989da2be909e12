-- ===== src/Prelude/Maps.antt =====
-- `HashMap<K, V>` and `HashSet<K>` as association lists without repeated keys.
use mathlib.Core.Path.{◌≡◌, refl}
use mathlib.Core.Bool.{Bool, false, ◌||◌}
use mathlib.Core.Option.{Option, none, some}
use mathlib.Core.List.{List, [], ◌∷◌, map}
use native.Mathlib.Omega.{arith}
use tapauth.Prelude.Tests.{if◌then◌else◌}
use tapauth.Prelude.Equality.{Eq, ◌==◌}

abbrev pub Map : Type 0 → Type 0 → Type 0
Map K V = List (K × V)

abbrev pub values : {K V : Type 0} → Map K V → List V
values m = map (λ kv. kv.1) m

module _ {K : Type 0} ⦃e : Eq K⦄ where
  abbrev pub contains : List K → K → Bool
  contains [] k = false
  contains (x ∷ xs) k = x == k || contains xs k

module _ {K V : Type 0} ⦃e : Eq K⦄ where
  abbrev pub lookup : K → Map K V → Option V
  lookup wanted [] = none
  lookup wanted ((key, value) ∷ rest) = if key == wanted then some value else lookup wanted rest

  abbrev pub insert : K → V → Map K V → Map K V
  insert new value [] = (new, value) ∷ []
  insert new value ((key, old) ∷ rest) =
      if key == new then (new, value) ∷ rest else (key, old) ∷ insert new value rest

  -- All entries of the key go: a map without repeated keys has at most one.
  abbrev pub remove : K → Map K V → Map K V
  remove gone [] = []
  remove gone ((key, value) ∷ rest) =
      let others = remove gone rest in if key == gone then others else (key, value) ∷ others

  pub lookup-insert :
      (new wanted : K) (value : V) (table : Map K V)
      → lookup wanted (insert new value table)
        ≡ (if new == wanted then some value else lookup wanted table)
  lookup-insert new wanted value [] = refl
  lookup-insert new wanted value ((key, old) ∷ rest) =
      let inner = lookup-insert new wanted value rest in
      ground (arith, inner, e.beq_iff new wanted, e.beq_iff key new, e.beq_iff key wanted)

  pub lookup-remove :
      (gone wanted : K) (table : Map K V)
      → lookup wanted (remove gone table) ≡ (if gone == wanted then none else lookup wanted table)
  lookup-remove gone wanted [] = ground arith
  lookup-remove gone wanted ((key, value) ∷ rest) =
      let inner = lookup-remove gone wanted rest in
      ground (arith, inner, e.beq_iff gone wanted, e.beq_iff key gone, e.beq_iff key wanted)
