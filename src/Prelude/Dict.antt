-- ===== src/Prelude/Dict.antt =====
-- A Python dict in insertion order, over keys with a Boolean equality.
use mathlib.Core.Path.{◌≡◌, refl}
use mathlib.Core.Logic.{◌↔◌}
use mathlib.Core.Bool.{Bool, true}
use mathlib.Core.Option.{Option, none, some}
use mathlib.Core.List.{List, [], ◌∷◌}
use native.Mathlib.Omega.{arith}
use fintech_payments_data_pl.Prelude.Tests.{if◌then◌else◌}

pub record Eq (K : Type 0) : Type 0 where
  pub beq : K → K → Bool
  pub beq_iff : (a b : K) → (beq a b ≡ true) ↔ (a ≡ b)

abbrev pub Dict : Type 0 → Type 0 → Type 0
Dict K V = List (K × V)

module _ {K V : Type 0} ⦃eq : Eq K⦄ where
  -- `d.get(k)`
  unfoldable pub get : K → Dict K V → Option V
  get k [] = none
  get k ((j, v) ∷ d) = if eq.beq j k then some v else get k d

  -- `d[k] = v`, which keeps the place of a key that is there
  unfoldable pub put : K → V → Dict K V → Dict K V
  put k v [] = (k, v) ∷ []
  put k v ((j, w) ∷ d) = if eq.beq j k then (j, v) ∷ d else (j, w) ∷ put k v d

  -- `del d[k]`
  unfoldable pub del : K → Dict K V → Dict K V
  del k [] = []
  del k ((j, w) ∷ d) = let rest = del k d in if eq.beq j k then rest else (j, w) ∷ rest

  pub get-put :
      (j k : K) (v : V) (d : Dict K V)
      → get j (put k v d) ≡ (if eq.beq k j then some v else get j d)
  unfolding get put
  get-put j k v [] = refl
  get-put j k v ((i, w) ∷ d) =
      ground (arith, eq.beq_iff k j, eq.beq_iff i k, eq.beq_iff i j, get-put j k v d)

  pub get-del : (j k : K) (d : Dict K V) → get j (del k d) ≡ (if eq.beq k j then none else get j d)
  unfolding get del
  get-del j k [] = ground arith
  get-del j k ((i, w) ∷ d) =
      ground (arith, eq.beq_iff k j, eq.beq_iff i k, eq.beq_iff i j, get-del j k d)

  -- `list(d)`
  unfoldable pub keys : Dict K V → List K
  keys [] = []
  keys ((k, v) ∷ d) = k ∷ keys d
