-- ===== src/Base/Dict.antt =====
-- A Python `dict` as an association list: a key stands in it at most once, where it was first
-- inserted.
use mathlib.Core.Path.{◌≡◌, refl}
use mathlib.Core.List.{List, [], ◌∷◌}
use mathlib.Core.Option.{Option, none, some}
use native.Mathlib.Omega.{arith}
use litehive.Base.Tests.{Eq, ◌==◌, if◌then◌else◌}

abbrev pub Dict {ℓ κ} : Type ℓ → Type κ → Type (ℓ ⊔ κ)
Dict K V = List (K × V)

module _ {ℓ κ} {K : Type ℓ} {V : Type κ} ⦃e : Eq K⦄ where
  unfoldable pub lookup : K → Dict K V → Option V
  lookup key [] = none
  lookup key ((at, value) ∷ rest) = if at == key then some value else lookup key rest

  unfoldable pub insert : K → V → Dict K V → Dict K V
  insert key new [] = (key, new) ∷ []
  insert key new ((at, old) ∷ rest) =
      if at == key then (at, new) ∷ rest else (at, old) ∷ insert key new rest

  -- `d.pop(key, None)`.
  unfoldable pub pop : K → Dict K V → Dict K V
  pop key [] = []
  pop key ((at, value) ∷ rest) =
      let popped = pop key rest in if at == key then popped else (at, value) ∷ popped

  pub lookup-insert :
      (key other : K) (new : V) (d : Dict K V)
      → lookup other (insert key new d) ≡ (if key == other then some new else lookup other d)
  unfolding insert lookup
  lookup-insert key other new [] = refl
  lookup-insert key other new ((at, old) ∷ rest) = ground (
    arith,
    lookup-insert key other new rest,
    e.beq_iff at other,
    e.beq_iff at key,
    e.beq_iff key other,
  )

  pub lookup-pop :
      (key other : K) (d : Dict K V)
      → lookup other (pop key d) ≡ (if key == other then none else lookup other d)
  unfolding lookup pop
  lookup-pop key other [] = ground arith
  lookup-pop key other ((at, value) ∷ rest) =
      ground (
        arith,
        lookup-pop key other rest,
        e.beq_iff at other,
        e.beq_iff at key,
        e.beq_iff key other,
      )
