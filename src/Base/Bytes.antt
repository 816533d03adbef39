-- ===== src/Base/Bytes.antt =====
-- A Go string is a sequence of bytes: indexing, slicing and comparison work on bytes.
use Prim.Native.Nat.{ℕ}
use Prim.Native.Char.{code}
use Prim.Native.String.{String}
use mathlib.Core.Path.{refl, ap₂}
use mathlib.Core.Logic.{ite}
use mathlib.Core.Bool.{Bool, true, false}
use mathlib.Core.List.{List, [], ◌∷◌}
use native.Mathlib.Decide.{ℕ_discrete}

abbrev pub GoString : Type 0
GoString = List ℕ

-- The bytes of an ASCII literal. Shut, so that a literal stays short in a goal; tests unfold it.
unfoldable pub go : String → GoString
go String.[] = []
go (String.◌∷◌ c s) = code c ∷ go s

unfoldable pub GoString-discrete : Discrete GoString
unfolding ℕ_discrete
GoString-discrete [] [] = yes refl
GoString-discrete [] (y ∷ ys) = no (λ p. cc)
GoString-discrete (x ∷ xs) [] = no (λ p. cc)
GoString-discrete (x ∷ xs) (y ∷ ys) =
    let rest = GoString-discrete xs ys in
    elim (ℕ_discrete x y) [
      | yes p ↦ elim rest [ yes q ↦ yes (ap₂ (λ a b. a ∷ b) p q) | no n ↦ no (λ e. n (cc)) ]
      | no n ↦ no (λ e. n (cc))
    ]

infix 50 ◌==◌
abbrev pub ◌==◌ : GoString → GoString → Bool
a == b = ite (GoString-discrete a b) true false
