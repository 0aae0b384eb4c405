-- ===== src/Prelude/Assoc.antt =====
-- std::unordered_map as an association list. The program never depends on its order.
use Prim.Native.Nat.{ℕ}
use mathlib.Core.Path.{◌≡◌, refl}
use mathlib.Core.Logic.{◌↔◌}
use mathlib.Core.Bool.{Bool, true}
use mathlib.Core.Option.{Option, none, some}
use mathlib.Core.List.{List, [], ◌∷◌}
use native.Mathlib.Omega.{arith}
use mini_net.Prelude.Tests.{◌==◌, ==_iff, if◌then◌else◌}
use mini_net.Prelude.Lists.{length}
use mini_net.Prelude.Text.{Bytes, bytes_eq, bytes_eq_iff}

pub record Eq {ℓ} (A : Type ℓ) : Type ℓ where
  pub same : A → A → Bool
  pub same_iff : (a b : A) → (same a b ≡ true) ↔ (a ≡ b)

abbrev pub eqb {ℓ} : {A : Type ℓ} ⦃e : Eq A⦄ → A → A → Bool
eqb ⦃e⦄ = e.same

pub eqb_iff {ℓ} : {A : Type ℓ} ⦃e : Eq A⦄ (a b : A) → (eqb a b ≡ true) ↔ (a ≡ b)
eqb_iff ⦃e⦄ = e.same_iff

instance abbrev pub nat_eq : Eq ℕ
nat_eq = record { same = λ a b. a == b; same_iff = ==_iff }

instance abbrev pub bytes_eq_instance : Eq Bytes
bytes_eq_instance = record { same = bytes_eq; same_iff = bytes_eq_iff }

abbrev pub Map {ℓ κ} : Type ℓ → Type κ → Type (ℓ ⊔ κ)
Map K V = List (K × V)

module _ {ℓ κ} {K : Type ℓ} {V : Type κ} ⦃e : Eq K⦄ where
  unfoldable pub get : Map K V → K → Option V
  get [] k = none
  get ((j, v) ∷ m) k = if eqb j k then some v else get m k

  unfoldable pub insert : Map K V → K → V → Map K V
  insert [] k v = (k, v) ∷ []
  insert ((j, w) ∷ m) k v = if eqb j k then (k, v) ∷ m else (j, w) ∷ insert m k v

  unfoldable pub erase : Map K V → K → Map K V
  erase [] k = []
  erase ((j, w) ∷ m) k = let rest = erase m k in if eqb j k then rest else (j, w) ∷ rest

  pub get-insert :
      (m : Map K V) (k j : K) (v : V) → get (insert m k v) j ≡ (if eqb k j then some v else get m j)
  unfolding get insert
  get-insert [] k j v = refl
  get-insert ((i, w) ∷ m) k j v =
      ground (arith, eqb_iff k j, eqb_iff i k, eqb_iff i j, get-insert m k j v)

  pub get-erase : (m : Map K V) (k j : K) → get (erase m k) j ≡ (if eqb k j then none else get m j)
  unfolding get erase
  get-erase [] k j = ground arith
  get-erase ((i, w) ∷ m) k j =
      ground (arith, eqb_iff k j, eqb_iff i k, eqb_iff i j, get-erase m k j)

module _ {ℓ κ} {K : Type ℓ} {V : Type κ} where
  abbrev pub size : Map K V → ℕ
  size m = length m

pub ruleset map_laws = (get-insert, get-erase)
