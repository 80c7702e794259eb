-- ===== src/Base/Maps.antt =====
-- Maps by number as association lists, and lists written by position.
use Prim.Native.Nat.{ℕ, zero, suc}
use mathlib.Core.Option.{Option, none, some}
use mathlib.Core.List.{List, [], ◌∷◌}
use coro_rpc.Base.Tests.{◌==◌, if◌then◌else◌}

module _ {ℓ} {A : Type ℓ} where
  unfoldable pub find_entry : ℕ → List (ℕ × A) → Option A
  find_entry k [] = none
  find_entry k ((j, v) ∷ m) = if j == k then some v else find_entry k m

  -- A value in place of the one under this key.
  unfoldable pub put_entry : ℕ → A → List (ℕ × A) → List (ℕ × A)
  put_entry k v [] = []
  put_entry k v ((j, w) ∷ m) = if j == k then (j, v) ∷ m else (j, w) ∷ put_entry k v m

  unfoldable pub erase_entry : ℕ → List (ℕ × A) → List (ℕ × A)
  erase_entry k [] = []
  erase_entry k ((j, v) ∷ m) = if j == k then m else (j, v) ∷ erase_entry k m

  abbrev pub entry_values : List (ℕ × A) → List A
  entry_values [] = []
  entry_values ((j, v) ∷ m) = v ∷ entry_values m

  abbrev pub entry_keys : List (ℕ × A) → List ℕ
  entry_keys [] = []
  entry_keys ((j, v) ∷ m) = j ∷ entry_keys m

  unfoldable pub get_elem? : List A → ℕ → Option A
  get_elem? [] i = none
  get_elem? (x ∷ xs) zero = some x
  get_elem? (x ∷ xs) (suc i) = get_elem? xs i

  unfoldable pub set : List A → ℕ → A → List A
  set [] i v = []
  set (x ∷ xs) zero v = v ∷ xs
  set (x ∷ xs) (suc i) v = x ∷ set xs i v
