-- ===== src/Prelude/Maps.antt =====
-- Go maps that are only read and written by key: functions from keys to optional values, over keys
-- with a decidable equality. Iteration order and `len` are not available in this view.
use mathlib.Core.Logic.{ite}
use mathlib.Core.Option.{Option, none, some}

abbrev pub GoMap {ℓ} : Type ℓ → Type ℓ → Type ℓ
GoMap K V = K → Option V

module _ {ℓ} {K V : Type ℓ} where
  -- `make(map[K]V)`
  abbrev pub make : GoMap K V
  make k = none

module _ {ℓ} {K V : Type ℓ} (dec : Discrete K) where
  -- `m[k] = v`
  abbrev pub insert : K → V → GoMap K V → GoMap K V
  insert k v m j = ite (dec k j) (some v) (m j)

  -- `delete(m, k)`
  abbrev pub delete : K → GoMap K V → GoMap K V
  delete k m j = ite (dec k j) none (m j)
