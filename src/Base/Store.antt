-- ===== src/Base/Store.antt =====
-- A `std::map` or a heap of objects with numbers for keys, as a function. `update m k v` is
-- `m[k] = v`.
use Prim.Native.Nat.{ℕ}
use mathlib.Core.Path.{◌≡◌}
use mathlib.Core.Logic.{◌≢◌}
use mathlib.Core.Bool.{Bool, true, false}
use mathlib.Core.Option.{Option, none, some}
use native.Mathlib.Omega.{arith}
use irono.Base.Tests.{◌==◌, if◌then◌else◌}

module _ {ℓ} {V : Type ℓ} where
  abbrev pub update : (ℕ → V) → ℕ → V → ℕ → V
  update m k v j = if j == k then v else m j

  pub update_self : (m : ℕ → V) (k : ℕ) (v : V) → update m k v k ≡ v
  update_self m k v = ground arith

  pub update_ne : (m : ℕ → V) (k : ℕ) (v : V) (j : ℕ) → j ≢ k → update m k v j ≡ m j
  update_ne m k v j h = ground arith

-- Whether a map that holds addresses has this one, and whether it has none.
abbrev pub same_ptr : Option ℕ → ℕ → Bool
same_ptr none ptr = false
same_ptr (some c) ptr = c == ptr

abbrev pub not_found : Option ℕ → Bool
not_found none = true
not_found (some c) = false
