-- ===== src/Base/Fault.antt =====
-- Runs that may stop: `none` is a failed `assert` or a `LOG_FATAL`, which abort the process.
use mathlib.Core.Path.{◌≡◌, refl, sym, subst}
use mathlib.Core.Bool.{Bool, true, false}
use mathlib.Core.Option.{Option, none, some}

infixl 5 ◌>>=◌ ◌>>◌
abbrev pub ◌>>=◌ {ℓ κ} : {A : Type ℓ} {B : Type κ} → Option A → (A → Option B) → Option B
none >>= f = none
some a >>= f = f a

abbrev pub ◌>>◌ {ℓ} : {B : Type ℓ} → Option (Unit {0}) → Option B → Option B
m >> k = m >>= λ _. k

abbrev pub assert : Bool → Option (Unit {0})
assert true = some tt
assert false = none

-- The run comes to an end, and its result is as `P` says.
abbrev pub Returns {ℓ} : {A : Type ℓ} → Option A → (A → Type 0) → Type 0
Returns none P = ⊥
Returns (some a) P = P a

pub Returns-some {ℓ} :
    {A : Type ℓ} (m : Option A) (P : A → Type 0) → Returns m P → (a : A) × (m ≡ some a) × P a
Returns-some none P h = absurd h
Returns-some (some a) P h = (a, refl, h)

pub Returns-bind {ℓ κ} :
    {A : Type ℓ} {B : Type κ} (m : Option A) (f : A → Option B) (P : A → Type 0) (Q : B → Type 0)
    → Returns m P
    → ((a : A) → P a → Returns (f a) Q)
    → Returns (m >>= f) Q
Returns-bind none f P Q h k = absurd h
Returns-bind (some a) f P Q h k = k a h

pub Returns-mono {ℓ} :
    {A : Type ℓ} (m : Option A) (P Q : A → Type 0)
    → Returns m P
    → ((a : A) → P a → Q a)
    → Returns m Q
Returns-mono none P Q h k = absurd h
Returns-mono (some a) P Q h k = k a h

pub Returns_of_eq {ℓ} :
    {A : Type ℓ} {m : Option A} {a : A} (P : A → Type 0) → m ≡ some a → P a → Returns m P
Returns_of_eq P e p = subst (λ r. Returns r P) (sym e) p

pub Returns-assert {ℓ} :
    {A : Type ℓ} (c : Bool) (k : Option A) (P : A → Type 0)
    → c ≡ true
    → Returns k P
    → Returns (assert c >> k) P
Returns-assert true k P e h = h
Returns-assert false k P e h = cc

-- A chain that came back came through each of its parts.
pub some-bind {ℓ κ} :
    {A : Type ℓ} {B : Type κ} (m : Option A) (f : A → Option B) (b : B)
    → m >>= f ≡ some b
    → (a : A) × (m ≡ some a) × (f a ≡ some b)
some-bind none f b e = cc
some-bind (some a) f b e = (a, refl, e)
