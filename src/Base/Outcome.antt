-- ===== src/Base/Outcome.antt =====
-- The outcome of C code that may leave defined behaviour: a value, or the fault that it commits.
use Prim.Native.Nat.{ℕ, zero, suc, ◌+◌}
use mathlib.Core.Path.{◌≡◌, refl, ap, ◌∙◌}
use mathlib.Core.Logic.{◌⊎◌, inl, inr}
use mathlib.Core.List.{List, [], ◌∷◌}
use mathlib.Core.Bool.{Bool, true, false}
use mathlib.Core.Option.{Option, none, some}
use linux_char_driver_frame.Base.Tests.{if◌then◌else◌}
use linux_char_driver_frame.Base.Array.{get_elem?, set}

-- `out_of_bounds` is an access outside an array, `null_pointer` one through NULL, `dangling` one
-- through an address at which no object lives, `division_by_zero` a `%` by 0, `uninitialised` a
-- read of a local that was never set, and `out_of_fuel` marks a loop that has not ended.
pub data Fault : Type 0 where
  out_of_bounds null_pointer dangling division_by_zero uninitialised out_of_fuel : Fault

pub data Run {ℓ} (A : Type ℓ) : Type ℓ where
  fault : Fault → Run A
  ok : A → Run A

infixl 5 ◌>>=◌
abbrev pub ◌>>=◌ {ℓ κ} : {A : Type ℓ} {B : Type κ} → Run A → (A → Run B) → Run B
fault e >>= next = fault e
ok a >>= next = next a

-- The run ends in a value that satisfies `P`.
abbrev pub Returns {ℓ κ} : {A : Type ℓ} (r : Run A) (P : A → Type κ) → Type (ℓ ⊔ κ)
Returns {A} r P = (out : A) × (r ≡ ok out) × P out

module _ {ℓ} {A : Type ℓ} where
  -- A value that is there, or the fault.
  abbrev pub or_fault : Fault → Option A → Run A
  or_fault e none = fault e
  or_fault e (some a) = ok a

  -- `xs[i]` as a value, and as the target of a store.
  abbrev pub load : List A → ℕ → Run A
  load xs i = or_fault out_of_bounds (get_elem? xs i)

  abbrev pub store : List A → ℕ → A → Run (List A)
  store xs i v = load xs i >>= λ _. ok (set xs i v)

  -- `memcpy(dst + at, src, n)`, a byte at a time.
  unfoldable pub memcpy : ℕ → List A → ℕ → List A → Run (List A)
  memcpy zero dst at src = ok dst
  memcpy (suc n) dst at [] = fault out_of_bounds
  memcpy (suc n) dst at (b ∷ src) = store dst at b >>= λ dst'. memcpy n dst' (at + 1) src

module _ {ℓ} {A : Type ℓ} where
  pub Run-cases : (r : Run A) → ((a : A) × (r ≡ ok a)) ⊎ ((e : Fault) × (r ≡ fault e))
  Run-cases (fault e) = inr (e, refl)
  Run-cases (ok a) = inl (a, refl)

  pub ok-injective : {a b : A} → ok a ≡ ok b → a ≡ b
  ok-injective {a} h = ap (λ (r : Run A). elim r [ fault e ↦ a | ok b ↦ b ]) h

-- A run that returns, and behind it a run that returns.
pub Returns-bind {ℓ κ ι μ} :
    {A : Type ℓ} {B : Type κ} {r : Run A} {next : A → Run B} {P : A → Type ι} {Q : B → Type μ}
    → Returns r P
    → ((a : A) → P a → Returns (next a) Q)
    → Returns (r >>= next) Q
Returns-bind {next} (a, e, p) step =
    let (b, e', q) = step a p in (b, ap (λ run. run >>= next) e ∙ e', q)

-- What a bind that returns says of its first run, and of the run behind it.
pub bind-ok {ℓ κ} :
    {A : Type ℓ} {B : Type κ} (r : Run A) (next : A → Run B) {b : B}
    → (r >>= next) ≡ ok b
    → (a : A) × (r ≡ ok a) × (next a ≡ ok b)
bind-ok (fault e) next h = absurd cc
bind-ok (ok a) next h = (a, refl, h)

module _ {ℓ} {A : Type ℓ} where
  pub or_fault-ok : (e : Fault) (o : Option A) {a : A} → or_fault e o ≡ ok a → o ≡ some a
  or_fault-ok e none h = absurd cc
  or_fault-ok e (some a) h = ap some (ok-injective h)

  pub some-injective : {a b : A} → some a ≡ some b → a ≡ b
  some-injective h = ok-injective (ap (or_fault null_pointer) h)

-- If the run returns, `P` holds of what it returns.
abbrev pub Ensures {ℓ κ} : {A : Type ℓ} (P : A → Type κ) (r : Run A) → Type (ℓ ⊔ κ)
Ensures {A} P r = (a : A) → r ≡ ok a → P a

pub Ensures-if {ℓ κ} :
    {A : Type ℓ} {P : A → Type κ} (b : Bool) {x y : Run A}
    → Ensures P x
    → Ensures P y
    → Ensures P (if b then x else y)
Ensures-if true p q = p
Ensures-if false p q = q

pub Ensures-elim {ℓ κ} :
    {A : Type ℓ} {P : A → Type κ} (b : Bool) {x y : Run A}
    → Ensures P x
    → Ensures P y
    → Ensures P (elim b [ true ↦ x | false ↦ y ])
Ensures-elim true p q = p
Ensures-elim false p q = q

pub Ensures-bind {ℓ κ ι μ} :
    {A : Type ℓ} {B : Type κ} {Q : A → Type ι} {P : B → Type μ} (r : Run A) {next : A → Run B}
    → Ensures Q r
    → ((a : A) → Q a → Ensures P (next a))
    → Ensures P (r >>= next)
Ensures-bind r {next} first step b run =
    let (a, e, rest) = bind-ok r next run in step a (first a e) b rest

pub Ensures-any {ℓ} : {A : Type ℓ} (r : Run A) → Ensures (λ _. Unit {0}) r
Ensures-any r a e = tt
