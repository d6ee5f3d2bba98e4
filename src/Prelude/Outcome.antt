-- ===== src/Prelude/Outcome.antt =====
-- Results of code that may end the process: a failed `assert`, an uncaught exception, or an access
-- that C++ leaves undefined is `abort`.
use mathlib.Core.Path.{◌≡◌, refl}
use mathlib.Core.Logic.{◌⊎◌, inl, inr}
use mathlib.Core.Option.{Option, none, some}
use mathlib.Core.Bool.{Bool, true, false}

pub data Checked {ℓ} (A : Type ℓ) : Type ℓ where
  ok : A → Checked A
  abort : Checked A

infixl 5 ◌>>=◌ ◌>>◌
abbrev pub ◌>>=◌ {ℓ κ} : {A : Type ℓ} {B : Type κ} → Checked A → (A → Checked B) → Checked B
ok a >>= f = f a
abort >>= f = abort

abbrev pub ◌>>◌ {ℓ} : {B : Type ℓ} → Checked (Unit {0}) → Checked B → Checked B
m >> k = m >>= λ _. k

-- `assert(b)`, in a build without NDEBUG.
abbrev pub assert : Bool → Checked (Unit {0})
assert true = ok tt
assert false = abort

-- A pointer or an index that must be good.
abbrev pub deref {ℓ} : {A : Type ℓ} → Option A → Checked A
deref none = abort
deref (some a) = ok a

pub Checked-cases {ℓ} : {A : Type ℓ} (c : Checked A) → (c ≡ abort) ⊎ ((a : A) × (c ≡ ok a))
Checked-cases (ok a) = inr (a, refl)
Checked-cases abort = inl refl

-- A chain that gives a result does so in each part.
pub bind-ok {ℓ κ} :
    {A : Type ℓ} {B : Type κ} (m : Checked A) (f : A → Checked B) (b : B)
    → (m >>= f) ≡ ok b
    → (a : A) × (m ≡ ok a) × (f a ≡ ok b)
bind-ok (ok a) f b e = (a, refl, e)
bind-ok abort f b e = cc e
