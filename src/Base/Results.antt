-- ===== src/Base/Results.antt =====
-- Fallible code: the chain of Option results, and what holds of a result if there is one.
use mathlib.Core.Path.{◌≡◌, refl}
use mathlib.Core.Bool.{Bool, true, false}
use kernel_bypass_group_proj.Base.Tests.{if◌then◌else◌}
use mathlib.Core.Option.{Option, none, some}

infixl 5 ◌>>=◌
abbrev pub ◌>>=◌ : {A B : Type 0} → Option A → (A → Option B) → Option B
none >>= f = none
some a >>= f = f a

-- If there is a result, the predicate holds of it.
pub data Ensures {A : Type 0} (P : A → Type 0) : Option A → Type 0 where
  fails : Ensures P none
  gives : {a : A} → P a → Ensures P (some a)

pub bind :
    {A B : Type 0} {P : B → Type 0} (o : Option A) (f : A → Option B)
    → ((a : A) → o ≡ some a → Ensures P (f a))
    → Ensures P (o >>= f)
bind none f g = fails
bind (some a) f g = g a refl

pub follow :
    {A B : Type 0} {P : B → Type 0} {Q : A → Type 0} {o : Option A} (f : A → Option B)
    → Ensures Q o
    → ((a : A) → Q a → Ensures P (f a))
    → Ensures P (o >>= f)
follow f fails g = fails
follow f (gives q) g = g _ q

-- the same for a chain that is written with `elim`
pub follow_elim :
    {A B : Type 0} {P : B → Type 0} {Q : A → Type 0} {o : Option A} (f : A → Option B)
    → Ensures Q o
    → ((a : A) → Q a → Ensures P (f a))
    → Ensures P (elim o [ none ↦ none | some a ↦ f a ])
follow_elim f fails g = fails
follow_elim f (gives q) g = g _ q

-- on both branches
pub branch :
    {A : Type 0} {P : A → Type 0} {x y : Option A} (c : Bool)
    → Ensures P x
    → Ensures P y
    → Ensures P (if c then x else y)
branch true hx hy = hx
branch false hx hy = hy

pub Ensures-some : {A : Type 0} {P : A → Type 0} (a : A) → Ensures P (some a) → P a
Ensures-some a (gives p) = p

pub Ensures-map :
    {A : Type 0} {P Q : A → Type 0} {o : Option A}
    → ((a : A) → P a → Q a)
    → Ensures P o
    → Ensures Q o
Ensures-map f fails = fails
Ensures-map f (gives p) = gives (f _ p)
