-- ===== src/Prelude/Outcomes.antt =====
-- What a piece of C++ code does: it returns, it has undefined behaviour (an access outside an
-- object), it blocks for ever (on a mutex that its own thread holds, or on a thread that does not
-- end), or the fuel that a loop of the model was given ran out, which is no C++ behaviour.
use mathlib.Core.Path.{◌≡◌, refl, subst}
use mathlib.Core.Bool.{Bool, true, false}
use yuwibo_server.Prelude.Tests.{if◌then◌else◌}
use mathlib.Core.Option.{Option, none, some}

pub data Outcome {ℓ} (A : Type ℓ) : Type ℓ where
  ok : A → Outcome A
  fault : Outcome A
  deadlock : Outcome A
  spins : Outcome A

infixl 5 ◌>>=◌ ◌>>◌
abbrev pub ◌>>=◌ {ℓ κ} :
    {Before : Type ℓ} {After : Type κ} → Outcome Before → (Before → Outcome After) → Outcome After
fault >>= next = fault
deadlock >>= next = deadlock
spins >>= next = spins
ok result >>= next = next result

abbrev pub ◌>>◌ {ℓ} : {After : Type ℓ} → Outcome (Unit {0}) → Outcome After → Outcome After
first >> second = first >>= λ done. second

abbrev pub or_fault {ℓ} : {A : Type ℓ} → Option A → Outcome A
or_fault none = fault
or_fault (some a) = ok a

pub some-injective {ℓ} : {A : Type ℓ} {a b : A} → ◌≡◌ {A = Option A} (some a) (some b) → a ≡ b
some-injective e = cc

pub ok-injective {ℓ} : {A : Type ℓ} {a b : A} → ok a ≡ ok b → a ≡ b
ok-injective h = cc

pub >>=-regroup {ℓ κ μ} :
    {A : Type ℓ} {B : Type κ} {C : Type μ} (m : Outcome A) (k : A → Outcome C) (f : A → Outcome B)
    (g : B → Outcome C)
    → ((a : A) → k a ≡ (f a >>= g))
    → (m >>= k) ≡ ((m >>= f) >>= g)
>>=-regroup (ok a) k f g h = h a
>>=-regroup fault k f g h = refl
>>=-regroup deadlock k f g h = refl
>>=-regroup spins k f g h = refl

-- What came before a result has a result.
pub >>=-ok {ℓ κ} :
    {A : Type ℓ} {B : Type κ} (m : Outcome A) (f : A → Outcome B) (b : B)
    → (m >>= f) ≡ ok b
    → (a : A) × (m ≡ ok a) × (f a ≡ ok b)
>>=-ok (ok a) f b e = (a, refl, e)
>>=-ok fault f b e = cc
>>=-ok deadlock f b e = cc
>>=-ok spins f b e = cc

-- What holds of a result, if there is one.
pub record Always {ℓ} {A : Type ℓ} (P : A → Type 0) (out : Outcome A) : Type ℓ where
  pub of_result : (a : A) → out ≡ ok a → P a

pub ok-Always {ℓ} : {A : Type ℓ} {P : A → Type 0} {a : A} → P a → Always P (ok a)
ok-Always {P} h = record { of_result = λ a e. subst P (ok-injective e) h }

pub fault-Always {ℓ} : {A : Type ℓ} {P : A → Type 0} → Always P fault
fault-Always = record { of_result = λ a e. cc }

pub spins-Always {ℓ} : {A : Type ℓ} {P : A → Type 0} → Always P spins
spins-Always = record { of_result = λ a e. cc }

pub bind-Always {ℓ κ} :
    {A : Type ℓ} {B : Type κ} {P : A → Type 0} {Q : B → Type 0} (m : Outcome A) {f : A → Outcome B}
    → Always P m
    → ((a : A) → P a → Always Q (f a))
    → Always Q (m >>= f)
bind-Always (ok a) h k = k a (h.of_result a refl)
bind-Always fault h k = fault-Always
bind-Always deadlock h k = record { of_result = λ a e. cc }
bind-Always spins h k = spins-Always

pub then-Always {ℓ κ} :
    {A : Type ℓ} {B : Type κ} {Q : B → Type 0} (m : Outcome A) {f : A → Outcome B}
    → ((a : A) → Always Q (f a))
    → Always Q (m >>= f)
then-Always (ok a) k = k a
then-Always fault k = fault-Always
then-Always deadlock k = record { of_result = λ a e. cc }
then-Always spins k = spins-Always

pub if-Always {ℓ} :
    {A : Type ℓ} {Q : A → Type 0} (b : Bool) {x y : Outcome A}
    → (b ≡ true → Always Q x)
    → (b ≡ false → Always Q y)
    → Always Q (if b then x else y)
if-Always true h k = h refl
if-Always false h k = k refl
