-- ===== src/Base/Fallible.antt =====
-- A value, or an error that names what was wrong.
use mathlib.Core.Path.{◌≡◌, refl, subst}
use mathlib.Core.Bool.{Bool, true, false}
use mathlib.Core.Option.{Option, none, some}
use nirn_proxy.Base.Text.{Bytes}

pub data Loaded {ℓ} (A : Type ℓ) : Type ℓ where
  ok : A → Loaded A
  err : Bytes → Loaded A

infixl 5 ◌>>=◌ ◌>>◌
unfoldable pub ◌>>=◌ {ℓ κ} : {A : Type ℓ} {B : Type κ} → Loaded A → (A → Loaded B) → Loaded B
ok a >>= f = f a
err name >>= f = err name

abbrev pub ◌>>◌ {ℓ} : {B : Type ℓ} → Loaded (Unit {0}) → Loaded B → Loaded B
m >> k = m >>= λ _. k

abbrev pub or_error {ℓ} : {A : Type ℓ} → Bytes → Option A → Loaded A
or_error message none = err message
or_error message (some a) = ok a

abbrev pub require : Bool → Bytes → Loaded (Unit {0})
require true message = ok tt
require false message = err message

-- A property of the value, if there is one.
unfoldable pub Ensures {ℓ κ} : {A : Type ℓ} → (A → Type κ) → Loaded A → Type κ
Ensures P (ok a) = P a
Ensures P (err name) = Unit

pub Ensures-bind {ℓ κ ι μ} :
    {A : Type ℓ} {B : Type μ} (P : A → Type κ) (Q : B → Type ι) (m : Loaded A) (f : A → Loaded B)
    → Ensures P m
    → ((a : A) → P a → Ensures Q (f a))
    → Ensures Q (m >>= f)
unfolding Ensures ◌>>=◌
Ensures-bind P Q (ok a) f h k = k a h
Ensures-bind P Q (err name) f h k = tt

pub Ensures-ok {ℓ κ} :
    {A : Type ℓ} (P : A → Type κ) (m : Loaded A) (a : A) → Ensures P m → m ≡ ok a → P a
unfolding Ensures ◌>>=◌
Ensures-ok P (ok b) a h e = let same : b ≡ a = cc in subst P same h
Ensures-ok P (err name) a h e = cc

pub Ensures-itself {ℓ} : {A : Type ℓ} (m : Loaded A) → Ensures (λ a. m ≡ ok a) m
unfolding Ensures
Ensures-itself (ok a) = refl
Ensures-itself (err name) = tt

pub Ensures-nothing {ℓ} : {A : Type ℓ} (m : Loaded A) → Ensures (λ _. Unit {0}) m
unfolding Ensures
Ensures-nothing (ok a) = tt
Ensures-nothing (err name) = tt

pub Ensures-imp {ℓ κ ι} :
    {A : Type ℓ} (P : A → Type κ) (Q : A → Type ι) (m : Loaded A)
    → Ensures P m
    → ((a : A) → P a → Q a)
    → Ensures Q m
unfolding Ensures
Ensures-imp P Q (ok a) h k = k a h
Ensures-imp P Q (err name) h k = tt

pub or_error-some {ℓ} :
    {A : Type ℓ} (message : Bytes) (o : Option A) → Ensures (λ a. o ≡ some a) (or_error message o)
unfolding Ensures
or_error-some message none = tt
or_error-some message (some a) = refl

pub require-true : (b : Bool) (message : Bytes) → Ensures (λ _. b ≡ true) (require b message)
unfolding Ensures
require-true true message = refl
require-true false message = tt
