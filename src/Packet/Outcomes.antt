-- ===== src/Packet/Outcomes.antt =====
-- stats.js, `handlePacket`: what returns and what throws, one step after the other.
use statsd.Base.{◌≡◌, refl, subst, Bool, true, false, Option, none, some}
use statsd.Packet.Metric.{Outcome, done, fault, Fault, ◌>>=◌}

-- A property of the state that the handler returns, if it returns one.
abbrev pub Holds {ℓ κ} : {A : Type ℓ} → (A → Type κ) → Outcome A → Type κ
Holds P (done a) = P a
Holds P (fault e) = Unit

pub Holds-bind {ℓ κ} :
    {A : Type ℓ} (P : A → Type κ) (m : Outcome A) (f : A → Outcome A)
    → Holds P m
    → ((a : A) → P a → Holds P (f a))
    → Holds P (m >>= f)
Holds-bind P (done a) f h k = k a h
Holds-bind P (fault e) f h k = tt

pub Holds-after {ℓ κ ν} :
    {A : Type ν} {B : Type ℓ} (P : B → Type κ) (m : Outcome A) (f : A → Outcome B)
    → ((a : A) → Holds P (f a))
    → Holds P (m >>= f)
Holds-after P (done a) f k = k a
Holds-after P (fault e) f k = tt

pub Holds-map {ℓ κ ν} :
    {A : Type ℓ} (P : A → Type κ) (Q : A → Type ν) (m : Outcome A)
    → ((a : A) → P a → Q a)
    → Holds P m
    → Holds Q m
Holds-map P Q (done a) f h = f a h
Holds-map P Q (fault e) f h = tt

-- An outcome that is a state has the property.
pub Holds-done {ℓ κ} :
    {A : Type ℓ} (P : A → Type κ) (m : Outcome A) (a : A) → Holds P m → m ≡ done a → P a
Holds-done P (done b) a h e = subst (λ o. Holds P o) e h
Holds-done P (fault f) a h e = cc

-- what is left of an outcome, if it is a state
pub Holds-then {ℓ κ ν} :
    {A : Type ν} {B : Type ℓ} (P : B → Type κ) (m : Outcome A) (f : A → Outcome B)
    → ((a : A) → m ≡ done a → Holds P (f a))
    → Holds P (m >>= f)
Holds-then P (done a) f k = k a refl
Holds-then P (fault e) f k = tt

abbrev pub is_done {ℓ} : {A : Type ℓ} → Outcome A → Bool
is_done (done a) = true
is_done (fault e) = false

-- why the handler stopped, if it did
abbrev pub fault_of {ℓ} : {A : Type ℓ} → Outcome A → Option Fault
fault_of (done a) = none
fault_of (fault e) = some e

pub fault_of_done {ℓ} : {A : Type ℓ} (m : Outcome A) → is_done m ≡ true → fault_of m ≡ none
fault_of_done (done a) h = refl
fault_of_done (fault e) h = cc

pub done_of_fault {ℓ} : {A : Type ℓ} (m : Outcome A) → fault_of m ≡ none → is_done m ≡ true
done_of_fault (done a) h = refl
done_of_fault (fault e) h = cc

pub is_done-bind {ℓ} :
    {A B : Type ℓ} (m : Outcome A) (f : A → Outcome B)
    → is_done m ≡ true
    → ((a : A) → is_done (f a) ≡ true)
    → is_done (m >>= f) ≡ true
is_done-bind (done a) f h k = k a
is_done-bind (fault e) f h k = cc
