-- ===== src/Common/Raising.antt =====
-- Code that returns a value or raises: `E` is the type of what it raises.
use mathlib.Core.Path.{◌≡◌, refl, subst}
use mathlib.Core.Bool.{Bool, true, false}
use tx_trader.Common.Tests.{if◌then◌else◌}

pub data Outcome (E A : Type 0) : Type 0 where
  ok : A → Outcome E A
  raise : E → Outcome E A

infixl 5 ◌>>=◌ ◌>>◌
abbrev pub ◌>>=◌ : {E A B : Type 0} → Outcome E A → (A → Outcome E B) → Outcome E B
ok a >>= f = f a
raise e >>= f = raise e

abbrev pub ◌>>◌ : {E B : Type 0} → Outcome E (Unit {0}) → Outcome E B → Outcome E B
m >> k = m >>= λ _. k

-- `if test: raise e`.
abbrev pub raise_if : {E : Type 0} → Bool → E → Outcome E (Unit {0})
raise_if true e = raise e
raise_if false e = ok tt

-- A sequence of checks passes only if each of them does.
pub >>-eq_ok :
    {E B : Type 0} (m : Outcome E (Unit {0})) (k : Outcome E B) {b : B}
    → (m >> k) ≡ ok b
    → (m ≡ ok tt) × (k ≡ ok b)
>>-eq_ok (ok tt) k h = (refl, h)
>>-eq_ok (raise e) k h = cc

-- A guard lets through only a test that is false.
pub raise_if-eq_ok : {E : Type 0} (b : Bool) (e : E) → raise_if b e ≡ ok tt → b ≡ false
raise_if-eq_ok true e h = cc
raise_if-eq_ok false e h = refl

-- The call returns, and what it returns satisfies `P`.
abbrev pub Returns : {E A : Type 0} → Outcome E A → (A → Type 0) → Type 0
Returns (ok a) P = P a
Returns (raise e) P = ⊥

ok_injective : {E A : Type 0} {a b : A} → ◌≡◌ {A = Outcome E A} (ok a) (ok b) → a ≡ b
ok_injective e = cc

-- A conditional returns what both branches return.
pub Returns-if :
    {E A : Type 0} (P : A → Type 0) (b : Bool) (x y : Outcome E A)
    → (b ≡ true → Returns x P)
    → (b ≡ false → Returns y P)
    → Returns (if b then x else y) P
Returns-if P true x y h h' = h refl
Returns-if P false x y h h' = h' refl

pub Returns-eq_ok :
    {E A : Type 0} (P : A → Type 0) (m : Outcome E A) {a : A} → Returns m P → m ≡ ok a → P a
Returns-eq_ok P (ok b) {a = a} h e = subst P (ok_injective e) h
Returns-eq_ok P (raise x) h e = absurd h

-- What the call returns, if it returns, satisfies `P`.
abbrev pub Ensures : {E A : Type 0} → Outcome E A → (A → Type 0) → Type 0
Ensures (ok a) P = P a
Ensures (raise e) P = Unit {0}

pub Ensures->>= :
    {E A B : Type 0} (P : B → Type 0) (m : Outcome E A) (k : A → Outcome E B)
    → ((a : A) → m ≡ ok a → Ensures (k a) P)
    → Ensures (m >>= k) P
Ensures->>= P (ok a) k h = h a refl
Ensures->>= P (raise e) k h = tt

-- A call that returns ensures what it returns.
pub Returns-Ensures :
    {E A : Type 0} (P Q : A → Type 0) (m : Outcome E A)
    → Returns m P
    → Ensures m Q
    → Returns m (λ a. P a × Q a)
Returns-Ensures P Q (ok a) p q = (p, q)
Returns-Ensures P Q (raise e) p q = absurd p

pub Returns-map :
    {E A : Type 0} (P Q : A → Type 0) (m : Outcome E A)
    → Returns m P
    → ((a : A) → P a → Q a)
    → Returns m Q
Returns-map P Q (ok a) p f = f a p
Returns-map P Q (raise e) p f = p

-- A call that returns, followed by one that returns on what it gives.
pub Returns->>= :
    {E A B : Type 0} (P : A → Type 0) (Q : B → Type 0) (m : Outcome E A) (k : A → Outcome E B)
    → Returns m P
    → ((a : A) → P a → Returns (k a) Q)
    → Returns (m >>= k) Q
Returns->>= P Q (ok a) k p f = f a p
Returns->>= P Q (raise e) k p f = absurd p

-- A chain of calls returns only if its first call does.
pub >>=-eq_ok :
    {E A B : Type 0} (m : Outcome E A) (k : A → Outcome E B) {b : B}
    → (m >>= k) ≡ ok b
    → (a : A) × (m ≡ ok a) × (k a ≡ ok b)
>>=-eq_ok (ok a) k h = (a, refl, h)
>>=-eq_ok (raise e) k h = cc

pub Ensures-if :
    {E A : Type 0} (P : A → Type 0) (b : Bool) (x y : Outcome E A)
    → (b ≡ true → Ensures x P)
    → (b ≡ false → Ensures y P)
    → Ensures (if b then x else y) P
Ensures-if P true x y h h' = h refl
Ensures-if P false x y h h' = h' refl

pub Ensures-bind :
    {E A B : Type 0} (P : A → Type 0) (Q : B → Type 0) (m : Outcome E A) (k : A → Outcome E B)
    → Ensures m P
    → ((a : A) → P a → Ensures (k a) Q)
    → Ensures (m >>= k) Q
Ensures-bind P Q (ok a) k p f = f a p
Ensures-bind P Q (raise e) k p f = tt

pub Ensures-eq_ok :
    {E A : Type 0} (P : A → Type 0) (m : Outcome E A) {a : A} → Ensures m P → m ≡ ok a → P a
Ensures-eq_ok P (ok b) {a = a} h e = subst P (ok_injective e) h
Ensures-eq_ok P (raise x) h e = cc

pub Ensures-map :
    {E A : Type 0} {P Q : A → Type 0} (m : Outcome E A)
    → Ensures m P
    → ((a : A) → P a → Q a)
    → Ensures m Q
Ensures-map (ok a) p f = f a p
Ensures-map (raise e) p f = tt
