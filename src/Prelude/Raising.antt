-- ===== src/Prelude/Raising.antt =====
-- Calls that may raise. A raised error leaves its transaction to the rollback of `session_scope`,
-- so an error carries no state.
use mathlib.Core.Path.{◌≡◌, refl, ap, subst}

pub data Result {ℓ κ} (E : Type ℓ) (A : Type κ) : Type (ℓ ⊔ κ) where
  ok : A → Result E A
  err : E → Result E A

infixl 5 ◌>>=◌ ◌>>◌
abbrev pub ◌>>=◌ {ℓ} : {E A B : Type ℓ} → Result E A → (A → Result E B) → Result E B
ok a >>= f = f a
err e >>= f = err e

abbrev pub ◌>>◌ {ℓ} : {E B : Type ℓ} → Result {ℓ, 0} E (Unit {0}) → Result E B → Result E B
ok _ >> k = k
err e >> k = err e

-- What a chain of two calls returned, its first call let through.
pub >>-eq-ok {ℓ} :
    {E B : Type ℓ} (check : Result {ℓ, 0} E (Unit {0})) (rest : Result E B) {out : B}
    → (check >> rest) ≡ ok out
    → (check ≡ ok tt) × (rest ≡ ok out)
>>-eq-ok (ok tt) rest returned = (refl, returned)
>>-eq-ok (err e) rest returned = cc

pub >>=-eq-ok {ℓ} :
    {E A B : Type ℓ} (call : Result E A) (rest : A → Result E B) {out : B}
    → (call >>= rest) ≡ ok out
    → (mid : A) × (call ≡ ok mid) × (rest mid ≡ ok out)
>>=-eq-ok (err e) rest returned = cc
>>=-eq-ok (ok mid) rest returned = (mid, refl, returned)

-- What holds of a returned value holds of the value that an equation says is returned.
pub carry_ok {ℓ κ ι} :
    {E : Type ℓ} {A : Type κ} (P : A → Type ι) {a b : A}
    → ◌≡◌ {A = Result E A} (ok a) (ok b)
    → P a
    → P b
carry_ok P {a} e h = subst P (ap (λ r. elim r [ ok x ↦ x | err _ ↦ a ]) e) h

-- An invariant of what a call leaves behind, when it returns.
abbrev pub Ensures {ℓ κ ι} : {E : Type ℓ} {A : Type κ} → (A → Type ι) → Result E A → Type ι
Ensures P (ok a) = P a
Ensures P (err e) = Unit

pub Ensures_returned {ℓ κ ι} :
    {E : Type ℓ} {A : Type κ} (P : A → Type ι) (r : Result E A) {a : A}
    → Ensures P r
    → r ≡ ok a
    → P a
Ensures_returned P (ok x) h e = carry_ok P e h
Ensures_returned P (err x) h e = cc

-- What the rest of a chain ensures, whatever its first call gave.
pub Ensures->> {ℓ ι} :
    {E B : Type ℓ} (P : B → Type ι) (check : Result {ℓ, 0} E (Unit {0})) (rest : Result E B)
    → Ensures P rest
    → Ensures P (check >> rest)
Ensures->> P (ok _) rest h = h
Ensures->> P (err e) rest h = tt

pub Ensures->>= {ℓ ι} :
    {E A B : Type ℓ} (P : B → Type ι) (call : Result E A) (rest : A → Result E B)
    → ((a : A) → Ensures P (rest a))
    → Ensures P (call >>= rest)
Ensures->>= P (ok a) rest h = h a
Ensures->>= P (err e) rest h = tt

-- The same, for what follows from a chain that returned.
pub >>-after {ℓ κ} :
    {E B : Type ℓ} {C : Type κ} (check : Result {ℓ, 0} E (Unit {0})) (rest : Result E B) {out : B}
    → (check >> rest) ≡ ok out
    → (check ≡ ok tt → rest ≡ ok out → C)
    → C
>>-after (ok tt) rest returned k = k refl returned
>>-after (err e) rest returned k = cc

pub >>=-after {ℓ κ} :
    {E A B : Type ℓ} {C : Type κ} (call : Result E A) (rest : A → Result E B) {out : B}
    → (call >>= rest) ≡ ok out
    → ((mid : A) → call ≡ ok mid → rest mid ≡ ok out → C)
    → C
>>=-after (ok mid) rest returned k = k mid refl returned
>>=-after (err e) rest returned k = cc
