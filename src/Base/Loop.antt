-- ===== src/Base/Loop.antt =====
-- Loops over a collection whose body may raise, and total correctness of calls that may raise.
use mathlib.Core.List.{List, [], ◌∷◌}
use telegram_presence.Base.Result.{Result, ok, err, ◌>>=◌}

-- `for x in xs: body(x)`, with the variables of the loop as one state
unfoldable pub for_each {ℓ κ} :
    {A : Type ℓ} {S : Type κ} → (A → S → Result S) → List A → S → Result S
for_each body [] s = ok s
for_each body (x ∷ xs) s = body x s >>= for_each body xs

-- The call returns, and what it returns satisfies `P`.
abbrev pub Ensures {ℓ} : {A : Type ℓ} → (A → Type 0) → Result A → Type 0
Ensures P (ok a) = P a
Ensures P (err e) = ⊥

pub Ensures-bind {ℓ κ} :
    {A : Type ℓ} {B : Type κ} (Q : A → Type 0) (P : B → Type 0) (m : Result A) (f : A → Result B)
    → Ensures Q m
    → ((a : A) → Q a → Ensures P (f a))
    → Ensures P (m >>= f)
Ensures-bind Q P (ok a) f h k = k a h
Ensures-bind Q P (err e) f h k = absurd h

pub Ensures-map {ℓ} :
    {A : Type ℓ} (Q P : A → Type 0) (m : Result A)
    → Ensures Q m
    → ((a : A) → Q a → P a)
    → Ensures P m
Ensures-map Q P (ok a) h k = k a h
Ensures-map Q P (err e) h k = absurd h

-- An invariant over the rest of the collection and the state, kept by every round, holds at the end.
pub for_each_inv {ℓ κ} :
    {A : Type ℓ} {S : Type κ} (P : List A → S → Type 0) (body : A → S → Result S)
    → ((x : A) (xs : List A) (s : S) → P (x ∷ xs) s → Ensures (P xs) (body x s))
    → (xs : List A) (s : S) → P xs s
    → Ensures (P []) (for_each body xs s)
unfolding for_each
for_each_inv P body step [] s h = h
for_each_inv P body step (x ∷ xs) s h =
    Ensures-bind (P xs) (P []) (body x s) (for_each body xs) (step x xs s h)
      (λ s' h'. for_each_inv P body step xs s' h')

-- What the call returns, if it returns, satisfies `P`.
abbrev pub IfOk {ℓ} : {A : Type ℓ} → (A → Type 0) → Result A → Type 0
IfOk P (ok a) = P a
IfOk P (err e) = Unit

pub IfOk-of-Ensures {ℓ} : {A : Type ℓ} (P : A → Type 0) (m : Result A) → Ensures P m → IfOk P m
IfOk-of-Ensures P (ok a) h = h
IfOk-of-Ensures P (err e) h = tt
