-- ===== src/Prelude/Result.antt =====
-- A function that returns `(value, error)`, and may panic. `err` carries the error value, by the
-- name that the code gives it or a constructor for each message.
use mathlib.Core.Option.{Option, none, some}
use Prim.Native.Nat.{ℕ}
use mathlib.Core.Path.{◌≡◌, refl}

pub data Error : Type 0 where
  txid_missing address_missing block_not_found invalid_address_key : Error
  inconsistent_block_txs inconsistent_outpoints cannot_disconnect invalid_address_contracts : Error
  unknown_chain_type synced operation_interrupted remote_height : Error
  failed_to_convert not_implemented not_supported invalid_hex : Error
  backend : ℕ → Error

pub data Result {ℓ} (A : Type ℓ) : Type ℓ where
  ok : A → Result A
  err : Error → Result A
  panic : Result A

infixl 5 ◌>>=◌
abbrev pub ◌>>=◌ {ℓ κ} : {A : Type ℓ} {B : Type κ} → Result A → (A → Result B) → Result B
ok a >>= f = f a
err e >>= f = err e
panic >>= f = panic

-- An error is logged and passed over; a panic stays one.
abbrev pub or_skip {ℓ} : {A : Type ℓ} → Result A → Result (Option A)
or_skip (ok a) = ok (some a)
or_skip (err e) = ok none
or_skip panic = panic

-- A step that has no error value but may panic.
abbrev pub run {ℓ} : {A : Type ℓ} → Option A → Result A
run none = panic
run (some a) = ok a

-- What holds of every result that is returned.
abbrev pub Ensures {ℓ κ} : {A : Type ℓ} → (A → Type κ) → Result A → Type κ
Ensures P (ok a) = P a
Ensures P (err e) = Unit
Ensures P panic = Unit

pub Ensures-bind {ℓ κ} :
    {A B : Type ℓ} (Q : A → Type κ) (P : B → Type κ) (m : Result A) (f : A → Result B)
    → Ensures Q m
    → ((a : A) → Q a → Ensures P (f a))
    → Ensures P (m >>= f)
Ensures-bind Q P (ok a) f h k = k a h
Ensures-bind Q P (err e) f h k = tt
Ensures-bind Q P panic f h k = tt

-- Where nothing is known of the first result.
pub Ensures-after {ℓ κ} :
    {A B : Type ℓ} (P : B → Type κ) (m : Result A) (f : A → Result B)
    → ((a : A) → Ensures P (f a))
    → Ensures P (m >>= f)
Ensures-after P (ok a) f k = k a
Ensures-after P (err e) f k = tt
Ensures-after P panic f k = tt

-- A step that may be passed over.
pub Ensures-or_skip {ℓ κ} :
    {A B : Type ℓ} (P : B → Type κ) (m : Result A) (f : Option A → Result B)
    → Ensures P (f none)
    → ((a : A) → Ensures P (f (some a)))
    → Ensures P (or_skip m >>= f)
Ensures-or_skip P (ok a) f n k = k a
Ensures-or_skip P (err e) f n k = n
Ensures-or_skip P panic f n k = tt

-- The same for a step that may panic.
abbrev pub Gives {ℓ κ} : {A : Type ℓ} → (A → Type κ) → Option A → Type κ
Gives P none = Unit
Gives P (some a) = P a

pub Ensures-run {ℓ κ} : {A : Type ℓ} (P : A → Type κ) (o : Option A) → Gives P o → Ensures P (run o)
Ensures-run P none h = tt
Ensures-run P (some a) h = h

-- A result is what it gives.
pub Ensures-refl {ℓ} : {A : Type ℓ} (m : Result A) → Ensures (λ a. m ≡ ok a) m
Ensures-refl (ok a) = refl
Ensures-refl (err e) = tt
Ensures-refl panic = tt

-- What holds of the result, which is returned.
abbrev pub Returns {ℓ} : {A : Type ℓ} → (A → Type 0) → Result A → Type 0
Returns P (ok a) = P a
Returns P _ = ⊥

pub Returns-bind {ℓ} :
    {A B : Type ℓ} (Q : A → Type 0) (P : B → Type 0) (m : Result A) (f : A → Result B)
    → Returns Q m
    → ((a : A) → Q a → Returns P (f a))
    → Returns P (m >>= f)
Returns-bind Q P (ok a) f h k = k a h
Returns-bind Q P (err e) f h k = absurd h
Returns-bind Q P panic f h k = absurd h

pub Returns-weaken {ℓ} :
    {A : Type ℓ} (Q P : A → Type 0) (m : Result A)
    → Returns Q m
    → ((a : A) → Q a → P a)
    → Returns P m
Returns-weaken Q P (ok a) h k = k a h
Returns-weaken Q P (err e) h k = absurd h
Returns-weaken Q P panic h k = absurd h

-- A result that a predicate holds of.
pub Returns-ok :
    {A : Type 0} (P : A → Type 0) (m : Result A) → Returns P m → (a : A) × (m ≡ ok a) × P a
Returns-ok P (ok a) h = (a, refl, h)
Returns-ok P (err e) h = absurd h
Returns-ok P panic h = absurd h

-- Two ways to go on that agree everywhere.
pub bind_same {ℓ κ} :
    {A : Type ℓ} {B : Type κ} (m : Result A) (f g : A → Result B)
    → ((a : A) → f a ≡ g a)
    → (m >>= f) ≡ (m >>= g)
bind_same (ok a) f g h = h a
bind_same (err e) f g h = refl
bind_same panic f g h = refl
