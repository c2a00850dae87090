-- ===== src/Resp3/Outcome.antt =====
-- How a call of the RESP3 parser ends: with a value, with an `error`, or with a Go panic.
use go_backend_examples.Common.{ℕ, ◌≡◌, ◌≢◌, refl, Bool, true, false, Bytes, if◌then◌else◌, subst}

-- The errors that the parsers construct; each carries what its message quotes.
pub data ParseError : Type 0 where
  incomplete : ParseError
  invalid_integer invalid_length invalid_boolean invalid_double invalid_verbatim :
      Bytes → ParseError
  negative_length unknown_type : ℕ → ParseError

-- `panicked` is a run-time panic; `out_of_fuel` has no counterpart in the program.
pub data Outcome {ℓ} (A : Type ℓ) : Type ℓ where
  ok : A → Outcome A
  err : ParseError → Outcome A
  panicked out_of_fuel : Outcome A

abbrev pub bind {ℓ κ} : {A : Type ℓ} {B : Type κ} → Outcome A → (A → Outcome B) → Outcome B
bind (ok a) f = f a
bind (err e) f = err e
bind panicked f = panicked
bind out_of_fuel f = out_of_fuel

abbrev pub map_ok {ℓ κ} : {A : Type ℓ} {B : Type κ} → (A → B) → Outcome A → Outcome B
map_ok f m = bind m λ a. ok (f a)

pub bind_assoc {ℓ κ μ} :
    {A : Type ℓ} {B : Type κ} {C : Type μ} (r : Outcome A) (f : A → Outcome B) (g : B → Outcome C)
    → bind (bind r f) g ≡ bind r (λ a. bind (f a) g)
bind_assoc (ok a) f g = refl
bind_assoc (err e) f g = refl
bind_assoc panicked f g = refl
bind_assoc out_of_fuel f g = refl

-- The run kept within its fuel, and `P` holds of its value if it has one.
pub data Ensures {ℓ κ} {A : Type ℓ} (P : A → Type κ) : Outcome A → Type (ℓ ⊔ κ) where
  holds : {a : A} → P a → Ensures P (ok a)
  failed : {e : ParseError} → Ensures P (err e)
  crashed : Ensures P panicked

module _ {ℓ κ} {A : Type ℓ} {P : A → Type κ} where
  pub Ensures-out_of_fuel : {r : Outcome A} → Ensures P r → r ≢ out_of_fuel
  Ensures-out_of_fuel (holds h) = cc
  Ensures-out_of_fuel failed = cc
  Ensures-out_of_fuel crashed = cc

  pub Ensures-ok : {r : Outcome A} {a : A} → Ensures P r → r ≡ ok a → P a
  Ensures-ok (holds h) e = subst P (cc) h
  Ensures-ok failed e = cc
  Ensures-ok crashed e = cc

  pub Ensures-if :
      (b : Bool) {x y : Outcome A} → Ensures P x → Ensures P y → Ensures P (if b then x else y)
  Ensures-if true hx hy = hx
  Ensures-if false hx hy = hy

  pub Ensures-bind {ℓ' κ'} :
      {B : Type ℓ'} {Q : B → Type κ'} {r : Outcome A} {f : A → Outcome B}
      → Ensures P r
      → ((a : A) → P a → Ensures Q (f a))
      → Ensures Q (bind r f)
  Ensures-bind (holds {a} h) k = k a h
  Ensures-bind failed k = failed
  Ensures-bind crashed k = crashed

pub Ensures-weaken {ℓ κ μ} :
    {A : Type ℓ} {P : A → Type κ} {Q : A → Type μ} {r : Outcome A}
    → Ensures P r
    → ((a : A) → P a → Q a)
    → Ensures Q r
Ensures-weaken (holds {a} h) k = holds (k a h)
Ensures-weaken failed k = failed
Ensures-weaken crashed k = crashed
