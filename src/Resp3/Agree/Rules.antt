-- ===== src/Resp3/Agree/Rules.antt =====
-- Two parser actions that do the same, up to a function of the result.
use go_backend_examples.Common.{◌≡◌, refl, Bool, true, false, if◌then◌else◌}
use go_backend_examples.Resp3.Outcome.{
  Outcome, ParseError, ok, err, panicked, out_of_fuel, bind, map_ok,
}
use go_backend_examples.Resp3.Reader.{Parser, M, pure, fail, ◌>>=◌}

-- A result changed by `g`, the parser kept.
abbrev pub on_result {ℓ κ} : {A : Type ℓ} {B : Type κ} → (A → B) → A × Parser → B × Parser
on_result g r = (g r.0, r.1)

-- `m` does what `n` does, with `g` of its result.
pub record Same {ℓ κ} {A : Type ℓ} {B : Type κ} (g : A → B) (m : M B) (n : M A) : Type (ℓ ⊔ κ) where
  pub at : (p : Parser) → m p ≡ map_ok (on_result g) (n p)

module _ {ℓ κ} {A : Type ℓ} {B : Type κ} {g : A → B} where
  pub Same-pure : (a : A) → Same g (pure (g a)) (pure a)
  Same-pure a = record { at = λ p. refl }

  pub Same-fail : (e : ParseError) → Same g (fail e) (fail e)
  Same-fail e = record { at = λ p. refl }

  pub Same-if :
      (b : Bool) (m m' : M B) (n n' : M A)
      → Same g m n
      → Same g m' n'
      → Same g (if b then m else m') (if b then n else n')
  Same-if true m m' n n' h h' = h
  Same-if false m m' n n' h h' = h'

module _ {ℓ κ ℓ' κ'} {A : Type ℓ} {B : Type κ} {A' : Type ℓ'} {B' : Type κ'} {g : A → B}
    {g' : A' → B'} where
  bind-map :
      (r : Outcome (A × Parser)) (k : B → M B') (k' : A → M A')
      → ((a : A) → Same g' (k (g a)) (k' a))
      → bind (map_ok (on_result g) r) (λ r'. k r'.0 r'.1)
        ≡ map_ok (on_result g') (bind r (λ r'. k' r'.0 r'.1))
  bind-map (ok (a, p)) k k' h = (h a).at p
  bind-map (err e) k k' h = refl
  bind-map panicked k k' h = refl
  bind-map out_of_fuel k k' h = refl

  pub Same-bind :
      (m : M B) (k : B → M B') (n : M A) (k' : A → M A')
      → Same g m n
      → ((a : A) → Same g' (k (g a)) (k' a))
      → Same g' (m >>= k) (n >>= k')
  Same-bind m k n k' h hk = record { at = λ p. rw (h.at p) (bind-map (n p) k k' hk) }

map_ok-id {ℓ} : {A : Type ℓ} (r : Outcome (A × Parser)) → r ≡ map_ok (on_result (λ a. a)) r
map_ok-id (ok (a, p)) = refl
map_ok-id (err e) = refl
map_ok-id panicked = refl
map_ok-id out_of_fuel = refl

-- Both packages begin with the same method.
pub Same-first {ℓ ℓ' κ'} :
    {A : Type ℓ} {A' : Type ℓ'} {B' : Type κ'} {g' : A' → B'} (m : M A) (k : A → M B')
    (k' : A → M A')
    → ((a : A) → Same g' (k a) (k' a))
    → Same g' (m >>= k) (m >>= k')
Same-first m k k' h = Same-bind {g = λ a. a} m k m k' (record { at = λ p. map_ok-id (m p) }) h
