-- ===== src/Log/Users/Rules.antt =====
-- When two runs of logging code cannot be told apart: from alike worlds both have the same result, and
-- leave alike worlds.
use go_backend_examples.Common.{
  ℕ, ◌≡◌, refl, ap, sym, subst, String, Option, none, some, List, [], ◌∷◌, ◌++◌, append_assoc,
  Bytes,
}
use go_backend_examples.Action.{Action, Result, ok, err, wrap_result, wrapped, continue}
use go_backend_examples.Action
use go_backend_examples.Log.Value.{Value, Attrs, no_attrs, attr, append_attrs}
use go_backend_examples.Log.Bag.Public.{SameLines}
use go_backend_examples.Log.Multiline.{
  Format, Record, MultilineTextHandler, flatten_attr, flatten_attrs, write_attrs, all_attrs, handle,
  request_id, add_request_id, handle_with_id,
}

module _ {W : Type 0} (R : W → W → Type 0) where
  abbrev pub Alike : {A : Type 0} → (W → A × W) → (W → A × W) → Type 0
  Alike m n = (v w : W) → R v w → ((m v).0 ≡ (n w).0) × R (m v).1 (n w).1

  continue-Alike :
      (r : Result (Unit {0})) (n n' : Action W (Unit {0}))
      → Alike n n'
      → Alike (continue r λ _. n) (continue r λ _. n')
  continue-Alike (ok u) n n' h = h
  continue-Alike (err e) n n' h = λ v w s. (refl, s)

  then-Alike :
      (m m' n n' : Action W (Unit {0}))
      → Alike m m'
      → Alike n n'
      → Alike (Action.◌>>◌ m n) (Action.◌>>◌ m' n')
  then-Alike m m' n n' h k v w s =
      let (e, t) = h v w s in
      subst
        (λ r.
          ((continue (m v).0 (λ _. n) (m v).1).0 ≡ (continue r (λ _. n') (m' w).1).0)
          × R (continue (m v).0 (λ _. n) (m v).1).1 (continue r (λ _. n') (m' w).1).1)
        e (continue-Alike (m v).0 n n' k (m v).1 (m' w).1 t)

  wrapped-Alike :
      (s : String) (m n : Action W (Unit {0})) → Alike m n → Alike (wrapped s m) (wrapped s n)
  wrapped-Alike s m n h v w t = let (e, u) = h v w t in (ap (wrap_result s) e, u)

  module _ (format : Format) (write : Bytes → Action W (Unit {0}))
      (law : (s : Bytes) → Alike (write s) (write s)) where
    write_attrs-Alike :
        (xs : List (Bytes × Value))
        → Alike (write_attrs format write xs) (write_attrs format write xs)
    unfolding write_attrs
    write_attrs-Alike [] = λ v w s. (refl, s)
    write_attrs-Alike (x ∷ xs) =
        then-Alike _ _ _ _ (wrapped-Alike _ _ _ (law _)) (write_attrs-Alike xs)

    handle_with_id-Alike :
        (id : Option Bytes) (h : MultilineTextHandler) (r : Record)
        → Alike (handle_with_id format write id h r) (handle_with_id format write id h r)
    unfolding handle_with_id handle
    handle_with_id-Alike id h r = wrapped-Alike _ _ _ (
        then-Alike _ _ _ _
          (write_attrs-Alike
            (flatten_attrs h.groups (all_attrs h (add_request_id (request_id id) r))))
          (wrapped-Alike _ _ _ (law _)))

flatten-append_attrs :
    (groups : List Bytes) (xs ys : Attrs)
    → flatten_attrs groups (append_attrs xs ys) ≡ flatten_attrs groups xs ++ flatten_attrs groups ys
unfolding flatten_attrs
flatten-append_attrs groups no_attrs ys = refl
flatten-append_attrs groups (attr k v xs) ys = rw (flatten-append_attrs groups xs ys) (
    sym
      (append_assoc (flatten_attr groups k v) (flatten_attrs groups xs) (flatten_attrs groups ys)))

pub attr-SameLines :
    (k : Bytes) (u v : Value) (xs ys : Attrs)
    → ((groups : List Bytes) → flatten_attr groups k u ≡ flatten_attr groups k v)
    → SameLines xs ys
    → SameLines (attr k u xs) (attr k v ys)
unfolding flatten_attrs
attr-SameLines k u v xs ys e h groups = rw (e groups, h groups)

pub append-SameLines :
    (xs ys us vs : Attrs)
    → SameLines xs ys
    → SameLines us vs
    → SameLines (append_attrs xs us) (append_attrs ys vs)
append-SameLines xs ys us vs h k groups =
    rw (flatten-append_attrs groups xs us, flatten-append_attrs groups ys vs, h groups, k groups)

abbrev pub record_with : ℕ → Bytes → Bytes → Attrs → Record
record_with t level msg xs = record { created = t; level = level; message = msg; attributes = xs }

same_attrs :
    (h : MultilineTextHandler) (id : Option Bytes) (t : ℕ) (level msg : Bytes) (xs ys : Attrs)
    → SameLines xs ys
    → SameLines
        (all_attrs h (add_request_id id (record_with t level msg xs)))
        (all_attrs h (add_request_id id (record_with t level msg ys)))
same_attrs h none t level msg xs ys e =
    attr-SameLines _ _ _ _ _ (λ gs. refl)
      (attr-SameLines _ _ _ _ _ (λ gs. refl)
        (attr-SameLines _ _ _ _ _ (λ gs. refl) (append-SameLines h.own h.own xs ys (λ gs. refl) e)))
same_attrs h (some s) t level msg xs ys e =
    attr-SameLines _ _ _ _ _ (λ gs. refl)
      (attr-SameLines _ _ _ _ _ (λ gs. refl)
        (attr-SameLines _ _ _ _ _ (λ gs. refl)
          (append-SameLines h.own h.own _ _ (λ gs. refl)
            (append-SameLines xs ys _ _ e (λ gs. refl)))))

module _ (format : Format) {W : Type 0} (write : Bytes → Action W (Unit {0})) where
  same_handled :
      (id : Option Bytes) (h : MultilineTextHandler) (t : ℕ) (level msg : Bytes) (xs ys : Attrs)
      → SameLines xs ys
      → handle_with_id format write id h (record_with t level msg xs)
        ≡ handle_with_id format write id h (record_with t level msg ys)
  unfolding handle_with_id handle
  same_handled id h t level msg xs ys e =
      rw (same_attrs h (request_id id) t level msg xs ys e h.groups)

  -- Attributes that are written alike are logged alike.
  pub handled-SameLines :
      (R : W → W → Type 0)
      → ((s : Bytes) → Alike R (write s) (write s))
      → (id : Option Bytes) (h : MultilineTextHandler) (t : ℕ) (level msg : Bytes) (xs ys : Attrs)
      → SameLines xs ys
      → Alike R
          (handle_with_id format write id h (record_with t level msg xs))
          (handle_with_id format write id h (record_with t level msg ys))
  handled-SameLines R law id h t level msg xs ys e =
      subst (λ m. Alike R (handle_with_id format write id h (record_with t level msg xs)) m)
        (same_handled id h t level msg xs ys e)
        (handle_with_id-Alike R format write law id h (record_with t level msg xs))
