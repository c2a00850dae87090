-- ===== src/Log/Multiline/Lines.antt =====
-- What the handler writes.
use mathlib.Core.List.{map-append}
use go_backend_examples.Common.{
  String, subst, ◌≡◌, refl, ap, ◌∙◌, sym, List, [], ◌∷◌, ◌++◌, map, append_assoc, append-nil, Bytes,
  codes,
}
use go_backend_examples.Action.{Action, Result, ok, continue, wrapped, wrap_result, ◌>>◌}
use go_backend_examples.Log.Value.{Value, group, log_valuer, Attrs, no_attrs, attr}
use go_backend_examples.Log.Multiline.{
  Format, Record, MultilineTextHandler, join, flatten_attr, flatten_attrs, line_of, all_attrs,
  write_attrs, handle,
}

abbrev pub under : Bytes → List Bytes × Value → List Bytes × Value
under key (path, v) = (key ∷ path, v)

-- The leaves of attributes, each with the path of the keys that lead to it; a LogValuer stands for what
-- it returns.
mutual
  pub leaves_of : Value → List (List Bytes × Value)
  leaves_of (log_valuer o v) = leaves_of v
  leaves_of (group xs) = leaves xs
  leaves_of v = ([], v) ∷ []

  pub leaves : Attrs → List (List Bytes × Value)
  leaves no_attrs = []
  leaves (attr k v xs) = map (under k) (leaves_of v) ++ leaves xs

abbrev pub qualified : List Bytes → List Bytes × Value → Bytes × Value
qualified groups (path, v) = (join (groups ++ path), v)

qualified-under :
    (groups : List Bytes) (key : Bytes) (xs : List (List Bytes × Value))
    → map (qualified (groups ++ (key ∷ []))) xs ≡ map (qualified groups) (map (under key) xs)
qualified-under groups key [] = refl
qualified-under groups key ((path, v) ∷ xs) =
    rw (append_assoc groups (key ∷ []) path, qualified-under groups key xs)

mutual
  unfolding flatten_attr leaves_of

  flatten_attr-leaves :
      (groups : List Bytes) (key : Bytes) (v : Value)
      → flatten_attr groups key v ≡ map (qualified groups) (map (under key) (leaves_of v))
  flatten_attr-leaves groups key (log_valuer o v) = flatten_attr-leaves groups key v
  flatten_attr-leaves groups key (group xs) =
      flatten_attrs-leaves (groups ++ (key ∷ [])) xs ∙ qualified-under groups key (leaves xs)
  flatten_attr-leaves groups key v = refl

  flatten_attrs-leaves :
      (groups : List Bytes) (xs : Attrs)
      → flatten_attrs groups xs ≡ map (qualified groups) (leaves xs)
  flatten_attrs-leaves groups no_attrs = refl
  flatten_attrs-leaves groups (attr k v xs) =
      rw (flatten_attr-leaves groups k v, flatten_attrs-leaves groups xs)
        (sym (map-append (qualified groups) (map (under k) (leaves_of v)) (leaves xs)))

module _ (format : Format) {W : Type 0} (write : Bytes → Action W (Unit {0}))
    (out : W → Bytes) where
  -- A writer that accepts all and keeps what it is given in `out`.
  abbrev pub Accepts : Type 0
  Accepts = (s : Bytes) (w : W) → ((write s w).0 ≡ ok tt) × (out (write s w).1 ≡ out w ++ s)

  abbrev pub text_of : List (Bytes × Value) → Bytes
  text_of [] = []
  text_of (a ∷ rest) = line_of format a ++ text_of rest

  abbrev Writes : Bytes → W → Result (Unit {0}) × W → Type 0
  Writes s w o = (o.0 ≡ ok tt) × (out o.1 ≡ out w ++ s)

  then-Writes :
      (s t : Bytes) (m n : Action W (Unit {0})) (w : W)
      → Writes s w (m w)
      → Writes t (m w).1 (n (m w).1)
      → Writes (s ++ t) w ((m >> n) w)
  then-Writes s t m n w (done, wrote) (done', wrote') =
      subst (λ r. Writes (s ++ t) w (continue r (λ _. n) (m w).1)) (sym done)
        (done', wrote' ∙ ap (λ o. o ++ t) wrote ∙ append_assoc (out w) s t)

  wrapped-Writes :
      (what : String) (t : Bytes) (m : Action W (Unit {0})) (w : W)
      → Writes t w (m w)
      → Writes t w (wrapped what m w)
  wrapped-Writes what t m w (done, wrote) = (ap (wrap_result what) done, wrote)

  write_attrs-Writes :
      (xs : List (Bytes × Value)) (w : W)
      → Accepts
      → Writes (text_of xs) w (write_attrs format write xs w)
  unfolding write_attrs
  write_attrs-Writes [] w law = (refl, sym (append-nil (out w)))
  write_attrs-Writes (a ∷ xs) w law =
      then-Writes (line_of format a) (text_of xs)
        (wrapped "write log attr" (write (line_of format a))) (write_attrs format write xs) w
        (wrapped-Writes "write log attr" (line_of format a) (write (line_of format a)) w
          (law (line_of format a) w))
        (write_attrs-Writes xs _ law)

  -- On a writer that accepts all, Handle succeeds and writes one line for each leaf of the record's time,
  -- level, message, the handler's attributes and the record's, in this order, and then an empty line.
  -- The key of every line, those of the time, the level and the message included, is the path of keys
  -- to the leaf behind all of the handler's groups.
  pub handle_text :
      (h : MultilineTextHandler) (r : Record) (w : W)
      → Accepts
      → ((handle format write h r w).0 ≡ ok tt)
        × (out (handle format write h r w).1
            ≡ out w ++ (text_of (map (qualified h.groups) (leaves (all_attrs h r))) ++ codes "\n"))
  unfolding handle
  handle_text h r w law = rw (flatten_attrs-leaves h.groups (all_attrs h r)) (
      then-Writes (text_of (map (qualified h.groups) (leaves (all_attrs h r)))) (codes "\n")
        (write_attrs format write (map (qualified h.groups) (leaves (all_attrs h r))))
        (wrapped "write log record separator" (write (codes "\n"))) w (write_attrs-Writes _ w law)
        (wrapped-Writes "write log record separator" (codes "\n") (write (codes "\n")) _
          (law (codes "\n") _)))
