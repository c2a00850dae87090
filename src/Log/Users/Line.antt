-- ===== src/Log/Users/Line.antt =====
-- What the canonical line of a request to create a user says of its end.
use go_backend_examples.Common.{
  ℕ, pos, ◌≡◌, refl, ap, ◌∙◌, sym, subst, Bool, true, false, inl, inr, ◌||◌, ◌⊎◌, Option, none,
  some, [], ◌∷◌, Bytes, codes, eq_bytes, insert, lookup-insert, lookup,
}
use go_backend_examples.HttpLog.{new_writer}
use go_backend_examples.Log.Value.{Value, text, int}
use go_backend_examples.Log.Bag.{Bag, new_bag, attrs}
use go_backend_examples.Log.Bag
use go_backend_examples.Log.Bag.Calls.{read}
use go_backend_examples.Log.Bag.Ascending.{is_some}
use go_backend_examples.Log.Multiline.{MultilineTextHandler, is_empty}
use go_backend_examples.Log.World.{Env, World, ◌>>=◌, ◌>>◌, outside, log, info, component}
use go_backend_examples.Log.Users.{Try, done, failed, CreateUserCommand, create}
use go_backend_examples.Log.Users.Outcome.{outcome_of}
use go_backend_examples.Log.Users.Status.{status, ToldOf, Told, create-Told}
use go_backend_examples.Log.Served.{canonical_line, context_id, serve}

-- What is told of a command in the world `v`; the Boolean says that one of its fields is empty.
abbrev pub EndOf : {D : Type 0} → Bool → World D → Type 0
EndOf true v = (status v ≡ 400) × (outcome_of v ≡ none)
EndOf false v =
    ((status v ≡ 201) × (outcome_of v ≡ some (text (codes "created"))))
    ⊎ ((status v ≡ 500) × (outcome_of v ≡ some (text (codes "failed"))))

-- What is told of a request.
abbrev pub End : {D : Type 0} → Try CreateUserCommand → World D → Type 0
End (failed e) v = (status v ≡ 500) × (outcome_of v ≡ none)
End (done c) v = EndOf (is_empty c.username || is_empty c.password) v

skipped :
    (j k : Bytes) (v : Value) (m : Bag)
    → eq_bytes k j ≡ false
    → lookup j (insert k v m) ≡ lookup j m
skipped j k v m e = lookup-insert j k v m ∙ rw e refl

taken : (j : Bytes) (v : Value) (m : Bag) → eq_bytes j j ≡ true → lookup j (insert j v m) ≡ some v
taken j v m e = lookup-insert j j v m ∙ rw e refl

-- The fields of the canonical middleware.
module _ (m p n k t : Value) where
  abbrev line_fields : Bag → Bag
  line_fields b = insert (codes "http.duration") t (
      insert (codes "http.response_bytes") k (
        insert (codes "http.status") n
          (insert (codes "http.path") p (insert (codes "http.method") m b))))

  line_fields-status : (b : Bag) → lookup (codes "http.status") (line_fields b) ≡ some n
  unfolding eq_bytes
  line_fields-status b =
      skipped (codes "http.status") (codes "http.duration") t _ refl
      ∙ skipped (codes "http.status") (codes "http.response_bytes") k _ refl
      ∙ taken (codes "http.status") n _ refl

  line_fields-outcome :
      (b : Bag)
      → lookup (codes "service.outcome") (line_fields b) ≡ lookup (codes "service.outcome") b
  unfolding eq_bytes
  line_fields-outcome b =
      skipped (codes "service.outcome") (codes "http.duration") t _ refl
      ∙ skipped (codes "service.outcome") (codes "http.response_bytes") k _ refl
      ∙ skipped (codes "service.outcome") (codes "http.status") n _ refl
      ∙ skipped (codes "service.outcome") (codes "http.path") p _ refl
      ∙ skipped (codes "service.outcome") (codes "http.method") m b refl

module _ {D : Type 0} (env : Env D) (h : MultilineTextHandler) where
  -- The world is what a last record, the canonical line with the fields of its bag, has left.
  abbrev pub EndsInLine : World D → Type 0
  EndsInLine v =
      (id : Option Bytes) × (u : World D) × (v
        ≡ (info env (component env (codes "http.canonical") h) id (codes "http/request")
            (attrs v.bag) u).1)

  -- The request under the canonical middleware, with its bag and its response.
  abbrev pub served : Bytes → Bytes → Bytes → Try CreateUserCommand → D → World D
  served header method path request d =
      ((do
        id ← context_id env h header
        started ← outside env.now
        create env h (some id) request
        canonical_line env h (some id) method path started)
        (record { outside = d; bag = some new_bag; writer = new_writer })).1

  module _ (id : Option Bytes) (method path : Bytes) (started : ℕ) where
    abbrev lined : World D → World D
    lined w = (canonical_line env h id method path started w).1

    lined-EndsInLine : (w : World D) → EndsInLine (lined w)
    unfolding canonical_line log
    lined-EndsInLine w = (id, _, refl)

    -- The canonical line adds the status, and leaves the response and the outcome.
    lined-status : (w : World D) → status (lined w) ≡ status w
    unfolding canonical_line log
    lined-status w = refl

    lined-some :
        (w : World D) (b : Bag)
        → w.bag ≡ some b
        → (read (codes "http.status") (lined w).bag ≡ some (int (pos (status w))))
          × (outcome_of (lined w) ≡ lookup (codes "service.outcome") b)
    unfolding canonical_line log Bag.set
    lined-some w b e = rw e (
      line_fields-status (text method) (text path) (int (pos (status w))) _ _ b,
      line_fields-outcome (text method) (text path) (int (pos (status w))) _ _ b,
    )

    lined-told :
        (w : World D) (b : Bag) (o : Option Value)
        → w.bag ≡ some b
        → outcome_of w ≡ o
        → (read (codes "http.status") (lined w).bag ≡ some (int (pos (status (lined w)))))
          × (outcome_of (lined w) ≡ o)
    lined-told w b o e f =
        let (told, same) = lined-some w b e in
        (
          told ∙ ap (λ n. some (int (pos n))) (sym (lined-status w)),
          same ∙ sym (ap (read (codes "service.outcome")) e) ∙ f,
        )

    lined-new :
        (w : World D)
        → w.bag ≡ some new_bag
        → (read (codes "http.status") (lined w).bag ≡ some (int (pos (status (lined w)))))
          × (outcome_of (lined w) ≡ none)
    unfolding lookup
    lined-new w e = lined-told w new_bag none e (ap (read (codes "service.outcome")) e)

    some-told :
        (o : Option Bag) (x : Value)
        → read (codes "service.outcome") o ≡ some x
        → (b : Bag) × (o ≡ some b)
    some-told none x e = cc e
    some-told (some b) x e = (b, refl)

    lined-set :
        (w : World D) (x : Value)
        → outcome_of w ≡ some x
        → (read (codes "http.status") (lined w).bag ≡ some (int (pos (status (lined w)))))
          × (outcome_of (lined w) ≡ some x)
    lined-set w x e = let (b, f) = some-told w.bag x e in lined-told w b (some x) f e

    abbrev Line : Type 0 → World D → Type 0
    Line A v = (read (codes "http.status") v.bag ≡ some (int (pos (status v)))) × A

    command-Line :
        (invalid : Bool) (w : World D)
        → ToldOf invalid (some new_bag) w
        → Line (EndOf invalid (lined w)) (lined w)
    command-Line true w (code, b) =
        let (told, o) = lined-new w b in (told, (lined-status w ∙ code, o))
    command-Line false w (inl (code, e)) =
        let (told, o) = lined-set w (text (codes "created")) e in
        (told, inl (lined-status w ∙ code, o))
    command-Line false w (inr (code, e)) =
        let (told, o) = lined-set w (text (codes "failed")) e in
        (told, inr (lined-status w ∙ code, o))

    request-Line :
        (request : Try CreateUserCommand) (w : World D)
        → Told request (some new_bag) w
        → Line (End request (lined w)) (lined w)
    request-Line (failed e) w (code, b) =
        let (told, o) = lined-new w b in (told, (lined-status w ∙ code, o))
    request-Line (done c) w t = command-Line (is_empty c.username || is_empty c.password) w t

  abbrev new_request : D → World D
  new_request d = record { outside = d; bag = some new_bag; writer = new_writer }

  context_id-new :
      (header : Bytes) (d : D)
      → ((context_id env h header (new_request d)).1.writer ≡ new_writer)
        × ((context_id env h header (new_request d)).1.bag ≡ some new_bag)
  context_id-new [] d = (refl, refl)
  context_id-new (c ∷ s) d = (refl, refl)

  create-new :
      (id : Option Bytes) (request : Try CreateUserCommand) (w : World D)
      → (w.writer ≡ new_writer) × (w.bag ≡ some new_bag)
      → Told request (some new_bag) (create env h id request w).1
  create-new id request w (p, e) =
      subst (λ b. Told request b (create env h id request w).1) e
        (create-Told env h id request w p (ap is_some e))

  -- A request to create a user under the canonical middleware, from a new bag and a new response
  -- writer, whatever the database and the connection do: its last record is the canonical line, with the
  -- fields of its bag, the field http.status of which is the status of the response. That status is 500
  -- for a body that is not decoded and 400 for an empty field, and the line has no outcome then. For any
  -- other command it is 201 and the line has the outcome "created", or it is 500 and the line has the
  -- outcome "failed", which includes a COUNT that fails behind a committed INSERT.
  pub serve-Line :
      (header method path : Bytes) (request : Try CreateUserCommand) (d : D)
      → let v = served header method path request d in
        (serve env h header method path request d ≡ v.outside)
        × EndsInLine v
        × (read (codes "http.status") v.bag ≡ some (int (pos (status v))))
        × End request v
  unfolding serve
  serve-Line header method path request d =
      let (id, w₁) = context_id env h header (new_request d) in
      let (started, w₂) = outside env.now w₁ in
      let w₃ = (create env h (some id) request w₂).1 in
      let (status, end) =
        request-Line (some id) method path started request w₃
          (create-new (some id) request w₂ (context_id-new header d)) in
      (refl, lined-EndsInLine (some id) method path started w₃, status, end)
