-- ===== src/Patch/Serves.antt =====
-- How the program of the optional example ends, and on which database it serves.
use go_backend_examples.Common.{
  ℕ, ◌==◌, if◌then◌else◌, String, ◌≡◌, refl, ◌∙◌, ap, Option, none, some, ℤ, pos, [], ◌∷◌, Bytes,
  codes, arith,
}
use go_backend_examples.Action.{
  GoError, wrap, Result, ok, err, deferred, continue, wrap_result, ◌>>◌,
}
use go_backend_examples.Strconv.{format_int}
use go_backend_examples.Patch.{User, user_body}
use go_backend_examples.Patch.Store.{get_user}
use go_backend_examples.Patch.Kept.{IsTable, shown, get_user-users}
use go_backend_examples.Patch.Program.{
  Infra, create_table, insert_alice, seed, register_routes, print_hints, serve, run_on_pool,
  terminated, run_in_container, run,
}

-- A text behind a prefix.
unfoldable behind : Bytes → Bytes → Option Bytes
behind [] s = some s
behind (p ∷ ps) [] = none
behind (p ∷ ps) (c ∷ s) = let rest = behind ps s in if p == c then rest else none

abbrev grown : ℕ → Option (Bytes × Bytes) → Option (Bytes × Bytes)
grown c none = none
grown c (some (s, rest)) = some (c ∷ s, rest)

-- A literal of SQL from behind its first quote, and what is behind its last.
unfoldable literal : Bytes → Option (Bytes × Bytes)
literal [] = none
literal (c ∷ s) = let rest = literal s in if c == b'\'' then some ([], s) else grown c rest

abbrev and_then : {A B : Type 0} → Option A → (A → Option B) → Option B
and_then none k = none
and_then (some a) k = k a

-- The name and the bio of a statement that inserts one user. A literal with a quote in it is none.
unfoldable pub insert_values : Bytes → Option (Bytes × Bytes)
unfolding behind literal
insert_values s =
    and_then (behind (codes "\n\t\tINSERT INTO users (name, bio) VALUES\n\t\t\t('") s) λ first.
      and_then (literal first) λ name. and_then (behind (codes ", '") name.1) λ second.
        and_then (literal second)
          λ bio. and_then (behind (codes ");\n\t") bio.1) λ end. some (name.0, bio.0)

-- The user that the statement for a name and a bio leaves as the first.
abbrev pub IsFirst : Bytes → Bytes → User → Type 0
IsFirst name bio u = (u.user_id ≡ pos 1) × (codes u.name ≡ name) × (u.bio ≡ some bio)

module _ {W Container Pool Row : Type 0} (env : Infra W Container Pool Row)
    (users : W → ℤ → Option User) (IsUp IsFresh : W → Type 0) where
  -- What the program relies on: every pool reads and writes the table; CREATE TABLE leaves a table
  -- without rows, the ids of which start from 1 (`IsFresh`); an INSERT of one user into such a table
  -- makes it the user 1, and the database answers; and printing touches neither.
  pub record IsSetup : Type 0 where
    pub table : (p : Pool) → IsTable (env.query_row p) env.scan users IsUp
    pub created : (p : Pool) (w w₁ : W) → env.exec p create_table w ≡ (ok tt, w₁) → IsFresh w₁
    pub inserted :
        (p : Pool) (sql : String) (name bio : Bytes) (w w₁ : W)
        → insert_values (codes sql) ≡ some (name, bio)
        → IsFresh w
        → env.exec p sql w ≡ (ok tt, w₁)
        → ((u : User) × (users w₁ (pos 1) ≡ some u) × IsFirst name bio u) × IsUp w₁
    pub printed :
        (s : String) (w : W)
        → IsUp w
        → ((n : ℤ) → users (env.println s w) n ≡ users w n) × IsUp (env.println s w)

  -- From `w` on, the container `c` starts, and then the pool `p` is connected to it, in the world `v`.
  abbrev pub Connects : W → Container → Pool → W → Type 0
  Connects w c p v =
      (w₁ : W) × (dsn : String) × (v₁ : W) × (env.run_container w ≡ (ok c, w₁))
      × (env.connection_string c w₁ ≡ (ok dsn, v₁))
      × (env.new_pool dsn v₁ ≡ (ok p, v))

  -- What the deferred calls leave of an outcome: the pool is closed, then the container terminated.
  abbrev pub closed : Container → Pool → Result (Unit {0}) × W → Result (Unit {0}) × W
  closed c p o = (o.0, terminated env c (env.close_pool p o.1))

  -- `Serves w o`: from the world `w` on, the program ends as `o`, by the first call that fails, or by
  -- serving in a world in which a GET of the user 1 shows Alice with the original bio.
  pub data Serves : W → Result (Unit {0}) × W → Type 0 where
    not_started :
        {w w₁ : W} {e : GoError}
        → env.run_container w ≡ (err e, w₁)
        → Serves w (err (wrap "run postgres container" e), w₁)
    no_address :
        {w w₁ w₂ : W} {c : Container} {e : GoError}
        → env.run_container w ≡ (ok c, w₁)
        → env.connection_string c w₁ ≡ (err e, w₂)
        → Serves w (err (wrap "postgres connection string" e), terminated env c w₂)
    not_connected :
        {w w₁ w₂ w₃ : W} {c : Container} {dsn : String} {e : GoError}
        → env.run_container w ≡ (ok c, w₁)
        → env.connection_string c w₁ ≡ (ok dsn, w₂)
        → env.new_pool dsn w₂ ≡ (err e, w₃)
        → Serves w (err (wrap "connect postgres" e), terminated env c w₃)
    not_migrated :
        {w v v₁ : W} {c : Container} {p : Pool} {e : GoError}
        → Connects w c p v
        → env.exec p create_table v ≡ (err e, v₁)
        → Serves w (closed c p (err (wrap "migrate optional example" e), v₁))
    not_seeded :
        {w v v₁ v₂ : W} {c : Container} {p : Pool} {e : GoError}
        → Connects w c p v
        → env.exec p create_table v ≡ (ok tt, v₁)
        → env.exec p insert_alice v₁ ≡ (err e, v₂)
        → Serves w (closed c p (err (wrap "seed optional example" e), v₂))
    served :
        {w v v₁ v₂ v₃ : W} {c : Container} {p : Pool} {r : Result (Unit {0})} (u : User)
        → Connects w c p v
        → env.exec p create_table v ≡ (ok tt, v₁)
        → env.exec p insert_alice v₁ ≡ (ok tt, v₂)
        → IsFirst (codes "Alice") (codes "original bio") u
        → (get_user (env.query_row p) env.scan (format_int (pos 1)) (print_hints env v₂)).0
          ≡ (200, user_body u)
        → env.listen_and_serve (register_routes env p) (print_hints env v₂) ≡ (r, v₃)
        → Serves w (closed c p (wrap_result "listen and serve" r, v₃))

  module _ (laws : IsSetup) where
    -- A world with the user 1, behind a printed line.
    abbrev Has : User → W → Type 0
    Has u w = (users w (pos 1) ≡ some u) × IsUp w

    module _ (u : User) where
      Has-println : (s : String) (w : W) → Has u w → Has u (env.println s w)
      Has-println s w (here, up) =
          let (same, still) = laws.printed s w up in (same (pos 1) ∙ here, still)

      Has-print_hints : (w : W) → Has u w → Has u (print_hints env w)
      Has-print_hints w h =
          Has-println _ _ (Has-println _ _ (Has-println _ _ (Has-println "try:" w h)))

      shows :
          (p : Pool) (w : W)
          → Has u w
          → (get_user (env.query_row p) env.scan (format_int (pos 1)) w).0 ≡ (200, user_body u)
      shows p w (here, up) =
          get_user-users (env.query_row p) env.scan users IsUp (laws.table p) (pos 1) w
            (omega arith) up
          ∙ ap shown here

    module _ (w v : W) (c : Container) (p : Pool) (connected : Connects w c p v) where
      after_seed :
          (v₁ v₂ : W) (r : Result (Unit {0}))
          → env.exec p create_table v ≡ (ok tt, v₁)
          → env.exec p insert_alice v₁ ≡ (r, v₂)
          → Serves w
              (closed c p (continue (wrap_result "seed optional example" r) (λ _. serve env p) v₂))
      unfolding insert_values behind literal
      after_seed v₁ v₂ (err e) h k = not_seeded connected h k
      after_seed v₁ v₂ (ok x) h k =
          let ((u, here, first), up) =
            laws.inserted p insert_alice (codes "Alice") (codes "original bio") v₁ v₂ refl
              (laws.created p v v₁ h) k in
          served u connected h k first (shows u p _ (Has-print_hints u v₂ (here, up))) refl

      after_migrate :
          (v₁ : W) (r : Result (Unit {0}))
          → env.exec p create_table v ≡ (r, v₁)
          → Serves w (
              closed c p (
                continue
                  (wrap_result "migrate optional example" r)
                  (λ _. seed env p >> serve env p)
                  v₁))
      after_migrate v₁ (err e) h = not_migrated connected h
      after_migrate v₁ (ok x) h =
          after_seed v₁ (env.exec p insert_alice v₁).1 (env.exec p insert_alice v₁).0 h refl

    module _ (w w₁ : W) (c : Container) (started : env.run_container w ≡ (ok c, w₁)) where
      -- The end behind a pool, or none.
      abbrev on_pool : Result Pool → W → Result (Unit {0}) × W
      on_pool r v =
          let (r', w') =
            continue {B = Unit {0}} r
              (λ pool. deferred (env.close_pool pool) (run_on_pool env pool)) v in
          (r', terminated env c w')

      after_pool :
          (dsn : String) (v₁ v : W) (r : Result Pool)
          → env.connection_string c w₁ ≡ (ok dsn, v₁)
          → env.new_pool dsn v₁ ≡ (r, v)
          → Serves w (on_pool (wrap_result "connect postgres" r) v)
      after_pool dsn v₁ v (err e) h k = not_connected started h k
      after_pool dsn v₁ v (ok p) h k =
          after_migrate w v c p (w₁, dsn, v₁, started, h, k) (env.exec p create_table v).1
            (env.exec p create_table v).0 refl

      after_address :
          (r : Result String) (v₁ : W)
          → env.connection_string c w₁ ≡ (r, v₁)
          → Serves w (
              let (r', v) =
                continue
                  (wrap_result "postgres connection string" r)
                  (λ dsn w'.
                    let (p, v) = env.new_pool dsn w' in (wrap_result "connect postgres" p, v))
                  v₁ in
              on_pool r' v)
      after_address (err e) v₁ h = no_address started h
      after_address (ok dsn) v₁ h =
          after_pool dsn v₁ (env.new_pool dsn v₁).1 (env.new_pool dsn v₁).0 h refl

      in_container-Serves : Serves w (deferred (terminated env c) (run_in_container env c) w₁)
      in_container-Serves =
          after_address (env.connection_string c w₁).0 (env.connection_string c w₁).1 refl

    started-Serves :
        (w : W) (r : Result Container) (w₁ : W)
        → env.run_container w ≡ (r, w₁)
        → Serves w (
            continue
              (wrap_result "run postgres container" r)
              (λ c. deferred (terminated env c) (run_in_container env c))
              w₁)
    started-Serves w (ok c) w₁ h = in_container-Serves w w₁ c h
    started-Serves w (err e) w₁ h = not_started h

    -- The program, on a database as `IsSetup` says: it ends with the error, wrapped, of the first call
    -- that fails of the start of the container, its address, the connection, CREATE TABLE and INSERT,
    -- or it has done all five, prints its hints, serves its routes from a world in which a GET of the
    -- user 1 answers 200 with Alice and the original bio, and returns what the server returns, wrapped.
    -- In every end behind its start the container is terminated, after the close of the pool, if there
    -- is one.
    pub run-Serves : (w : W) → Serves w (run env w)
    run-Serves w = started-Serves w (env.run_container w).0 (env.run_container w).1 refl
