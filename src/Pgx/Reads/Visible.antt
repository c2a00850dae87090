-- ===== src/Pgx/Reads/Visible.antt =====
-- What the repositories read: the row that a context sees.
use go_backend_examples.Common.{ℕ, String, ◌≡◌, refl, List, [], ◌∷◌, Option, none, some}
use go_backend_examples.Action.{
  plain, wrap, Result, ok, err, Action, pure, continue, wrapped, wrap_result, ◌>>=◌,
}
use go_backend_examples.Pgx.Tx.{Arg, id, Context}
use go_backend_examples.Pgx.Tx.Atomic.{Database}
use go_backend_examples.Pgx.Users.{
  User, Profile, insert_user, user_args, insert_profile, profile_args,
}
use go_backend_examples.Pgx.Reads.{
  DbUser, DbProfile, user_to_domain, profile_to_domain, select_user, select_profile, Queries,
  query_of, context_query, get_by_id, get_by_user_id,
}

abbrev pub row_of_user : User → DbUser
row_of_user u = record { id = u.user_id; username = u.username; password = u.password }

abbrev pub row_of_profile : Profile → DbProfile
row_of_profile p = record {
  user_id = p.owner_id;
  description = p.description;
  contact = p.contact;
  social_media_links = p.social_media_links;
}

-- pgx.CollectExactlyOneRow, from the row that the primary key selects: pgx.ErrNoRows without one.
abbrev pub exactly_one : {A : Type 0} → Option A → Result A
exactly_one none = err (plain "no rows in result set")
exactly_one (some a) = ok a

-- The tables: the row with a given primary key. A statement that inserts a row adds it.
pub record Tables {S : Type 0} (effect : String → List Arg → S → S) : Type 0 where
  pub find_user : ℕ → S → Option DbUser
  pub find_profile : ℕ → S → Option DbProfile
  pub user_inserted :
      (u : User) (s : S)
      → find_user u.user_id (effect insert_user (user_args u) s) ≡ some (row_of_user u)
  pub user_kept :
      (n : ℕ) (p : Profile) (s : S)
      → find_user n (effect insert_profile (profile_args p) s) ≡ find_user n s
  pub profile_inserted :
      (p : Profile) (s : S)
      → find_profile p.owner_id (effect insert_profile (profile_args p) s) ≡ some (row_of_profile p)

-- What a repository answers on the row of an id.
abbrev pub read_as : {A B : Type 0} → String → (A → B) → Option A → Result B
read_as s to_domain none = err (wrap s (plain "no rows in result set"))
read_as s to_domain (some a) = ok (to_domain a)

module _ {W Tx Rows Row S : Type 0} (q : Queries W Tx Rows Row) (db : Database W Tx S)
    {effect : String → List Arg → S → S} (tables : Tables effect) (IsUp : W → Type 0) where
  -- While the database answers (`IsUp`), a SELECT by the primary key returns the row in the state that
  -- the query sees, and changes nothing of it.
  abbrev Selects :
      {A : Type 0}
      → (String → List Arg → Action W Rows)
      → (Rows → Action W A)
      → String
      → (ℕ → S → Option A)
      → (W → S)
      → Type 0
  Selects query collect sql find state =
      (n : ℕ) (w : W)
      → IsUp w
      → (rows : Rows) × (w₁ : W) × (w₂ : W) × (query sql (id n ∷ []) w ≡ (ok rows, w₁))
        × (collect rows w₁ ≡ (exactly_one (find n (state w)), w₂))
        × (state w₂ ≡ state w)
        × IsUp w₂

  -- The state that a query in a context sees.
  abbrev visible_of : Option Tx → W → S
  visible_of none = db.committed
  visible_of (some tx) = db.view tx

  abbrev pub visible : Context Tx → W → S
  visible ctx = visible_of ctx.tx

  pub record IsReadable : Type 0 where
    pub pool_user : Selects q.pool_query q.collect_user select_user tables.find_user db.committed
    pub tx_user :
        (tx : Tx) → Selects (q.tx_query tx) q.collect_user select_user tables.find_user (db.view tx)
    pub pool_profile :
        Selects q.pool_query q.collect_profile select_profile tables.find_profile db.committed
    pub tx_profile :
        (tx : Tx)
        → Selects (q.tx_query tx) q.collect_profile select_profile tables.find_profile (db.view tx)

  query_of-user :
      IsReadable
      → (t : Option Tx)
      → Selects (query_of q t) q.collect_user select_user tables.find_user (visible_of t)
  query_of-user laws none = laws.pool_user
  query_of-user laws (some tx) = laws.tx_user tx

  query_of-profile :
      IsReadable
      → (t : Option Tx)
      → Selects (query_of q t) q.collect_profile select_profile tables.find_profile (visible_of t)
  query_of-profile laws none = laws.pool_profile
  query_of-profile laws (some tx) = laws.tx_profile tx

  -- A read of the form of both repositories.
  abbrev Reads : {B : Type 0} → Action W B → (W → S) → Result B → W → Type 0
  Reads m state r w = ((m w).0 ≡ r) × (state (m w).1 ≡ state w) × IsUp (m w).1

  collected :
      {A B : Type 0} (s : String) (to_domain : A → B) (o : Option A) (w w₂ : W) (state : W → S)
      → state w₂ ≡ state w
      → IsUp w₂
      → Reads
          (λ _. continue (wrap_result s (exactly_one o)) (λ a. pure (to_domain a)) w₂)
          state
          (read_as s to_domain o)
          w
  collected s to_domain none w w₂ state same up = (refl, same, up)
  collected s to_domain (some a) w w₂ state same up = (refl, same, up)

  select-Reads :
      {A B : Type 0} (query : String → List Arg → Action W Rows) (collect : Rows → Action W A)
      (sql s t u : String) (find : ℕ → S → Option A) (state : W → S) (to_domain : A → B) (n : ℕ)
      (w : W)
      → Selects query collect sql find state
      → IsUp w
      → Reads
          (wrapped t (wrapped s (query sql (id n ∷ [])))
            >>= (λ rows. wrapped u (collect rows))
            >>= λ a. pure (to_domain a))
          state
          (read_as u to_domain (find n (state w)))
          w
  select-Reads query collect sql s t u find state to_domain n w h up =
      let (rows, w₁, w₂, e, f, same, still) = h n w up in
      rw (e, f) (collected u to_domain (find n (state w)) w w₂ state same still)

  -- GetByID and GetByUserID of the repositories on the context executor, while the database answers as
  -- `IsReadable` says: in any context they return the row that the transaction of the context sees, or
  -- the committed one if the context has none, and an error if there is no row; they change nothing of
  -- that state.
  pub get_by_id-Reads :
      IsReadable
      → (ctx : Context Tx) (n : ℕ) (w : W) → IsUp w
      → Reads
          (get_by_id q (context_query q) ctx n)
          (visible ctx)
          (read_as "collect user by id" user_to_domain (tables.find_user n (visible ctx w)))
          w
        × Reads
            (get_by_user_id q (context_query q) ctx n)
            (visible ctx)
            (read_as "collect profile by user id" profile_to_domain
              (tables.find_profile n (visible ctx w)))
            w
  get_by_id-Reads laws ctx n w up = (
    select-Reads (query_of q ctx.tx) q.collect_user select_user "query postgres context executor"
        "query user by id" "collect user by id" tables.find_user (visible ctx) user_to_domain n w
        (query_of-user laws ctx.tx) up,
    select-Reads (query_of q ctx.tx) q.collect_profile select_profile
        "query postgres context executor" "query profile by user id" "collect profile by user id"
        tables.find_profile (visible ctx) profile_to_domain n w (query_of-profile laws ctx.tx) up,
  )
