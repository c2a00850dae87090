-- ===== src/Pgx/Reads/Found.antt =====
-- That what a service creates is found again.
use go_backend_examples.Common.{ℕ, none}
use go_backend_examples.Action.{Action, pure, ◌>>=◌}
use go_backend_examples.Pgx.Tx.{Context}
use go_backend_examples.Pgx.Users.{CreateUserWithProfileResult}
use go_backend_examples.Pgx.Reads.{Queries, context_query, get_by_id, get_by_user_id}

module _ {W Tx Rows Row : Type 0} (q : Queries W Tx Rows Row) where
  -- A context outside of every transaction.
  abbrev pub outside : Context Tx
  outside = record { tx = none }

  -- GetByID, and then GetByUserID with the same id.
  abbrev pub get_both : ℕ → Action W CreateUserWithProfileResult
  get_both n = get_by_id q (context_query q) outside n >>= λ user.
      get_by_user_id q (context_query q) outside n >>= λ profile.
      pure (record { user = user; profile = profile })
