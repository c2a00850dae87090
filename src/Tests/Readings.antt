-- ===== src/Tests/Readings.antt =====
-- The reads of pgx-transactions on a database in memory.
use go_backend_examples.Common.{
  ℕ, String, ◌≡◌, refl, List, [], ◌∷◌, Option, none, some, true, ◌==◌, if◌then◌else◌, arith,
}
use go_backend_examples.Action.{ok}
use go_backend_examples.Pgx.Tx.{Arg, id, text, texts, Context}
use go_backend_examples.Pgx.Users.{CreateUserWithProfileInput}
use go_backend_examples.Pgx.Reads.{DbUser, DbProfile, Queries}
use go_backend_examples.Pgx.Reads.Visible.{Tables, exactly_one}
use go_backend_examples.Tests.Memory.{World}

record Rows : Type 0 where
  users : List DbUser
  profiles : List DbProfile

abbrev insert : String → List Arg → Rows → Rows
insert sql (id n ∷ text a ∷ text b ∷ []) rows = record {
  users = record { id = n; username = a; password = b } ∷ rows.users;
  profiles = rows.profiles;
}
insert sql (id n ∷ text a ∷ text b ∷ texts c ∷ []) rows = record {
  users = rows.users;
  profiles =
      record { user_id = n; description = a; contact = b; social_media_links = c } ∷ rows.profiles;
}
insert sql _ rows = rows

abbrev find_user : ℕ → List DbUser → Option DbUser
find_user n [] = none
find_user n (u ∷ us) = if n == u.id then some u else find_user n us

abbrev find_profile : ℕ → List DbProfile → Option DbProfile
find_profile n [] = none
find_profile n (p ∷ ps) = if n == p.user_id then some p else find_profile n ps

==_same : (n : ℕ) → (n == n) ≡ true
==_same n = ground arith

abbrev tables : Tables insert
tables = record {
  find_user = λ n rows. find_user n rows.users;
  find_profile = λ n rows. find_profile n rows.profiles;
  user_inserted = λ u s. rw (==_same u.user_id);
  user_kept = λ n p s. refl;
  profile_inserted = λ p s. rw (==_same p.owner_id);
}

-- What a query finds: the rows of both tables with the id that it asks for.
record Found : Type 0 where
  user : Option DbUser
  profile : Option DbProfile

abbrev look : List Arg → Rows → Found
look (id n ∷ []) rows = record {
  user = find_user n rows.users;
  profile = find_profile n rows.profiles;
}
look _ rows = record { user = none; profile = none }

abbrev queries : Queries (World Rows) (Unit {0}) Found Found
queries = record {
  pool_query = λ sql args w. (ok (look args w.rows), w);
  tx_query = λ tx sql args w. (ok (look args w.open_rows), w);
  pool_query_row = λ sql args w. (look args w.rows, w);
  tx_query_row = λ tx sql args w. (look args w.open_rows, w);
  collect_user = λ found w. (exactly_one found.user, w);
  collect_profile = λ found w. (exactly_one found.profile, w);
}

abbrev background : Context (Unit {0})
background = record { tx = none }

abbrev empty : World Rows
empty = record {
  rows = record { users = []; profiles = [] };
  open_rows = record { users = []; profiles = [] };
  next = 7;
}

abbrev alice : CreateUserWithProfileInput
alice = record {
  username = "alice";
  password = "secret";
  description = "";
  contact = "";
  social_media_links = "https://example.com" ∷ [];
}

abbrev rows_of_alice : Rows
rows_of_alice = record {
  users = record { id = 7; username = "alice"; password = "secret" } ∷ [];
  profiles =
      record {
        user_id = 7;
        description = "";
        contact = "";
        social_media_links = "https://example.com" ∷ [];
      }
      ∷ [];
}

abbrev created : World Rows
created = record { rows = rows_of_alice; open_rows = rows_of_alice; next = 8 }
