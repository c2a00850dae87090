-- ===== src/Tests/Program.antt =====
-- The program of optional on a table with one user.
use go_backend_examples.Common.{
  String, ◌≡◌, refl, ap, sym, ◌∙◌, pos, Bool, true, false, if◌then◌else◌, Option, none, some, Bytes,
  codes, eq_bytes, eq_bytes_iff,
}
use go_backend_examples.Action.{plain, wrap, Result, ok, err}
use go_backend_examples.Patch.{User}
use go_backend_examples.Patch.Store.{UserRow}
use go_backend_examples.Patch.Program.{Infra, run}
use go_backend_examples.Patch.Serves.{insert_values, IsFirst, IsSetup, Serves, run-Serves}
use go_backend_examples.Tests.Patches.{users, query_row, scan, table}
use go_backend_examples.Tests.Web.{unquote}

-- A database that takes users of the name Alice only; the server is closed at once.
abbrev executed : Option (Bytes × Bytes) → Option Bytes → Result (Unit {0}) × Option Bytes
executed none w = (ok tt, w)
executed (some (name, bio)) w =
    if eq_bytes name (codes "Alice") then (ok tt, some bio) else (err (plain "no Alice"), w)

abbrev infra : Infra (Option Bytes) String String (Option UserRow)
infra = record {
  run_container = λ w. (ok "container", w);
  terminate_container = λ c w. (none, w);
  connection_string = λ c w. (ok c, w);
  new_pool = λ dsn w. (ok dsn, w);
  close_pool = λ p w. w;
  exec = λ p sql w. executed (insert_values (codes sql)) w;
  query_row = λ p. query_row;
  scan = scan;
  decode = unquote;
  listen_and_serve = λ routes w. (err (plain "http: Server closed"), w);
  println = λ s w. w;
  printf = λ s e w. w;
}

executed-IsFirst :
    (name bio : Bytes) (w w₁ : Option Bytes)
    → executed (some (name, bio)) w ≡ (ok tt, w₁)
    → ((u : User) × (users w₁ (pos 1) ≡ some u) × IsFirst name bio u)
executed-IsFirst name bio w w₁ h = on_name (eq_bytes name (codes "Alice")) refl h
  where
    on_name :
        (b : Bool)
        → eq_bytes name (codes "Alice") ≡ b
        → ◌≡◌ {A = Result (Unit {0}) × Option Bytes}
            (if b then (ok tt, some bio) else (err (plain "no Alice"), w))
            (ok tt, w₁)
        → ((u : User) × (users w₁ (pos 1) ≡ some u) × IsFirst name bio u)
    on_name true e k =
        let u : User = record { user_id = pos 1; name = "Alice"; bio = some bio } in
        let here : users w₁ (pos 1) ≡ some u = ap (λ o. users o.1 (pos 1)) (sym k) in
        (u, here, (refl, sym ((eq_bytes_iff name (codes "Alice")).0 e), refl))
    on_name false e k = cc k

infra-IsSetup : IsSetup infra users (λ w. Unit) (λ w. Unit)
infra-IsSetup = record {
  table = λ p. table;
  created = λ p w w₁ h. tt;
  inserted = λ p sql name bio w w₁ e f h.
      (executed-IsFirst name bio w w₁ (ap (λ o. executed o w) (sym e) ∙ h), tt);
  printed = λ s w up. ((λ n. refl), tt);
}

closed_server : (run infra none).0 ≡ err (wrap "listen and serve" (plain "http: Server closed"))
unfolding insert_values eq_bytes
closed_server = refl

run-Serves_example : Serves infra users (λ w. Unit) (λ w. Unit) none (run infra none)
run-Serves_example = run-Serves infra users (λ w. Unit) (λ w. Unit) infra-IsSetup none
