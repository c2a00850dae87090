-- ===== src/Metrics/Servers/Phases.antt =====
-- Where the threads of the metrics example stand together.
use mathlib.Core.List.{◌++◌}
use go_backend_examples.Common.{
  ℕ, ◌+◌, ◌-◌, ◌≤◌, String, ◌≡◌, ◌≢◌, refl, List, [], ◌∷◌, Option, none, some, subst, sym, arith,
  inl, inr, ◌⊎◌,
}
use go_backend_examples.Metrics.Servers.{
  Which, app, metrics, ServerPc, serving, closed, stopped, CloserPc, unborn, called, waiting, done,
  MainPc, await_signal, add_group, go_app, go_metrics, wait_group, returned, State, update,
  complete_line, broken, gave_up, logged, stopped_line, server_error, shutdown_error, closed_by,
}

abbrev pub done_count : CloserPc → ℕ
done_count done = 1
done_count _ = 0

abbrev pub IsBorn : CloserPc → Type 0
IsBorn unborn = ⊥
IsBorn _ = Unit

-- Where `main` stands, both shutdowns, and the counter of the group.
pub data Phase : MainPc → CloserPc → CloserPc → ℕ → Type 0 where
  before : Phase await_signal unborn unborn 0
  adding : Phase add_group unborn unborn 0
  spawning : Phase go_app unborn unborn 2
  half : {a : CloserPc} {g : ℕ} → IsBorn a → g + done_count a ≡ 2 → Phase go_metrics a unborn g
  both :
      {a m : CloserPc} {g : ℕ}
      → IsBorn a
      → IsBorn m
      → g + done_count a + done_count m ≡ 2
      → Phase wait_group a m g
  over_logged : Phase logged done done 0
  over : Phase returned done done 0

-- A server whose goroutine has not failed serves as long as its Shutdown has not been called.
pub data Half : ServerPc → CloserPc → Type 0 where
  up_unborn : Half serving unborn
  up_called : Half serving called
  closed_waiting : Half closed waiting
  closed_done : Half closed done
  stopped_waiting : Half stopped waiting
  stopped_done : Half stopped done
  closed_gave_up : Half closed gave_up
  stopped_gave_up : Half stopped gave_up
  broken_any : {b : CloserPc} → Half broken b

abbrev pub Logged : String → List String → Type 0
Logged line [] = ⊥
Logged line (x ∷ xs) = (x ≡ line) ⊎ Logged line xs

-- What the log holds of the threads that have written a line.
abbrev pub ServerTold : Which → ServerPc → List String → Type 0
ServerTold x stopped l = Logged (stopped_line x) l
ServerTold x broken l = Logged server_error l
ServerTold x _ l = Unit

abbrev pub CloserTold : CloserPc → List String → Type 0
CloserTold gave_up l = Logged shutdown_error l
CloserTold _ l = Unit

abbrev pub MainTold : MainPc → List String → Type 0
MainTold logged l = Logged complete_line l
MainTold returned l = Logged complete_line l
MainTold _ l = Unit

-- A goroutine in log.Fatalf.
abbrev pub IsFailing : (Which → ServerPc) → (Which → CloserPc) → Type 0
IsFailing f g = (x : Which) × ((f x ≡ broken) ⊎ (g x ≡ gave_up))

-- A status 1 is that of log.Fatalf, and a status 0 that of the return of `main`.
pub data Exits : MainPc → (Which → ServerPc) → (Which → CloserPc) → Option ℕ → Type 0 where
  going :
      {pc : MainPc} {f : Which → ServerPc} {g : Which → CloserPc}
      → pc ≢ returned
      → Exits pc f g none
  failed :
      {pc : MainPc} {f : Which → ServerPc} {g : Which → CloserPc}
      → IsFailing f g
      → Exits pc f g (some 1)
  complete : {f : Which → ServerPc} {g : Which → CloserPc} → Exits returned f g (some 0)

pub record Inv (s : State) : Type 0 where
  pub phase : Phase s.main_pc (s.closer app) (s.closer metrics) s.group
  pub halves : (x : Which) → Half (s.server x) (s.closer x)
  pub exits : Exits s.main_pc s.server s.closer s.exit
  pub servers_told : (x : Which) → ServerTold x (s.server x) s.log
  pub closers_told : (x : Which) → CloserTold (s.closer x) s.log
  pub main_told : MainTold s.main_pc s.log

-- The log grows only.
Logged-append : (line : String) (l k : List String) → Logged line l → Logged line (l ++ k)
Logged-append line [] k h = absurd h
Logged-append line (x ∷ l) k (inl e) = inl e
Logged-append line (x ∷ l) k (inr h) = inr (Logged-append line l k h)

pub Logged-last : (line : String) (l : List String) → Logged line (l ++ (line ∷ []))
Logged-last line [] = inl refl
Logged-last line (x ∷ l) = inr (Logged-last line l)

pub ServerTold-append :
    (x : Which) (pc : ServerPc) (l k : List String) → ServerTold x pc l → ServerTold x pc (l ++ k)
ServerTold-append x serving l k h = tt
ServerTold-append x closed l k h = tt
ServerTold-append x stopped l k h = Logged-append (stopped_line x) l k h
ServerTold-append x broken l k h = Logged-append server_error l k h

pub CloserTold-append :
    (pc : CloserPc) (l k : List String) → CloserTold pc l → CloserTold pc (l ++ k)
CloserTold-append unborn l k h = tt
CloserTold-append called l k h = tt
CloserTold-append waiting l k h = tt
CloserTold-append done l k h = tt
CloserTold-append gave_up l k h = Logged-append shutdown_error l k h

pub MainTold-append : (pc : MainPc) (l k : List String) → MainTold pc l → MainTold pc (l ++ k)
MainTold-append await_signal l k h = tt
MainTold-append add_group l k h = tt
MainTold-append go_app l k h = tt
MainTold-append go_metrics l k h = tt
MainTold-append wait_group l k h = tt
MainTold-append logged l k h = Logged-append complete_line l k h
MainTold-append returned l k h = Logged-append complete_line l k h

pub ServerTold-closed_by :
    (x : Which) (pc : ServerPc) (l : List String)
    → ServerTold x pc l
    → ServerTold x (closed_by pc) l
ServerTold-closed_by x serving l h = tt
ServerTold-closed_by x closed l h = tt
ServerTold-closed_by x stopped l h = h
ServerTold-closed_by x broken l h = h

pub update_at :
    {A : Type 0} (P : Which → A → Type 0) (f : Which → A) (x : Which) (a : A)
    → ((y : Which) → P y (f y))
    → P x a
    → (y : Which) → P y (update f x a y)
update_at P f app a h r app = r
update_at P f app a h r metrics = h metrics
update_at P f metrics a h r app = h app
update_at P f metrics a h r metrics = r

module _ {A B : Type 0} (R : A → B → Type 0) where
  pub update_both :
      (f : Which → A) (g : Which → B) (x : Which) (a : A) (b : B)
      → ((y : Which) → R (f y) (g y))
      → R a b
      → (y : Which) → R (update f x a y) (update g x b y)
  update_both f g app a b h r app = r
  update_both f g app a b h r metrics = h metrics
  update_both f g metrics a b h r app = h app
  update_both f g metrics a b h r metrics = r

  pub update_left :
      (f : Which → A) (g : Which → B) (x : Which) (a : A)
      → ((y : Which) → R (f y) (g y))
      → R a (g x)
      → (y : Which) → R (update f x a y) (g y)
  update_left f g app a h r app = r
  update_left f g app a h r metrics = h metrics
  update_left f g metrics a h r app = h app
  update_left f g metrics a h r metrics = r

  pub update_right :
      (f : Which → A) (g : Which → B) (x : Which) (b : B)
      → ((y : Which) → R (f y) (g y))
      → R (f x) b
      → (y : Which) → R (f y) (update g x b y)
  update_right f g app b h r app = r
  update_right f g app b h r metrics = h metrics
  update_right f g metrics b h r app = h app
  update_right f g metrics b h r metrics = r

done_count-le : (c : CloserPc) → done_count c ≤ 1
done_count-le c = ground arith

-- The moves of one shutdown.
pub Phase-close_app :
    {pc : MainPc} {m : CloserPc} {g : ℕ} → Phase pc called m g → Phase pc waiting m g
Phase-close_app (half b h) = half tt h
Phase-close_app (both b c h) = both tt c h

pub Phase-close_metrics :
    {pc : MainPc} {a : CloserPc} {g : ℕ} → Phase pc a called g → Phase pc a waiting g
Phase-close_metrics (both b c h) = both b tt h

pub Phase-shut_app :
    {pc : MainPc} {m : CloserPc} {g : ℕ} → Phase pc waiting m g → Phase pc done m (g - 1)
Phase-shut_app (half b h) = half tt (omega (arith, h))
Phase-shut_app {m} (both b c h) = both tt c (omega (arith, h, done_count-le m))

pub Phase-shut_metrics :
    {pc : MainPc} {a : CloserPc} {g : ℕ} → Phase pc a waiting g → Phase pc a done (g - 1)
Phase-shut_metrics {a} (both b c h) = both b tt (omega (arith, h, done_count-le a))

pub all_done :
    (a m : CloserPc) (g : ℕ) → g + done_count a + done_count m ≡ 2 → g ≡ 0 → Phase logged a m g
all_done done done g h e = subst (Phase logged done done) (sym e) over_logged
all_done done unborn g h e = absurd (omega (arith, h, e))
all_done done called g h e = absurd (omega (arith, h, e))
all_done done waiting g h e = absurd (omega (arith, h, e))
all_done done gave_up g h e = absurd (omega (arith, h, e))
all_done gave_up m g h e = absurd (omega (arith, h, e, done_count-le m))
all_done unborn m g h e = absurd (omega (arith, h, e, done_count-le m))
all_done called m g h e = absurd (omega (arith, h, e, done_count-le m))
all_done waiting m g h e = absurd (omega (arith, h, e, done_count-le m))

pub Phase-signal : {a m : CloserPc} {g : ℕ} → Phase await_signal a m g → Phase add_group a m g
Phase-signal before = adding

pub Phase-add : {a m : CloserPc} {g : ℕ} → Phase add_group a m g → Phase go_app a m (g + 2)
Phase-add adding = spawning

pub Phase-go_app : {a m : CloserPc} {g : ℕ} → Phase go_app a m g → Phase go_metrics called m g
Phase-go_app spawning = half tt (omega arith)

pub Phase-go_metrics :
    {a m : CloserPc} {g : ℕ} → Phase go_metrics a m g → Phase wait_group a called g
Phase-go_metrics (half b h) = both b tt (omega (arith, h))

pub Phase-give_up_app :
    {pc : MainPc} {m : CloserPc} {g : ℕ} → Phase pc waiting m g → Phase pc gave_up m g
Phase-give_up_app (half b h) = half tt h
Phase-give_up_app (both b c h) = both tt c h

pub Phase-give_up_metrics :
    {pc : MainPc} {a : CloserPc} {g : ℕ} → Phase pc a waiting g → Phase pc a gave_up g
Phase-give_up_metrics (both b c h) = both b tt h

pub Phase-wait_ends : {a m : CloserPc} {g : ℕ} → Phase wait_group a m g → g ≡ 0 → Phase logged a m g
Phase-wait_ends {a} {m} {g} (both b c h) e = all_done a m g h e

pub Phase-finish : {a m : CloserPc} {g : ℕ} → Phase logged a m g → Phase returned a m g
Phase-finish over_logged = over

-- What the phase says of a shutdown that has not been started.
pub unborn_app : {a m : CloserPc} {g : ℕ} → Phase go_app a m g → a ≡ unborn
unborn_app spawning = refl

pub unborn_metrics : {a m : CloserPc} {g : ℕ} → Phase go_metrics a m g → m ≡ unborn
unborn_metrics (half b h) = refl

pub Half-close : {a : ServerPc} → Half a called → Half (closed_by a) waiting
Half-close up_called = closed_waiting
Half-close broken_any = broken_any

pub Half-shut : {a : ServerPc} → Half a waiting → Half a done
Half-shut closed_waiting = closed_done
Half-shut stopped_waiting = stopped_done
Half-shut broken_any = broken_any

pub Half-give_up : {a : ServerPc} → Half a waiting → Half a gave_up
Half-give_up closed_waiting = closed_gave_up
Half-give_up stopped_waiting = stopped_gave_up
Half-give_up broken_any = broken_any

pub Half-stop : {b : CloserPc} → Half closed b → Half stopped b
Half-stop closed_waiting = stopped_waiting
Half-stop closed_done = stopped_done
Half-stop closed_gave_up = stopped_gave_up

pub Half-call : {a : ServerPc} → Half a unborn → Half a called
Half-call up_unborn = up_called
Half-call broken_any = broken_any

pub is_over : {a m : CloserPc} {g : ℕ} → Phase returned a m g → (a ≡ done) × (m ≡ done)
is_over over = (refl, refl)

pub Half-done : {a : ServerPc} → Half a done → a ≢ serving
Half-done closed_done = cc
Half-done stopped_done = cc
Half-done broken_any = cc

-- A shutdown that has been started and is not done.
abbrev pub IsBusy : CloserPc → Type 0
IsBusy c = (c ≢ unborn) × (c ≢ done)

busy :
    (a m : CloserPc) (g : ℕ)
    → IsBorn a
    → IsBorn m
    → g + done_count a + done_count m ≡ 2
    → (IsBusy a ⊎ IsBusy m) ⊎ (g ≡ 0)
busy unborn m g b c h = absurd b
busy called m g b c h = inl (inl (cc, cc))
busy waiting m g b c h = inl (inl (cc, cc))
busy gave_up m g b c h = inl (inl (cc, cc))
busy done gave_up g b c h = inl (inr (cc, cc))
busy done unborn g b c h = absurd c
busy done called g b c h = inl (inr (cc, cc))
busy done waiting g b c h = inl (inr (cc, cc))
busy done done g b c h = inr (omega (arith, h))

pub Phase-wait : {a m : CloserPc} {g : ℕ} → Phase wait_group a m g → (IsBusy a ⊎ IsBusy m) ⊎ (g ≡ 0)
Phase-wait {a} {m} {g} (both b c h) = busy a m g b c h
