-- ===== src/Log/Bag/Locked.antt =====
-- Two goroutines that share a bag, and its lock.
use go_backend_examples.Common.{
  ℕ, ℤ, suc, ◌+◌, ◌*◌, ◌≤◌, ◌≡◌, refl, ap, ◌∙◌, sym, Bool, true, false, ◌⊎◌, inl, inr, Option, some,
  List, [], ◌∷◌, All, Bytes, lookup, insert, length, arith,
}
use go_backend_examples.Log.Value.{Value}
use go_backend_examples.Log.Bag.{Bag, as_int64, set, add, add_duration, append, append_group}
use go_backend_examples.Log.Bag.Calls.{
  Call, call_set, call_add, call_add_duration, call_append, call_append_group, key_of, call, read,
  written, IsAdd, step, sum_from, sum_from-step, as_int64-call,
}

-- Where a goroutine stands: before the call of Lock of its next call, or in a call: behind Lock, behind
-- the read of the field, or behind the write of the field and before Unlock.
pub data Thread : Type 0 where
  waits : List Call → Thread
  locked : Call → List Call → Thread
  has_read : Call → Option Value → List Call → Thread
  has_written : Call → List Call → Thread

-- A step of a goroutine, with the mutex of the bag (whether it is locked) and its fields before and after.
pub data Move : Bool → Bag → Thread → Bool → Bag → Thread → Type 0 where
  lock :
      {bag : Bag} {c : Call} {cs : List Call}
      → Move false bag (waits (c ∷ cs)) true bag (locked c cs)
  load :
      {m : Bool} {bag : Bag} {c : Call} {cs : List Call}
      → Move m bag (locked c cs) m bag (has_read c (lookup (key_of c) bag) cs)
  store :
      {m : Bool} {bag : Bag} {c : Call} {o : Option Value} {cs : List Call}
      → Move m bag (has_read c o cs) m (insert (key_of c) (written c o) bag) (has_written c cs)
  unlock :
      {m : Bool} {bag : Bag} {c : Call} {cs : List Call}
      → Move m bag (has_written c cs) false bag (waits cs)

-- A bag with its mutex, and two goroutines.
pub record SharedBag : Type 0 where
  pub mutex : Bool
  pub bag : Bag
  pub first : Thread
  pub second : Thread

pub data Turn : SharedBag → SharedBag → Type 0 where
  move_first :
      {m n : Bool} {b d : Bag} {t u r : Thread}
      → Move m b t n d u
      → Turn
          (record { mutex = m; bag = b; first = t; second = r })
          (record { mutex = n; bag = d; first = u; second = r })
  move_second :
      {m n : Bool} {b d : Bag} {t u r : Thread}
      → Move m b t n d u
      → Turn
          (record { mutex = m; bag = b; first = r; second = t })
          (record { mutex = n; bag = d; first = r; second = u })

abbrev pub begin : Bag → List Call → List Call → SharedBag
begin bag xs ys = record { mutex = false; bag = bag; first = waits xs; second = waits ys }

-- `Turns n s t`: `n` steps lead from `s` to `t`.
pub data Turns (s : SharedBag) : ℕ → SharedBag → Type 0 where
  no_turn : Turns s 0 s
  later : {n : ℕ} {t u : SharedBag} → Turns s n t → Turn t u → Turns s (suc n) u

-- A call as a read and a write of its field.
call-written :
    (c : Call) (bag : Bag)
    → call c (some bag) ≡ some (insert (key_of c) (written c (lookup (key_of c) bag)) bag)
unfolding set append add add_duration append_group
call-written (call_set k v) bag = refl
call-written (call_append k v) bag = refl
call-written (call_add k n) bag = refl
call-written (call_add_duration k d) bag = refl
call-written (call_append_group k xs) bag = refl

-- The calls that have not written yet, and the steps that are left.
abbrev pending : Thread → List Call
pending (waits cs) = cs
pending (locked c cs) = c ∷ cs
pending (has_read c o cs) = c ∷ cs
pending (has_written c cs) = cs

abbrev left : Thread → ℕ
left (waits cs) = 4 * length cs
left (locked c cs) = 3 + 4 * length cs
left (has_read c o cs) = 2 + 4 * length cs
left (has_written c cs) = 1 + 4 * length cs

-- A goroutine in a call; what it has read is still there.
abbrev Inside : Bag → Thread → Type 0
Inside bag (waits cs) = ⊥
Inside bag (locked c cs) = Unit
Inside bag (has_read c o cs) = o ≡ lookup (key_of c) bag
Inside bag (has_written c cs) = Unit

-- At most one goroutine is in a call, and the mutex tells whether one is.
data Excluded : Bool → Bag → Thread → Thread → Type 0 where
  nobody : {bag : Bag} {xs ys : List Call} → Excluded false bag (waits xs) (waits ys)
  first_in :
      {bag : Bag} {t : Thread} {ys : List Call} → Inside bag t → Excluded true bag t (waits ys)
  second_in :
      {bag : Bag} {t : Thread} {xs : List Call} → Inside bag t → Excluded true bag (waits xs) t

Excluded-first :
    {m n : Bool} {b d : Bag} {t u r : Thread}
    → Move m b t n d u
    → Excluded m b t r
    → Excluded n d u r
Excluded-first lock nobody = first_in tt
Excluded-first load (first_in h) = first_in refl
Excluded-first store (first_in h) = first_in tt
Excluded-first unlock (first_in h) = nobody

Excluded-second :
    {m n : Bool} {b d : Bag} {t u r : Thread}
    → Move m b t n d u
    → Excluded m b r t
    → Excluded n d r u
Excluded-second lock nobody = second_in tt
Excluded-second load (second_in h) = second_in refl
Excluded-second store (second_in h) = second_in tt
Excluded-second unlock (second_in h) = nobody

-- What a goroutine does at most: it makes each call in four steps.
Move-left : {m n : Bool} {b d : Bag} {t u : Thread} → Move m b t n d u → left u + 1 ≡ left t
Move-left lock = omega arith
Move-left load = omega arith
Move-left store = omega arith
Move-left unlock = omega arith

module _ (k : Bytes) where
  abbrev Adds : Thread → Type 0
  Adds t = All (IsAdd k) (pending t)

  Move-Adds : {m n : Bool} {b d : Bag} {t u : Thread} → Move m b t n d u → Adds t → Adds u
  Move-Adds lock h = h
  Move-Adds load h = h
  Move-Adds store (p, h) = h
  Move-Adds unlock h = h

  stored :
      (c : Call) (bag : Bag) (o : Option Value)
      → IsAdd k c
      → o ≡ lookup (key_of c) bag
      → as_int64 (lookup k (insert (key_of c) (written c o) bag))
        ≡ step k (as_int64 (lookup k bag)) c
  stored c bag o h e =
      ap (λ v. as_int64 (lookup k (insert (key_of c) (written c v) bag))) e
      ∙ ap (λ v. as_int64 (read k v)) (sym (call-written c bag))
      ∙ as_int64-call c k bag h

  -- The counter, with all that is still to be added to it.
  abbrev sum : Bag → Thread → Thread → ℤ
  sum bag t r = sum_from k (sum_from k (as_int64 (lookup k bag)) (pending t)) (pending r)

  sum-first :
      {m n : Bool} {b d : Bag} {t u r : Thread}
      → Move m b t n d u
      → Excluded m b t r
      → Adds t
      → sum d u r ≡ sum b t r
  sum-first lock h p = refl
  sum-first load h p = refl
  sum-first {b} {r} (store {c} {o} {cs}) (first_in e) (p, ps) =
      ap (λ x. sum_from k (sum_from k x cs) (pending r)) (stored c b o p e)
  sum-first unlock h p = refl

  sum-second :
      {m n : Bool} {b d : Bag} {t u r : Thread}
      → Move m b t n d u
      → Excluded m b r t
      → Adds t
      → sum d r u ≡ sum b r t
  sum-second lock h p = refl
  sum-second load h p = refl
  sum-second {b} {r} (store {c} {o} {cs}) (second_in e) (p, ps) =
      ap (λ x. sum_from k (sum_from k x (pending r)) cs) (stored c b o p e)
      ∙ ap (λ x. sum_from k x cs) (sum_from-step k (as_int64 (lookup k b)) c (pending r))
  sum-second unlock h p = refl

  record Inv (total : ℤ) (s : SharedBag) : Type 0 where
    excluded : Excluded s.mutex s.bag s.first s.second
    first_adds : Adds s.first
    second_adds : Adds s.second
    same : sum s.bag s.first s.second ≡ total

  Turn-Inv : {total : ℤ} {s t : SharedBag} → Turn s t → Inv total s → Inv total t
  Turn-Inv (move_first h) inv = record {
    excluded = Excluded-first h inv.excluded;
    first_adds = Move-Adds h inv.first_adds;
    second_adds = inv.second_adds;
    same = sum-first h inv.excluded inv.first_adds ∙ inv.same;
  }
  Turn-Inv (move_second h) inv = record {
    excluded = Excluded-second h inv.excluded;
    first_adds = inv.first_adds;
    second_adds = Move-Adds h inv.second_adds;
    same = sum-second h inv.excluded inv.second_adds ∙ inv.same;
  }

  Turns-Inv : {total : ℤ} {s t : SharedBag} {n : ℕ} → Turns s n t → Inv total s → Inv total t
  Turns-Inv no_turn inv = inv
  Turns-Inv (later r h) inv = Turn-Inv h (Turns-Inv r inv)

  abbrev steps_left : SharedBag → ℕ
  steps_left s = left s.first + left s.second

  Turn-left : {s t : SharedBag} → Turn s t → steps_left t + 1 ≡ steps_left s
  Turn-left (move_first h) = omega (arith, Move-left h)
  Turn-left (move_second h) = omega (arith, Move-left h)

  Turns-left : {s t : SharedBag} {n : ℕ} → Turns s n t → n + steps_left t ≡ steps_left s
  Turns-left no_turn = omega arith
  Turns-left (later r h) = omega (arith, Turns-left r, Turn-left h)

  -- Both goroutines have made their calls, and the counter has the total; or one can go on.
  abbrev pub Ends : ℤ → SharedBag → Type 0
  Ends total s =
      ((s.first ≡ waits []) × (s.second ≡ waits []) × (as_int64 (lookup k s.bag) ≡ total))
      ⊎ ((t : SharedBag) × Turn s t)

  inside_moves :
      (b : Bag) (t : Thread)
      → Inside b t
      → (n : Bool) × (d : Bag) × (u : Thread) × Move true b t n d u
  inside_moves b (waits cs) h = absurd h
  inside_moves b (locked c cs) h = (_, _, _, load)
  inside_moves b (has_read c o cs) h = (_, _, _, store)
  inside_moves b (has_written c cs) h = (_, _, _, unlock)

  ends :
      {m : Bool} {b : Bag} {t r : Thread} (total : ℤ)
      → Excluded m b t r
      → sum b t r ≡ total
      → Ends total (record { mutex = m; bag = b; first = t; second = r })
  ends total (nobody {xs = []} {ys = []}) e = inl (refl, refl, e)
  ends total (nobody {xs = []} {ys = y ∷ ys}) e = inr (_, move_second lock)
  ends total (nobody {xs = x ∷ xs}) e = inr (_, move_first lock)
  ends {b} {t} total (first_in h) e =
      let (n, d, u, moves) = inside_moves b t h in inr (_, move_first moves)
  ends {b} {r} total (second_in h) e =
      let (n, d, u, moves) = inside_moves b r h in inr (_, move_second moves)

  -- Counters lose no update. Two goroutines make the calls `xs` and `ys` on one bag, each call locking the
  -- mutex, reading its field, writing it and unlocking the mutex, and no call but Add writes the key.
  -- In every order of their steps, there are at most four steps for each call, and in every state one of
  -- them can go on, or both are done; then the counter is what was there and all the deltas of both, added
  -- as an int64.
  pub Turns-Ends :
      (bag : Bag) (xs ys : List Call)
      → All (IsAdd k) xs
      → All (IsAdd k) ys
      → {n : ℕ} {s : SharedBag} → Turns (begin bag xs ys) n s
      → (n ≤ 4 * (length xs + length ys))
        × Ends (sum_from k (sum_from k (as_int64 (lookup k bag)) xs) ys) s
  Turns-Ends bag xs ys hx hy r =
      let inv =
        Turns-Inv r
          (record { excluded = nobody; first_adds = hx; second_adds = hy; same = refl }) in
      (omega (arith, Turns-left r), ends _ inv.excluded inv.same)
