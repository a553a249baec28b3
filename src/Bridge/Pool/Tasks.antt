-- ===== src/Bridge/Pool/Tasks.antt =====
-- The tasks of the workers: which wait, and which were given a coroutine that they have yet to begin.
use mqtt_python_client_bench.Prelude.{
  ℕ, zero, suc, ◌+◌, ◌≡◌, refl, ap, Bool, true, false, List, [], ◌∷◌, ◌++◌, some, length, set,
  get_elem?, arith,
}
use mqtt_python_client_bench.Bridge.Pool.{Task, handed, busy, waiting, is_pending}

abbrev pub waits : Task → Bool
waits waiting = true
waits _ = false

abbrev pub flags : List Task → List Bool
flags [] = []
flags (t ∷ ts) = waits t ∷ flags ts

abbrev pub is_held : Task → ℕ
is_held (handed coro) = 1
is_held _ = 0

-- How many workers were given a coroutine that they have yet to begin.
abbrev pub n_held : List Task → ℕ
n_held [] = 0
n_held (t ∷ ts) = is_held t + n_held ts

pub flags-set :
    (ts : List Task) (w : ℕ) (t : Task) → flags (set ts w t) ≡ set (flags ts) w (waits t)
flags-set [] w t = refl
flags-set (x ∷ ts) zero t = refl
flags-set (x ∷ ts) (suc w) t = ap (λ l. waits x ∷ l) (flags-set ts w t)

pub flags-new : (ts : List Task) (t : Task) → flags (ts ++ t ∷ []) ≡ flags ts ++ waits t ∷ []
flags-new [] t = refl
flags-new (x ∷ ts) t = ap (λ l. waits x ∷ l) (flags-new ts t)

task_inj : {a b : Task} → some a ≡ some b → a ≡ b
task_inj {a} {b} h = cc

pub get-flags :
    (ts : List Task) (w : ℕ) (t : Task)
    → get_elem? ts w ≡ some t
    → get_elem? (flags ts) w ≡ some (waits t)
get-flags [] w t h = ground arith
get-flags (x ∷ ts) zero t h = ap (λ y. some (waits y)) (task_inj h)
get-flags (x ∷ ts) (suc w) t h = get-flags ts w t h

pub is_pending-waits :
    (ts : List Task) (w : ℕ)
    → get_elem? (flags ts) w ≡ some true
    → is_pending (get_elem? ts w) ≡ true
is_pending-waits [] w h = ground arith
is_pending-waits (waiting ∷ ts) zero h = refl
is_pending-waits (handed c ∷ ts) zero h = ground arith
is_pending-waits (busy c ∷ ts) zero h = ground arith
is_pending-waits (x ∷ ts) (suc w) h = is_pending-waits ts w h

pub waiting_there :
    (ts : List Task) (w : ℕ) → get_elem? (flags ts) w ≡ some true → get_elem? ts w ≡ some waiting
waiting_there [] w h = ground arith
waiting_there (waiting ∷ ts) zero h = refl
waiting_there (handed c ∷ ts) zero h = ground arith
waiting_there (busy c ∷ ts) zero h = ground arith
waiting_there (x ∷ ts) (suc w) h = waiting_there ts w h

pub length-set : (ts : List Task) (w : ℕ) (t : Task) → length (set ts w t) ≡ length ts
length-set [] w t = refl
length-set (x ∷ ts) zero t = refl
length-set (x ∷ ts) (suc w) t = ap suc (length-set ts w t)

pub n_held-set :
    (ts : List Task) (w : ℕ) (t u : Task)
    → get_elem? ts w ≡ some u
    → n_held (set ts w t) + is_held u ≡ n_held ts + is_held t
n_held-set [] w t u h = ground arith
n_held-set (x ∷ ts) zero t u h = let e = ap is_held (task_inj h) in omega arith
n_held-set (x ∷ ts) (suc w) t u h = omega (arith, n_held-set ts w t u h)

pub n_held-new : (ts : List Task) (c : ℕ) → n_held (ts ++ handed c ∷ []) ≡ suc (n_held ts)
n_held-new [] c = refl
n_held-new (x ∷ ts) c = omega (arith, n_held-new ts c)
