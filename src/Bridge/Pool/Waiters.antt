-- ===== src/Bridge/Pool/Waiters.antt =====
-- The workers that wait, and the queue of their waiters.
use mqtt_python_client_bench.Prelude.{
  ℕ, zero, suc, ◌≡◌, ◌≢◌, refl, sym, ap, ◌∙◌, subst, Bool, true, false, List, [], ◌∷◌, ◌++◌, some,
  set, get_elem?, arith,
}

abbrev pub n_waiting : List Bool → ℕ
n_waiting [] = 0
n_waiting (true ∷ bs) = suc (n_waiting bs)
n_waiting (false ∷ bs) = n_waiting bs

-- The waiters in the queue are those of the workers that wait, each once.
abbrev pub Queued : List Bool → List ℕ → Type 0
Queued bs [] = n_waiting bs ≡ 0
Queued bs (w ∷ ws) = (get_elem? bs w ≡ some true) × Queued (set bs w false) ws

flag_inj : {a b : Bool} → some a ≡ some b → a ≡ b
flag_inj {a} {b} h = cc

apart : true ≡ false → ⊥
apart h = ground arith

set-same : (bs : List Bool) (w : ℕ) (b : Bool) → get_elem? bs w ≡ some b → set bs w b ≡ bs
set-same [] w b h = refl
set-same (x ∷ bs) zero b h = ap (λ y. y ∷ bs) (sym (flag_inj h))
set-same (x ∷ bs) (suc w) b h = ap (λ l. x ∷ l) (set-same bs w b h)

set-set : (bs : List Bool) (w : ℕ) (b c : Bool) → set (set bs w b) w c ≡ set bs w c
set-set [] w b c = refl
set-set (x ∷ bs) zero b c = refl
set-set (x ∷ bs) (suc w) b c = ap (λ l. x ∷ l) (set-set bs w b c)

set_comm :
    (bs : List Bool) (v w : ℕ) (b c : Bool) → v ≢ w → set (set bs v b) w c ≡ set (set bs w c) v b
set_comm [] v w b c n = refl
set_comm (x ∷ bs) zero zero b c n = absurd (n refl)
set_comm (x ∷ bs) zero (suc w) b c n = refl
set_comm (x ∷ bs) (suc v) zero b c n = refl
set_comm (x ∷ bs) (suc v) (suc w) b c n = ap (λ l. x ∷ l) (set_comm bs v w b c (λ e. n (ap suc e)))

get-set :
    (bs : List Bool) (w : ℕ) (b c : Bool)
    → get_elem? bs w ≡ some c
    → get_elem? (set bs w b) w ≡ some b
get-set [] w b c h = ground arith
get-set (x ∷ bs) zero b c h = refl
get-set (x ∷ bs) (suc w) b c h = get-set bs w b c h

get-set_other :
    (bs : List Bool) (v w : ℕ) (b : Bool) → v ≢ w → get_elem? (set bs w b) v ≡ get_elem? bs v
get-set_other [] v w b n = refl
get-set_other (x ∷ bs) zero zero b n = absurd (n refl)
get-set_other (x ∷ bs) zero (suc w) b n = refl
get-set_other (x ∷ bs) (suc v) zero b n = refl
get-set_other (x ∷ bs) (suc v) (suc w) b n = get-set_other bs v w b (λ e. n (ap suc e))

-- A worker that waits is not one that does not.
other :
    (bs : List Bool) (v w : ℕ) → get_elem? bs v ≡ some true → get_elem? bs w ≡ some false → v ≢ w
other bs v w h k e = apart (flag_inj (sym h ∙ ap (get_elem? bs) e ∙ k))

-- A worker that did not wait goes to the end of the queue.
pub Queued-end :
    (bs : List Bool) (ws : List ℕ) (w : ℕ)
    → Queued bs ws
    → get_elem? bs w ≡ some false
    → Queued (set bs w true) (ws ++ w ∷ [])
Queued-end bs [] w q h =
    (get-set bs w true false h, ap n_waiting (set-set bs w true false ∙ set-same bs w false h) ∙ q)
Queued-end bs (v ∷ ws) w q h =
    let n = other bs v w q.0 h in
    (
      get-set_other bs v w true n ∙ q.0,
      subst (λ l. Queued l (ws ++ w ∷ [])) (set_comm bs v w false true n)
          (Queued-end (set bs v false) ws w q.1 (get-set_other bs w v false (λ e. n (sym e)) ∙ h)),
    )

pub Queued-kept :
    (bs : List Bool) (ws : List ℕ) (w : ℕ)
    → Queued bs ws
    → get_elem? bs w ≡ some false
    → Queued (set bs w false) ws
Queued-kept bs ws w q h = subst (λ l. Queued l ws) (sym (set-same bs w false h)) q

pub n_waiting-new : (bs : List Bool) → n_waiting (bs ++ false ∷ []) ≡ n_waiting bs
n_waiting-new [] = refl
n_waiting-new (true ∷ bs) = ap suc (n_waiting-new bs)
n_waiting-new (false ∷ bs) = n_waiting-new bs
