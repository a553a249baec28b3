-- ===== src/Report/Progress/Filled.antt =====
-- report/data.py: the dict of cells, each pair of a point and a client filled in once.
use Prim.Native.String.{String}
use text.Mathlib.Text.{◌==◌ as str_eq}
use text.Mathlib.TextEquality.{eq_iff}
use mqtt_python_client_bench.Prelude.{
  ℕ, ◌+◌, ◌*◌, ◌≡◌, refl, sym, subst, ap, ◌∙◌, Bool, true, false, ◌&&◌, List, [], ◌∷◌,
  if◌then◌else◌, Option, none, some, length, Bool-cases, inl, inr, arith,
}
use mqtt_python_client_bench.Dict.{string_eq, get, put, get-put_self, get-put_other}
use mqtt_python_client_bench.Campaign.{Store}
use mqtt_python_client_bench.Campaign.Refusals.{names}
use mqtt_python_client_bench.Report.{Cell, cell_of}
use mqtt_python_client_bench.Report.Progress.{
  same_pair, pair_eq, Cells, fill_point, fill, one_if_able, able_clients, able_pairs, total_runs,
}

-- No name stands twice.
abbrev pub Unique : List String → Type 0
Unique [] = Unit
Unique (x ∷ xs) = (names xs x ≡ false) × Unique xs

total-put :
    (cells : Cells) (k : String × String) (v : Cell)
    → get cells k ≡ none
    → total_runs (put cells k v) ≡ total_runs cells + length v.runs
unfolding get put
total-put [] k v h = omega arith
total-put ((j, w) ∷ cells) k v h =
    let rest = total-put cells k v in
    elim (Bool-cases (same_pair j k)) [
      | inl e ↦ absurd (some_here (get cells k) e h)
      | inr e ↦
          rw e (omega (arith, rest (subst (λ b. (if b then some w else get cells k) ≡ none) e h)))
    ]
  where
    some_here : {b : Bool} (o : Option Cell) → b ≡ true → (if b then some w else o) ≡ none → ⊥
    some_here {b = true} o e h = cc
    some_here {b = false} o e h = ground arith

module _ (s : Store) where
  get-put :
      (cells : Cells) (p d q c : String)
      → get (put cells (p, d) (cell_of s p d)) (q, c)
        ≡ (if str_eq p q && str_eq d c then some (cell_of s q c) else get cells (q, c))
  get-put cells p d q c = elim (Bool-cases (str_eq p q && str_eq d c)) [
    | inl e ↦ rw e (
        subst (λ k. get (put cells (p, d) (cell_of s p d)) k ≡ some (cell_of s k.0 k.1))
          ((pair_eq.beq_iff (p, d) (q, c)).0 e) (get-put_self cells (p, d) (cell_of s p d)))
    | inr e ↦ rw e (get-put_other cells (p, d) (q, c) (cell_of s p d) e)
  ]

  get-fill_point :
      (p q c : String) (clients : List String) (cells : Cells)
      → get (fill_point s p clients cells) (q, c)
        ≡ (if str_eq p q && names clients c then some (cell_of s q c) else get cells (q, c))
  unfolding fill_point
  get-fill_point p q c [] cells = ground arith
  get-fill_point p q c (d ∷ clients) cells =
      get-fill_point p q c clients (put cells (p, d) (cell_of s p d))
      ∙ ground (arith, get-put cells p d q c)

  get-fill :
      (q c : String) (points clients : List String) (cells : Cells)
      → get (fill s points clients cells) (q, c)
        ≡ (if names points q && names clients c then some (cell_of s q c) else get cells (q, c))
  unfolding fill
  get-fill q c [] clients cells = ground arith
  get-fill q c (p ∷ points) clients cells =
      get-fill q c points clients (fill_point s p clients cells)
      ∙ ground (arith, get-fill_point p q c clients cells)

  -- The runs of the cells of one point, and of all of them.
  abbrev pub runs_at : String → List String → ℕ
  runs_at p [] = 0
  runs_at p (c ∷ clients) = length (cell_of s p c).runs + runs_at p clients

  abbrev pub runs_of_all : List String → List String → ℕ
  runs_of_all [] clients = 0
  runs_of_all (p ∷ points) clients = runs_at p clients + runs_of_all points clients

  other_name :
      (d c : String) (cs : List String)
      → names cs d ≡ false
      → names cs c ≡ true
      → str_eq d c ≡ false
  other_name d c cs h k = elim (Bool-cases (str_eq d c)) [
    | inl e ↦ absurd (differ (sym h ∙ ap (names cs) ((eq_iff d c).0 e) ∙ k))
    | inr e ↦ e
  ]
    where
      differ : false ≡ true → ⊥
      differ h = ground arith

  total-fill_point :
      (p : String) (clients : List String) (cells : Cells)
      → Unique clients
      → ((c : String) → names clients c ≡ true → get cells (p, c) ≡ none)
      → total_runs (fill_point s p clients cells) ≡ total_runs cells + runs_at p clients
  unfolding fill_point
  total-fill_point p [] cells u free = omega arith
  total-fill_point p (c ∷ clients) cells (n, u) free =
      total-fill_point p clients (put cells (p, c) (cell_of s p c)) u (λ d h.
        get-put cells p c p d ∙ ground (arith, other_name c d clients n h, free d (ground arith)))
      ∙ omega (arith, total-put cells (p, c) (cell_of s p c) (free c (ground (arith, eq_iff c c))))

  total-fill :
      (points clients : List String) (cells : Cells)
      → Unique points
      → Unique clients
      → ((p c : String) → names points p ≡ true → get cells (p, c) ≡ none)
      → total_runs (fill s points clients cells) ≡ total_runs cells + runs_of_all points clients
  unfolding fill
  total-fill [] clients cells u v free = omega arith
  total-fill (p ∷ points) clients cells (n, u) v free =
      total-fill points clients (fill_point s p clients cells) u v (λ q c h.
        get-fill_point p q c clients cells
        ∙ ground (arith, other_name p q points n h, free q c (ground arith)))
      ∙ omega
          (arith, total-fill_point p clients cells v (λ c h. free p c (ground (arith, eq_iff p p))))

  -- Where each cell has `n` runs or is of a pair that cannot be run and has none, so do all together.
  abbrev pub Full : ℕ → String → String → Type 0
  Full n p c = length (cell_of s p c).runs ≡ one_if_able (some (cell_of s p c)) * n

  module _ (n : ℕ) (points clients : List String)
      (full : (p c : String) → names points p ≡ true → names clients c ≡ true → Full n p c) where
    at_pair :
        (p c : String)
        → names points p ≡ true
        → names clients c ≡ true
        → length (cell_of s p c).runs ≡ one_if_able (get (fill s points clients []) (p, c)) * n
    unfolding get
    at_pair p c h k =
        let found : get (fill s points clients []) (p, c) ≡ some (cell_of s p c) =
          get-fill p c points clients [] ∙ rw (h, k) refl in
        rw found (full p c h k)

    at_clients :
        (p : String) (cs : List String)
        → names points p ≡ true
        → ((c : String) → names cs c ≡ true → names clients c ≡ true)
        → runs_at p cs ≡ able_clients (fill s points clients []) p cs * n
    unfolding able_clients
    at_clients p [] h sub = omega arith
    at_clients p (c ∷ cs) h sub =
        let here = at_pair p c h (sub c (ground (arith, eq_iff c c))) in
        let rest = at_clients p cs h (λ d k. sub d (ground arith)) in grind arith

    at_points :
        (ps : List String)
        → ((p : String) → names ps p ≡ true → names points p ≡ true)
        → runs_of_all ps clients ≡ able_pairs (fill s points clients []) ps clients * n
    unfolding able_pairs
    at_points [] sub = omega arith
    at_points (p ∷ ps) sub =
        let here = at_clients p clients (sub p (ground (arith, eq_iff p p))) (λ c h. h) in
        let rest = at_points ps (λ q k. sub q (ground arith)) in grind arith

    pub total-fill_all :
        Unique points
        → Unique clients
        → total_runs (fill s points clients [])
          ≡ able_pairs (fill s points clients []) points clients * n
    unfolding get
    total-fill_all u v =
        omega (arith, total-fill points clients [] u v (λ p c h. refl), at_points points (λ p h. h))
