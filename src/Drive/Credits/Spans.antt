-- ===== src/Drive/Credits/Spans.antt =====
-- bench/drive.py, the spans of pub_fixed_awaited: disjoint, in order, and measured by `remaining`.
use mqtt_python_client_bench.Prelude.{
  ℕ, ◌+◌, ◌-◌, ◌≤◌, ◌<◌, ◌≡◌, List, [], ◌∷◌, ◌++◌, ◌==◌, arith, Bool-cases, inl, inr,
}
use mqtt_python_client_bench.Drive.Credits.{extend, remaining}

-- Nonempty spans in ascending order from `lo` up to `hi`.
abbrev pub Spans : ℕ → ℕ → List (ℕ × ℕ) → Type 0
Spans lo hi [] = lo ≤ hi
Spans lo hi ((a, b) ∷ spans) = (lo ≤ a) × (a < b) × Spans b hi spans

-- Strictly ascending indices from `lo` up to `hi`.
abbrev pub Ascends : ℕ → ℕ → List ℕ → Type 0
Ascends lo hi [] = lo ≤ hi
Ascends lo hi (i ∷ t) = (lo ≤ i) × Ascends (i + 1) hi t

pub Spans-le : (lo hi : ℕ) (spans : List (ℕ × ℕ)) → Spans lo hi spans → lo ≤ hi
Spans-le lo hi [] h = h
Spans-le lo hi ((a, b) ∷ spans) h = omega (arith, Spans-le b hi spans h.2)

pub Spans-widen :
    (lo hi hi' : ℕ) (spans : List (ℕ × ℕ)) → hi ≤ hi' → Spans lo hi spans → Spans lo hi' spans
Spans-widen lo hi hi' [] le h = omega arith
Spans-widen lo hi hi' ((a, b) ∷ spans) le h = (h.0, h.1, Spans-widen b hi hi' spans le h.2)

pub extend-Spans :
    (lo hi first total : ℕ) (spans : List (ℕ × ℕ))
    → hi ≤ first
    → first < total
    → Spans lo hi spans
    → Spans lo total (extend spans first total)
unfolding extend
extend-Spans lo hi first total [] le lt h = (omega arith, lt, omega arith)
extend-Spans lo hi first total ((a, b) ∷ []) le lt h = elim (Bool-cases (b == first)) [
  | inl joined ↦ rw joined (h.0, omega arith, omega arith)
  | inr apart ↦ rw apart (h.0, h.1, (omega arith, lt, omega arith))
]
extend-Spans lo hi first total ((a, b) ∷ next ∷ spans) le lt h =
    (h.0, h.1, extend-Spans b hi first total (next ∷ spans) le lt h.2)

pub remaining-extend :
    (lo hi first total : ℕ) (spans : List (ℕ × ℕ))
    → hi ≤ first
    → first < total
    → Spans lo hi spans
    → remaining (extend spans first total) ≡ remaining spans + (total - first)
unfolding extend
remaining-extend lo hi first total [] le lt h = omega arith
remaining-extend lo hi first total ((a, b) ∷ []) le lt h = elim (Bool-cases (b == first)) [
  | inl joined ↦ rw joined (ground arith)
  | inr apart ↦ rw apart (omega arith)
]
remaining-extend lo hi first total ((a, b) ∷ next ∷ spans) le lt h =
    omega (arith, remaining-extend b hi first total (next ∷ spans) le lt h.2)

pub Ascends-snoc :
    (lo hi i : ℕ) (t : List ℕ) → Ascends lo hi t → hi ≤ i → Ascends lo (i + 1) (t ++ i ∷ [])
Ascends-snoc lo hi i [] h le = (omega arith, omega arith)
Ascends-snoc lo hi i (j ∷ t) h le = (h.0, Ascends-snoc (j + 1) hi i t h.1 le)
