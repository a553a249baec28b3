-- ===== src/Procstat/Ranking.antt =====
-- bench/procstat.py, attribute: the order of the names, and what is cut off it.
use mqtt_python_client_bench.Prelude.{
  ℕ, zero, suc, ◌+◌, ◌≤◌, ◌<◌, ◌≡◌, refl, Bool, true, false, List, [], ◌∷◌, if◌then◌else◌, leb,
  leb→le, take, drop, All, arith,
}
use mqtt_python_client_bench.Dict.{Dict}
use mqtt_python_client_bench.Procstat.{Text, rank, ranked, above, total}

abbrev pub Shares : Type 0
Shares = List (Text × ℕ)

abbrev pub AtMost : ℕ → Text × ℕ → Type 0
AtMost n e = e.1 ≤ n

-- From the most ticks to the least.
abbrev pub Descending : List (Text × ℕ) → Type 0
Descending [] = Unit {0}
Descending ((name, used) ∷ shares) = All (AtMost used) shares × Descending shares

module _ (P : Text × ℕ → Type 0) where
  All-rank : (e : Text × ℕ) (shares : Shares) → P e → All P shares → All P (rank e shares)
  All-rank (name, used) [] p h = (p, tt)
  All-rank (name, used) ((other, more) ∷ shares) p h =
      either (leb more used) (All-rank (name, used) shares p h.1)
    where
      either :
          (b : Bool)
          → All P (rank (name, used) shares)
          → All P (
              if b
              then (name, used) ∷ (other, more) ∷ shares
              else (other, more) ∷ rank (name, used) shares)
      either true r = (p, h)
      either false r = (h.0, r)

  pub All-ranked : (shares : Dict Text ℕ) → All P shares → All P (ranked shares)
  unfolding ranked
  All-ranked [] h = tt
  All-ranked ((name, used) ∷ shares) h =
      All-rank (name, used) (ranked shares) h.0 (All-ranked shares h.1)

  pub All-take : (n : ℕ) (shares : Shares) → All P shares → All P (take n shares)
  All-take zero shares h = tt
  All-take (suc n) [] h = tt
  All-take (suc n) (e ∷ shares) h = (h.0, All-take n shares h.1)

  pub All-drop : (n : ℕ) (shares : Shares) → All P shares → All P (drop n shares)
  All-drop zero shares h = h
  All-drop (suc n) [] h = tt
  All-drop (suc n) (e ∷ shares) h = All-drop n shares h.1

  pub All-above :
      (floor_ticks : ℕ) (shares : Shares) → All P shares → All P (above floor_ticks shares)
  All-above floor_ticks [] h = tt
  All-above floor_ticks ((name, used) ∷ shares) h =
      either (leb floor_ticks used) (All-above floor_ticks shares h.1)
    where
      either :
          (b : Bool)
          → All P (above floor_ticks shares)
          → All P (if b then (name, used) ∷ above floor_ticks shares else above floor_ticks shares)
      either true r = (h.0, r)
      either false r = r

pub All-map :
    (P Q : Text × ℕ → Type 0) (shares : Shares)
    → ((e : Text × ℕ) → P e → Q e)
    → All P shares
    → All Q shares
All-map P Q [] f h = tt
All-map P Q (e ∷ shares) f h = (f e h.0, All-map P Q shares f h.1)

Descending-rank : (e : Text × ℕ) (shares : Shares) → Descending shares → Descending (rank e shares)
Descending-rank (name, used) [] h = (tt, tt)
Descending-rank (name, used) ((other, more) ∷ shares) h =
    either (leb more used) refl (Descending-rank (name, used) shares h.1)
  where
    either :
        (b : Bool)
        → leb more used ≡ b
        → Descending (rank (name, used) shares)
        → Descending (
            if b
            then (name, used) ∷ (other, more) ∷ shares
            else (other, more) ∷ rank (name, used) shares)
    either true e r =
        let most : more ≤ used = leb→le more used e in
        ((most, All-map (AtMost more) (AtMost used) shares (λ x p. omega arith) h.0), h)
    either false e r = (All-rank (AtMost more) (name, used) shares (ground arith) h.0, r)

pub Descending-ranked : (shares : Dict Text ℕ) → Descending (ranked shares)
unfolding ranked
Descending-ranked [] = tt
Descending-ranked ((name, used) ∷ shares) =
    Descending-rank (name, used) (ranked shares) (Descending-ranked shares)

pub Descending-take : (n : ℕ) (shares : Shares) → Descending shares → Descending (take n shares)
Descending-take zero shares h = tt
Descending-take (suc n) [] h = tt
Descending-take (suc n) ((name, used) ∷ shares) h =
    (All-take (AtMost used) n shares h.0, Descending-take n shares h.1)

pub Descending-above :
    (floor_ticks : ℕ) (shares : Shares) → Descending shares → Descending (above floor_ticks shares)
Descending-above floor_ticks [] h = tt
Descending-above floor_ticks ((name, used) ∷ shares) h =
    either (leb floor_ticks used) (Descending-above floor_ticks shares h.1)
  where
    either :
        (b : Bool)
        → Descending (above floor_ticks shares)
        → Descending
            (if b then (name, used) ∷ above floor_ticks shares else above floor_ticks shares)
    either true r = (All-above (AtMost used) floor_ticks shares h.0, r)
    either false r = r

-- Each entry that is cut off has no more ticks than any that is kept.
pub All-drop-take :
    (n : ℕ) (shares : Shares)
    → Descending shares
    → All (λ (t : Text × ℕ). All (AtMost t.1) (drop n shares)) (take n shares)
All-drop-take zero shares h = tt
All-drop-take (suc n) [] h = tt
All-drop-take (suc n) ((name, used) ∷ shares) h =
    (All-drop (AtMost used) n shares h.0, All-drop-take n shares h.1)

pub floor-above :
    (floor_ticks : ℕ) (shares : Shares)
    → All (λ (t : Text × ℕ). floor_ticks ≤ t.1) (above floor_ticks shares)
floor-above floor_ticks [] = tt
floor-above floor_ticks ((name, used) ∷ shares) =
    either (leb floor_ticks used) refl (floor-above floor_ticks shares)
  where
    either :
        (b : Bool)
        → leb floor_ticks used ≡ b
        → All (λ (t : Text × ℕ). floor_ticks ≤ t.1) (above floor_ticks shares)
        → All
            (λ (t : Text × ℕ). floor_ticks ≤ t.1)
            (if b then (name, used) ∷ above floor_ticks shares else above floor_ticks shares)
    either true e r = (leb→le floor_ticks used e, r)
    either false e r = r

total-rank : (e : Text × ℕ) (shares : Shares) → total (rank e shares) ≡ e.1 + total shares
total-rank (name, used) [] = refl
total-rank (name, used) ((other, more) ∷ shares) =
    either (leb more used) (total-rank (name, used) shares)
  where
    either :
        (b : Bool)
        → total (rank (name, used) shares) ≡ used + total shares
        → total (
            if b
            then (name, used) ∷ (other, more) ∷ shares
            else (other, more) ∷ rank (name, used) shares)
          ≡ used + (more + total shares)
    either true r = refl
    either false r = omega (arith, r)

pub total-ranked : (shares : Dict Text ℕ) → total (ranked shares) ≡ total shares
unfolding ranked
total-ranked [] = refl
total-ranked ((name, used) ∷ shares) =
    omega (arith, total-rank (name, used) (ranked shares), total-ranked shares)

pub total-take-drop :
    (n : ℕ) (shares : Shares) → total (take n shares) + total (drop n shares) ≡ total shares
total-take-drop zero shares = omega arith
total-take-drop (suc n) [] = omega arith
total-take-drop (suc n) ((name, used) ∷ shares) = omega (arith, total-take-drop n shares)

-- Those below the floor.
abbrev pub below : ℕ → List (Text × ℕ) → List (Text × ℕ)
below floor_ticks [] = []
below floor_ticks ((name, used) ∷ shares) =
    let rest = below floor_ticks shares in
    if leb floor_ticks used then rest else (name, used) ∷ rest

pub All-below :
    (floor_ticks : ℕ) (P : Text × ℕ → Type 0) (shares : Shares)
    → All P shares
    → All (λ (t : Text × ℕ). (t.1 < floor_ticks) × P t) (below floor_ticks shares)
All-below floor_ticks P [] h = tt
All-below floor_ticks P ((name, used) ∷ shares) h =
    either (leb floor_ticks used) refl (All-below floor_ticks P shares h.1)
  where
    Low : Text × ℕ → Type 0
    Low t = (t.1 < floor_ticks) × P t

    either :
        (b : Bool)
        → leb floor_ticks used ≡ b
        → All Low (below floor_ticks shares)
        → All Low (if b then below floor_ticks shares else (name, used) ∷ below floor_ticks shares)
    either true e r = r
    either false e r = ((ground arith, h.0), r)

pub total-above-below :
    (floor_ticks : ℕ) (shares : Shares)
    → total (above floor_ticks shares) + total (below floor_ticks shares) ≡ total shares
total-above-below floor_ticks [] = omega arith
total-above-below floor_ticks ((name, used) ∷ shares) =
    let h = total-above-below floor_ticks shares in ground arith
