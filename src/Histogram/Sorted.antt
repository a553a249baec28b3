-- ===== src/Histogram/Sorted.antt =====
-- A sorted bucket list is determined by its counts.
use mqtt_python_client_bench.Prelude.{
  ℕ, ◌+◌, ◌≤◌, ◌<◌, ◌≡◌, ◌≢◌, refl, sym, ap, ap₂, ◌∙◌, List, [], ◌∷◌, arith, ◌==◌, if◌then◌else◌,
  All, dec_lt, Bool-cases, inl, inr,
}
use mqtt_python_client_bench.Dict.{Dict, nat_eq, get, put, get_or}
use mqtt_python_client_bench.Histogram.{bump, before, insert, sorted}

-- The count of bucket `i`.
unfoldable pub at : List (ℕ × ℕ) → ℕ → ℕ
unfolding get
at d i = get_or d i 0

abbrev pub Fresh : ℕ → List (ℕ × ℕ) → Type 0
Fresh k d = All (λ p. p.0 ≢ k) d

-- Keys are distinct and counts are positive.
abbrev pub IsCounter : List (ℕ × ℕ) → Type 0
IsCounter [] = Unit
IsCounter ((k, c) ∷ d) = Fresh k d × (0 < c) × IsCounter d

abbrev pub IsAbove : ℕ → List (ℕ × ℕ) → Type 0
IsAbove k d = All (λ p. k < p.0) d

-- Keys ascend and counts are positive.
abbrev pub IsAscending : List (ℕ × ℕ) → Type 0
IsAscending [] = Unit
IsAscending ((k, c) ∷ d) = IsAbove k d × (0 < c) × IsAscending d

at-put : (d : Dict ℕ ℕ) (k v j : ℕ) → at (put d k v) j ≡ (if k == j then v else at d j)
unfolding at put
at-put [] k v j = ground arith
at-put ((i, w) ∷ d) k v j = ground (arith, at-put d k v j)

pub at-bump :
    (d : Dict ℕ ℕ) (k c j : ℕ) → at (bump d k c) j ≡ (if k == j then at d k + c else at d j)
unfolding bump at
at-bump d k c j = at-put d k (at d k + c) j

Fresh-put : (d : Dict ℕ ℕ) (k v j : ℕ) → k ≢ j → Fresh j d → Fresh j (put d k v)
unfolding put
Fresh-put [] k v j n h = (n, tt)
Fresh-put ((i, w) ∷ d) k v j n h = elim (Bool-cases (i == k)) [
  | inl e ↦ rw e h
  | inr e ↦ rw e (h.0, Fresh-put d k v j n h.1)
]

put-IsCounter : (d : Dict ℕ ℕ) (k v : ℕ) → 0 < v → IsCounter d → IsCounter (put d k v)
unfolding put
put-IsCounter [] k v p h = (tt, p, tt)
put-IsCounter ((i, w) ∷ d) k v p h = elim (Bool-cases (i == k)) [
  | inl e ↦ rw e (h.0, p, h.2)
  | inr e ↦ rw e (Fresh-put d k v i (ground arith) h.0, h.1, put-IsCounter d k v p h.2)
]

pub bump-IsCounter : (d : Dict ℕ ℕ) (k c : ℕ) → 0 < c → IsCounter d → IsCounter (bump d k c)
unfolding bump
bump-IsCounter d k c p h = put-IsCounter d k (get_or d k 0 + c) (omega arith) h

at-insert :
    (k c j : ℕ) (l : List (ℕ × ℕ))
    → Fresh k l
    → at (insert (k, c) l) j ≡ (if k == j then c else at l j)
unfolding at insert
at-insert k c j [] h = ground arith
at-insert k c j ((i, d) ∷ l) h = ground (arith, h.0, at-insert k c j l h.1)

IsAbove-insert : (m k c : ℕ) (l : List (ℕ × ℕ)) → m < k → IsAbove m l → IsAbove m (insert (k, c) l)
unfolding insert
IsAbove-insert m k c [] p h = (p, tt)
IsAbove-insert m k c ((i, d) ∷ l) p h = elim (Bool-cases (before (k, c) (i, d))) [
  | inl e ↦ rw e (p, h)
  | inr e ↦ rw e (h.0, IsAbove-insert m k c l p h.1)
]

IsAbove-trans : (m k : ℕ) (l : List (ℕ × ℕ)) → m < k → IsAbove k l → IsAbove m l
IsAbove-trans m k [] p h = tt
IsAbove-trans m k ((i, d) ∷ l) p h = (omega arith, IsAbove-trans m k l p h.1)

insert-IsAscending :
    (k c : ℕ) (l : List (ℕ × ℕ)) → 0 < c → Fresh k l → IsAscending l → IsAscending (insert (k, c) l)
unfolding insert
insert-IsAscending k c [] p f h = (tt, p, tt)
insert-IsAscending k c ((i, d) ∷ l) p f h = elim (Bool-cases (before (k, c) (i, d))) [
  | inl e ↦ let q : k < i = ground (arith, f.0) in rw e ((q, IsAbove-trans k i l q h.0), p, h)
  | inr e ↦
      rw e
        (IsAbove-insert i k c l (ground (arith, f.0)) h.0, h.1, insert-IsAscending k c l p f.1 h.2)
]

Fresh-insert : (j k c : ℕ) (l : List (ℕ × ℕ)) → k ≢ j → Fresh j l → Fresh j (insert (k, c) l)
unfolding insert
Fresh-insert j k c [] n h = (n, tt)
Fresh-insert j k c ((i, d) ∷ l) n h = elim (Bool-cases (before (k, c) (i, d))) [
  | inl e ↦ rw e (n, h)
  | inr e ↦ rw e (h.0, Fresh-insert j k c l n h.1)
]

Fresh-sorted : (j : ℕ) (l : List (ℕ × ℕ)) → Fresh j l → Fresh j (sorted l)
unfolding sorted
Fresh-sorted j [] h = tt
Fresh-sorted j ((i, d) ∷ l) h = Fresh-insert j i d (sorted l) h.0 (Fresh-sorted j l h.1)

pub at-nil : (j : ℕ) → at [] j ≡ 0
unfolding at
at-nil j = refl

pub at-cons : (i c j : ℕ) (l : List (ℕ × ℕ)) → at ((i, c) ∷ l) j ≡ (if i == j then c else at l j)
unfolding at
at-cons i c j l = ground arith

pub sorted-IsAscending : (l : List (ℕ × ℕ)) → IsCounter l → IsAscending (sorted l)
unfolding sorted
sorted-IsAscending [] h = tt
sorted-IsAscending ((i, c) ∷ l) h =
    insert-IsAscending i c (sorted l) h.1 (Fresh-sorted i l h.0) (sorted-IsAscending l h.2)

pub at-sorted : (l : List (ℕ × ℕ)) (j : ℕ) → IsCounter l → at (sorted l) j ≡ at l j
unfolding sorted
at-sorted [] j h = refl
at-sorted ((i, c) ∷ l) j h =
    at-insert i c j (sorted l) (Fresh-sorted i l h.0)
    ∙ ap (λ (n : ℕ). if i == j then c else n) (at-sorted l j h.2)
    ∙ sym (at-cons i c j l)

pub at-IsAbove : (k j : ℕ) (l : List (ℕ × ℕ)) → j ≤ k → IsAbove k l → at l j ≡ 0
unfolding at
at-IsAbove k j [] p h = refl
at-IsAbove k j ((i, c) ∷ l) p h = ground (arith, at-IsAbove k j l p h.1)

-- The first key of an ascending list is the least with a count, so both lists start alike.
heads-key :
    (i c : ℕ) (l : List (ℕ × ℕ)) (j d : ℕ) (m : List (ℕ × ℕ))
    → IsAscending ((i, c) ∷ l)
    → IsAscending ((j, d) ∷ m)
    → at ((i, c) ∷ l) i ≡ at ((j, d) ∷ m) i
    → at ((i, c) ∷ l) j ≡ at ((j, d) ∷ m) j
    → i ≡ j
heads-key i c l j d m hl hm ei ej = elim (dec_lt i j) [
  | yes less ↦ absurd (
      ground
        (arith, ei, at-cons i c i l, at-cons j d i m, hl.1, at-IsAbove j i m (omega arith) hm.0))
  | no ge ↦ elim (dec_lt j i) [
    | yes more ↦ absurd (
        ground
          (arith, ej, at-cons i c j l, at-cons j d j m, hm.1, at-IsAbove i j l (omega arith) hl.0))
    | no le ↦ omega arith
  ]
]

-- Two ascending bucket lists with the same counts are equal.
pub IsAscending-ext :
    (l m : List (ℕ × ℕ)) → IsAscending l → IsAscending m → ((j : ℕ) → at l j ≡ at m j) → l ≡ m
IsAscending-ext [] [] hl hm e = refl
IsAscending-ext [] ((i, c) ∷ m) hl hm e = ground (arith, e i, at-cons i c i m, hm.1, at-nil i)
IsAscending-ext ((i, c) ∷ l) [] hl hm e = ground (arith, e i, at-cons i c i l, hl.1, at-nil i)
IsAscending-ext ((i, c) ∷ l) ((j, d) ∷ m) hl hm e =
    ap₂ (λ (p : ℕ × ℕ) (r : List (ℕ × ℕ)). p ∷ r) (λ n. (same_key n, same_count n))
      (IsAscending-ext l m hl.2 hm.2 tails)
  where
    same_key : i ≡ j
    same_key = heads-key i c l j d m hl hm (e i) (e j)

    same_count : c ≡ d
    same_count = ground (arith, e i, same_key, at-cons i c i l, at-cons j d i m)

    tails : (k : ℕ) → at l k ≡ at m k
    tails k = elim (Bool-cases (i == k)) [
      | inl hit ↦
          at-IsAbove i k l (ground arith) hl.0
          ∙ sym (at-IsAbove j k m (ground (arith, same_key)) hm.0)
      | inr miss ↦ ground (arith, e k, same_key, at-cons i c k l, at-cons j d k m)
    ]
