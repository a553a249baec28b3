-- ===== src/Procstat/Shares.antt =====
-- bench/procstat.py, attribute: how the processes' ticks add up by name, and which names are shown.
use mqtt_python_client_bench.Prelude.{
  ℕ, ◌+◌, ◌≡◌, refl, sym, ap, ◌∙◌, subst, Bool, true, false, Bool-cases, inl, inr, Option, none,
  some, List, [], ◌∷◌, if◌then◌else◌, arith,
}
use mqtt_python_client_bench.Dict.{Dict, nat_eq, get, put, get_or, get-put_self, get-put_other}
use mqtt_python_client_bench.Dict.Entries.{Distinct}
use mqtt_python_client_bench.Bridge.Topics.{text_eq, same_level, same_level-same, same_level-≡}
use mqtt_python_client_bench.Procstat.{Text, Processes, counted, add_share, by_name, total}

abbrev pub share : Text → Option (Text × ℕ) → ℕ
share name none = 0
share name (some (other, used)) = if same_level other name then used else 0

abbrev pub any_share : Option (Text × ℕ) → ℕ
any_share none = 0
any_share (some (name, used)) = used

-- The ticks of the processes that count under a name, and of all that count.
abbrev pub used_by : Processes → List ℕ → Dict ℕ Text → Text → Processes → ℕ
used_by a skip labels name [] = 0
used_by a skip labels name ((pid, process) ∷ b) =
    share name (counted a skip labels pid process) + used_by a skip labels name b

abbrev pub used_by_all : Processes → List ℕ → Dict ℕ Text → Processes → ℕ
used_by_all a skip labels [] = 0
used_by_all a skip labels ((pid, process) ∷ b) =
    any_share (counted a skip labels pid process) + used_by_all a skip labels b

abbrev pub or_zero : Option ℕ → ℕ
or_zero o = elim o [ none ↦ 0 | some n ↦ n ]

get_or-add_share :
    (shares : Dict Text ℕ) (o : Option (Text × ℕ)) (name : Text)
    → get_or (add_share shares o) name 0 ≡ get_or shares name 0 + share name o
get_or-add_share shares none name = omega arith
get_or-add_share shares (some (other, used)) name = by_test (same_level other name) refl
  where
    sum : ℕ
    sum = or_zero (get shares other) + used

    by_test :
        (b : Bool)
        → same_level other name ≡ b
        → or_zero (get (put shares other sum) name)
          ≡ or_zero (get shares name) + (if b then used else 0)
    by_test true e =
        subst (λ n. or_zero (get (put shares other sum) n) ≡ or_zero (get shares n) + used)
          (same_level-≡ other name e) (ap or_zero (get-put_self shares other sum))
    by_test false e = ap or_zero (get-put_other shares other name sum e) ∙ omega arith

total-put :
    (d : Dict Text ℕ) (k : Text) (v : ℕ) → total (put d k v) + or_zero (get d k) ≡ total d + v
unfolding put get
total-put [] k v = omega arith
total-put ((j, w) ∷ d) k v = by_test (same_level j k) (total-put d k v)
  where
    by_test :
        (b : Bool)
        → total (put d k v) + or_zero (get d k) ≡ total d + v
        → total (if b then (j, v) ∷ d else (j, w) ∷ put d k v)
            + or_zero (if b then some w else get d k)
          ≡ w + total d + v
    by_test true h = omega arith
    by_test false h = omega (arith, h)

total-add_share :
    (shares : Dict Text ℕ) (o : Option (Text × ℕ))
    → total (add_share shares o) ≡ total shares + any_share o
total-add_share shares none = omega arith
total-add_share shares (some (name, used)) =
    omega (arith, total-put shares name (or_zero (get shares name) + used))

Distinct-put : (d : Dict Text ℕ) (k : Text) (v : ℕ) → Distinct d → Distinct (put d k v)
unfolding put
Distinct-put [] k v h = (unfold get in refl, tt)
Distinct-put ((j, w) ∷ d) k v h = by_test (same_level j k) refl (Distinct-put d k v h.1)
  where
    other_way : same_level j k ≡ false → same_level k j ≡ false
    other_way e = elim (Bool-cases (same_level k j)) [
      | inl y ↦
          absurd
            (apart (sym (same_level-same j) ∙ ap (same_level j) (sym (same_level-≡ k j y)) ∙ e))
      | inr n ↦ n
    ]
      where
        apart : true ≡ false → ⊥
        apart e = cc

    by_test :
        (b : Bool)
        → same_level j k ≡ b
        → Distinct (put d k v)
        → Distinct (if b then (j, v) ∷ d else (j, w) ∷ put d k v)
    by_test true e r = h
    by_test false e r = (get-put_other d k j v (other_way e) ∙ h.0, r)

Distinct-add_share :
    (shares : Dict Text ℕ) (o : Option (Text × ℕ)) → Distinct shares → Distinct (add_share shares o)
Distinct-add_share shares none h = h
Distinct-add_share shares (some (name, used)) h =
    Distinct-put shares name (or_zero (get shares name) + used) h

module _ (a : Processes) (skip : List ℕ) (labels : Dict ℕ Text) where
  pub by_name-Distinct :
      (shares : Dict Text ℕ) (b : Processes)
      → Distinct shares
      → Distinct (by_name a skip labels shares b)
  unfolding by_name
  by_name-Distinct shares [] h = h
  by_name-Distinct shares ((pid, process) ∷ b) h =
      by_name-Distinct (add_share shares (counted a skip labels pid process)) b
        (Distinct-add_share shares (counted a skip labels pid process) h)

  pub by_name-used_by :
      (shares : Dict Text ℕ) (b : Processes) (name : Text)
      → or_zero (get (by_name a skip labels shares b) name)
        ≡ or_zero (get shares name) + used_by a skip labels name b
  unfolding by_name
  by_name-used_by shares [] name = omega arith
  by_name-used_by shares ((pid, process) ∷ b) name =
      let o = counted a skip labels pid process in
      by_name-used_by (add_share shares o) b name
      ∙ ap (λ n. n + used_by a skip labels name b) (get_or-add_share shares o name)
      ∙ omega arith

  pub total-by_name :
      (shares : Dict Text ℕ) (b : Processes)
      → total (by_name a skip labels shares b) ≡ total shares + used_by_all a skip labels b
  unfolding by_name
  total-by_name shares [] = omega arith
  total-by_name shares ((pid, process) ∷ b) =
      let o = counted a skip labels pid process in
      omega (arith, total-by_name (add_share shares o) b, total-add_share shares o)
