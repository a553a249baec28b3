-- ===== src/Procstat/Top.antt =====
-- bench/procstat.py, attribute: who used the CPU, in order and added up.
use mqtt_python_client_bench.Prelude.{
  ℕ, ◌+◌, ◌≤◌, ◌<◌, ◌≡◌, sym, ap, ◌∙◌, some, List, [], take, drop, All, arith,
}
use mqtt_python_client_bench.Dict.{Dict, nat_eq, get}
use mqtt_python_client_bench.Dict.Entries.{entries_within}
use mqtt_python_client_bench.Bridge.Topics.{text_eq}
use mqtt_python_client_bench.Procstat.{
  Text, Processes, by_name, ranked, total, Attribution, attribute,
}
use mqtt_python_client_bench.Procstat.Shares.{
  used_by, used_by_all, or_zero, by_name-Distinct, by_name-used_by, total-by_name,
}
use mqtt_python_client_bench.Procstat.Ranking.{
  AtMost, Descending, All-ranked, All-take, All-drop, All-above, All-map, Descending-ranked,
  Descending-take, Descending-above, All-drop-take, floor-above, total-ranked, total-take-drop,
  below, All-below, total-above-below,
}

-- The names shown, those below the floor, and those that the limit hides: together all that counts.
pub record Attributes (a b : Processes) (skip : List ℕ) (labels : Dict ℕ Text) (floor_ticks : ℕ)
    (r : Attribution) : Type 0 where
  pub low : List (Text × ℕ)
  pub hidden : List (Text × ℕ)
  pub shown_used : All (λ (t : Text × ℕ). t.1 ≡ used_by a skip labels t.0 b) r.top
  pub low_used :
      All (λ (t : Text × ℕ). (t.1 < floor_ticks) × (t.1 ≡ used_by a skip labels t.0 b)) low
  pub hidden_used : All (λ (t : Text × ℕ). t.1 ≡ used_by a skip labels t.0 b) hidden
  pub descending : Descending r.top
  pub at_floor : All (λ (t : Text × ℕ). floor_ticks ≤ t.1) r.top
  pub behind : All (λ (t : Text × ℕ). All (AtMost t.1) hidden) r.top
  pub all_processes : r.processes ≡ used_by_all a skip labels b
  pub all_names : total r.top + total low + total hidden ≡ r.processes

-- For any two readings, exclusions, labels, limit and floor: each name shown stands with the ticks of
-- the processes that count under it, in descending order and from the floor on; the names not shown
-- are below the floor or have no more ticks than any shown; and the total is the ticks of all the
-- processes that count, which those of the names shown and not shown add up to.
pub attribute-Attributes :
    (a b : Processes) (skip : List ℕ) (labels : Dict ℕ Text) (limit floor_ticks : ℕ)
    → Attributes a b skip labels floor_ticks (attribute a b skip labels limit floor_ticks)
unfolding attribute get
attribute-Attributes a b skip labels limit floor_ticks = record {
  low = below floor_ticks (take limit order);
  hidden = drop limit order;
  shown_used = All-above Used floor_ticks (take limit order) (All-take Used limit order used);
  low_used = All-below floor_ticks Used (take limit order) (All-take Used limit order used);
  hidden_used = All-drop Used limit order used;
  descending = Descending-above floor_ticks (take limit order) (Descending-take limit order down);
  at_floor = floor-above floor_ticks (take limit order);
  behind =
      All-above (λ (t : Text × ℕ). All (AtMost t.1) (drop limit order)) floor_ticks
        (take limit order) (All-drop-take limit order down);
  all_processes = total-by_name a skip labels [] b ∙ omega arith;
  all_names = omega (
    arith,
    total-above-below floor_ticks (take limit order),
    total-take-drop limit order,
    total-ranked shares,
  );
}
  where
    Used : Text × ℕ → Type 0
    Used t = t.1 ≡ used_by a skip labels t.0 b

    shares : Dict Text ℕ
    shares = by_name a skip labels [] b

    order : List (Text × ℕ)
    order = ranked shares

    down : Descending order
    down = Descending-ranked shares

    used_of : (t : Text × ℕ) → get shares t.0 ≡ some t.1 → Used t
    used_of t e = sym (ap or_zero e) ∙ by_name-used_by a skip labels [] b t.0 ∙ omega arith

    used : All Used order
    used = All-ranked Used shares (
        All-map (λ (t : Text × ℕ). get shares t.0 ≡ some t.1) Used shares used_of
          (entries_within shares shares (by_name-Distinct a skip labels [] b tt) (λ k v e. e)))
