-- ===== src/Report/Progress.antt =====
-- report/data.py, load_campaign from the points and clients of the manifest on to the cells, and the
-- counts of runs that a page compares: Campaign.expected_runs and Campaign.done_runs.
mod Within
mod Filled
pub mod Complete
use Prim.Native.String.{String}
use text.Mathlib.Text.{◌==◌ as str_eq}
use text.Mathlib.TextEquality.{eq_iff}
use mqtt_python_client_bench.Prelude.{
  ℕ, zero, suc, ◌+◌, ◌*◌, ◌≡◌, ◌↔◌, arith, Bool, true, ◌&&◌, List, [], ◌∷◌, ◌++◌, if◌then◌else◌,
  Option, none, some, length,
}
use mqtt_python_client_bench.Dict.{Dict, Eq, string_eq, get, put}
use mqtt_python_client_bench.Campaign.{RunDoc, Store}
use mqtt_python_client_bench.Campaign.Refusals.{names}
use mqtt_python_client_bench.Report.{Cell, cell_of}

abbrev pub same_pair : String × String → String × String → Bool
same_pair a b = str_eq a.0 b.0 && str_eq a.1 b.1

pub same_pair_iff : (a b : String × String) → (same_pair a b ≡ true) ↔ (a ≡ b)
same_pair_iff a b = ground (arith, eq_iff a.0 b.0, eq_iff a.1 b.1)

instance abbrev pub pair_eq : Eq (String × String)
pair_eq = record { beq = same_pair; beq_iff = same_pair_iff }

-- [c for c in docs if c not in clients]
abbrev pub unlisted : List String → Store → List String
unlisted clients [] = []
unlisted clients ((c, d) ∷ s) =
    if names clients c then unlisted clients s else c ∷ unlisted clients s

unfoldable pub shown_clients : List String → Store → List String
shown_clients clients s = clients ++ unlisted clients s

-- The loop over the runs of one document; `known` holds the names of `points`.
unfoldable pub add_points : List String → List RunDoc → List String
add_points points [] = points
add_points points (r ∷ runs) =
    if names points r.key.point
    then add_points points runs
    else add_points (points ++ r.key.point ∷ []) runs

unfoldable pub shown_points : List String → Store → List String
unfolding add_points
shown_points points [] = points
shown_points points ((c, d) ∷ s) = shown_points (add_points points d.runs) s

abbrev pub Cells : Type 0
Cells = Dict (String × String) Cell

-- for client in clients: cells[(p["name"], client)] = Cell(...)
unfoldable pub fill_point : Store → String → List String → Cells → Cells
fill_point s p [] cells = cells
fill_point s p (c ∷ clients) cells = fill_point s p clients (put cells (p, c) (cell_of s p c))

-- for p in points: ...
unfoldable pub fill : Store → List String → List String → Cells → Cells
unfolding fill_point
fill s [] clients cells = cells
fill s (p ∷ points) clients cells = fill s points clients (fill_point s p clients cells)

pub record Loaded : Type 0 where
  pub points : List String
  pub clients : List String
  pub cells : Cells
  pub runs_per_point : ℕ

-- From what the manifest names, and the documents. The source reads them in the order of their file
-- names and not in that of the store, which only changes the order of what the manifest does not name.
unfoldable pub load : List String → List String → ℕ → Store → Loaded
load points clients runs s =
    let all_points = shown_points points s in
    let all_clients = shown_clients clients s in
    record {
      points = all_points;
      clients = all_clients;
      cells = fill s all_points all_clients [];
      runs_per_point = runs;
    }

-- Every pair of a point and a client has a cell.
abbrev pub one_if_able : Option Cell → ℕ
one_if_able none = 0
one_if_able (some cell) = if cell.refused then 0 else 1

unfoldable pub able_clients : Cells → String → List String → ℕ
able_clients cells p [] = 0
able_clients cells p (c ∷ clients) = one_if_able (get cells (p, c)) + able_clients cells p clients

unfoldable pub able_pairs : Cells → List String → List String → ℕ
unfolding able_clients
able_pairs cells [] clients = 0
able_pairs cells (p ∷ points) clients =
    able_clients cells p clients + able_pairs cells points clients

-- int(self.manifest.get("runs_per_point") or 1)
abbrev pub or_one : ℕ → ℕ
or_one zero = 1
or_one (suc n) = suc n

-- Campaign.expected_runs
unfoldable pub expected_runs : Loaded → ℕ
expected_runs l = able_pairs l.cells l.points l.clients * or_one l.runs_per_point

abbrev pub total_runs : Cells → ℕ
total_runs [] = 0
total_runs ((k, cell) ∷ cells) = length cell.runs + total_runs cells

-- Campaign.done_runs
unfoldable pub done_runs : Loaded → ℕ
done_runs l = total_runs l.cells
