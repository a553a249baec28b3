-- ===== src/Report.antt =====
-- report/data.py: how the stored runs of a campaign become one cell for each point and client. The
-- metrics, latencies and flags of a run stand in Report.Figures; of the reasons why a client cannot run
-- a point, the model has only that there are some.
pub mod Indices
pub mod Final
pub mod Latest
pub mod Cells
pub mod Selection
pub mod Figures
pub mod Progress
use Prim.Native.String.{String}
use text.Mathlib.Text.{◌==◌ as str_eq}
use mqtt_python_client_bench.Prelude.{
  ℕ, zero, suc, ◌+◌, ltb, leb, ◌==◌, Bool, true, false, List, [], ◌∷◌, ◌++◌, if◌then◌else◌, Option,
  none, some, any, length,
}
use mqtt_python_client_bench.Dict.{Dict, nat_eq, string_eq, get, put}
use mqtt_python_client_bench.Checks.Items.{Status, valid, not_sustained, invalid}
use mqtt_python_client_bench.Campaign.{RunDoc, Doc, Store, doc_or_new}

abbrev pub or_nothing : Option (List RunDoc) → List RunDoc
or_nothing none = []
or_nothing (some runs) = runs

-- by_index.setdefault(run_index, []).append(r)
unfoldable pub by_index : Dict ℕ (List RunDoc) → List RunDoc → Dict ℕ (List RunDoc)
by_index d [] = d
by_index d (r ∷ runs) = by_index (put d r.key.run (or_nothing (get d r.key.run) ++ r ∷ [])) runs

abbrev pub keys : Dict ℕ (List RunDoc) → List ℕ
keys [] = []
keys ((k, runs) ∷ d) = k ∷ keys d

-- sorted(by_index)
abbrev pub insert_index : ℕ → List ℕ → List ℕ
insert_index i [] = i ∷ []
insert_index i (j ∷ js) = let rest = insert_index i js in if leb i j then i ∷ j ∷ js else j ∷ rest

abbrev pub sort_indices : List ℕ → List ℕ
sort_indices [] = []
sort_indices (i ∷ is) = insert_index i (sort_indices is)

-- sorted(runs, key=attempt), which keeps the order of equal attempts
abbrev pub insert_run : RunDoc → List RunDoc → List RunDoc
insert_run r [] = r ∷ []
insert_run r (s ∷ runs) =
    let rest = insert_run r runs in if leb r.attempt s.attempt then r ∷ s ∷ runs else s ∷ rest

abbrev pub sort_attempts : List RunDoc → List RunDoc
sort_attempts [] = []
sort_attempts (r ∷ runs) = insert_run r (sort_attempts runs)

-- attempts[-1], for a list that is not empty, and attempts[:-1]
abbrev pub last_of : List RunDoc → List RunDoc
last_of [] = []
last_of (r ∷ []) = r ∷ []
last_of (r ∷ s ∷ runs) = last_of (s ∷ runs)

abbrev pub but_last : List RunDoc → List RunDoc
but_last [] = []
but_last (r ∷ []) = []
but_last (r ∷ s ∷ runs) = r ∷ but_last (s ∷ runs)

-- for index in sorted(by_index): ...
unfoldable pub collect : Dict ℕ (List RunDoc) → List ℕ → List RunDoc × List RunDoc
collect d [] = ([], [])
collect d (i ∷ is) =
    let attempts = sort_attempts (or_nothing (get d i)) in
    let rest = collect d is in (last_of attempts ++ rest.0, but_last attempts ++ rest.1)

unfoldable pub final_attempts : List RunDoc → List RunDoc × List RunDoc
final_attempts runs = let d = by_index [] runs in collect d (sort_indices (keys d))

pub record Cell : Type 0 where
  pub point : String
  pub client : String
  pub runs : List RunDoc
  pub retried : List RunDoc
  pub refused : Bool

-- Cell.count
abbrev pub is_status : Status → Status → Bool
is_status valid valid = true
is_status not_sustained not_sustained = true
is_status invalid invalid = true
is_status _ _ = false

abbrev pub n_status : Status → List RunDoc → ℕ
n_status s [] = 0
n_status s (r ∷ runs) = if is_status r.status s then suc (n_status s runs) else n_status s runs

pub data State : Type 0 where
  unsupported missing : State
  ended : Status → State

-- Cell.state
unfoldable pub state : Cell → State
state c =
    if c.refused
    then unsupported
    else if ltb 0 (n_status valid c.runs)
    then ended valid
    else if ltb 0 (n_status not_sustained c.runs)
    then ended not_sustained
    else if ltb 0 (length c.runs)
    then ended invalid
    else missing

-- [r for r in doc.get("runs", []) if r["point"]["name"] == p["name"]]
abbrev pub runs_of : String → List RunDoc → List RunDoc
runs_of p [] = []
runs_of p (r ∷ runs) = if str_eq r.key.point p then r ∷ runs_of p runs else runs_of p runs

-- The cell that load_campaign makes for a point and a client.
unfoldable pub cell_of : Store → String → String → Cell
cell_of s p c =
    let d = doc_or_new (get s c) in
    let runs = final_attempts (runs_of p d.runs) in
    record {
      point = p;
      client = c;
      runs = runs.0;
      retried = runs.1;
      refused = any (λ u. str_eq u p) d.unsupported;
    }
