-- ===== src/Report/Selection.antt =====
-- report/data.py: what load_campaign refuses to show together, whether a campaign is comparable, and
-- select_campaign. A directory is what is read of it; a build is the JSON text of a runtime's identity
-- without gil_enabled. The runs of all documents stand in one list, in the order of the documents.
pub mod Sets
pub mod Uniform
pub mod Published
use Prim.Native.String.{String}
use text.Mathlib.Text.{◌==◌ as str_eq}
use mqtt_python_client_bench.Prelude.{
  ℕ, ◌≡◌, Bool, true, false, not, Option, none, some, List, [], ◌∷◌, ◌++◌, ltb, if◌then◌else◌, ◌&&◌,
  ◌||◌, any, length, Result, ok, err, ◌>>=◌, arith,
}
use mqtt_python_client_bench.Dict.{Dict, Eq, string_eq, get, put, get_or}
use mqtt_python_client_bench.Catalog.{same_flag}

pub record Identity : Type 0 where
  pub build : String
  pub gil_enabled : Option Bool

-- A stored run; `python` is the older record of a runtime, where it is not empty.
pub record Shown : Type 0 where
  pub client : String
  pub point : String
  pub runtime : Option Identity
  pub python : Option String
  pub instrumented : Bool

-- The build that a run says it had, if any, and whether the GIL was enabled.
abbrev pub build_of : Shown → Option String
build_of r = elim r.runtime [ none ↦ r.python | some identity ↦ some identity.build ]

abbrev pub gil_of : Shown → Option Bool
gil_of r = elim r.runtime [ none ↦ none | some identity ↦ identity.gil_enabled ]

-- s.add(x), in the order of the first additions
abbrev pub insert {ℓ} : {A : Type ℓ} → (A → A → Bool) → A → List A → List A
insert same x xs = if any (same x) xs then xs else xs ++ x ∷ []

abbrev pub insert_some {ℓ} : {A : Type ℓ} → (A → A → Bool) → Option A → List A → List A
insert_some same none xs = xs
insert_some same (some x) xs = insert same x xs

-- builds.add(...)
unfoldable pub builds : List String → List Shown → List String
builds seen [] = seen
builds seen (r ∷ runs) = builds (insert_some str_eq (build_of r) seen) runs

-- Of one cell: gil_states.setdefault(cell, set()).add(...)
abbrev pub add_gil : String → String → Shown → List Bool → List Bool
add_gil client point r seen =
    if str_eq r.client client && str_eq r.point point
    then insert_some same_flag (gil_of r) seen
    else seen

unfoldable pub gil_states : String → String → List Bool → List Shown → List Bool
gil_states client point seen [] = seen
gil_states client point seen (r ∷ runs) = gil_states client point (add_gil client point r seen) runs

pub data LoadError : Type 0 where
  mixed_gil_states : String → String → LoadError
  mixed_builds : LoadError
  other_runtime : LoadError

abbrev pub is_recorded : Option Bool → Bool
is_recorded none = false
is_recorded (some b) = true

-- The first cell with more than one state, in the order in which their states are first recorded.
unfoldable pub mixed_gil : List Shown → List Shown → Option (String × String)
unfolding gil_states
mixed_gil all [] = none
mixed_gil all (r ∷ runs) =
    if is_recorded (gil_of r) && ltb 1 (length (gil_states r.client r.point [] all))
    then some (r.client, r.point)
    else mixed_gil all runs

abbrev pub differs : Option String → List String → Bool
differs none seen = false
differs (some expected) [] = false
differs (some expected) (b ∷ []) = not (str_eq b expected)
differs (some expected) (b ∷ c ∷ seen) = true

-- What is read of a campaign's directory. `recorded` is the build of the manifest's runtime.
pub record Campaign : Type 0 where
  pub path : String
  pub name : String
  pub profile_comparable : Bool
  pub sampling : Bool
  pub recorded : Option String
  pub runs : List Shown

abbrev pub unless_mixed : Option (String × String) → Campaign → Result LoadError Campaign
unless_mixed (some (client, point)) c = err (mixed_gil_states client point)
unless_mixed none c =
    if ltb 1 (length (builds [] c.runs))
    then err mixed_builds
    else if differs c.recorded (builds [] c.runs)
    then err other_runtime
    else ok c

-- load_campaign, as far as it refuses
unfoldable pub load_campaign : Campaign → Result LoadError Campaign
unfolding builds mixed_gil
load_campaign c = unless_mixed (mixed_gil c.runs c.runs) c

-- Campaign.comparable
unfoldable pub comparable : Campaign → Bool
comparable c =
    c.profile_comparable && (not c.sampling && not (any (λ (r : Shown). r.instrumented) c.runs))

pub data SelectError : Type 0 where
  load_error : LoadError → SelectError
  no_campaign : String → SelectError

abbrev pub loaded : Result LoadError Campaign → Result SelectError Campaign
loaded (ok c) = ok c
loaded (err e) = err (load_error e)

-- The loop without a name, over the directories from the newest on.
unfoldable pub newest :
    Option Campaign
    → List String
    → List Campaign
    → Result SelectError (Option Campaign × List String)
unfolding load_campaign comparable
newest chosen skipped [] = ok (chosen, skipped)
newest (some c) skipped (d ∷ dirs) = newest (some c) (skipped ++ d.name ∷ []) dirs
newest none skipped (d ∷ dirs) = elim (d.profile_comparable && not d.sampling) [
  | false ↦ newest none (skipped ++ d.name ∷ []) dirs
  | true ↦ loaded (load_campaign d) >>= λ c. elim (comparable c) [
    | true ↦ newest (some c) skipped dirs
    | false ↦ newest none (skipped ++ c.name ∷ []) dirs
  ]
]

-- The loop with a name: the last of that name in its order, the oldest.
unfoldable pub by_name :
    String → Option Campaign → List Campaign → Result SelectError (Option Campaign)
unfolding load_campaign
by_name name chosen [] = ok chosen
by_name name chosen (d ∷ dirs) = elim (str_eq d.name name || str_eq d.path name) [
  | false ↦ by_name name chosen dirs
  | true ↦ loaded (load_campaign d) >>= λ c. by_name name (some c) dirs
]

abbrev pub or_missing :
    String → Option Campaign → Result SelectError (Option Campaign × List String)
or_missing name none = err (no_campaign name)
or_missing name (some c) = ok (some c, [])

-- select_campaign, over the directories from the newest on.
unfoldable pub select_campaign :
    Option String → List Campaign → Result SelectError (Option Campaign × List String)
unfolding newest by_name
select_campaign none dirs = newest none [] dirs
select_campaign (some name) dirs = by_name name none dirs >>= λ chosen. or_missing name chosen
