-- ===== src/Campaign/Resume.antt =====
-- bench/campaign.py, the manifest: what a campaign was started with, the settings that resuming reads
-- from it, and what run_campaign refuses before it opens a session. A manifest is the part that is
-- read back; a recorded point has its name. V is the type of a recorded value of the environment.
pub mod Dicts
pub mod Again
use Prim.Native.String.{String}
use text.Mathlib.Text.{◌==◌ as str_eq}
use mqtt_python_client_bench.Prelude.{
  ℕ, zero, suc, ◌≡◌, Bool, true, false, not, Option, none, some, List, [], ◌∷◌, ◌++◌, ◌==◌,
  if◌then◌else◌, ◌&&◌, any, all, map, Result, ok, err, ◌>>=◌,
}
use mqtt_python_client_bench.Dict.{Dict, Eq, string_eq, get, put}
use mqtt_python_client_bench.Catalog.{
  Point, Value, text_value, is_default, same_flag, as_dict, read, text_of, Profile, profiles,
}
use mqtt_python_client_bench.Catalog.Resolve.{all_points}

-- a == b of two dicts: each entry of the one is in the other.
abbrev pub covers : Dict String Value → Dict String Value → Bool
covers [] e = true
covers ((k, v) ∷ d) e = is_default (get e k) v && covers d e

unfoldable pub same_dict : Dict String Value → Dict String Value → Bool
same_dict d e = covers d e && covers e d

abbrev pub same_dicts : List (Dict String Value) → List (Dict String Value) → Bool
same_dicts [] [] = true
same_dicts (d ∷ ds) (e ∷ es) = same_dict d e && same_dicts ds es
same_dicts _ _ = false

abbrev pub same_texts : List String → List String → Bool
same_texts [] [] = true
same_texts (s ∷ ss) (t ∷ ts) = str_eq s t && same_texts ss ts
same_texts _ _ = false

abbrev pub same_profile : Profile → Profile → Bool
same_profile a b =
    str_eq a.name b.name
    && (a.warmup_ms == b.warmup_ms
        && (a.measure_ms == b.measure_ms
            && (a.drain_ms == b.drain_ms
                && (a.runs == b.runs && same_flag a.comparable b.comparable))))

abbrev pub keys {ℓ} : {A : Type ℓ} → Dict String A → List String
keys [] = []
keys ((k, v) ∷ d) = k ∷ keys d

-- {c: installed_version(c) for c in clients}, added to a dict
unfoldable pub with_versions :
    (String → String) → List String → Dict String String → Dict String String
unfolding put
with_versions version [] d = d
with_versions version (c ∷ clients) d = with_versions version clients (put d c (version c))

pub record Settings : Type 0 where
  pub profile : Profile
  pub points : List Point
  pub clients : List String
  pub runs : ℕ

pub data ResumeError : Type 0 where
  nothing_to_resume : ResumeError
  unknown_profile : String → ResumeError
  changed_point : String → ResumeError

pub data Mismatch : Type 0 where
  profile_differs points_differ clients_differ runs_differ : Mismatch

pub data Refused : Type 0 where
  no_manifest : Refused
  other_settings : List Mismatch → Refused
  changed_environment : List String → Refused

abbrev pub name_of : Dict String Value → String
name_of recorded = text_of (read recorded "name" (text_value ""))

-- The catalogue's point for a recorded one, if it has not changed.
abbrev pub current : Dict String Value → Option Point → Result ResumeError Point
current recorded none = err (changed_point (name_of recorded))
current recorded (some p) =
    if same_dict (as_dict p) recorded then ok p else err (changed_point (name_of recorded))

unfoldable pub current_points : List (Dict String Value) → Result ResumeError (List Point)
current_points [] = ok []
current_points (recorded ∷ points) = current recorded (get all_points (name_of recorded)) >>= λ p.
    (current_points points >>= λ rest. ok (p ∷ rest))

abbrev pub recorded_points : List Point → List (Dict String Value)
recorded_points [] = []
recorded_points (p ∷ points) = as_dict p ∷ recorded_points points

-- What a manifest freezes before the first run.
pub record Frozen (V : Type 0) : Type 0 where
  pub runtime : V
  pub environments : V
  pub lock_digest : V
  pub harness : V
  pub sampling : V

abbrev pub entries : {V : Type 0} → Frozen V → Dict String V
entries f =
    ("runtime", f.runtime)
    ∷ ("environments", f.environments)
    ∷ ("lock_digest", f.lock_digest)
    ∷ ("harness", f.harness)
    ∷ ("sampling", f.sampling)
    ∷ []

pub record Manifest (V : Type 0) : Type 0 where
  pub profile : Profile
  pub points : List (Dict String Value)
  pub clients : Dict String String
  pub runs_per_point : ℕ
  -- the entries that freeze the environment, those that it has
  pub frozen : Dict String V

-- runs or profile.runs
abbrev pub runs_or : ℕ → Profile → ℕ
runs_or zero profile = profile.runs
runs_or (suc n) profile = suc n

abbrev pub with_runs : Settings → Settings
with_runs s = record s { runs = runs_or s.runs s.profile }

-- The manifest of a new campaign.
unfoldable pub manifest_of : {V : Type 0} → (String → String) → Settings → Frozen V → Manifest V
unfolding with_versions
manifest_of version s frozen = record {
  profile = s.profile;
  points = recorded_points s.points;
  clients = with_versions version s.clients [];
  runs_per_point = runs_or s.runs s.profile;
  frozen = entries frozen;
}

abbrev pub is_known : Profile → Bool
is_known profile = any (λ known. str_eq known.name profile.name) profiles

unfoldable pub resume_settings : {V : Type 0} → Option (Manifest V) → Result ResumeError Settings
unfolding current_points
resume_settings none = err nothing_to_resume
resume_settings (some m) =
    if is_known m.profile
    then (current_points m.points >>= λ points. ok (record {
      profile = m.profile;
      points = points;
      clients = keys m.clients;
      runs = m.runs_per_point;
    }))
    else err (unknown_profile m.profile.name)

abbrev pub unless : Bool → Mismatch → List Mismatch
unless same mismatch = if same then [] else mismatch ∷ []

-- _mismatches
unfoldable pub mismatches : {V : Type 0} → Manifest V → Settings → List Mismatch
unfolding same_dict
mismatches m s =
    unless (same_profile m.profile s.profile) profile_differs
    ++ (unless (same_dicts m.points (recorded_points s.points)) points_differ
        ++ (unless (same_texts (keys m.clients) s.clients) clients_differ
            ++ unless (m.runs_per_point == s.runs) runs_differ))

module _ {V : Type 0} ⦃eq : Eq V⦄ where
  abbrev pub agrees : Option V → V → Bool
  agrees none v = false
  agrees (some w) v = eq.beq w v

  -- [k for k, v in frozen.items() if k not in existing or existing[k] != v]
  unfoldable pub changed : Dict String V → Dict String V → List String
  changed [] existing = []
  changed ((k, v) ∷ frozen) existing =
      if agrees (get existing k) v then changed frozen existing else k ∷ changed frozen existing

  abbrev pub unless_changed : Manifest V → List String → Result Refused (Manifest V)
  unless_changed m [] = ok m
  unless_changed m (k ∷ ks) = err (changed_environment (k ∷ ks))

  abbrev pub unless_mismatched :
      Manifest V → Dict String V → List Mismatch → Result Refused (Manifest V)
  unless_mismatched m frozen [] = unless_changed m (changed frozen m.frozen)
  unless_mismatched m frozen (x ∷ xs) = err (other_settings (x ∷ xs))

  -- run_campaign as far as its manifest: refused, or the manifest that the campaign goes on with.
  -- `documents` says that the store has some.
  unfoldable pub admit :
      (String → String)
      → Option (Manifest V)
      → Bool
      → Settings
      → Frozen V
      → Result Refused (Manifest V)
  unfolding manifest_of changed
  admit version none documents s frozen =
      if documents then err no_manifest else ok (manifest_of version s frozen)
  admit version (some m) documents s frozen =
      unless_mismatched m (entries frozen) (mismatches m (with_runs s))
