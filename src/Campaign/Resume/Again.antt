-- ===== src/Campaign/Resume/Again.antt =====
-- bench/campaign.py: what resume_settings reads from a manifest is what run_campaign accepts with it.
use Prim.Native.String.{String}
use mqtt_python_client_bench.Prelude.{
  ℕ, zero, suc, ◌<◌, ◌≡◌, refl, sym, ap, ◌∙◌, subst, Bool, true, false, Option, none, some, List,
  [], ◌∷◌, ◌==◌, if◌then◌else◌, arith, Result, ok, err, ◌>>=◌, All,
}
use mqtt_python_client_bench.Dict.{Dict, Eq, string_eq, get}
use mqtt_python_client_bench.Catalog.{Point, Value, as_dict, Profile}
use mqtt_python_client_bench.Catalog.Recorded.{point_of-as_dict}
use mqtt_python_client_bench.Catalog.Resolve.{all_points}
use mqtt_python_client_bench.Campaign.Resume.{
  same_dict, same_dicts, same_texts, same_profile, recorded_points, name_of, current,
  current_points, Settings, Manifest, Frozen, entries, keys, with_versions, is_known,
  resume_settings, ResumeError, changed_point, unknown_profile, mismatches, runs_or, with_runs,
  unless_changed, unless_mismatched, changed, admit, manifest_of,
}
use mqtt_python_client_bench.Campaign.Resume.Dicts.{
  same_dict_sym, same_dict-as_dict, same_texts_refl, same_profile_refl, ==_refl,
}

-- Each recorded point is one of the catalogue, as it is there.
pub data Unchanged : List (Dict String Value) → List Point → Type 0 where
  no_points : Unchanged [] []
  one_more :
      (recorded : Dict String Value) (p : Point) (ds : List (Dict String Value)) (ps : List Point)
      → get all_points (name_of recorded) ≡ some p
      → same_dict (as_dict p) recorded ≡ true
      → Unchanged ds ps
      → Unchanged (recorded ∷ ds) (p ∷ ps)

err-≢ : {A : Type 0} {e : ResumeError} {a : A} → ◌≡◌ {A = Result ResumeError A} (err e) (ok a) → ⊥
err-≢ h = cc

ok_inj : {A : Type 0} {a b : A} → ◌≡◌ {A = Result ResumeError A} (ok a) (ok b) → a ≡ b
ok_inj h = cc

current-ok :
    (recorded : Dict String Value) (o : Option Point) (p : Point)
    → current recorded o ≡ ok p
    → (o ≡ some p) × (same_dict (as_dict p) recorded ≡ true)
current-ok recorded none p h = absurd (err-≢ h)
current-ok recorded (some q) p h = by_test (same_dict (as_dict q) recorded) refl h
  where
    by_test :
        (b : Bool)
        → same_dict (as_dict q) recorded ≡ b
        → (if b then ok q else err (changed_point (name_of recorded))) ≡ ok p
        → (some q ≡ some p) × (same_dict (as_dict p) recorded ≡ true)
    by_test true e k =
        (ap some (ok_inj k), subst (λ x. same_dict (as_dict x) recorded ≡ true) (ok_inj k) e)
    by_test false e k = absurd (err-≢ k)

current_points-Unchanged :
    (ds : List (Dict String Value)) (ps : List Point) → current_points ds ≡ ok ps → Unchanged ds ps
unfolding current_points
current_points-Unchanged [] [] h = no_points
current_points-Unchanged [] (p ∷ ps) h = absurd (nil_cons (ok_inj h))
  where
    nil_cons : {q : Point} {qs : List Point} → [] ≡ q ∷ qs → ⊥
    nil_cons e = cc
current_points-Unchanged (d ∷ ds) ps h =
    parts ps (current d (get all_points (name_of d))) refl (current_points ds) refl h
      (current_points-Unchanged ds)
  where
    parts :
        (ps : List Point) (r : Result ResumeError Point)
        → current d (get all_points (name_of d)) ≡ r
        → (rest : Result ResumeError (List Point)) → current_points ds ≡ rest
        → (r >>= λ p. (rest >>= λ qs. ok (p ∷ qs))) ≡ ok ps
        → ((qs : List Point) → current_points ds ≡ ok qs → Unchanged ds qs)
        → Unchanged (d ∷ ds) ps
    parts ps (err e) c rest g h f = absurd (err-≢ h)
    parts ps (ok p) c (err e) g h f = absurd (err-≢ h)
    parts ps (ok p) c (ok qs) g h f =
        let (there, same) = current-ok d (get all_points (name_of d)) p c in
        subst (Unchanged (d ∷ ds)) (ok_inj h) (one_more d p ds qs there same (f qs g))

Unchanged-same_dicts :
    (ds : List (Dict String Value)) (ps : List Point)
    → Unchanged ds ps
    → same_dicts ds (recorded_points ps) ≡ true
Unchanged-same_dicts _ _ no_points = refl
Unchanged-same_dicts _ _ (one_more d p ds ps there same rest) =
    rw (same_dict_sym (as_dict p) d same, Unchanged-same_dicts ds ps rest) refl

-- What resume_settings takes from a manifest.
record Taken {V : Type 0} (m : Manifest V) (s : Settings) : Type 0 where
  known : is_known m.profile ≡ true
  profile : s.profile ≡ m.profile
  points : Unchanged m.points s.points
  clients : s.clients ≡ keys m.clients
  runs : s.runs ≡ m.runs_per_point

resume_settings-Taken :
    {V : Type 0} (m : Manifest V) (s : Settings) → resume_settings (some m) ≡ ok s → Taken m s
unfolding resume_settings
resume_settings-Taken m s h = by_name (is_known m.profile) refl h
  where
    settings : List Point → Settings
    settings points = record {
      profile = m.profile;
      points = points;
      clients = keys m.clients;
      runs = m.runs_per_point;
    }

    by_points :
        is_known m.profile ≡ true
        → (r : Result ResumeError (List Point)) → current_points m.points ≡ r
        → (r >>= λ points. ok (settings points)) ≡ ok s
        → Taken m s
    by_points known (err e) c h = absurd (err-≢ h)
    by_points known (ok points) c h = subst (Taken m) (ok_inj h) (record {
      known = known;
      profile = refl;
      points = current_points-Unchanged m.points points c;
      clients = refl;
      runs = refl;
    })

    by_name :
        (b : Bool)
        → is_known m.profile ≡ b
        → (if b
            then (current_points m.points >>= λ points. ok (settings points))
            else err (unknown_profile m.profile.name))
          ≡ ok s
        → Taken m s
    by_name false e h = absurd (err-≢ h)
    by_name true e h = by_points e (current_points m.points) refl h

no_mismatch :
    {V : Type 0} (m : Manifest V) (s : Settings)
    → same_profile m.profile s.profile ≡ true
    → same_dicts m.points (recorded_points s.points) ≡ true
    → same_texts (keys m.clients) s.clients ≡ true
    → (m.runs_per_point == s.runs) ≡ true
    → mismatches m s ≡ []
unfolding mismatches
no_mismatch m s p d c r = rw (p, d, c, r) refl

runs_or-pos : (n : ℕ) (profile : Profile) → 0 < n → runs_or n profile ≡ n
runs_or-pos zero profile h = absurd (omega arith)
runs_or-pos (suc n) profile h = refl

Taken-mismatches :
    {V : Type 0} (m : Manifest V) (s : Settings)
    → 0 < m.runs_per_point
    → Taken m s
    → mismatches m (with_runs s) ≡ []
Taken-mismatches m s pos t =
    no_mismatch m (with_runs s)
      (subst (λ p. same_profile m.profile p ≡ true) (sym t.profile) (same_profile_refl m.profile))
      (Unchanged-same_dicts m.points s.points t.points)
      (subst (λ c. same_texts (keys m.clients) c ≡ true) (sym t.clients)
        (same_texts_refl (keys m.clients)))
      (subst (λ n. (m.runs_per_point == n) ≡ true)
        (sym (ap (λ n. runs_or n s.profile) t.runs ∙ runs_or-pos m.runs_per_point s.profile pos))
        (==_refl m.runs_per_point))

-- The settings of a campaign, as its manifest has them: each client once.
abbrev pub started_with : (String → String) → Settings → Settings
started_with version s = record (with_runs s) {
  clients = keys (with_versions version s.clients []);
}

name_of-as_dict : (p : Point) → name_of (as_dict p) ≡ p.name
name_of-as_dict p = ap (λ (q : Point). q.name) (point_of-as_dict p)

current_points-recorded_points :
    (points : List Point)
    → All (λ p. get all_points p.name ≡ some p) points
    → current_points (recorded_points points) ≡ ok points
unfolding current_points
current_points-recorded_points [] h = refl
current_points-recorded_points (p ∷ points) h =
    rw (name_of-as_dict p, h.0, same_dict-as_dict p, current_points-recorded_points points h.1) refl

-- The manifest of a campaign gives its settings back.
pub resume_settings-manifest_of :
    {V : Type 0} (version : String → String) (s : Settings) (frozen : Frozen V)
    → is_known s.profile ≡ true
    → All (λ p. get all_points p.name ≡ some p) s.points
    → resume_settings (some (manifest_of version s frozen)) ≡ ok (started_with version s)
unfolding resume_settings manifest_of
resume_settings-manifest_of version s frozen known points =
    rw (known, current_points-recorded_points s.points points) refl

module _ {V : Type 0} ⦃eq : Eq V⦄ where
  -- What resume_settings reads from a manifest with a positive number of runs is never refused as
  -- other settings: run_campaign goes on with that manifest, or refuses it for what changed of the
  -- environment alone.
  pub admit-resume_settings :
      (version : String → String) (m : Manifest V) (documents : Bool) (s : Settings)
      (frozen : Frozen V)
      → resume_settings (some m) ≡ ok s
      → 0 < m.runs_per_point
      → admit version (some m) documents s frozen
        ≡ unless_changed m (changed (entries frozen) m.frozen)
  unfolding admit
  admit-resume_settings version m documents s frozen h pos =
      ap (unless_mismatched m (entries frozen))
        (Taken-mismatches m s pos (resume_settings-Taken m s h))
