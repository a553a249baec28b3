-- ===== src/Report/Selection/Uniform.antt =====
-- report/data.py, load_campaign: "a cell cannot combine different runtimes".
use Prim.Native.String.{String}
use text.Mathlib.Text.{◌==◌ as str_eq}
use text.Mathlib.TextEquality.{eq_iff}
use mqtt_python_client_bench.Prelude.{
  ◌≡◌, refl, sym, ◌∙◌, subst, inl, inr, Bool, true, false, not, Option, none, some, List, [], ◌∷◌,
  ltb, if◌then◌else◌, ◌&&◌, any, length, Result, ok, err,
}
use mqtt_python_client_bench.Catalog.{same_flag}
use mqtt_python_client_bench.Report.Selection.{
  Shown, build_of, gil_of, builds, gil_states, is_recorded, mixed_gil, differs, Campaign, LoadError,
  mixed_builds, other_runtime, unless_mixed, load_campaign,
}
use mqtt_python_client_bench.Report.Selection.Sets.{
  In, one_of, at_most_one, builds-In, same_flag_iff, gil_states-In,
}

-- All runs had one build, the one that the manifest records if it does; and the runs of a client at a
-- point, where they say so, had the GIL enabled all or none.
pub record Uniform (c : Campaign) : Type 0 where
  pub one_build :
      (r s : Shown) (a b : String)
      → In r c.runs
      → In s c.runs
      → build_of r ≡ some a
      → build_of s ≡ some b
      → a ≡ b
  pub as_recorded :
      (r : Shown) (a expected : String)
      → In r c.runs
      → build_of r ≡ some a
      → c.recorded ≡ some expected
      → a ≡ expected
  pub one_gil_state :
      (r s : Shown) (a b : Bool)
      → In r c.runs
      → In s c.runs
      → r.client ≡ s.client
      → r.point ≡ s.point
      → gil_of r ≡ some a
      → gil_of s ≡ some b
      → a ≡ b

-- No cell of a recorded state is mixed.
mixed_gil-none :
    (all runs : List Shown) (r : Shown) (a : Bool)
    → mixed_gil all runs ≡ none
    → In r runs
    → gil_of r ≡ some a
    → ltb 1 (length (gil_states r.client r.point [] all)) ≡ false
unfolding mixed_gil
mixed_gil-none all [] r a h i e = absurd i
mixed_gil-none all (s ∷ runs) r a h i e =
    let (few, rest) =
      none_of (s.client, s.point) (mixed_gil all runs)
        (is_recorded (gil_of s) && ltb 1 (length (gil_states s.client s.point [] all))) h in
    elim i [
      | inl same ↦ recorded (ltb 1 (length (gil_states r.client r.point [] all))) (gil_of r) e (
          subst
            (λ x.
              (is_recorded (gil_of x) && ltb 1 (length (gil_states x.client x.point [] all)))
              ≡ false)
            same few)
      | inr later ↦ mixed_gil-none all runs r a rest later e
    ]
  where
    none_of :
        (pair : String × String) (rest : Option (String × String)) (t : Bool)
        → (if t then some pair else rest) ≡ none
        → (t ≡ false) × (rest ≡ none)
    none_of pair rest true k = absurd (cc)
    none_of pair rest false k = (refl, k)

    recorded : (b : Bool) (o : Option Bool) → o ≡ some a → (is_recorded o && b) ≡ false → b ≡ false
    recorded b none k x = absurd (cc)
    recorded b (some g) k x = x

differs-one :
    (b : String) (expected : String) (seen : List String)
    → differs (some expected) seen ≡ false
    → any (str_eq b) seen ≡ true
    → b ≡ expected
differs-one b expected [] d h = absurd (cc)
differs-one b expected (x ∷ []) d h =
    one_of str_eq eq_iff b x h ∙ (eq_iff x expected).0 (not_false (str_eq x expected) d)
  where
    not_false : (t : Bool) → not t ≡ false → t ≡ true
    not_false true k = refl
    not_false false k = absurd (cc)
differs-one b expected (x ∷ y ∷ seen) d h = absurd (cc)

-- What load_campaign has tested when it accepts.
record Tested (c : Campaign) : Type 0 where
  gil : mixed_gil c.runs c.runs ≡ none
  few : ltb 1 (length (builds [] c.runs)) ≡ false
  same : differs c.recorded (builds [] c.runs) ≡ false

load_campaign-Tested : (c d : Campaign) → load_campaign c ≡ ok d → (c ≡ d) × Tested c
unfolding load_campaign
load_campaign-Tested c d h = by_gil (mixed_gil c.runs c.runs) refl h
  where
    refuse : {e : LoadError} {A : Type 0} → ◌≡◌ {A = Result LoadError Campaign} (err e) (ok d) → A
    refuse k = absurd (cc)

    accept : {c d : Campaign} → ◌≡◌ {A = Result LoadError Campaign} (ok c) (ok d) → c ≡ d
    accept k = cc

    by_same :
        mixed_gil c.runs c.runs ≡ none
        → ltb 1 (length (builds [] c.runs)) ≡ false
        → (b : Bool) → differs c.recorded (builds [] c.runs) ≡ b
        → (if b then err other_runtime else ok c) ≡ ok d
        → (c ≡ d) × Tested c
    by_same g f true e k = refuse k
    by_same g f false e k = (accept k, record { gil = g; few = f; same = e })

    by_few :
        mixed_gil c.runs c.runs ≡ none
        → (b : Bool) → ltb 1 (length (builds [] c.runs)) ≡ b
        → (if b
            then err mixed_builds
            else if differs c.recorded (builds [] c.runs)
            then err other_runtime
            else ok c)
          ≡ ok d
        → (c ≡ d) × Tested c
    by_few g true e k = refuse k
    by_few g false e k = by_same g e (differs c.recorded (builds [] c.runs)) refl k

    by_gil :
        (o : Option (String × String))
        → mixed_gil c.runs c.runs ≡ o
        → unless_mixed o c ≡ ok d
        → (c ≡ d) × Tested c
    by_gil (some (client, point)) e k = refuse k
    by_gil none e k = by_few e (ltb 1 (length (builds [] c.runs))) refl k

Tested-Uniform : (c : Campaign) → Tested c → Uniform c
Tested-Uniform c t = record {
  one_build = λ r s a b i j x y.
      at_most_one str_eq eq_iff a b (builds [] c.runs) t.few (builds-In a [] c.runs r i x)
        (builds-In b [] c.runs s j y);
  as_recorded = λ r a expected i x e.
      differs-one a expected (builds [] c.runs)
        (subst (λ o. differs o (builds [] c.runs) ≡ false) e t.same) (builds-In a [] c.runs r i x);
  one_gil_state = λ r s a b i j same_client same_point x y.
      at_most_one same_flag same_flag_iff a b (gil_states r.client r.point [] c.runs)
        (mixed_gil-none c.runs c.runs r a t.gil i x)
        (gil_states-In r.client r.point a [] c.runs r i refl refl x)
        (gil_states-In r.client r.point b [] c.runs s j (sym same_client) (sym same_point) y);
}

-- A campaign that load_campaign accepts is given back as it is, and is uniform.
pub load_campaign-Uniform : (c d : Campaign) → load_campaign c ≡ ok d → (c ≡ d) × Uniform d
load_campaign-Uniform c d h =
    let (e, t) = load_campaign-Tested c d h in (e, subst Uniform e (Tested-Uniform c t))
