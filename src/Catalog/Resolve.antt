-- ===== src/Catalog/Resolve.antt =====
-- bench/catalog.py, resolve: the points of a campaign by name or by suite.
use Prim.Native.String.{String}
use text.Mathlib.Text.{◌==◌ as str_eq}
use text.Mathlib.TextEquality.{eq_iff}
use mqtt_python_client_bench.Prelude.{
  ◌≡◌, ◌≢◌, ◌⊎◌, refl, sym, ap, ap₂, ◌∙◌, Option, none, some, List, [], ◌∷◌, ◌++◌, arith,
  Bool-cases, Option-cases, inl, inr, Result, ok, err, ◌>>=◌,
}
use mqtt_python_client_bench.Dict.{Dict, string_eq, get, put, get-put_self, get-put_other}
use mqtt_python_client_bench.Catalog.{Point}
use mqtt_python_client_bench.Catalog.Points.{core, v5_mirror, extended}

abbrev pub suites : Dict String (List Point)
suites = ("core", core) ∷ ("v5", v5_mirror) ∷ ("extended", extended) ∷ []

-- {p.name: p for p in points}, added to a dict
unfoldable pub by_name : Dict String Point → List Point → Dict String Point
unfolding put
by_name d [] = d
by_name d (p ∷ points) = by_name (put d p.name p) points

unfoldable pub all_suites : Dict String Point → Dict String (List Point) → Dict String Point
unfolding by_name
all_suites d [] = d
all_suites d ((name, points) ∷ rest) = all_suites (by_name d points) rest

unfoldable pub all_points : Dict String Point
unfolding all_suites
all_points = all_suites [] suites

pub data ResolveError : Type 0 where
  unknown_points : List String → ResolveError
  unknown_suite : String → ResolveError

abbrev pub if_missing : Option Point → String → List String → List String
if_missing none n names = n ∷ names
if_missing (some p) n names = names

abbrev pub if_there : Option Point → List Point → List Point
if_there none points = points
if_there (some p) points = p ∷ points

-- [n for n in names if n not in ALL_POINTS]
unfoldable pub unknown : List String → List String
unknown [] = []
unknown (n ∷ names) = if_missing (get all_points n) n (unknown names)

-- [ALL_POINTS[n] for n in names], where each is a key
unfoldable pub named : List String → List Point
named [] = []
named (n ∷ names) = if_there (get all_points n) (named names)

abbrev pub unless_unknown : List String → List Point → Result ResolveError (List Point)
unless_unknown [] points = ok points
unless_unknown (n ∷ names) points = err (unknown_points (n ∷ names))

-- for suite in suites: out.extend(SUITES[suite])
unfoldable pub of_suites : List String → Result ResolveError (List Point)
of_suites [] = ok []
of_suites (s ∷ names) = elim (get suites s) [
  | none ↦ err (unknown_suite s)
  | some points ↦ of_suites names >>= λ rest. ok (points ++ rest)
]

abbrev pub or_core : List String → List String
or_core [] = "core" ∷ []
or_core (s ∷ names) = s ∷ names

-- No names, and an empty list of them, are the same to the code; so with suites.
unfoldable pub resolve : List String → List String → Result ResolveError (List Point)
unfolding of_suites
resolve [] chosen = of_suites (or_core chosen)
resolve (n ∷ names) chosen = unless_unknown (unknown (n ∷ names)) (named (n ∷ names))

-- A dict of points by their names.
IsByName : Dict String Point → Type 0
IsByName d = (n : String) (p : Point) → get d n ≡ some p → p.name ≡ n

put-IsByName : (d : Dict String Point) (p : Point) → IsByName d → IsByName (put d p.name p)
unfolding IsByName
put-IsByName d p h n q e = elim (Bool-cases (str_eq p.name n)) [
  | inl y ↦
      let m : p.name ≡ n = (eq_iff p.name n).0 y in
      some_name (sym (get-put_self d p.name p) ∙ ap (get (put d p.name p)) m ∙ e) ∙ m
  | inr f ↦ h n q (sym (get-put_other d p.name n p f) ∙ e)
]
  where
    some_name : {a b : Point} → some a ≡ some b → b.name ≡ a.name
    some_name {a} {b} i = let j : a ≡ b = cc in ap (λ r. r.name) (sym j)

by_name-IsByName :
    (d : Dict String Point) (points : List Point) → IsByName d → IsByName (by_name d points)
unfolding by_name
by_name-IsByName d [] h = h
by_name-IsByName d (p ∷ points) h = by_name-IsByName (put d p.name p) points (put-IsByName d p h)

all_suites-IsByName :
    (d : Dict String Point) (rest : Dict String (List Point))
    → IsByName d
    → IsByName (all_suites d rest)
unfolding all_suites
all_suites-IsByName d [] h = h
all_suites-IsByName d ((name, points) ∷ rest) h =
    all_suites-IsByName (by_name d points) rest (by_name-IsByName d points h)

all_points-IsByName : IsByName all_points
unfolding all_points IsByName
all_points-IsByName = all_suites-IsByName [] suites (unfold get in λ n p e. cc)

abbrev pub names_of : List Point → List String
names_of [] = []
names_of (p ∷ points) = p.name ∷ names_of points

names_of-named : (names : List String) → unknown names ≡ [] → names_of (named names) ≡ names
unfolding unknown named IsByName
names_of-named [] h = refl
names_of-named (n ∷ names) h = elim (Option-cases (get all_points n)) [
  | inl e ↦ no_cons (sym (ap (λ o. if_missing o n (unknown names)) e) ∙ h)
  | inr (p, e) ↦ rw e (
      ap₂ (λ m ms. m ∷ ms) (all_points-IsByName n p e)
        (names_of-named names (sym (ap (λ o. if_missing o n (unknown names)) e) ∙ h)))
]
  where
    no_cons : {A : Type 0} {x : String} {xs : List String} → ◌≡◌ {A = List String} (x ∷ xs) [] → A
    no_cons h = cc

list_cases : (names : List String) → (names ≡ []) ⊎ (names ≢ [])
list_cases [] = inl refl
list_cases (n ∷ names) = inr (λ e. ground arith)

raises :
    (names : List String) (points : List Point)
    → names ≢ []
    → unless_unknown names points ≡ err (unknown_points names)
raises [] points h = absurd (h refl)
raises (n ∷ names) points h = refl

-- Given names, `resolve` returns the points of those names in their order if each is in the
-- catalogue, and otherwise raises with every name that is not, in order.
pub resolve_names :
    (n : String) (names chosen : List String)
    → ((unknown (n ∷ names) ≡ [])
        × ((points : List Point) × (resolve (n ∷ names) chosen ≡ ok points)
            × (names_of points ≡ n ∷ names)))
      ⊎ ((unknown (n ∷ names) ≢ [])
          × (resolve (n ∷ names) chosen ≡ err (unknown_points (unknown (n ∷ names)))))
unfolding resolve
resolve_names n names chosen = elim (list_cases (unknown (n ∷ names))) [
  | inl h ↦ inl (
    h,
    (
      named (n ∷ names),
      ap (λ u. unless_unknown u (named (n ∷ names))) h,
      names_of-named (n ∷ names) h,
    ),
  )
  | inr h ↦ inr (h, raises (unknown (n ∷ names)) (named (n ∷ names)) h)
]
