-- ===== src/Report/Selection/Published.antt =====
-- report/data.py, select_campaign: the campaign that is published when none is named.
use Prim.Native.String.{String}
use mqtt_python_client_bench.Prelude.{
  ◌≡◌, refl, sym, ap, ◌∙◌, subst, Bool, true, false, not, Option, none, some, List, [], ◌∷◌, ◌++◌,
  append_assoc, append_none, ◌&&◌, any, Result, ok, err, ◌>>=◌,
}
use mqtt_python_client_bench.Report.Selection.{
  Shown, Campaign, LoadError, load_campaign, comparable, SelectError, loaded, newest,
  select_campaign,
}
use mqtt_python_client_bench.Report.Selection.Uniform.{Uniform, load_campaign-Uniform}

abbrev pub names : List Campaign → List String
names [] = []
names (d ∷ dirs) = d.name ∷ names dirs

-- Of directories from the newest on: the newest comparable one, which is uniform, and the names of the
-- others in order; or none, where none is comparable.
pub data Chosen : List Campaign → Option Campaign → List String → Type 0 where
  nobody : Chosen [] none []
  this :
      (d : Campaign) (dirs : List Campaign)
      → comparable d ≡ true
      → Uniform d
      → Chosen (d ∷ dirs) (some d) (names dirs)
  later :
      (d : Campaign) (dirs : List Campaign) (c : Option Campaign) (skipped : List String)
      → comparable d ≡ false
      → Chosen dirs c skipped
      → Chosen (d ∷ dirs) c (d.name ∷ skipped)

abbrev Answer : Type 0
Answer = Result SelectError (Option Campaign × List String)

same_answer :
    {c d : Option Campaign} {s t : List String}
    → ◌≡◌ {A = Answer} (ok (c, s)) (ok (d, t))
    → (c ≡ d) × (s ≡ t)
same_answer h = (cc, cc)

newest-some :
    (c : Campaign) (skipped : List String) (dirs : List Campaign)
    → newest (some c) skipped dirs ≡ ok (some c, skipped ++ names dirs)
unfolding newest
newest-some c skipped [] = ap (λ s. ok (some c, s)) (sym (append_none skipped))
newest-some c skipped (d ∷ dirs) =
    newest-some c (skipped ++ d.name ∷ []) dirs
    ∙ ap (λ s. ok (some c, s)) (append_assoc skipped (d.name ∷ []) (names dirs))

-- The answer adds to what was skipped before.
record Goes (dirs : List Campaign) (skipped : List String) (c : Option Campaign) (all : List String)
    : Type 0 where
  more : List String
  chosen : Chosen dirs c more
  names_of : all ≡ skipped ++ more

pass_on :
    (d : Campaign) (dirs : List Campaign) (skipped all : List String) (c : Option Campaign)
    → comparable d ≡ false
    → Goes dirs (skipped ++ d.name ∷ []) c all
    → Goes (d ∷ dirs) skipped c all
pass_on d dirs skipped all c h g = record {
  more = d.name ∷ g.more;
  chosen = later d dirs c g.more h g.chosen;
  names_of = g.names_of ∙ append_assoc skipped (d.name ∷ []) g.more;
}

not_comparable :
    (d : Campaign) → (d.profile_comparable && not d.sampling) ≡ false → comparable d ≡ false
unfolding comparable
not_comparable d h =
    parts d.profile_comparable (not d.sampling) (not (any (λ (r : Shown). r.instrumented) d.runs)) h
  where
    parts : (a b c : Bool) → (a && b) ≡ false → (a && (b && c)) ≡ false
    parts true true c h = absurd (cc)
    parts true false c h = refl
    parts false b c h = refl

module _ (d : Campaign) (dirs : List Campaign) (skipped all : List String) (c : Option Campaign)
    (rest : newest none (skipped ++ d.name ∷ []) dirs ≡ ok (c, all)
      → Goes dirs (skipped ++ d.name ∷ []) c all) where
  by_comparable :
      (b : Bool)
      → comparable d ≡ b
      → Uniform d
      → (elim b [
        | true ↦ newest (some d) skipped dirs
        | false ↦ newest none (skipped ++ d.name ∷ []) dirs
      ])
        ≡ ok (c, all)
      → Goes (d ∷ dirs) skipped c all
  by_comparable true e u h =
      let (x, y) = same_answer (sym (newest-some d skipped dirs) ∙ h) in
      record {
        more = names dirs;
        chosen = subst (λ o. Chosen (d ∷ dirs) o (names dirs)) x (this d dirs e u);
        names_of = sym y;
      }
  by_comparable false e u h = pass_on d dirs skipped all c e (rest h)

  by_load :
      (r : Result LoadError Campaign)
      → load_campaign d ≡ r
      → (loaded r >>= λ x. elim (comparable x) [
        | true ↦ newest (some x) skipped dirs
        | false ↦ newest none (skipped ++ x.name ∷ []) dirs
      ])
        ≡ ok (c, all)
      → Goes (d ∷ dirs) skipped c all
  by_load (err e) l h = absurd (cc)
  by_load (ok x) l h =
      let (e, u) = load_campaign-Uniform d x l in
      let as_read =
        subst
          (λ (y : Campaign).
            (elim (comparable y) [
              | true ↦ newest (some y) skipped dirs
              | false ↦ newest none (skipped ++ y.name ∷ []) dirs
            ])
            ≡ ok (c, all))
          (sym e) h in
      by_comparable (comparable d) refl (subst Uniform (sym e) u) as_read

newest-Goes :
    (skipped all : List String) (dirs : List Campaign) (c : Option Campaign)
    → newest none skipped dirs ≡ ok (c, all)
    → Goes dirs skipped c all
unfolding newest
newest-Goes skipped all [] c h =
    let (e, f) = same_answer h in
    record {
      more = [];
      chosen = subst (λ o. Chosen [] o []) e nobody;
      names_of = sym f ∙ sym (append_none skipped);
    }
newest-Goes skipped all (d ∷ dirs) c h =
    by_candidate (d.profile_comparable && not d.sampling) refl
      (newest-Goes (skipped ++ d.name ∷ []) all dirs c) h
  where
    by_candidate :
        (b : Bool)
        → (d.profile_comparable && not d.sampling) ≡ b
        → (newest none (skipped ++ d.name ∷ []) dirs ≡ ok (c, all)
            → Goes dirs (skipped ++ d.name ∷ []) c all)
        → (elim b [
          | false ↦ newest none (skipped ++ d.name ∷ []) dirs
          | true ↦ loaded (load_campaign d) >>= λ x. elim (comparable x) [
            | true ↦ newest (some x) skipped dirs
            | false ↦ newest none (skipped ++ x.name ∷ []) dirs
          ]
        ])
          ≡ ok (c, all)
        → Goes (d ∷ dirs) skipped c all
    by_candidate false e ih h = pass_on d dirs skipped all c (not_comparable d e) (ih h)
    by_candidate true e ih h = by_load d dirs skipped all c ih (load_campaign d) refl h

-- Where no campaign is named and the choice ends without an error: the campaign chosen is the newest
-- comparable one, from a comparable profile, without sampling or an instrumented run, and is uniform
-- in its builds and GIL states; none is chosen only if none is comparable; and the others' names are
-- those passed over, in order.
pub select_campaign-Chosen :
    (dirs : List Campaign) (c : Option Campaign) (skipped : List String)
    → select_campaign none dirs ≡ ok (c, skipped)
    → Chosen dirs c skipped
unfolding select_campaign
select_campaign-Chosen dirs c skipped h =
    let g = newest-Goes [] skipped dirs c h in subst (Chosen dirs c) (sym g.names_of) g.chosen
