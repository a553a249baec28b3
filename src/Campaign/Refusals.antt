-- ===== src/Campaign/Refusals.antt =====
-- bench/campaign.py: the points that a client cannot run, in its document.
use Prim.Native.String.{String}
use text.Mathlib.Text.{◌==◌ as str_eq}
use text.Mathlib.TextEquality.{eq_iff}
use mqtt_python_client_bench.Prelude.{
  ℕ, ◌≡◌, refl, sym, ap, subst, ◌∙◌, Bool, true, some, List, [], ◌∷◌, ◌++◌, ◌&&◌, ◌||◌, any, arith,
  Bool-cases, inl, inr,
}
use mqtt_python_client_bench.Dict.{get, put, get-put_self, get-put_other, string_eq}
use mqtt_python_client_bench.Checks.Items.{Status}
use mqtt_python_client_bench.Campaign.{
  Key, RunDoc, Doc, Store, doc, doc_or_new, doc_attempts, attempts, add, add_unsupported, listing,
  matching, run_pass, run_passes, to_do, add_refusals, add_all_refusals,
}
use mqtt_python_client_bench.Campaign.Attempts.{doc_attempts_runs}

-- The client's document names the point as one that it cannot run.
abbrev pub lists : Store → String → String → Bool
lists s client point = any (λ p. str_eq p point) (doc s client).unsupported

abbrev pub names : List String → String → Bool
names ps q = any (λ p. str_eq p q) ps

names-append : (q : String) (xs ys : List String) → names (xs ++ ys) q ≡ (names xs q || names ys q)
names-append q [] ys = refl
names-append q (x ∷ xs) ys = ground (arith, names-append q xs ys)

runs_listing : (d : Doc) (p : String) → (listing d p).runs ≡ d.runs
unfolding listing
runs_listing d p = elim (Bool-cases (names d.unsupported p)) [
  | inl e ↦ rw e refl
  | inr e ↦ rw e refl
]

names-listing :
    (d : Doc) (p q : String)
    → names (listing d p).unsupported q ≡ (names d.unsupported q || str_eq p q)
unfolding listing
names-listing d p q = elim (Bool-cases (names d.unsupported p)) [
  | inl e ↦ rw e (elim (Bool-cases (str_eq p q)) [
    | inl f ↦ ground (arith, ap (names d.unsupported) ((eq_iff p q).0 f))
    | inr f ↦ ground arith
  ])
  | inr e ↦ rw e (ground (arith, names-append q d.unsupported (p ∷ [])))
]

get_same : (s : Store) (c d : String) (v : Doc) → str_eq c d ≡ true → get (put s c v) d ≡ some v
get_same s c d v e = subst (λ i. get (put s c v) i ≡ some v) ((eq_iff c d).0 e) (get-put_self s c v)

attempts-add_unsupported :
    (s : Store) (c p : String) (k : Key) → attempts (add_unsupported s c p) k ≡ attempts s k
unfolding attempts add_unsupported
attempts-add_unsupported s c p k = elim (Bool-cases (str_eq c k.client)) [
  | inl e ↦
      ap (λ o. doc_attempts o k) (get_same s c k.client (listing (doc s c) p) e)
      ∙ ap (matching k) (runs_listing (doc s c) p)
      ∙ ap (λ i. matching k (doc s i).runs) ((eq_iff c k.client).0 e)
      ∙ sym (doc_attempts_runs (get s k.client) k)
  | inr e ↦ ap (λ o. doc_attempts o k) (get-put_other s c k.client (listing (doc s c) p) e)
]

lists-add_unsupported :
    (s : Store) (c p d q : String)
    → lists (add_unsupported s c p) d q ≡ (lists s d q || (str_eq c d && str_eq p q))
unfolding add_unsupported
lists-add_unsupported s c p d q = elim (Bool-cases (str_eq c d)) [
  | inl e ↦
      ap (λ o. names (doc_or_new o).unsupported q) (get_same s c d (listing (doc s c) p) e)
      ∙ names-listing (doc s c) p q
      ∙ ap (λ i. lists s i q || str_eq p q) ((eq_iff c d).0 e)
      ∙ ap (λ b. lists s d q || (b && str_eq p q)) (sym e)
  | inr e ↦
      ap (λ o. names (doc_or_new o).unsupported q) (get-put_other s c d (listing (doc s c) p) e)
      ∙ ground arith
]

lists-add : (s : Store) (r : RunDoc) (d q : String) → lists (add s r) d q ≡ lists s d q
unfolding add
lists-add s r d q = elim (Bool-cases (str_eq r.key.client d)) [
  | inl e ↦
      ap (λ o. names (doc_or_new o).unsupported q)
        (get_same s r.key.client d
          (record {
            runs = (doc s r.key.client).runs ++ r ∷ [];
            unsupported = (doc s r.key.client).unsupported;
          })
          e)
      ∙ ap (λ i. lists s i q) ((eq_iff r.key.client d).0 e)
  | inr e ↦
      ap (λ o. names (doc_or_new o).unsupported q)
        (get-put_other s r.key.client d
          (record {
            runs = (doc s r.key.client).runs ++ r ∷ [];
            unsupported = (doc s r.key.client).unsupported;
          })
          e)
]

lists-run_pass :
    (outcome : ℕ → Key → Status) (n : ℕ) (todo : List Key) (s : Store) (d q : String)
    → lists (run_pass outcome n todo s) d q ≡ lists s d q
unfolding run_pass
lists-run_pass outcome n [] s d q = refl
lists-run_pass outcome n (k ∷ todo) s d q =
    lists-run_pass outcome n todo (add s (record { key = k; status = outcome n k; attempt = n })) d
      q
    ∙ lists-add s (record { key = k; status = outcome n k; attempt = n }) d q

-- The passes change no list of points that a client cannot run.
pub lists-run_passes :
    (outcome : ℕ → Key → Status) (order : List Key) (s : Store) (d q : String)
    → lists (run_passes outcome order s) d q ≡ lists s d q
unfolding run_passes
lists-run_passes outcome order s d q =
    let first = run_pass outcome 0 (to_do 0 order s) s in
    lists-run_pass outcome 1 (to_do 1 order first) first d q
    ∙ lists-run_pass outcome 0 (to_do 0 order s) s d q

attempts-add_refusals :
    (refused : String → Bool) (p : String) (clients : List String) (s : Store) (k : Key)
    → attempts (add_refusals refused p clients s) k ≡ attempts s k
unfolding add_refusals
attempts-add_refusals refused p [] s k = refl
attempts-add_refusals refused p (c ∷ clients) s k = elim (Bool-cases (refused c)) [
  | inl e ↦ rw e (
      attempts-add_refusals refused p clients (add_unsupported s c p) k
      ∙ attempts-add_unsupported s c p k)
  | inr e ↦ rw e (attempts-add_refusals refused p clients s k)
]

-- Noting what the clients cannot run changes no attempt.
pub attempts-add_all_refusals :
    (refused : String → String → Bool) (points clients : List String) (s : Store) (k : Key)
    → attempts (add_all_refusals refused points clients s) k ≡ attempts s k
unfolding add_all_refusals
attempts-add_all_refusals refused [] clients s k = refl
attempts-add_all_refusals refused (p ∷ points) clients s k =
    attempts-add_all_refusals refused points clients (add_refusals (λ c. refused c p) p clients s) k
    ∙ attempts-add_refusals (λ c. refused c p) p clients s k

lists-add_refusals :
    (refused : String → Bool) (p : String) (clients : List String) (s : Store) (d q : String)
    → lists (add_refusals refused p clients s) d q
      ≡ (lists s d q || (str_eq p q && (refused d && names clients d)))
unfolding add_refusals
lists-add_refusals refused p [] s d q = ground arith
lists-add_refusals refused p (c ∷ clients) s d q = elim (Bool-cases (refused c)) [
  | inl e ↦ rw e (
      lists-add_refusals refused p clients (add_unsupported s c p) d q
      ∙ ground (arith, lists-add_unsupported s c p d q, eq_iff c d, ap refused))
  | inr e ↦
      rw e (lists-add_refusals refused p clients s d q ∙ ground (arith, eq_iff c d, ap refused))
]

-- A client's document names a point as one that it cannot run if it did so before, or if the
-- campaign has both and the client refuses the point, and never otherwise.
pub lists-add_all_refusals :
    (refused : String → String → Bool) (points clients : List String) (s : Store) (d q : String)
    → lists (add_all_refusals refused points clients s) d q
      ≡ (lists s d q || (refused d q && (names clients d && names points q)))
unfolding add_all_refusals
lists-add_all_refusals refused [] clients s d q = ground arith
lists-add_all_refusals refused (p ∷ points) clients s d q = elim (Bool-cases (str_eq p q)) [
  | inl e ↦
      lists-add_all_refusals refused points clients (add_refusals (λ c. refused c p) p clients s) d
        q
      ∙ ground (
        arith,
        lists-add_refusals (λ c. refused c p) p clients s d q,
        ap (refused d) ((eq_iff p q).0 e),
      )
  | inr e ↦
      lists-add_all_refusals refused points clients (add_refusals (λ c. refused c p) p clients s) d
        q
      ∙ ground (arith, lists-add_refusals (λ c. refused c p) p clients s d q)
]
