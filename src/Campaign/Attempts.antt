-- ===== src/Campaign/Attempts.antt =====
-- bench/campaign.py, the store: adding a record adds one attempt at its key and touches no other.
use Prim.Native.String.{String}
use text.Mathlib.Text.{◌==◌ as str_eq}
use text.Mathlib.TextEquality.{eq_iff}
use mqtt_python_client_bench.Prelude.{
  ℕ, ◌≡◌, refl, sym, ap, ◌∙◌, ap₂, subst, true, false, Option, none, some, List, [], ◌∷◌, ◌++◌,
  if◌then◌else◌, arith, Bool-cases, inl, inr, append_none,
}
use mqtt_python_client_bench.Dict.{string_eq, get, get-put_self, get-put_other}
use mqtt_python_client_bench.Campaign.{
  Key, same_key, RunDoc, Doc, Store, doc, matching, attempts, doc_attempts, doc_or_new, add,
}

pub same_key_self : (k : Key) → same_key k k ≡ true
same_key_self k = ground (arith, eq_iff k.point k.point, eq_iff k.client k.client)

pub same_key→eq : (a b : Key) → same_key a b ≡ true → a ≡ b
same_key→eq a b h =
    ap₂ (λ (p : String) (q : String × ℕ). record { point = p; client = q.0; run = q.1 })
      (ground (arith, eq_iff a.point b.point))
      (ap₂ (λ c i. (c, i)) (ground (arith, eq_iff a.client b.client)) (ground arith))

matching-append :
    (k : Key) (xs ys : List RunDoc) → matching k (xs ++ ys) ≡ matching k xs ++ matching k ys
unfolding matching
matching-append k [] ys = refl
matching-append k (r ∷ xs) ys = ground (arith, matching-append k xs ys)

pub doc_attempts_runs :
    (o : Option Doc) (k : Key) → doc_attempts o k ≡ matching k (doc_or_new o).runs
unfolding matching
doc_attempts_runs none k = refl
doc_attempts_runs (some d) k = refl

-- The last record of a document, where the client is the key's own.
matching_one :
    (r : RunDoc) (k : Key)
    → str_eq r.key.client k.client ≡ true
    → matching k (r ∷ []) ≡ (if same_key r.key k then r ∷ [] else [])
unfolding matching
matching_one r k h = ground arith

get_added :
    (s : Store) (r : RunDoc) (c : String)
    → r.key.client ≡ c
    → get (add s r) c
      ≡ some (record { runs = (doc s c).runs ++ r ∷ []; unsupported = (doc s c).unsupported })
unfolding add
get_added s r c h =
    subst
      (λ c.
        get (add s r) c
        ≡ some (record { runs = (doc s c).runs ++ r ∷ []; unsupported = (doc s c).unsupported }))
      h
      (get-put_self s r.key.client (record {
        runs = (doc s r.key.client).runs ++ r ∷ [];
        unsupported = (doc s r.key.client).unsupported;
      }))

other_key : (r : RunDoc) (k : Key) → str_eq r.key.client k.client ≡ false → same_key r.key k ≡ false
other_key r k h = ground arith

get_other :
    (s : Store) (r : RunDoc) (c : String)
    → str_eq r.key.client c ≡ false
    → get (add s r) c ≡ get s c
unfolding add
get_other s r c h =
    get-put_other s r.key.client c
      (record {
        runs = (doc s r.key.client).runs ++ r ∷ [];
        unsupported = (doc s r.key.client).unsupported;
      })
      h

-- Adding a record appends it to the attempts at its own key, and to no other.
pub attempts-add :
    (s : Store) (r : RunDoc) (k : Key)
    → attempts (add s r) k ≡ attempts s k ++ (if same_key r.key k then r ∷ [] else [])
unfolding attempts
attempts-add s r k = elim (Bool-cases (str_eq r.key.client k.client)) [
  | inl e ↦
      ap (λ o. doc_attempts o k) (get_added s r k.client ((eq_iff r.key.client k.client).0 e))
      ∙ matching-append k (doc s k.client).runs (r ∷ [])
      ∙ ap₂ (λ xs ys. xs ++ ys) (sym (doc_attempts_runs (get s k.client) k)) (matching_one r k e)
  | inr e ↦
      ap (λ o. doc_attempts o k) (get_other s r k.client e)
      ∙ sym (append_none (attempts s k))
      ∙ ap (λ b. attempts s k ++ (if b then r ∷ [] else [])) (sym (other_key r k e))
]
