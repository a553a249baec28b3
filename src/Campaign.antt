-- ===== src/Campaign.antt =====
-- bench/campaign.py: the order of the runs, the store of their records, and the two passes that run
-- and retry. A document is the part of `<client>.json` that the campaign reads back. What a run
-- returns is a parameter: the status of the n-th attempt at a key.
pub mod Plan
pub mod Attempts
pub mod Passes
pub mod Refusals
pub mod Whole
pub mod Resume
use Prim.Native.String.{String}
use mqtt_python_client_bench.Prelude.{
  ℕ, zero, suc, ◌+◌, ◌%◌, ◌≡◌, ◌↔◌, Bool, true, false, not, Option, none, some, List, [], ◌∷◌, ◌++◌,
  ltb, leb, ◌==◌, if◌then◌else◌, ◌&&◌, ◌||◌, length, take, drop, any, all, arith,
}
use mqtt_python_client_bench.Dict.{Dict, Eq, string_eq, get, put}
use mqtt_python_client_bench.Checks.Items.{Status, invalid, is_invalid}
use text.Mathlib.Text.{◌==◌ as str_eq}
use text.Mathlib.TextEquality.{eq_iff}

abbrev pub max_attempts : ℕ
max_attempts = 2

-- (point, client, run)
pub record Key : Type 0 where
  pub point : String
  pub client : String
  pub run : ℕ

abbrev pub same_key : Key → Key → Bool
same_key a b = str_eq a.point b.point && (str_eq a.client b.client && a.run == b.run)

-- [c for c in clients if not refusals(c, point)]
unfoldable pub able : (String → Bool) → List String → List String
able refused [] = []
able refused (c ∷ clients) = if refused c then able refused clients else c ∷ able refused clients

-- able[k:] + able[:k]
abbrev pub rotate {ℓ} : {A : Type ℓ} → ℕ → List A → List A
rotate k xs = drop k xs ++ take k xs

abbrev pub keys_of : String → ℕ → List String → List Key
keys_of point i [] = []
keys_of point i (c ∷ clients) =
    record { point = point; client = c; run = i } ∷ keys_of point i clients

-- i % len(able) if able else 0
abbrev pub turn : ℕ → List String → ℕ
turn i [] = 0
turn i (c ∷ clients) = i % suc (length clients)

-- for i in range(first, first + n), for one point
unfoldable pub plan_point : String → List String → ℕ → ℕ → List Key
plan_point point clients zero i = []
plan_point point clients (suc n) i =
    keys_of point i (rotate (turn i clients) clients) ++ plan_point point clients n (i + 1)

-- The keys in execution order, supported pairs only. `refused client point` says that the client
-- cannot run the point.
unfoldable pub plan : (String → String → Bool) → List String → List String → ℕ → List Key
unfolding plan_point able
plan refused [] clients runs = []
plan refused (point ∷ points) clients runs =
    plan_point point (able (λ c. refused c point) clients) runs 0
    ++ plan refused points clients runs

pub record RunDoc : Type 0 where
  pub key : Key
  pub status : Status
  pub attempt : ℕ

-- A client's document: its runs, and the points that it cannot run.
pub record Doc : Type 0 where
  pub runs : List RunDoc
  pub unsupported : List String

abbrev pub Store : Type 0
Store = Dict String Doc

abbrev pub new_doc : Doc
new_doc = record { runs = []; unsupported = [] }

abbrev pub doc_or_new : Option Doc → Doc
doc_or_new none = new_doc
doc_or_new (some d) = d

-- store.doc(client)
abbrev pub doc : Store → String → Doc
doc s client = doc_or_new (get s client)

unfoldable pub matching : Key → List RunDoc → List RunDoc
matching k [] = []
matching k (r ∷ runs) =
    if str_eq r.key.point k.point && r.key.run == k.run
    then r ∷ matching k runs
    else matching k runs

-- The attempts in a client's document, if there is one.
abbrev pub doc_attempts : Option Doc → Key → List RunDoc
doc_attempts none k = []
doc_attempts (some d) k = matching k d.runs

unfoldable pub attempts : Store → Key → List RunDoc
attempts s k = doc_attempts (get s k.client) k

unfoldable pub done : Store → Key → Bool
unfolding attempts
done s k =
    any (λ r. not (is_invalid r.status)) (attempts s k) || leb max_attempts (length (attempts s k))

-- store.add(record)
unfoldable pub add : Store → RunDoc → Store
unfolding put get
add s r = let d = doc s r.key.client in put s r.key.client (record d { runs = d.runs ++ r ∷ [] })

-- The document with the point among those that its client cannot run, once.
unfoldable pub listing : Doc → String → Doc
listing d point =
    if any (λ p. str_eq p point) d.unsupported
    then d
    else record d { unsupported = d.unsupported ++ point ∷ [] }

-- store.add_unsupported(record), without the reasons
unfoldable pub add_unsupported : Store → String → String → Store
unfolding put get listing
add_unsupported s client point = put s client (listing (doc s client) point)

-- The runs of one pass, in order.
unfoldable pub run_pass : (ℕ → Key → Status) → ℕ → List Key → Store → Store
unfolding add
run_pass outcome n [] s = s
run_pass outcome n (k ∷ todo) s =
    run_pass outcome n todo (add s (record { key = k; status = outcome n k; attempt = n }))

-- [k for k in order if not store.done(k) and len(store.attempts(k)) == attempt]
unfoldable pub to_do : ℕ → List Key → Store → List Key
unfolding done
to_do n [] s = []
to_do n (k ∷ order) s =
    if not (done s k) && length (attempts s k) == n then k ∷ to_do n order s else to_do n order s

-- for attempt in range(max_attempts); a pass with nothing to do leaves the store as it is.
unfoldable pub run_passes : (ℕ → Key → Status) → List Key → Store → Store
unfolding run_pass to_do
run_passes outcome order s =
    let first = run_pass outcome 0 (to_do 0 order s) s in
    run_pass outcome 1 (to_do 1 order first) first

-- The clients that cannot run one point, and then all such pairs, point by point.
unfoldable pub add_refusals : (String → Bool) → String → List String → Store → Store
unfolding add_unsupported
add_refusals refused point [] s = s
add_refusals refused point (c ∷ clients) s =
    add_refusals refused point clients (if refused c then add_unsupported s c point else s)

unfoldable pub add_all_refusals :
    (String → String → Bool) → List String → List String → Store → Store
unfolding add_refusals
add_all_refusals refused [] clients s = s
add_all_refusals refused (point ∷ points) clients s =
    add_all_refusals refused points clients (add_refusals (λ c. refused c point) point clients s)

-- The campaign on a store whose manifest agrees with its settings.
unfoldable pub run_campaign :
    (ℕ → Key → Status) → (String → String → Bool) → List String → List String → ℕ → Store → Store
unfolding add_all_refusals plan run_passes done
run_campaign outcome refused points clients runs s =
    let noted = add_all_refusals refused points clients s in
    let order = plan refused points clients runs in
    if all (λ k. done noted k) order then noted else run_passes outcome order noted
