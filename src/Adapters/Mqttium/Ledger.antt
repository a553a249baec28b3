-- ===== src/Adapters/Mqttium/Ledger.antt =====
-- adapters/mqttium_async.py against a ledger: the identifiers that wait, as pairs in the order of their
-- admission. The dict of deques gives out the same ones.
use mqtt_python_client_bench.Prelude.{
  ℕ, ◌≡◌, ◌≢◌, refl, sym, ap, ◌∙◌, false, Bool-cases, inl, inr, Option, none, some, List, [], ◌∷◌,
  ◌++◌, ◌==◌, ==_iff, if◌then◌else◌, arith, subst,
}
use mqtt_python_client_bench.Dict.{Dict, nat_eq, get, put, get_or, get-put_self, get-put_other}
use mqtt_python_client_bench.Adapters.Mqttium.{
  Waiting, del, set_default_append, pop_left, real_to_synth, take_first, keep,
}

abbrev pub ledger : Waiting (List (ℕ × ℕ))
ledger = record {
  nobody = [];
  push = λ pairs real mid. pairs ++ (real, mid) ∷ [];
  pop = λ pairs real. take_first real pairs;
}

-- Those that wait under a packet identifier.
abbrev pub synths : ℕ → List (ℕ × ℕ) → List ℕ
synths k [] = []
synths k ((j, v) ∷ pairs) = if j == k then v ∷ synths k pairs else synths k pairs

-- The dict holds for each packet identifier the ledger's own in their order, and no empty queue.
pub record Files (d : Dict ℕ (List ℕ)) (pairs : List (ℕ × ℕ)) : Type 0 where
  pub queues : (k : ℕ) → get_or d k [] ≡ synths k pairs
  pub busy : (k : ℕ) → get d k ≢ some []

get-del_self : (d : Dict ℕ (List ℕ)) (k : ℕ) → get (del d k) k ≡ none
unfolding get del
get-del_self [] k = refl
get-del_self ((j, v) ∷ d) k = let h = get-del_self d k in ground arith

get-del_other : (d : Dict ℕ (List ℕ)) (k i : ℕ) → (k == i) ≡ false → get (del d k) i ≡ get d i
unfolding get del
get-del_other [] k i h = refl
get-del_other ((j, v) ∷ d) k i h = let r = get-del_other d k i h in ground arith

synths-append_same :
    (k v : ℕ) (pairs : List (ℕ × ℕ)) → synths k (pairs ++ (k, v) ∷ []) ≡ synths k pairs ++ v ∷ []
synths-append_same k v [] = ground arith
synths-append_same k v ((j, u) ∷ pairs) = let h = synths-append_same k v pairs in ground arith

synths-append_other :
    (k i v : ℕ) (pairs : List (ℕ × ℕ))
    → (k == i) ≡ false
    → synths i (pairs ++ (k, v) ∷ []) ≡ synths i pairs
synths-append_other k i v [] h = ground arith
synths-append_other k i v ((j, u) ∷ pairs) h =
    let r = synths-append_other k i v pairs h in ground arith

-- What take_first finds.
data Found (k : ℕ) (pairs : List (ℕ × ℕ)) : Option (ℕ × List (ℕ × ℕ)) → Type 0 where
  nothing : synths k pairs ≡ [] → Found k pairs none
  first :
      (v : ℕ) (rest : List (ℕ × ℕ))
      → synths k pairs ≡ v ∷ synths k rest
      → ((i : ℕ) → (k == i) ≡ false → synths i rest ≡ synths i pairs)
      → Found k pairs (some (v, rest))

Found-keep :
    (k j v : ℕ) (pairs : List (ℕ × ℕ)) (o : Option (ℕ × List (ℕ × ℕ)))
    → (j == k) ≡ false
    → Found k pairs o
    → Found k ((j, v) ∷ pairs) (keep (j, v) o)
Found-keep k j v pairs _ h (nothing e) = nothing (ground arith)
Found-keep k j v pairs _ h (first u rest e f) =
    first u ((j, v) ∷ rest) (ground arith)
      (λ (i : ℕ) (n : (k == i) ≡ false). let g = f i n in ground arith)

take_first-Found : (k : ℕ) (pairs : List (ℕ × ℕ)) → Found k pairs (take_first k pairs)
unfolding take_first
take_first-Found k [] = nothing refl
take_first-Found k ((j, v) ∷ pairs) = elim (Bool-cases (j == k)) [
  | inl e ↦ rw e (first v pairs (ground arith) (λ (i : ℕ) (n : (k == i) ≡ false). ground arith))
  | inr e ↦ rw e (Found-keep k j v pairs (take_first k pairs) e (take_first-Found k pairs))
]

abbrev or_nil : Option (List ℕ) → List ℕ
or_nil o = elim o [ none ↦ [] | some w ↦ w ]

-- Where two lists of pairs differ at one key only, a queue for that key follows the second.
Files-at :
    (d e : Dict ℕ (List ℕ)) (pairs after : List (ℕ × ℕ)) (k : ℕ)
    → Files d pairs
    → ((i : ℕ) → (k == i) ≡ false → get e i ≡ get d i)
    → ((i : ℕ) → (k == i) ≡ false → synths i after ≡ synths i pairs)
    → or_nil (get e k) ≡ synths k after
    → get e k ≢ some []
    → Files e after
Files-at d e pairs after k f same others here busy = record {
  queues = λ (i : ℕ). elim (Bool-cases (k == i)) [
    | inl y ↦ subst (λ j. or_nil (get e j) ≡ synths j after) ((==_iff k i).0 y) here
    | inr n ↦ ap or_nil (same i n) ∙ f.queues i ∙ sym (others i n)
  ];
  busy = λ (i : ℕ). elim (Bool-cases (k == i)) [
    | inl y ↦ subst (λ j. get e j ≢ some []) ((==_iff k i).0 y) busy
    | inr n ↦ λ h. f.busy i (sym (same i n) ∙ h)
  ];
}

append-≢ : (xs : List ℕ) (v : ℕ) → some (xs ++ v ∷ []) ≢ some []
append-≢ [] v e = cc
append-≢ (x ∷ xs) v e = cc

Files-put :
    (d : Dict ℕ (List ℕ)) (pairs after : List (ℕ × ℕ)) (k : ℕ) (q : List ℕ)
    → Files d pairs
    → ((i : ℕ) → (k == i) ≡ false → synths i after ≡ synths i pairs)
    → q ≡ synths k after
    → some q ≢ some []
    → Files (put d k q) after
Files-put d pairs after k q f others here busy =
    Files-at d (put d k q) pairs after k f (λ i n. get-put_other d k i q n) others
      (ap or_nil (get-put_self d k q) ∙ here) (λ h. busy (sym (get-put_self d k q) ∙ h))

pub Files-push :
    (d : Dict ℕ (List ℕ)) (pairs : List (ℕ × ℕ)) (k v : ℕ)
    → Files d pairs
    → Files (set_default_append d k v) (pairs ++ (k, v) ∷ [])
unfolding set_default_append
Files-push d pairs k v f =
    Files-put d pairs (pairs ++ (k, v) ∷ []) k (get_or d k [] ++ v ∷ []) f
      (λ i n. synths-append_other k i v pairs n)
      (ap (λ q. q ++ v ∷ []) (f.queues k) ∙ sym (synths-append_same k v pairs))
      (append-≢ (get_or d k []) v)

-- What the dict gives out and what the ledger does.
pub data Popped : Option (ℕ × Dict ℕ (List ℕ)) → Option (ℕ × List (ℕ × ℕ)) → Type 0 where
  neither : Popped none none
  both :
      (v : ℕ) (d : Dict ℕ (List ℕ)) (pairs : List (ℕ × ℕ))
      → Files d pairs
      → Popped (some (v, d)) (some (v, pairs))

cons-≢ : (x : ℕ) (xs : List ℕ) → x ∷ xs ≢ []
cons-≢ x xs e = cc

none-≢ : ◌≡◌ {A = Option (List ℕ)} none (some []) → ⊥
none-≢ e = cc

some_cons-≢ : (x : ℕ) (xs : List ℕ) → some (x ∷ xs) ≢ some []
some_cons-≢ x xs e = cc

same_parts : (x : ℕ) (xs : List ℕ) (y : ℕ) (ys : List ℕ) → x ∷ xs ≡ y ∷ ys → (x ≡ y) × (xs ≡ ys)
same_parts x xs y ys e = (cc, cc)

popped :
    (d : Dict ℕ (List ℕ)) (pairs : List (ℕ × ℕ)) (k : ℕ) (q : Option (List ℕ))
    (o : Option (ℕ × List (ℕ × ℕ)))
    → get d k ≡ q
    → Files d pairs
    → Found k pairs o
    → Popped (pop_left d k q) o
popped d pairs k none _ g f (nothing e) = neither
popped d pairs k none _ g f (first v rest e others) =
    absurd (cons-≢ v (synths k rest) (sym e ∙ sym (f.queues k) ∙ ap or_nil g))
popped d pairs k (some []) _ g f found = absurd (f.busy k g)
popped d pairs k (some (u ∷ us)) _ g f (nothing e) =
    absurd (cons-≢ u us (sym (ap or_nil g) ∙ f.queues k ∙ e))
popped d pairs k (some (u ∷ [])) _ g f (first v rest e others) =
    let (h, t) = same_parts u [] v (synths k rest) (sym (ap or_nil g) ∙ f.queues k ∙ e) in
    subst (λ x. Popped (some (u, del d k)) (some (x, rest))) h
      (both u (del d k) rest (
        Files-at d (del d k) pairs rest k f (λ i n. get-del_other d k i n) others
          (ap or_nil (get-del_self d k) ∙ t) (λ x. none-≢ (sym (get-del_self d k) ∙ x))))
popped d pairs k (some (u ∷ next ∷ us)) _ g f (first v rest e others) =
    let (h, t) = same_parts u (next ∷ us) v (synths k rest) (sym (ap or_nil g) ∙ f.queues k ∙ e) in
    subst (λ x. Popped (some (u, put d k (next ∷ us))) (some (x, rest))) h
      (both u (put d k (next ∷ us)) rest
        (Files-put d pairs rest k (next ∷ us) f others t (some_cons-≢ next us)))

-- A completion takes the same identifier out of both.
pub pop-Popped :
    (d : Dict ℕ (List ℕ)) (pairs : List (ℕ × ℕ)) (k : ℕ)
    → Files d pairs
    → Popped (real_to_synth.pop d k) (ledger.pop pairs k)
pop-Popped d pairs k f =
    popped d pairs k (get d k) (take_first k pairs) refl f (take_first-Found k pairs)

pub nobody-Files : Files real_to_synth.nobody ledger.nobody
unfolding get
nobody-Files = record { queues = λ i. refl; busy = λ i e. none-≢ e }
