-- ===== src/Report/Progress/Within.antt =====
-- report/data.py: a store that holds nothing but a campaign's own points and clients.
use Prim.Native.String.{String}
use text.Mathlib.Text.{◌==◌ as str_eq}
use text.Mathlib.TextEquality.{eq_iff}
use mqtt_python_client_bench.Prelude.{
  ℕ, zero, suc, ◌*◌, ◌<◌, ltb, ◌≡◌, refl, sym, subst, ap, ◌∙◌, Bool, true, false, not, ◌&&◌, ◌==◌,
  List, [], ◌∷◌, ◌++◌, if◌then◌else◌, any, all, length, All, Bool-cases, inl, inr, arith,
  append_none,
}
use mqtt_python_client_bench.Dict.{string_eq, get, put}
use mqtt_python_client_bench.Checks.Items.{Status}
use mqtt_python_client_bench.Campaign.{
  Key, RunDoc, Doc, Store, attempts, doc, doc_or_new, add, listing, add_unsupported, add_refusals,
  add_all_refusals, run_pass, to_do, run_passes, done, plan, run_campaign,
}
use mqtt_python_client_bench.Campaign.Attempts.{same_key_self}
use mqtt_python_client_bench.Campaign.Passes.{times}
use mqtt_python_client_bench.Campaign.Plan.{count, times-plan}
use mqtt_python_client_bench.Campaign.Refusals.{names}
use mqtt_python_client_bench.Report.Cells.{count-names}
use mqtt_python_client_bench.Report.Progress.{unlisted, shown_clients, add_points, shown_points}

module _ (points clients : List String) where
  abbrev pub OfPoints : List RunDoc → Type 0
  OfPoints = All (λ r. names points r.key.point ≡ true)

  -- Each document is of one of the clients, and each of its runs of one of the points.
  abbrev pub Within : Store → Type 0
  Within = All (λ e. (names clients e.0 ≡ true) × OfPoints e.1.runs)

  Within-get : (s : Store) (c : String) → Within s → OfPoints (doc_or_new (get s c)).runs
  unfolding get
  Within-get [] c w = tt
  Within-get ((d, o) ∷ s) c ((n, h), w) =
      let rest = Within-get s c w in
      elim (Bool-cases (str_eq d c)) [ inl e ↦ rw e h | inr e ↦ rw e rest ]

  Within-put :
      (s : Store) (c : String) (d : Doc)
      → names clients c ≡ true
      → OfPoints d.runs
      → Within s
      → Within (put s c d)
  unfolding put
  Within-put [] c d n h w = ((n, h), tt)
  Within-put ((b, o) ∷ s) c d n h ((m, k), w) =
      let rest = Within-put s c d n h w in
      elim (Bool-cases (str_eq b c)) [ inl e ↦ rw e ((m, h), w) | inr e ↦ rw e ((m, k), rest) ]

  OfPoints-append :
      (runs : List RunDoc) (r : RunDoc)
      → OfPoints runs
      → names points r.key.point ≡ true
      → OfPoints (runs ++ r ∷ [])
  OfPoints-append [] r h n = (n, tt)
  OfPoints-append (q ∷ runs) r (m, h) n = (m, OfPoints-append runs r h n)

  -- A key of the campaign.
  abbrev Named : Key → Type 0
  Named k = (names points k.point ≡ true) × (names clients k.client ≡ true)

  Within-run_pass :
      (outcome : ℕ → Key → Status) (n : ℕ) (todo : List Key) (s : Store)
      → All Named todo
      → Within s
      → Within (run_pass outcome n todo s)
  unfolding run_pass add
  Within-run_pass outcome n [] s h w = w
  Within-run_pass outcome n (k ∷ todo) s ((p, c), h) w = Within-run_pass outcome n todo _ h (
      Within-put s k.client _ c
        (OfPoints-append (doc s k.client).runs _ (Within-get s k.client w) p) w)

  All-to_do : (n : ℕ) (order : List Key) (s : Store) → All Named order → All Named (to_do n order s)
  unfolding to_do
  All-to_do n [] s h = tt
  All-to_do n (k ∷ order) s (a, h) =
      let rest = All-to_do n order s h in
      elim (Bool-cases (not (done s k) && length (attempts s k) == n)) [
        | inl e ↦ rw e (a, rest)
        | inr e ↦ rw e rest
      ]

  listing-runs : (d : Doc) (p : String) → (listing d p).runs ≡ d.runs
  unfolding listing
  listing-runs d p = elim (Bool-cases (any (λ q. str_eq q p) d.unsupported)) [
    | inl e ↦ rw e refl
    | inr e ↦ rw e refl
  ]

  Within-add_refusals :
      (refused : String → Bool) (p : String) (cs : List String) (s : Store)
      → All (λ c. names clients c ≡ true) cs
      → Within s
      → Within (add_refusals refused p cs s)
  unfolding add_refusals add_unsupported
  Within-add_refusals refused p [] s h w = w
  Within-add_refusals refused p (c ∷ cs) s (n, h) w = elim (Bool-cases (refused c)) [
    | inl e ↦ rw e (
        Within-add_refusals refused p cs _ h (
          Within-put s c _ n (subst OfPoints (sym (listing-runs (doc s c) p)) (Within-get s c w))
            w))
    | inr e ↦ rw e (Within-add_refusals refused p cs s h w)
  ]

  Within-add_all_refusals :
      (refused : String → String → Bool) (ps : List String) (s : Store)
      → All (λ c. names clients c ≡ true) clients
      → Within s
      → Within (add_all_refusals refused ps clients s)
  unfolding add_all_refusals
  Within-add_all_refusals refused [] s h w = w
  Within-add_all_refusals refused (p ∷ ps) s h w =
      Within-add_all_refusals refused ps _ h
        (Within-add_refusals (λ c. refused c p) p clients s h w)

  pub shown_clients-Within : (s : Store) → Within s → shown_clients clients s ≡ clients
  unfolding shown_clients
  shown_clients-Within s w = ap (λ l. clients ++ l) (none_else s w) ∙ append_none clients
    where
      none_else : (s : Store) → Within s → unlisted clients s ≡ []
      none_else [] w = refl
      none_else ((c, d) ∷ s) ((n, h), w) = rw n (none_else s w)

  add_points-OfPoints : (runs : List RunDoc) → OfPoints runs → add_points points runs ≡ points
  unfolding add_points
  add_points-OfPoints [] h = refl
  add_points-OfPoints (r ∷ runs) (n, h) = rw n (add_points-OfPoints runs h)

  pub shown_points-Within : (s : Store) → Within s → shown_points points s ≡ points
  unfolding shown_points
  shown_points-Within [] w = refl
  shown_points-Within ((c, d) ∷ s) ((n, h), w) =
      rw (add_points-OfPoints d.runs h) (shown_points-Within s w)

  all_by_times : (order : List Key) → ((k : Key) → 0 < times k order → Named k) → All Named order
  all_by_times [] h = tt
  all_by_times (j ∷ order) h = (
    h j (rw (same_key_self j) (omega arith)),
    all_by_times order λ k some_times. h k (more j k order some_times),
  )
    where
      more : (j k : Key) (order : List Key) → 0 < times k order → 0 < times k (j ∷ order)
      more j k order t = ground arith

  All-plan :
      (refused : String → String → Bool) (runs : ℕ) → All Named (plan refused points clients runs)
  All-plan refused runs = all_by_times (plan refused points clients runs) λ k t.
      let b = both k (subst (λ n. 0 < n) (times-plan refused points clients runs k) t) in
      (count-names k.point points b.0, count-names k.client clients b.1)
    where
      mul_some : (a b : ℕ) → 0 < a * b → (0 < a) × (0 < b)
      mul_some zero b h = ground arith
      mul_some (suc a) zero h = ground arith
      mul_some (suc a) (suc b) h = (omega arith, omega arith)

      chosen : (b : Bool) (m n : ℕ) → 0 < (if b then m * n else 0) → (0 < m) × (0 < n)
      chosen true m n h = mul_some m n h
      chosen false m n h = ground arith

      both :
          (k : Key)
          → 0 < (
              if not (refused k.client k.point) && ltb k.run runs
              then count k.point points * count k.client clients
              else 0)
          → (0 < count k.point points) × (0 < count k.client clients)
      both k h = chosen (not (refused k.client k.point) && ltb k.run runs) _ _ h

  own_names : (cs : List String) → All (λ c. names cs c ≡ true) cs
  own_names cs = within cs (λ c h. h)
    where
      within :
          (ds : List String)
          → ((c : String) → names ds c ≡ true → names cs c ≡ true)
          → All (λ c. names cs c ≡ true) ds
      within [] h = tt
      within (d ∷ ds) h = (h d (ground (arith, eq_iff d d)), within ds λ c k. h c (ground arith))

  pub Within-run_campaign :
      (outcome : ℕ → Key → Status) (refused : String → String → Bool) (runs : ℕ) (s : Store)
      → Within s
      → Within (run_campaign outcome refused points clients runs s)
  unfolding run_campaign run_passes
  Within-run_campaign outcome refused runs s w =
      let noted = add_all_refusals refused points clients s in
      let order = plan refused points clients runs in
      let named = All-plan refused runs in
      let v = Within-add_all_refusals refused points s (own_names clients) w in
      let first = run_pass outcome 0 (to_do 0 order noted) noted in
      let u =
        Within-run_pass outcome 0 (to_do 0 order noted) noted (All-to_do 0 order noted named) v in
      elim (Bool-cases (all (λ k. done noted k) order)) [
        | inl e ↦ rw e v
        | inr e ↦ rw e (
            Within-run_pass outcome 1 (to_do 1 order first) first (All-to_do 1 order first named) u)
      ]
