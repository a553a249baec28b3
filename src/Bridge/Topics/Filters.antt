-- ===== src/Bridge/Topics/Filters.antt =====
-- adapters/async_bridge.py, topic_matches_sub: the loop against MQTT's rules on filters.
use mqtt_python_client_bench.Prelude.{
  ℕ, zero, suc, ◌+◌, ◌-◌, ◌≤◌, ◌<◌, ◌≡◌, ◌≢◌, refl, sym, ap, ◌∙◌, subst, Bool, true, false, List,
  [], ◌∷◌, if◌then◌else◌, Option, none, some, arith, length, get_elem?, drop, leb, ◌==◌, ◌⊎◌, inl,
  inr, ◌↔◌, Bool-cases, ◌&&◌, ◌||◌,
}
use mqtt_python_client_bench.Bridge.Topics.{
  same_level-≡, same_level-same, hash, plus, split, same_level, same_at, levels_match,
  topic_matches_sub,
}

-- A filter's levels against a topic's: `#` at the end stands for any levels, also none, `+` for any one
-- level, and another level for itself; `#` elsewhere, which MQTT does not allow, matches nothing.
pub data Matches : List (List ℕ) → List (List ℕ) → Type 0 where
  any_levels : {levels : List (List ℕ)} → Matches (hash ∷ []) levels
  any_level :
      {level : List ℕ} {filters levels : List (List ℕ)}
      → Matches filters levels
      → Matches (plus ∷ filters) (level ∷ levels)
  that_level :
      {level : List ℕ} {filters levels : List (List ℕ)}
      → level ≢ hash
      → Matches filters levels
      → Matches (level ∷ filters) (level ∷ levels)
  no_level : Matches [] []

some_inj : {a b : List ℕ} → some a ≡ some b → a ≡ b
some_inj {a} {b} h = cc

apart : true ≡ false → ⊥
apart h = ground arith

same_level-≢ : (a b : List ℕ) → same_level a b ≡ false → a ≢ b
same_level-≢ a b h e = apart (sym (same_level-same a) ∙ ap (λ l. same_level a l) e ∙ h)

drop-nil : (i : ℕ) (topic : List (List ℕ)) → drop i topic ≡ [] → length topic ≤ i
drop-nil i [] h = ground arith
drop-nil zero (t ∷ topic) h = ground arith
drop-nil (suc i) (t ∷ topic) h = let r = drop-nil i topic h in ground arith

drop-cons :
    (i : ℕ) (topic : List (List ℕ)) (t : List ℕ) (rest : List (List ℕ))
    → drop i topic ≡ t ∷ rest
    → (i < length topic) × (get_elem? topic i ≡ some t) × (drop (suc i) topic ≡ rest)
drop-cons zero [] t rest h = ground arith
drop-cons (suc i) [] t rest h = ground arith
drop-cons zero (t' ∷ topic) t rest h = (omega arith, ground arith, ground arith)
drop-cons (suc i) (t' ∷ topic) t rest h =
    let r = drop-cons i topic t rest h in (omega (arith, r.0), r.1, r.2)

no_levels : (levels : List (List ℕ)) → length levels ≡ 0 → levels ≡ []
no_levels [] h = refl
no_levels (l ∷ levels) h = ground arith

-- One round of the loop, its tests abstracted.
module _ (is_hash is_past is_plus is_same last rest : Bool) where
  abbrev round : Bool
  round =
      if is_hash
      then last
      else if is_past
      then false
      else if is_plus
      then rest
      else if is_same
      then rest
      else false

split_round :
    (a b c d last rest : Bool)
    → round a b c d last rest ≡ true
    → ((a ≡ true) × (last ≡ true))
      ⊎ ((a ≡ false) × (b ≡ false) × ((c ≡ true) ⊎ (d ≡ true)) × (rest ≡ true))
split_round true b c d last rest h = inl (refl, h)
split_round false true c d last rest h = ground arith
split_round false false true d last rest h = inr (refl, refl, inl refl, h)
split_round false false false true last rest h = inr (refl, refl, inr refl, h)
split_round false false false false last rest h = ground arith

join_round :
    (a b c d last rest : Bool)
    → a ≡ false
    → b ≡ false
    → (c ≡ true) ⊎ (d ≡ true)
    → rest ≡ true
    → round a b c d last rest ≡ true
join_round a b true d last rest p q r h = rw (p, q) h
join_round a b false true last rest p q r h = rw (p, q) h
join_round a b false false last rest p q r h = ground arith

is_plus_or_same :
    (level x : List ℕ) (o : Option (List ℕ)) → o ≡ some x → same_at level o ≡ true → level ≡ x
is_plus_or_same level x none e h = ground arith
is_plus_or_same level x (some y) e h = same_level-≡ level y h ∙ some_inj e

-- A round that goes on, by the filter's level.
pub goes_on :
    (level x : List ℕ) (levels xs : List (List ℕ)) (o : Option (List ℕ))
    → o ≡ some x
    → same_level level hash ≡ false
    → (same_level level plus ≡ true) ⊎ (same_at level o ≡ true)
    → Matches levels xs
    → Matches (level ∷ levels) (x ∷ xs)
goes_on level x levels xs o e n (inl p) m =
    subst (λ l. Matches (l ∷ levels) (x ∷ xs)) (sym (same_level-≡ level plus p)) (any_level m)
goes_on level x levels xs o e n (inr p) m =
    subst (λ y. Matches (level ∷ levels) (y ∷ xs)) (is_plus_or_same level x o e p)
      (that_level (same_level-≢ level hash n) m)

last_level :
    (level : List ℕ) (levels t : List (List ℕ))
    → same_level level hash ≡ true
    → length levels ≡ 0
    → Matches (level ∷ levels) t
last_level level levels t h n =
    subst (λ ls. Matches (level ∷ ls) t) (sym (no_levels levels n))
      (subst (λ l. Matches (l ∷ []) t) (sym (same_level-≡ level hash h)) any_levels)

not_same : (level : List ℕ) → level ≢ hash → same_level level hash ≡ false
not_same level n = elim (Bool-cases (same_level level hash)) [
  | inl e ↦ elim (n (same_level-≡ level hash e)) [ ]
  | inr e ↦ e
]

module _ (count : ℕ) (topic : List (List ℕ)) where
  sound :
      (i : ℕ) (levels t : List (List ℕ))
      → drop i topic ≡ t
      → i ≤ length topic
      → i + length levels ≡ count
      → levels_match count topic i levels ≡ true
      → Matches levels t
  unfolding levels_match
  sound i [] [] d p q h = no_level
  sound i [] (x ∷ xs) d p q h = let r = drop-cons i topic x xs d in ground (arith, r.0)
  sound i (level ∷ levels) [] d p q h =
      elim (split_round (same_level level hash) (leb (length topic) i) (same_level level plus)
        (same_at level (get_elem? topic i)) (i == count - 1)
        (levels_match count topic (suc i) levels) h) [
          | inl (e, l) ↦ last_level level levels [] e (ground (arith, q))
          | inr (n, b, c, r) ↦ (let past = drop-nil i topic d in ground arith)
        ]
  sound i (level ∷ levels) (x ∷ xs) d p q h =
      let (lt, g, rest) = drop-cons i topic x xs d in
      elim (split_round (same_level level hash) (leb (length topic) i) (same_level level plus)
        (same_at level (get_elem? topic i)) (i == count - 1)
        (levels_match count topic (suc i) levels) h) [
          | inl (e, l) ↦ last_level level levels (x ∷ xs) e (ground (arith, q))
          | inr (n, b, c, r) ↦
              goes_on level x levels xs (get_elem? topic i) g n c
                (sound (suc i) levels xs rest (omega arith) (omega (arith, q)) r)
        ]

  finds :
      (i : ℕ) (levels t : List (List ℕ))
      → drop i topic ≡ t
      → i ≤ length topic
      → i + length levels ≡ count
      → Matches levels t
      → levels_match count topic i levels ≡ true
  unfolding levels_match
  finds i levels t d p q any_levels = ground (arith, q)
  finds i levels t d p q (any_level {level = x} {filters = ls} {levels = xs} m) =
      let (lt, g, rest) = drop-cons i topic x xs d in
      let r = finds (suc i) ls xs rest (omega arith) (omega (arith, q)) m in
      join_round (same_level plus hash) (leb (length topic) i) true
        (same_at plus (get_elem? topic i)) (i == count - 1) (levels_match count topic (suc i) ls)
        refl (ground arith) (inl refl) r
  finds i levels t d p q (that_level {level = x} {filters = ls} {levels = xs} n m) =
      let (lt, g, rest) = drop-cons i topic x xs d in
      let r = finds (suc i) ls xs rest (omega arith) (omega (arith, q)) m in
      join_round (same_level x hash) (leb (length topic) i) (same_level x plus)
        (same_at x (get_elem? topic i)) (i == count - 1) (levels_match count topic (suc i) ls)
        (not_same x n) (ground arith) (inr (ap (same_at x) g ∙ same_level-same x)) r
  finds i levels t d p q no_level = let r = drop-nil i topic d in ground (arith, q)

otherwise : (b x y : Bool) → b ≡ false → (if b then x else y) ≡ true → y ≡ true
otherwise true x y e h = ground arith
otherwise false x y e h = h

module _ (sub topic : List ℕ) where
  topic_matches_sub-Matches :
      (topic_matches_sub sub topic ≡ true) ↔ Matches (split sub) (split topic)
  unfolding topic_matches_sub
  topic_matches_sub-Matches = elim (Bool-cases (same_level sub hash)) [
    | inl e ↦ (
      (λ h.
          subst (λ s. Matches (split s) (split topic)) (sym (same_level-≡ sub hash e)) any_levels),
      (λ m. rw e refl),
    )
    | inr e ↦ (
      (λ h.
          sound (length (split sub)) (split topic) 0 (split sub) (split topic) refl (omega arith)
            (omega arith) (otherwise (same_level sub hash) true _ e h)),
      (λ m. rw e (
          finds (length (split sub)) (split topic) 0 (split sub) (split topic) refl (omega arith)
            (omega arith) m)),
    )
  ]

abbrev starts_with_wildcard : List ℕ → Bool
starts_with_wildcard [] = false
starts_with_wildcard (c ∷ cs) = (c == 35) || (c == 43)

abbrev starts_with_dollar : List ℕ → Bool
starts_with_dollar [] = false
starts_with_dollar (c ∷ cs) = c == 36

-- MQTT's rules: the levels match, and a filter that starts with a wildcard does not match a topic that
-- starts with `$`.
pub record MqttMatches (sub topic : List ℕ) : Type 0 where
  pub levels : Matches (split sub) (split topic)
  pub shown : (starts_with_wildcard sub && starts_with_dollar topic) ≡ false

-- The levels match, and the rule on `$` is broken.
pub record BreaksDollar (sub topic : List ℕ) : Type 0 where
  pub levels : Matches (split sub) (split topic)
  pub wildcard : starts_with_wildcard sub ≡ true
  pub dollar : starts_with_dollar topic ≡ true

abbrev pub IsFound : List ℕ → List ℕ → Type 0
IsFound sub topic = MqttMatches sub topic ⊎ BreaksDollar sub topic

by_levels : (sub topic : List ℕ) → Matches (split sub) (split topic) → IsFound sub topic
by_levels sub topic m = elim (Bool-cases (starts_with_wildcard sub && starts_with_dollar topic)) [
  | inl e ↦ inr (record { levels = m; wildcard = ground (arith, e); dollar = ground (arith, e) })
  | inr e ↦ inl (record { levels = m; shown = e })
]

levels_of : (sub topic : List ℕ) → IsFound sub topic → Matches (split sub) (split topic)
levels_of sub topic (inl m) = m.levels
levels_of sub topic (inr m) = m.levels

module _ (sub topic : List ℕ) where
  -- A filter is found to match a topic exactly when MQTT's rules say that it does, or when it starts with
  -- a wildcard, the topic starts with `$`, and their levels match, which MQTT's rules exclude.
  pub topic_matches_sub-IsFound : (topic_matches_sub sub topic ≡ true) ↔ IsFound sub topic
  topic_matches_sub-IsFound =
      let (to, from) = topic_matches_sub-Matches sub topic in
      ((λ h. by_levels sub topic (to h)), (λ m. from (levels_of sub topic m)))
