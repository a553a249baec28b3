-- ===== src/Bridge/Topics.antt =====
-- adapters/async_bridge.py, topic_matches_sub. A text is the list of its characters' code points, and
-- `split` is str.split("/").
pub mod Filters
use mqtt_python_client_bench.Prelude.{
  ℕ, zero, suc, ◌+◌, ◌-◌, ◌≤◌, ◌<◌, ◌≡◌, ◌≢◌, refl, sym, ap, ◌∙◌, subst, Bool, true, false, List,
  [], ◌∷◌, ◌++◌, if◌then◌else◌, Option, none, some, arith, length, get_elem?, drop, leb, ◌==◌, ◌⊎◌,
  inl, inr, ◌↔◌, ℕ_discrete,
}
use mqtt_python_client_bench.Dict.{Eq}

abbrev pub hash : List ℕ
hash = 35 ∷ []

abbrev pub plus : List ℕ
plus = 43 ∷ []

abbrev put_first : ℕ → List (List ℕ) → List (List ℕ)
put_first c [] = (c ∷ []) ∷ []
put_first c (level ∷ levels) = (c ∷ level) ∷ levels

abbrev pub split : List ℕ → List (List ℕ)
split [] = [] ∷ []
split (c ∷ cs) = if c == 47 then [] ∷ split cs else put_first c (split cs)

abbrev pub same_level : List ℕ → List ℕ → Bool
same_level [] [] = true
same_level [] (c ∷ cs) = false
same_level (c ∷ cs) [] = false
same_level (c ∷ cs) (d ∷ ds) = if c == d then same_level cs ds else false

equal_heads :
    (c d : ℕ) (rest : Bool) → (if c == d then rest else false) ≡ true → (c ≡ d) × (rest ≡ true)
equal_heads c d rest h = (ground arith, ground arith)

==_refl : (c : ℕ) → (c == c) ≡ true
==_refl c = ground arith

pub same_level-≡ : (a b : List ℕ) → same_level a b ≡ true → a ≡ b
same_level-≡ [] [] h = refl
same_level-≡ [] (c ∷ cs) h = ground arith
same_level-≡ (c ∷ cs) [] h = ground arith
same_level-≡ (c ∷ cs) (d ∷ ds) h =
    let (e, r) = equal_heads c d (same_level cs ds) h in
    ap (λ x. x ∷ cs) e ∙ ap (λ l. d ∷ l) (same_level-≡ cs ds r)

pub same_level-same : (a : List ℕ) → same_level a a ≡ true
same_level-same [] = refl
same_level-same (c ∷ cs) = let r = same_level-same cs in ground (arith, ==_refl c)

-- Texts are compared as keys of a dictionary are.
instance abbrev pub text_eq : Eq (List ℕ)
text_eq = record {
  beq = same_level;
  beq_iff = λ a b. (same_level-≡ a b, (λ e. ap (same_level a) (sym e) ∙ same_level-same a));
}

-- level != topic_levels[i]
abbrev same_at : List ℕ → Option (List ℕ) → Bool
same_at level none = false
same_at level (some other) = same_level level other

-- for i, level in enumerate(sub_levels): `count` is len(sub_levels), and the levels are those from `i`.
unfoldable pub levels_match : ℕ → List (List ℕ) → ℕ → List (List ℕ) → Bool
levels_match count topic_levels i [] = count == length topic_levels
levels_match count topic_levels i (level ∷ levels) =
    let rest = levels_match count topic_levels (suc i) levels in
    if same_level level hash
    then i == count - 1
    else if leb (length topic_levels) i
    then false
    else if same_level level plus
    then rest
    else if same_at level (get_elem? topic_levels i)
    then rest
    else false

unfoldable pub topic_matches_sub : List ℕ → List ℕ → Bool
topic_matches_sub sub topic =
    if same_level sub hash
    then true
    else levels_match (length (split sub)) (split topic) 0 (split sub)
