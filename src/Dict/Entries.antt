-- ===== src/Dict/Entries.antt =====
-- Python's `dict`: where no key stands twice, each entry is what `get` finds.
use mqtt_python_client_bench.Prelude.{
  ◌≡◌, refl, sym, ap, ◌∙◌, Bool-cases, inl, inr, Option, none, some, [], ◌∷◌, All,
}
use mqtt_python_client_bench.Dict.{Dict, Eq, get}

module _ {K V : Type 0} ⦃e : Eq K⦄ where
  abbrev pub Distinct : Dict K V → Type 0
  Distinct [] = Unit {0}
  Distinct ((k, v) ∷ d) = (get d k ≡ none) × Distinct d

  get-head : (d : Dict K V) (k : K) (v : V) → get ((k, v) ∷ d) k ≡ some v
  unfolding get
  get-head d k v = rw ((e.beq_iff k k).1 refl) refl

  get-tail :
      (d : Dict K V) (k j : K) (v u : V)
      → get d k ≡ none
      → get d j ≡ some u
      → get ((k, v) ∷ d) j ≡ some u
  unfolding get
  get-tail d k j v u h g = elim (Bool-cases (e.beq k j)) [
    | inl y ↦ absurd (apart (sym h ∙ ap (get d) ((e.beq_iff k j).0 y) ∙ g))
    | inr n ↦ rw n g
  ]
    where
      apart : {x : V} → ◌≡◌ {A = Option V} none (some x) → ⊥
      apart k = cc

  pub entries_within :
      (d f : Dict K V)
      → Distinct d
      → ((k : K) (v : V) → get d k ≡ some v → get f k ≡ some v)
      → All (λ (x : K × V). get f x.0 ≡ some x.1) d
  entries_within [] f h g = tt
  entries_within ((k, v) ∷ d) f h g =
      (g k v (get-head d k v), entries_within d f h.1 (λ j u l. g j u (get-tail d k j v u h.0 l)))
