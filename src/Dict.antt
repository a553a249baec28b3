-- ===== src/Dict.antt =====
-- Python's `dict` as an association list in insertion order: a new key goes to the end, and an
-- assignment to an old key keeps its place. Keys are compared by an instance of `Eq`.
pub mod Entries
use text.Mathlib.Text.{◌==◌ as str_eq}
use text.Mathlib.TextEquality.{eq_iff}
use Prim.Native.String.{String}
use mqtt_python_client_bench.Prelude.{
  ℕ, ◌≡◌, ◌↔◌, Bool, true, false, Option, none, some, List, [], ◌∷◌, ◌==◌, ==_iff, if◌then◌else◌,
  arith,
}

pub record Eq {ℓ} (A : Type ℓ) : Type ℓ where
  pub beq : A → A → Bool
  pub beq_iff : (a b : A) → (beq a b ≡ true) ↔ (a ≡ b)

instance abbrev pub nat_eq : Eq ℕ
nat_eq = record { beq = ◌==◌; beq_iff = ==_iff }

instance abbrev pub string_eq : Eq String
string_eq = record { beq = str_eq; beq_iff = eq_iff }

abbrev pub Dict {ℓ κ} : Type ℓ → Type κ → Type (ℓ ⊔ κ)
Dict K V = List (K × V)

module _ {ℓ κ} {K : Type ℓ} {V : Type κ} ⦃e : Eq K⦄ where
  -- d.get(k)
  unfoldable pub get : Dict K V → K → Option V
  get [] k = none
  get ((j, v) ∷ d) k = if e.beq j k then some v else get d k

  -- d[k] = v
  unfoldable pub put : Dict K V → K → V → Dict K V
  put [] k v = (k, v) ∷ []
  put ((j, w) ∷ d) k v = if e.beq j k then (j, v) ∷ d else (j, w) ∷ put d k v

  pub get-put_self : (d : Dict K V) (k : K) (v : V) → get (put d k v) k ≡ some v
  unfolding get put
  get-put_self [] k v = ground (arith, e.beq_iff k k)
  get-put_self ((j, w) ∷ d) k v = ground (arith, e.beq_iff j k, get-put_self d k v)

  pub get-put_other :
      (d : Dict K V) (k i : K) (v : V) → e.beq k i ≡ false → get (put d k v) i ≡ get d i
  unfolding get put
  get-put_other [] k i v h = ground arith
  get-put_other ((j, w) ∷ d) k i v h =
      ground (arith, e.beq_iff j k, e.beq_iff j i, e.beq_iff k i, get-put_other d k i v h)

-- d.get(k, default)
abbrev pub get_or {ℓ κ} : {K : Type ℓ} {V : Type κ} ⦃e : Eq K⦄ → Dict K V → K → V → V
get_or d k v = elim (get d k) [ none ↦ v | some w ↦ w ]
