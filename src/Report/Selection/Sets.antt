-- ===== src/Report/Selection/Sets.antt =====
-- report/data.py, load_campaign: what comes into its sets of builds and GIL states, and what a set of at
-- most one element tells.
use Prim.Native.String.{String}
use text.Mathlib.Text.{◌==◌ as str_eq}
use text.Mathlib.TextEquality.{eq_iff}
use mqtt_python_client_bench.Prelude.{
  ◌≡◌, refl, sym, ap, ◌∙◌, subst, ◌↔◌, ◌⊎◌, inl, inr, Bool, true, false, Option, none, some, List,
  [], ◌∷◌, ◌++◌, ltb, if◌then◌else◌, ◌&&◌, ◌||◌, any, length, arith,
}
use mqtt_python_client_bench.Catalog.{same_flag}
use mqtt_python_client_bench.Report.Selection.{
  Shown, build_of, gil_of, insert_some, builds, gil_states, add_gil,
}

abbrev pub In : Shown → List Shown → Type 0
In r [] = ⊥
In r (first ∷ runs) = (first ≡ r) ⊎ In r runs

module _ {A : Type 0} (same : A → A → Bool)
    (same_iff : (a b : A) → (same a b ≡ true) ↔ (a ≡ b)) where
  any-snoc : (x y : A) (xs : List A) → any (same x) (xs ++ y ∷ []) ≡ (any (same x) xs || same x y)
  any-snoc x y [] = ground arith
  any-snoc x y (z ∷ xs) = let h = any-snoc x y xs in ground arith

  or_left : (a b : Bool) → a ≡ true → (a || b) ≡ true
  or_left a b h = rw h refl

  or_right : (a b : Bool) → b ≡ true → (a || b) ≡ true
  or_right true b h = refl
  or_right false b h = h

  any-insert_some :
      (x : A) (o : Option A) (xs : List A)
      → (any (same x) xs ≡ true) ⊎ (o ≡ some x)
      → any (same x) (insert_some same o xs) ≡ true
  any-insert_some x none xs (inl h) = h
  any-insert_some x none xs (inr h) = absurd (cc)
  any-insert_some x (some y) xs h = either (any (same y) xs) refl h
    where
      some_eq : {y : A} → some y ≡ some x → y ≡ x
      some_eq e = cc

      either :
          (b : Bool)
          → any (same y) xs ≡ b
          → (any (same x) xs ≡ true) ⊎ (some y ≡ some x)
          → any (same x) (if b then xs else xs ++ y ∷ []) ≡ true
      either true e (inl p) = p
      either true e (inr p) = subst (λ z. any (same z) xs ≡ true) (some_eq p) e
      either false e (inl p) = any-snoc x y xs ∙ or_left _ _ p
      either false e (inr p) = any-snoc x y xs ∙ or_right _ _ ((same_iff x y).1 (sym (some_eq p)))

  pub one_of : (x z : A) → any (same x) (z ∷ []) ≡ true → x ≡ z
  one_of x z p = (same_iff x z).0 (only (same x z) p)
    where
      only : (b : Bool) → (b || false) ≡ true → b ≡ true
      only true h = refl
      only false h = h

  pub at_most_one :
      (x y : A) (xs : List A)
      → ltb 1 (length xs) ≡ false
      → any (same x) xs ≡ true
      → any (same y) xs ≡ true
      → x ≡ y
  at_most_one x y [] few p q = absurd (cc)
  at_most_one x y (z ∷ []) few p q = one_of x z p ∙ sym (one_of y z q)
  at_most_one x y (z ∷ w ∷ xs) few p q = absurd (ground arith)

-- What is in the set already stays, and the build of each run comes into it.
builds-keep :
    (a : String) (seen : List String) (runs : List Shown)
    → any (str_eq a) seen ≡ true
    → any (str_eq a) (builds seen runs) ≡ true
unfolding builds
builds-keep a seen [] h = h
builds-keep a seen (r ∷ runs) h =
    builds-keep a (insert_some str_eq (build_of r) seen) runs
      (any-insert_some str_eq eq_iff a (build_of r) seen (inl h))

pub builds-In :
    (a : String) (seen : List String) (runs : List Shown) (r : Shown)
    → In r runs
    → build_of r ≡ some a
    → any (str_eq a) (builds seen runs) ≡ true
unfolding builds
builds-In a seen [] r h e = absurd h
builds-In a seen (s ∷ runs) r (inl same) e =
    builds-keep a (insert_some str_eq (build_of s) seen) runs
      (any-insert_some str_eq eq_iff a (build_of s) seen (inr (ap build_of same ∙ e)))
builds-In a seen (s ∷ runs) r (inr later) e =
    builds-In a (insert_some str_eq (build_of s) seen) runs r later e

pub same_flag_iff : (a b : Bool) → (same_flag a b ≡ true) ↔ (a ≡ b)
same_flag_iff true b = ((λ h. sym h), (λ h. sym h))
same_flag_iff false true = ((λ h. absurd (ground arith)), (λ h. absurd (ground arith)))
same_flag_iff false false = ((λ h. refl), (λ h. refl))

module _ (client point : String) (b : Bool) where
  gil_states-keep :
      (seen : List Bool) (runs : List Shown)
      → any (same_flag b) seen ≡ true
      → any (same_flag b) (gil_states client point seen runs) ≡ true
  unfolding gil_states
  gil_states-keep seen [] h = h
  gil_states-keep seen (r ∷ runs) h =
      gil_states-keep (add_gil client point r seen) runs
        (either (str_eq r.client client && str_eq r.point point))
    where
      either :
          (t : Bool)
          → any (same_flag b) (if t then insert_some same_flag (gil_of r) seen else seen) ≡ true
      either true = any-insert_some same_flag same_flag_iff b (gil_of r) seen (inl h)
      either false = h

  pub gil_states-In :
      (seen : List Bool) (runs : List Shown) (r : Shown)
      → In r runs
      → r.client ≡ client
      → r.point ≡ point
      → gil_of r ≡ some b
      → any (same_flag b) (gil_states client point seen runs) ≡ true
  unfolding gil_states
  gil_states-In seen [] r h c p e = absurd h
  gil_states-In seen (s ∷ runs) r (inl same) c p e =
      gil_states-keep (add_gil client point s seen) runs (
        either (str_eq s.client client) (str_eq s.point point)
          ((eq_iff s.client client).1 (ap (λ (x : Shown). x.client) same ∙ c))
          ((eq_iff s.point point).1 (ap (λ (x : Shown). x.point) same ∙ p)))
    where
      either :
          (t u : Bool)
          → t ≡ true
          → u ≡ true
          → any (same_flag b) (if t && u then insert_some same_flag (gil_of s) seen else seen)
            ≡ true
      either true true x y =
          any-insert_some same_flag same_flag_iff b (gil_of s) seen (inr (ap gil_of same ∙ e))
      either true false x y = absurd (cc)
      either false u x y = absurd (cc)
  gil_states-In seen (s ∷ runs) r (inr later) c p e =
      gil_states-In (add_gil client point s seen) runs r later c p e
