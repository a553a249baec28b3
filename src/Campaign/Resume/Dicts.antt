-- ===== src/Campaign/Resume/Dicts.antt =====
-- bench/campaign.py and bench/catalog.py: equality of records, as dicts.
use Prim.Native.String.{String}
use text.Mathlib.Text.{◌==◌ as str_eq}
use text.Mathlib.TextEquality.{eq_iff}
use mqtt_python_client_bench.Prelude.{
  All, ℕ, ◌≡◌, refl, ap, ◌∙◌, Bool, true, false, Bool-cases, inl, inr, none, some, List, [], ◌∷◌,
  ◌==◌, if◌then◌else◌, ◌&&◌, arith,
}
use mqtt_python_client_bench.Dict.{Dict, string_eq, get}
use mqtt_python_client_bench.Dict.Entries.{Distinct, entries_within}
use mqtt_python_client_bench.Catalog.{
  Point, Value, text_value, number, flag, numbers, same_value, same_numbers, same_flag, is_default,
  asdict, as_dict, del, drop_defaults, extended_defaults, Profile,
}
use mqtt_python_client_bench.Catalog.Recorded.{get-del}
use mqtt_python_client_bench.Campaign.Resume.{
  covers, same_dict, same_dicts, same_texts, same_profile, recorded_points,
}

pub str_eq_refl : (s : String) → str_eq s s ≡ true
str_eq_refl s = (eq_iff s s).1 refl

pub ==_refl : (n : ℕ) → (n == n) ≡ true
==_refl n = ground arith

same_numbers_refl : (xs : List ℕ) → same_numbers xs xs ≡ true
same_numbers_refl [] = refl
same_numbers_refl (x ∷ xs) = let h = same_numbers_refl xs in ground arith

same_flag_refl : (b : Bool) → same_flag b b ≡ true
same_flag_refl true = refl
same_flag_refl false = refl

same_value_refl : (v : Value) → same_value v v ≡ true
same_value_refl (text_value s) = str_eq_refl s
same_value_refl (number n) = ==_refl n
same_value_refl (flag b) = same_flag_refl b
same_value_refl (numbers xs) = same_numbers_refl xs

and_true : (a b : Bool) → a ≡ true → b ≡ true → (a && b) ≡ true
and_true a b p q = rw (p, q) refl

pub and_parts : (a b : Bool) → (a && b) ≡ true → (a ≡ true) × (b ≡ true)
and_parts true b h = (refl, h)
and_parts false b h = absurd (cc)

pub same_dict_sym : (d e : Dict String Value) → same_dict d e ≡ true → same_dict e d ≡ true
unfolding same_dict
same_dict_sym d e h =
    let (p, q) = and_parts (covers d e) (covers e d) h in and_true (covers e d) (covers d e) q p

absent-del : (d : Dict String Value) (k j : String) → get d j ≡ none → get (del d k) j ≡ none
absent-del d k j h = get-del d k j ∙ either (str_eq k j)
  where
    either : (b : Bool) → (if b then none else get d j) ≡ none
    either true = refl
    either false = h

Distinct-del : (d : Dict String Value) (k : String) → Distinct d → Distinct (del d k)
unfolding del
Distinct-del [] k h = tt
Distinct-del ((j, v) ∷ d) k h = elim (Bool-cases (str_eq j k)) [
  | inl e ↦ rw e (Distinct-del d k h.1)
  | inr n ↦ rw n (absent-del d k j h.0, Distinct-del d k h.1)
]

Distinct-drop_defaults :
    (defaults out : Dict String Value) → Distinct out → Distinct (drop_defaults defaults out)
unfolding drop_defaults
Distinct-drop_defaults [] out h = h
Distinct-drop_defaults ((k, v) ∷ defaults) out h =
    Distinct-drop_defaults defaults (if is_default (get out k) v then del out k else out)
      (either (is_default (get out k) v))
  where
    either : (b : Bool) → Distinct (if b then del out k else out)
    either true = Distinct-del out k h
    either false = h

Distinct-as_dict : (p : Point) → Distinct (as_dict p)
unfolding as_dict
Distinct-as_dict p = Distinct-drop_defaults extended_defaults (asdict p) (all_fields p)
  where
    all_fields : (p : Point) → Distinct (asdict p)
    all_fields p =
        unfold asdict in
        unfold get in
        (
          refl,
          (
            refl,
            (
              refl,
              (
                refl,
                (
                  refl,
                  (
                    refl,
                    (
                      refl,
                      (refl, (refl, (refl, (refl, (refl, (refl, (refl, (refl, (refl, tt))))))))),
                    ),
                  ),
                ),
              ),
            ),
          ),
        )

covers-All :
    (d e : Dict String Value)
    → All (λ (x : String × Value). get e x.0 ≡ some x.1) d
    → covers d e ≡ true
covers-All [] e h = refl
covers-All ((k, v) ∷ d) e h =
    and_true (is_default (get e k) v) (covers d e)
      (ap (λ o. is_default o v) h.0 ∙ same_value_refl v) (covers-All d e h.1)

pub same_dict-as_dict : (p : Point) → same_dict (as_dict p) (as_dict p) ≡ true
unfolding same_dict
same_dict-as_dict p =
    let c =
      covers-All (as_dict p) (as_dict p)
        (entries_within (as_dict p) (as_dict p) (Distinct-as_dict p) (λ k v h. h)) in
    and_true (covers (as_dict p) (as_dict p)) (covers (as_dict p) (as_dict p)) c c

pub same_dicts-recorded_points :
    (points : List Point) → same_dicts (recorded_points points) (recorded_points points) ≡ true
same_dicts-recorded_points [] = refl
same_dicts-recorded_points (p ∷ points) =
    and_true (same_dict (as_dict p) (as_dict p)) _ (same_dict-as_dict p)
      (same_dicts-recorded_points points)

pub same_texts_refl : (ss : List String) → same_texts ss ss ≡ true
same_texts_refl [] = refl
same_texts_refl (s ∷ ss) = and_true (str_eq s s) _ (str_eq_refl s) (same_texts_refl ss)

pub same_profile_refl : (p : Profile) → same_profile p p ≡ true
same_profile_refl p = and_true _ _ (str_eq_refl p.name) (
    and_true _ _ (==_refl p.warmup_ms) (
      and_true _ _ (==_refl p.measure_ms) (
        and_true _ _ (==_refl p.drain_ms)
          (and_true _ _ (==_refl p.runs) (same_flag_refl p.comparable)))))
