-- ===== src/Procstat/Names.antt =====
-- bench/procstat.py, parse_process_stat: the command name "sits between the first ( and the last ) and
-- may contain spaces and parentheses".
use mqtt_python_client_bench.Prelude.{
  ℕ, ◌+◌, ◌-◌, ◌≡◌, refl, sym, ap, ap₂, ◌∙◌, Bool, false, Option, none, some, [], ◌∷◌, ◌++◌, ◌==◌,
  length, take, drop, any, append_assoc, length-append, arith,
}
use mqtt_python_client_bench.Procstat.{
  Text, find, rfind, words, number_at, sum_of, comm_start, comm_end, fields_start, with_ticks,
  parse_process_stat,
}

abbrev pub has : ℕ → Text → Bool
has c text = any (λ x. x == c) text

-- A line of /proc/<pid>/stat: the number, the name in parentheses, and the other fields.
abbrev pub stat_line : Text → Text → Text → Text
stat_line pid comm fields = pid ++ 32 ∷ 40 ∷ comm ++ 41 ∷ 32 ∷ fields

find-append :
    (c : ℕ) (front rest : Text)
    → has c front ≡ false
    → find c (front ++ c ∷ rest) ≡ some (length front)
unfolding find
find-append c [] rest h = ground arith
find-append c (x ∷ front) rest h = let r = find-append c front rest in ground arith

rfind-none : (c : ℕ) (text : Text) → has c text ≡ false → rfind c text ≡ none
unfolding rfind
rfind-none c [] h = refl
rfind-none c (x ∷ text) h = let r = rfind-none c text in ground arith

rfind-append :
    (c : ℕ) (front rest : Text)
    → has c rest ≡ false
    → rfind c (front ++ c ∷ rest) ≡ some (length front)
unfolding rfind
rfind-append c [] rest h = let r = rfind-none c rest h in ground arith
rfind-append c (x ∷ front) rest h = let r = rfind-append c front rest h in ground arith

drop-append : (front rest : Text) → drop (length front) (front ++ rest) ≡ rest
drop-append [] rest = refl
drop-append (x ∷ front) rest = drop-append front rest

take-append : (front rest : Text) → take (length front) (front ++ rest) ≡ front
take-append [] rest = refl
take-append (x ∷ front) rest = ap (λ xs. x ∷ xs) (take-append front rest)

module _ (pid comm fields : Text) (plain : has 40 pid ≡ false) (bare : has 41 fields ≡ false) where
  abbrev rest : Text
  rest = comm ++ 41 ∷ 32 ∷ fields

  from_name : stat_line pid comm fields ≡ (pid ++ 32 ∷ 40 ∷ []) ++ rest
  from_name =
      append_assoc pid (32 ∷ 40 ∷ comm) (41 ∷ 32 ∷ fields)
      ∙ sym (append_assoc pid (32 ∷ 40 ∷ []) rest)

  from_parenthesis : stat_line pid comm fields ≡ (pid ++ 32 ∷ []) ++ 40 ∷ rest
  from_parenthesis =
      append_assoc pid (32 ∷ 40 ∷ comm) (41 ∷ 32 ∷ fields)
      ∙ sym (append_assoc pid (32 ∷ []) (40 ∷ rest))

  no_parenthesis : has 40 (pid ++ 32 ∷ []) ≡ false
  no_parenthesis = none_in pid plain
    where
      none_in : (front : Text) → has 40 front ≡ false → has 40 (front ++ 32 ∷ []) ≡ false
      none_in [] h = refl
      none_in (x ∷ front) h = let r = none_in front in ground (arith, r)

  comm_start-stat_line : comm_start (stat_line pid comm fields) ≡ length (pid ++ 32 ∷ 40 ∷ [])
  comm_start-stat_line =
      ap comm_start from_parenthesis
      ∙ ap (λ (o : Option ℕ). elim o [ none ↦ 0 | some i ↦ i + 1 ])
          (find-append 40 (pid ++ 32 ∷ []) rest no_parenthesis)
      ∙ omega (arith, length-append pid (32 ∷ []), length-append pid (32 ∷ 40 ∷ []))

  comm_end-stat_line : comm_end (stat_line pid comm fields) ≡ length (pid ++ 32 ∷ 40 ∷ comm)
  comm_end-stat_line =
      ap (λ (o : Option ℕ). elim o [ none ↦ length (stat_line pid comm fields) - 1 | some i ↦ i ])
        (rfind-append 41 (pid ++ 32 ∷ 40 ∷ comm) (32 ∷ fields) (bare_rest))
    where
      bare_rest : has 41 (32 ∷ fields) ≡ false
      bare_rest = bare

  fields_start-stat_line :
      fields_start (stat_line pid comm fields) ≡ length ((pid ++ 32 ∷ 40 ∷ comm) ++ 41 ∷ 32 ∷ [])
  fields_start-stat_line =
      ap (λ (o : Option ℕ). elim o [ none ↦ 1 | some i ↦ i + 2 ])
        (rfind-append 41 (pid ++ 32 ∷ 40 ∷ comm) (32 ∷ fields) bare)
      ∙ omega (arith, length-append (pid ++ 32 ∷ 40 ∷ comm) (41 ∷ 32 ∷ []))

  name_part :
      take
        (comm_end (stat_line pid comm fields) - comm_start (stat_line pid comm fields))
        (drop (comm_start (stat_line pid comm fields)) (stat_line pid comm fields))
      ≡ comm
  name_part =
      ap₂ take
        (ap₂ (λ a b. a - b) comm_end-stat_line comm_start-stat_line
          ∙ omega (arith, length-append pid (32 ∷ 40 ∷ comm), length-append pid (32 ∷ 40 ∷ [])))
        (ap₂ (λ (n : ℕ) (text : Text). drop n text) comm_start-stat_line from_name
          ∙ drop-append (pid ++ 32 ∷ 40 ∷ []) rest)
      ∙ take-append comm (41 ∷ 32 ∷ fields)

  fields_part : drop (fields_start (stat_line pid comm fields)) (stat_line pid comm fields) ≡ fields
  fields_part =
      ap₂ (λ (n : ℕ) (text : Text). drop n text) fields_start-stat_line
        (sym (append_assoc (pid ++ 32 ∷ 40 ∷ comm) (41 ∷ 32 ∷ []) fields))
      ∙ drop-append ((pid ++ 32 ∷ 40 ∷ comm) ++ 41 ∷ 32 ∷ []) fields

  -- From a line of a process number without `(`, any command name in parentheses, with spaces and
  -- parentheses of its own or not, and other fields without `)`: the name comes back whole, with the
  -- sum of the fields of index 11 and 12; and nothing where one of these is missing or no number.
  pub parse_process_stat-stat_line :
      (int : Text → Option ℕ)
      → parse_process_stat int (stat_line pid comm fields)
        ≡ with_ticks comm
            (sum_of (number_at int (words fields) 11) (number_at int (words fields) 12))
  unfolding parse_process_stat
  parse_process_stat-stat_line int =
      ap₂
        (λ (name rest : Text).
          with_ticks name (sum_of (number_at int (words rest) 11) (number_at int (words rest) 12)))
        name_part fields_part
