-- ===== src/Tests/HostRuns.antt =====
-- bench/procstat.py on two small readings, and on a command name with parentheses.
use mqtt_python_client_bench.Prelude.{ℕ, ◌≡◌, refl, Option, none, some, [], ◌∷◌}
use mqtt_python_client_bench.Dict.{get, put}
use mqtt_python_client_bench.Procstat.{
  Text, Processes, attribute, by_name, ranked, parse_process_stat, words, number_at, sum_of,
  with_ticks,
}
use mqtt_python_client_bench.Procstat.Names.{stat_line, parse_process_stat-stat_line}
use mqtt_python_client_bench.Procstat.Top.{Attributes, attribute-Attributes}

-- Process 1 is excluded, 4 ended and 5 is new; 2 and 3 have one name.
abbrev before : Processes
before =
    (1, (99 ∷ [], 10))
    ∷ (2, (120 ∷ [], 5))
    ∷ (3, (120 ∷ [], 6))
    ∷ (4, (121 ∷ [], 9))
    ∷ (6, (122 ∷ [], 0))
    ∷ []

abbrev after : Processes
after =
    (1, (99 ∷ [], 90))
    ∷ (2, (120 ∷ [], 8))
    ∷ (3, (120 ∷ [], 10))
    ∷ (5, (121 ∷ [], 7))
    ∷ (6, (122 ∷ [], 20))
    ∷ []

shown : (attribute before after (1 ∷ []) [] 5 2).top ≡ (122 ∷ [], 20) ∷ (120 ∷ [], 7) ∷ []
unfolding attribute by_name ranked get put
shown = refl

attribute-Attributes_example :
    Attributes before after (1 ∷ []) [] 2 (attribute before after (1 ∷ []) [] 5 2)
attribute-Attributes_example = attribute-Attributes before after (1 ∷ []) [] 5 2

-- The fields after the name in "7 (a) (b) S 1 1 1 1 1 1 1 1 1 1 2 3"; those of index 11 and 12 are the last.
abbrev fields : Text
fields =
    83 ∷ 32 ∷ 49 ∷ 32 ∷ 49 ∷ 32 ∷ 49 ∷ 32 ∷ 49 ∷ 32 ∷ 49 ∷ 32 ∷ 49 ∷ 32 ∷ 49 ∷ 32 ∷ 49 ∷ 32 ∷ 49
    ∷ 32 ∷ 49 ∷ 32 ∷ 50 ∷ 32 ∷ 51 ∷ []

abbrev digit : Text → Option ℕ
digit (c ∷ []) = some c
digit _ = none

parse_process_stat-stat_line_example :
    parse_process_stat digit (stat_line (55 ∷ []) (97 ∷ 41 ∷ 32 ∷ 40 ∷ 98 ∷ []) fields)
    ≡ with_ticks
        (97 ∷ 41 ∷ 32 ∷ 40 ∷ 98 ∷ [])
        (sum_of (number_at digit (words fields) 11) (number_at digit (words fields) 12))
parse_process_stat-stat_line_example =
    parse_process_stat-stat_line (55 ∷ []) (97 ∷ 41 ∷ 32 ∷ 40 ∷ 98 ∷ []) fields refl refl digit
