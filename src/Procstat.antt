-- ===== src/Procstat.antt =====
-- bench/procstat.py: the texts of /proc as they are parsed, what a process used between two readings,
-- and who used the CPU of the host. A text is the list of its characters, Python's `int` of a word the
-- parameter `int`. Times are ticks: the source divides by CLK_TCK and by the wall time, which are
-- positive, and rounds.
pub mod Names
pub mod Shares
pub mod Ranking
pub mod Top
use mqtt_python_client_bench.Prelude.{
  ℕ, zero, suc, ◌+◌, ◌-◌, ◌*◌, ◌/◌, ◌≡◌, Bool, true, false, not, Option, none, some, List, [], ◌∷◌,
  ◌++◌, ltb, leb, ◌==◌, if◌then◌else◌, ◌&&◌, ◌||◌, length, take, drop, get_elem?, any,
}
use mqtt_python_client_bench.Prelude.Int.{ℤ, pos, sub_ℕ, ltb_ℤ, ◌+ℤ◌}
use mqtt_python_client_bench.Dict.{Dict, nat_eq, get, put, get_or}
use mqtt_python_client_bench.Bridge.Topics.{text_eq}

abbrev pub Text : Type 0
Text = List ℕ

-- ------------------------------------------------------------------ parsing

abbrev pub later : Option ℕ → Option ℕ
later none = none
later (some i) = some (suc i)

-- text.find(c)
unfoldable pub find : ℕ → Text → Option ℕ
find c [] = none
find c (x ∷ text) = if x == c then some 0 else later (find c text)

abbrev pub later_or : Option ℕ → Bool → Option ℕ
later_or (some i) here = some (suc i)
later_or none true = some 0
later_or none false = none

-- text.rfind(c)
unfoldable pub rfind : ℕ → Text → Option ℕ
rfind c [] = none
rfind c (x ∷ text) = later_or (rfind c text) (x == c)

-- The white space of ASCII, for str.split.
abbrev pub is_space : ℕ → Bool
is_space c = c == 32 || ((leb 9 c && leb c 13) || (leb 28 c && leb c 31))

abbrev pub word_end : Text → List Text → List Text
word_end [] words = words
word_end (c ∷ word) words = (c ∷ word) ∷ words

-- text.split(), with the characters of the word so far
unfoldable pub words_from : Text → Text → List Text
words_from word [] = word_end word []
words_from word (c ∷ text) =
    let rest = words_from (if is_space c then [] else word ++ c ∷ []) text in
    if is_space c then word_end word rest else rest

abbrev pub words : Text → List Text
words text = words_from [] text

-- int(fields[i]), if there is such a field and it is a number
abbrev pub number_at : (Text → Option ℕ) → List Text → ℕ → Option ℕ
number_at int fields i = elim (get_elem? fields i) [ none ↦ none | some word ↦ int word ]

abbrev pub sum_of : Option ℕ → Option ℕ → Option ℕ
sum_of (some a) (some b) = some (a + b)
sum_of _ _ = none

-- text.find("(") + 1, and text.rfind(")"), where -1 counts from the end
abbrev pub comm_start : Text → ℕ
comm_start text = elim (find 40 text) [ none ↦ 0 | some i ↦ i + 1 ]

abbrev pub comm_end : Text → ℕ
comm_end text = elim (rfind 41 text) [ none ↦ length text - 1 | some i ↦ i ]

abbrev pub fields_start : Text → ℕ
fields_start text = elim (rfind 41 text) [ none ↦ 1 | some i ↦ i + 2 ]

abbrev pub with_ticks : Text → Option ℕ → Option (Text × ℕ)
with_ticks comm none = none
with_ticks comm (some ticks) = some (comm, ticks)

-- parse_process_stat; none where it raises ValueError or IndexError.
unfoldable pub parse_process_stat : (Text → Option ℕ) → Text → Option (Text × ℕ)
unfolding find rfind words_from
parse_process_stat int text =
    let comm = take (comm_end text - comm_start text) (drop (comm_start text) text) in
    let fields = words (drop (fields_start text) text) in
    with_ticks comm (sum_of (number_at int fields 11) (number_at int fields 12))

-- ------------------------------------------------------------------ who used the CPU

-- For each process, by its number: its command name and its ticks.
abbrev pub Processes : Type 0
Processes = Dict ℕ (Text × ℕ)

-- used > 0 where the process was there before: the ticks in between, and its name
abbrev pub counted : Processes → List ℕ → Dict ℕ Text → ℕ → Text × ℕ → Option (Text × ℕ)
counted a skip labels pid (comm, ticks) =
    if any (λ other. other == pid) skip then none else elim (get a pid) [
      | none ↦ none
      | some (name, before) ↦
          if ltb before ticks then some (get_or labels pid comm, ticks - before) else none
    ]

abbrev pub add_share : Dict Text ℕ → Option (Text × ℕ) → Dict Text ℕ
add_share by_name none = by_name
add_share by_name (some (name, used)) = put by_name name (get_or by_name name 0 + used)

-- The loop over b.items().
unfoldable pub by_name : Processes → List ℕ → Dict ℕ Text → Dict Text ℕ → Processes → Dict Text ℕ
unfolding get put
by_name a skip labels shares [] = shares
by_name a skip labels shares ((pid, process) ∷ b) =
    by_name a skip labels (add_share shares (counted a skip labels pid process)) b

-- sorted(by_name.items(), key=lambda kv: -kv[1])
abbrev pub rank : Text × ℕ → List (Text × ℕ) → List (Text × ℕ)
rank (name, used) [] = (name, used) ∷ []
rank (name, used) ((other, more) ∷ ranked) =
    let rest = rank (name, used) ranked in
    if leb more used then (name, used) ∷ (other, more) ∷ ranked else (other, more) ∷ rest

unfoldable pub ranked : Dict Text ℕ → List (Text × ℕ)
ranked [] = []
ranked ((name, used) ∷ shares) = rank (name, used) (ranked shares)

-- cores >= floor, for floor_ticks the ticks that are `floor` cores in the wall time
abbrev pub above : ℕ → List (Text × ℕ) → List (Text × ℕ)
above floor_ticks [] = []
above floor_ticks ((name, used) ∷ shares) =
    let rest = above floor_ticks shares in
    if leb floor_ticks used then (name, used) ∷ rest else rest

abbrev pub total : List (Text × ℕ) → ℕ
total [] = 0
total ((name, used) ∷ shares) = used + total shares

pub record Attribution : Type 0 where
  pub top : List (Text × ℕ)
  pub processes : ℕ

unfoldable pub attribute : Processes → Processes → List ℕ → Dict ℕ Text → ℕ → ℕ → Attribution
unfolding by_name ranked
attribute a b exclude labels limit floor_ticks =
    let shares = by_name a exclude labels [] b in
    record { top = above floor_ticks (take limit (ranked shares)); processes = total shares }

-- ------------------------------------------------------------------ one process

pub data Source : Type 0 where
  schedstat ticks : Source

pub record Reading : Type 0 where
  pub utime_ticks : ℕ
  pub stime_ticks : ℕ
  pub threads : ℕ
  pub cpu_ns : ℕ

pub record Delta : Type 0 where
  pub cpu_user : ℤ
  pub cpu_sys : ℤ
  pub cpu_ns : ℤ
  pub source : Source

-- ns for the whole process: cpu_ns by schedstat, or by ticks of `tick_ns` nanoseconds each
unfoldable pub process_delta : ℕ → Option Reading → Option Reading → Option Delta
unfolding ◌+ℤ◌
process_delta tick_ns (some a) (some b) =
    let user = sub_ℕ (b.utime_ticks * tick_ns) (a.utime_ticks * tick_ns) in
    let sys = sub_ℕ (b.stime_ticks * tick_ns) (a.stime_ticks * tick_ns) in
    let exited = ltb b.cpu_ns a.cpu_ns || not (a.threads == b.threads) in
    some (record {
      cpu_user = user;
      cpu_sys = sys;
      cpu_ns = if exited then user +ℤ sys else sub_ℕ b.cpu_ns a.cpu_ns;
      source = if exited then ticks else schedstat;
    })
process_delta tick_ns _ _ = none
