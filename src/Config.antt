-- ===== src/Config.antt =====
-- rpc/mprpcconfig.cpp: the file that names the nodes' addresses. The file is handed in as its bytes.
pub mod Lines
pub mod Entries
pub mod Tests
use kv_my.Common.{
  ℕ, zero, suc, ◌-◌, ◌==◌, Bool, true, false, ◌&&◌, if◌then◌else◌, Option, none, some, List, [],
  ◌∷◌,
}
use kv_my.Common.Bytes.{Bytes}
use kv_my.Common.Maps.{lookup, bytes_key}

abbrev is_empty : Bytes → Bool
is_empty [] = true
is_empty (c ∷ cs) = false

unfoldable skip_blanks : Bytes → Bytes
skip_blanks [] = []
skip_blanks (c ∷ cs) = let rest = skip_blanks cs in if c == 32 then rest else c ∷ cs

unfoldable cut_blanks : Bytes → Bytes
cut_blanks [] = []
cut_blanks (c ∷ cs) = let rest = cut_blanks cs in if is_empty rest && c == 32 then [] else c ∷ rest

-- A string of blanks alone stays as it is.
unfoldable pub trim : Bytes → Bytes
unfolding skip_blanks cut_blanks
trim src =
    let front = if is_empty (skip_blanks src) then src else skip_blanks src in
    if is_empty (cut_blanks front) then front else cut_blanks front

-- What stands before and behind the first `c`, where there is one.
unfoldable pub split_at : ℕ → Bytes → Option (Bytes × Bytes)
split_at c [] = none
split_at c (x ∷ xs) =
    let rest = split_at c xs in
    if x == c then some ([], xs) else elim rest [ none ↦ none | some p ↦ some (x ∷ p.0, p.1) ]

-- What stands before the first `c`, or everything.
unfoldable pub until : ℕ → Bytes → Bytes
until c [] = []
until c (x ∷ xs) = let rest = until c xs in if x == c then [] else x ∷ rest

abbrev pub is_comment : Bytes → Bool
is_comment [] = true
is_comment (c ∷ cs) = c == 35

abbrev pub entry_of : Option (Bytes × Bytes) → Option (Bytes × Bytes)
entry_of none = none
entry_of (some p) = some (trim p.0, trim (until 10 p.1))

-- The loop's body up to `insert`: none for an empty line, a comment, or a line without `=`. A string
-- made of the buffer ends at a byte 0.
unfoldable pub parse_line : Bytes → Option (Bytes × Bytes)
parse_line buf =
    let read_buf = trim (until 0 buf) in
    if is_comment read_buf then none else entry_of (split_at 61 read_buf)

-- `m_configMap.insert`, which leaves a key that is there.
abbrev add_new : List (Bytes × Bytes) → Bytes × Bytes → Option Bytes → List (Bytes × Bytes)
add_new m p none = p ∷ m
add_new m p (some v) = m

unfoldable pub insert_new : List (Bytes × Bytes) → Option (Bytes × Bytes) → List (Bytes × Bytes)
insert_new m none = m
insert_new m (some p) = add_new m p (lookup m p.0)

abbrev pub into_first : ℕ → List Bytes → List Bytes
into_first c [] = (c ∷ []) ∷ []
into_first c (l ∷ ls) = (c ∷ l) ∷ ls

-- What `fgets` puts into a buffer of 512 bytes, call by call: a line with its end, or the 511 bytes
-- that fit. A file that ends there is met by one more call, which reads nothing.
unfoldable pub lines_of : ℕ → Bytes → List Bytes
lines_of room [] = [] ∷ []
lines_of room (c ∷ cs) =
    let next = lines_of 511 cs in
    let more = lines_of (room - 1) cs in
    if c == 10 then (c ∷ []) ∷ next else if room == 1 then (c ∷ []) ∷ next else into_first c more

unfoldable pub load_lines : List (Bytes × Bytes) → List Bytes → List (Bytes × Bytes)
load_lines m [] = m
load_lines m (l ∷ ls) = load_lines (insert_new m (parse_line l)) ls

unfoldable pub load_config_file : List (Bytes × Bytes) → Bytes → List (Bytes × Bytes)
load_config_file m file = load_lines m (lines_of 511 file)

abbrev value_or_empty : Option Bytes → Bytes
value_or_empty none = []
value_or_empty (some v) = v

unfoldable pub load : List (Bytes × Bytes) → Bytes → Bytes
load m key = value_or_empty (lookup m key)
