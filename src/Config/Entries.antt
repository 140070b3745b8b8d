-- ===== src/Config/Entries.antt =====
-- Which entries a configuration file gives.
use kv_my.Common.{
  ℕ, ◌+◌, ◌-◌, ◌<◌, ◌==◌, ◌≡◌, ◌≢◌, refl, ap, ◌∙◌, false, if◌then◌else◌, Option, none, some, List,
  [], ◌∷◌, ◌++◌, arith, inl, inr, subst, Bool-cases, Option-cases, All, length,
}
use kv_my.Common.Bytes.{Bytes, bytes_eq, bytes_eq_iff}
use kv_my.Common.Maps.{lookup, bytes_key}
use kv_my.Config.{
  skip_blanks, cut_blanks, trim, until, parse_line, insert_new, lines_of, load_lines,
  load_config_file,
}
use kv_my.Config.Lines.{IsEntry, print_file, differs, body, body-IsNot, parse_line-entry}

lines_of-line :
    (room : ℕ) (b rest : Bytes)
    → All (λ c. c ≢ 10) b
    → length b < room
    → lines_of room ((b ++ 10 ∷ []) ++ rest) ≡ (b ++ 10 ∷ []) ∷ lines_of 511 rest
unfolding lines_of
lines_of-line room [] rest h lt = refl
lines_of-line room (c ∷ b) rest h lt =
    let wide : (room == 1) ≡ false = differs room 1 (λ e. absurd (omega arith)) in
    rw (differs c 10 h.0, wide, lines_of-line (room - 1) b rest h.1 (omega arith))

length-body : (k v : Bytes) → length (k ++ 61 ∷ v) ≡ length k + length v + 1
length-body [] v = omega arith
length-body (c ∷ k) v = omega (arith, length-body k v)

-- The entries one by one.
add_all : List (Bytes × Bytes) → List (Bytes × Bytes) → List (Bytes × Bytes)
add_all m [] = m
add_all m (p ∷ ps) = add_all (insert_new m (some p)) ps

load_lines-end : (m : List (Bytes × Bytes)) → load_lines m (lines_of 511 []) ≡ m
unfolding load_lines lines_of parse_line trim until skip_blanks cut_blanks insert_new
load_lines-end m = refl

load_lines-entries :
    (m ps : List (Bytes × Bytes))
    → All IsEntry ps
    → load_lines m (lines_of 511 (print_file ps)) ≡ add_all m ps
unfolding load_lines print_file add_all
load_lines-entries m [] h = load_lines-end m
load_lines-entries m (p ∷ ps) h = rw (
  lines_of-line 511 (body p) (print_file ps) (body-IsNot p h.0).0
      (omega (arith, length-body p.0 p.1, h.0.fits)),
  load_lines,
  parse_line-entry p h.0,
  load_lines-entries (insert_new m (some p)) ps h.1,
)

abbrev first_of : Option Bytes → Option Bytes → Option Bytes
first_of none other = other
first_of (some v) other = some v

insert_new-lookup :
    (m : List (Bytes × Bytes)) (p : Bytes × Bytes) (k : Bytes)
    → lookup (insert_new m (some p)) k
      ≡ first_of (lookup m k) (if bytes_eq p.0 k then some p.1 else none)
unfolding insert_new
insert_new-lookup m p k = elim (Bool-cases (bytes_eq p.0 k)) [
  | inl same ↦
      let e : p.0 ≡ k = (bytes_eq_iff p.0 k).0 same in
      elim (Option-cases (lookup m p.0)) [
        | inl new ↦
            let new' : lookup m k ≡ none = subst (λ j. lookup m j ≡ none) e new in
            rw (new, same, new')
        | inr (v, old) ↦
            let old' : lookup m k ≡ some v = subst (λ j. lookup m j ≡ some v) e old in
            rw (old, old')
      ]
  | inr differ ↦ elim (Option-cases (lookup m p.0)) [
    | inl new ↦ elim (Option-cases (lookup m k)) [
      | inl none_there ↦ rw (new, differ, none_there)
      | inr (w, there) ↦ rw (new, differ, there)
    ]
    | inr (v, old) ↦ elim (Option-cases (lookup m k)) [
      | inl none_there ↦ rw (old, differ, none_there)
      | inr (w, there) ↦ rw (old, there)
    ]
  ]
]

add_all-lookup :
    (m ps : List (Bytes × Bytes)) (k : Bytes)
    → lookup (add_all m ps) k ≡ first_of (lookup m k) (lookup ps k)
unfolding add_all
add_all-lookup m [] k = elim (Option-cases (lookup m k)) [
  | inl none_there ↦ rw none_there
  | inr (v, there) ↦ rw there
]
add_all-lookup m (p ∷ ps) k =
    rw (add_all-lookup (insert_new m (some p)) ps k, insert_new-lookup m p k)
      (elim (Option-cases (lookup m k)) [
        | inl none_there ↦ elim (Bool-cases (bytes_eq p.0 k)) [
          | inl same ↦ rw (none_there, same)
          | inr differ ↦ rw (none_there, differ)
        ]
        | inr (v, there) ↦ rw there
      ])

-- A file whose lines are entries, with keys that are not empty and have no `=` and no `#` in front,
-- keys and values without a blank, an end of a line or a byte 0, and at most 511 bytes a line, is
-- read back: each key has its first value, and any other key has none.
pub load_config_file-print :
    (ps : List (Bytes × Bytes)) (k : Bytes)
    → All IsEntry ps
    → lookup (load_config_file [] (print_file ps)) k ≡ lookup ps k
unfolding load_config_file
load_config_file-print ps k h =
    ap (λ m. lookup m k) (load_lines-entries [] ps h) ∙ add_all-lookup [] ps k
