-- ===== src/Webhook/Rotation.antt =====
-- `persistLine` and `rotateLog` of core/webhook-store.ts, on a file system that serves each call.
-- The log's files are numbered: 0 is the active one, `n` is the one with the suffix `.n`. A rename
-- of a file that is missing does nothing.
use avito_mcp.Prelude.{
  ℕ, zero, suc, ◌+◌, ◌-◌, ◌≤◌, ◌≡◌, ◌&&◌, Option, none, some, List, [], ◌∷◌, ◌++◌, max, arith, ltb,
  leb, eqb, if◌then◌else◌, get_or, Option-cases, inl, inr, ap, Bool-cases,
}
use avito_mcp.Webhook.{LogLine}

abbrev pub Files : Type 0
Files = ℕ → Option (List LogLine)

abbrev pub rm : Files → ℕ → Files
rm files i = λ j. if eqb j i then none else files j

abbrev moved : Files → ℕ → ℕ → Option (List LogLine) → Files
moved files i k none = files
moved files i k (some content) =
    λ j. if eqb j k then some content else if eqb j i then none else files j

abbrev pub rename : Files → ℕ → ℕ → Files
rename files i k = moved files i k (files i)

-- `for (let index = backups - 1; index >= 1; index -= 1)`, from `index`
unfoldable pub shift_from : ℕ → Files → Files
shift_from zero files = files
shift_from (suc i) files = shift_from i (rename files (suc i) (suc (suc i)))

unfoldable pub rotate_log : ℕ → Files → Files
rotate_log retained_files files =
    let backups = retained_files - 1 in
    if eqb backups 0 then rm files 0 else rename (shift_from (backups - 1) (rm files backups)) 0 1

-- `Buffer.byteLength` of the printed line
module _ (bytes : LogLine → ℕ) where
  abbrev pub file_bytes : List LogLine → ℕ
  file_bytes [] = 0
  file_bytes (l ∷ ls) = bytes l + file_bytes ls

  abbrev append_to : Files → LogLine → Files
  append_to files line = λ j. if eqb j 0 then some (get_or (files 0) [] ++ line ∷ []) else files j

  unfoldable pub persist_line : ℕ → ℕ → Files → LogLine → Files
  persist_line max_log_bytes retained_files files line =
      let current_bytes = file_bytes (get_or (files 0) []) in
      append_to
        (if ltb 0 current_bytes && ltb max_log_bytes (current_bytes + bytes line)
          then rotate_log retained_files files
          else files)
        line

rename-eq :
    (files : Files) (i k j : ℕ)
    → files k ≡ none
    → rename files i k j ≡ (if eqb j k then files i else if eqb j i then none else files j)
rename-eq files i k j h = elim (Option-cases (files i)) [
  | inl e ↦ rw e (ground (arith, at_eq k, at_eq i))
  | inr (c, e) ↦ rw e
]
  where
    at_eq : (m : ℕ) → j ≡ m → files j ≡ files m
    at_eq m p = ap files p

shift_from_lem :
    (n : ℕ) (files : Files) (j : ℕ)
    → files (suc n) ≡ none
    → shift_from n files j ≡ (
        if eqb j 0
        then files 0
        else if eqb j 1
        then none
        else if leb j (suc n)
        then files (j - 1)
        else files j)
unfolding shift_from
shift_from_lem zero files j h = ground (arith, λ (p : j ≡ 1). ap files p, λ (p : j ≡ 0). ap files p)
shift_from_lem (suc n) files j h =
    let moved_up = rename files (suc n) (suc (suc n)) in
    ground (
      arith,
      shift_from_lem n moved_up j,
      rename-eq files (suc n) (suc (suc n)) (suc n) h,
      rename-eq files (suc n) (suc (suc n)) 0 h,
      rename-eq files (suc n) (suc (suc n)) (j - 1) h,
      rename-eq files (suc n) (suc (suc n)) j h,
      λ (p : j - 1 ≡ suc n). ap files p,
    )

-- With at least one retained file, a rotation frees the active file, moves every older file up by one
-- number, drops the one with the highest retained number, and touches no file beyond it.
pub rotate_log_lem :
    (retained_files : ℕ) (files : Files) (j : ℕ)
    → 1 ≤ retained_files
    → rotate_log retained_files files j
      ≡ (if eqb j 0 then none else if leb j (retained_files - 1) then files (j - 1) else files j)
unfolding rotate_log
rotate_log_lem zero files j h = elim h [ ]
rotate_log_lem (suc zero) files j h = ground arith
rotate_log_lem (suc (suc b)) files j h =
    let removed = rm files (suc b) in
    let shifted = shift_from b removed in
    let gone : removed (suc b) ≡ none = ground arith in
    let free : shifted 1 ≡ none = ground (arith, shift_from_lem b removed 1 gone) in
    ground (
      arith,
      rename-eq shifted 0 1 j free,
      shift_from_lem b removed 0 gone,
      shift_from_lem b removed j gone,
      λ (p : j ≡ 1). ap (λ k. files (k - 1)) p,
    )

module _ (bytes : LogLine → ℕ) where
  file_bytes-append :
      (ls : List LogLine) (l : LogLine)
      → file_bytes bytes (ls ++ l ∷ []) ≡ file_bytes bytes ls + bytes l
  file_bytes-append [] l = omega arith
  file_bytes-append (k ∷ ls) l = omega (arith, file_bytes-append ls l)

  -- Whatever the files held, after a line is written the active file ends with that line and is at most
  -- the size limit, or the size of that one line if that is larger.
  pub persist_line-bounded :
      (max_log_bytes retained_files : ℕ) (files : Files) (line : LogLine)
      → 1 ≤ retained_files
      → (older : List LogLine) × (persist_line bytes max_log_bytes retained_files files line 0
          ≡ some (older ++ line ∷ []))
        × (file_bytes bytes (older ++ line ∷ []) ≤ max max_log_bytes (bytes line))
  unfolding persist_line
  persist_line-bounded max_log_bytes retained_files files line h =
      let held = get_or (files 0) [] in
      let over =
        ltb 0 (file_bytes bytes held) && ltb max_log_bytes (file_bytes bytes held + bytes line) in
      elim (Bool-cases over) [
        | inl e ↦ ([], rw (e, rotate_log_lem retained_files files 0 h), omega arith)
        | inr e ↦ (held, rw e, ground (arith, file_bytes-append held line))
      ]
