-- ===== src/Core/FileTransfer/Names.antt =====
-- The file names of core/src/file_transfer.rs: which are accepted, which are free, and the names
-- of partial files.
pub mod Safe
use clip_bridge.Core.FileTransfer.{
  FileTransferError, io, invalid_file_name, reserved_file_name, Result, ok, err,
}
use clip_bridge.Prelude.Assoc
use clip_bridge.Prelude.Assoc.{
  Assoc, IsMap, is_some, lookup-remove, lookup-insert, lookup-insert_self, remove-IsMap,
  insert-IsMap, All-remove, All-lookup, length-remove, remove_missing, length-remove_found,
}
use clip_bridge.Prelude.{
  String, ℕ, zero, suc, ◌+◌, ◌-◌, ◌*◌, ◌/◌, ◌%◌, ◌^◌, ◌≤◌, ◌<◌, ◌≡◌, ◌≢◌, ◌↔◌, ◌⊎◌, inl, inr, refl,
  sym, ap, subst, ◌∙◌, Bool, true, false, not, ◌&&◌, ◌||◌, Option, none, some, List, [], ◌∷◌, ◌++◌,
  map, append-nil, append_assoc, arith, ltb, leb, if◌then◌else◌, Eq, ◌==◌, eq_iff, eq_refl, ne-eq,
  eq_symm, list_eq, nat_eq, option_eq, list_beq, option_beq, length, is_empty, take, drop, All,
  All-append, All-map, length-append, retain, any, contains, Distinct, length-retain, retain-append,
  Text, codes, text_lt, starts_with, Bool-cases, Option-cases, ltb→lt, leb→le, leb→gt, le→leb,
  length-take, length-drop, take-append-drop, drop-all, contains-append, Distinct-append_one,
  retain_all, All-retain, nat_beq,
}
use clip_bridge.Prelude.Chars.{is_control, is_whitespace, trim_start, trim_end, trim_matches}

unfoldable pub is_separator_or_control : ℕ → Bool
is_separator_or_control c = nat_beq c b'/' || nat_beq c 92 || is_control c

unfoldable pub is_space_or_dot : ℕ → Bool
is_space_or_dot c = nat_beq c b' ' || nat_beq c b'.'

-- `s.split_once(c)` and `s.rsplit_once(c)`
unfoldable pub split_once : ℕ → Text → Option (Text × Text)
split_once c [] = none
split_once c (x ∷ s) =
    let rest = split_once c s in
    if nat_beq x c then some ([], s) else elim rest [ none ↦ none | some p ↦ some (x ∷ p.0, p.1) ]

unfoldable pub rsplit_once : ℕ → Text → Option (Text × Text)
rsplit_once c [] = none
rsplit_once c (x ∷ s) = elim (rsplit_once c s) [
  | some p ↦ some (x ∷ p.0, p.1)
  | none ↦ if nat_beq x c then some ([], s) else none
]

unfoldable pub to_ascii_uppercase : Text → Text
to_ascii_uppercase s = map (λ c. if leb b'a' c && leb c b'z' then c - 32 else c) s

abbrev pub windows_reserved_names : List Text
windows_reserved_names = map codes (
    "CON" ∷ "PRN" ∷ "AUX" ∷ "NUL" ∷ "COM1" ∷ "COM2" ∷ "COM3" ∷ "COM4" ∷ "COM5" ∷ "COM6" ∷ "COM7"
    ∷ "COM8" ∷ "COM9" ∷ "LPT1" ∷ "LPT2" ∷ "LPT3" ∷ "LPT4" ∷ "LPT5" ∷ "LPT6" ∷ "LPT7" ∷ "LPT8"
    ∷ "LPT9" ∷ [])

unfoldable pub is_windows_reserved_name : Text → Bool
is_windows_reserved_name stem = contains windows_reserved_names stem

-- The part of a name before its first dot, in capitals.
unfoldable pub device_stem : Text → Text
device_stem trimmed =
    to_ascii_uppercase (elim (split_once b'.' trimmed) [ none ↦ trimmed | some p ↦ p.0 ])

unfoldable pub sanitize_file_name : Text → Result Text
sanitize_file_name name =
    let trimmed = trim_matches is_space_or_dot name in
    if is_empty name || name == codes "." || name == codes ".."
    then err (invalid_file_name name)
    else if any is_separator_or_control name
    then err (invalid_file_name name)
    else if is_empty trimmed
    then err (invalid_file_name name)
    else if is_windows_reserved_name (device_stem trimmed)
    then err (reserved_file_name name)
    else ok trimmed

unfoldable pub split_name_ext : Text → Text × Option Text
split_name_ext name = elim (rsplit_once b'.' name) [
  | none ↦ (name, none)
  | some p ↦ if not (is_empty p.0) && not (is_empty p.1) then (p.0, some p.1) else (name, none)
]

-- `format!("{i}")`; ten digits are more than the ten thousand names tried need.
unfoldable pub digits : ℕ → ℕ → Text
digits zero n = []
digits (suc fuel) n =
    let high = digits fuel (n / 10) in
    if ltb n 10 then (b'0' + n) ∷ [] else high ++ (b'0' + n % 10) ∷ []

unfoldable pub numbered_name : Text → Option Text → ℕ → Text
numbered_name stem none i = stem ++ (codes " (" ++ (digits 10 i ++ codes ")"))
numbered_name stem (some ext) i = stem ++ (codes " (" ++ (digits 10 i ++ (codes ")." ++ ext)))

-- The loop over `1..10_000`, of which `n` numbers are left.
unfoldable pub first_free : (Text → Text) → (Text → Bool) → Text → Option Text → ℕ → ℕ → Result Text
first_free join exists stem ext zero i = err io
first_free join exists stem ext (suc n) i =
    let rest = first_free join exists stem ext n (i + 1) in
    let next = join (numbered_name stem ext i) in if exists next then rest else ok next

-- `join` is `destination_dir.join`, the standard library's: on Windows a name that begins with a drive,
-- as in `C:x`, takes the place of the directory.
unfoldable pub unique_destination_path : (Text → Text) → (Text → Bool) → Text → Result Text
unique_destination_path join exists file_name = elim (sanitize_file_name file_name) [
  | err e ↦ err e
  | ok safe_name ↦
      let (stem, ext) = split_name_ext safe_name in
      let candidate = join safe_name in
      if exists candidate then first_free join exists stem ext 9999 1 else ok candidate
]

unfoldable pub is_ascii_alphanumeric : ℕ → Bool
is_ascii_alphanumeric c =
    (leb b'0' c && leb c b'9') || (leb b'A' c && leb c b'Z') || (leb b'a' c && leb c b'z')

-- A final path ends in its file name, to which `with_file_name` adds; `"incoming"` is not reached.
unfoldable pub part_path_for : Text → Text → Text
part_path_for final_path transfer_id =
    let safe_id = take 64 (retain (λ c. is_ascii_alphanumeric c || nat_beq c b'-') transfer_id) in
    final_path ++ codes "." ++ safe_id ++ codes ".part"
