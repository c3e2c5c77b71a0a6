-- ===== src/Core/FileTransfer/Names/Safe.antt =====
-- A received file's name stays a plain name in the destination directory, and a free one.
use clip_bridge.Core.FileTransfer.{ok, Result-cases}
use clip_bridge.Core.FileTransfer.Names.{
  is_separator_or_control, is_space_or_dot, rsplit_once, device_stem, is_windows_reserved_name,
  sanitize_file_name, split_name_ext, digits, numbered_name, first_free, unique_destination_path,
}
use clip_bridge.Prelude.{
  ℕ, zero, suc, ◌+◌, ◌/◌, ◌%◌, ◌≡◌, inl, inr, refl, Bool, true, false, not, ◌&&◌, ◌||◌, Option,
  none, some, [], ◌∷◌, ◌++◌, arith, ltb, ◌==◌, list_eq, nat_eq, option_eq, list_beq, is_empty, any,
  Text, codes, Bool-cases, Option-cases, subst, sym,
}
use clip_bridge.Prelude.Chars.{is_control, trim_start, trim_end, trim_matches}

-- The first character, if there is one, is not of the kind.
abbrev pub starts_without : (ℕ → Bool) → Text → Bool
starts_without p [] = true
starts_without p (c ∷ s) = not (p c)

trim_start-starts_without : (p : ℕ → Bool) (s : Text) → starts_without p (trim_start p s) ≡ true
unfolding trim_start
trim_start-starts_without p [] = refl
trim_start-starts_without p (c ∷ s) = ground (arith, trim_start-starts_without p s)

trim_end-starts_without :
    (p : ℕ → Bool) (s : Text) → starts_without p s ≡ true → starts_without p (trim_end p s) ≡ true
unfolding trim_end
trim_end-starts_without p [] h = refl
trim_end-starts_without p (c ∷ s) h = ground arith

trim_start_noop : (p : ℕ → Bool) (s : Text) → starts_without p s ≡ true → trim_start p s ≡ s
unfolding trim_start
trim_start_noop p [] h = refl
trim_start_noop p (c ∷ s) h = ground arith

trim_end-trim_end : (p : ℕ → Bool) (s : Text) → trim_end p (trim_end p s) ≡ trim_end p s
unfolding trim_end
trim_end-trim_end p [] = refl
trim_end-trim_end p (c ∷ s) = elim (Bool-cases (is_empty (trim_end p s) && p c)) [
  | inl gone ↦ rw gone refl
  | inr kept ↦ rw (kept, trim_end-trim_end p s, kept) refl
]

trim_matches-starts_without : (p : ℕ → Bool) (s : Text) → starts_without p (trim_matches p s) ≡ true
unfolding trim_matches
trim_matches-starts_without p s =
    trim_end-starts_without p (trim_start p s) (trim_start-starts_without p s)

trim_matches-trim_matches :
    (p : ℕ → Bool) (s : Text) → trim_matches p (trim_matches p s) ≡ trim_matches p s
unfolding trim_matches
trim_matches-trim_matches p s =
    rw (trim_start_noop p (trim_end p (trim_start p s)) (trim_matches-starts_without p s))
      (trim_end-trim_end p (trim_start p s))

any-trim_start : (q p : ℕ → Bool) (s : Text) → any q s ≡ false → any q (trim_start p s) ≡ false
unfolding trim_start any
any-trim_start q p [] h = refl
any-trim_start q p (c ∷ s) h = ground (arith, any-trim_start q p s)

any-trim_end : (q p : ℕ → Bool) (s : Text) → any q s ≡ false → any q (trim_end p s) ≡ false
unfolding trim_end any
any-trim_end q p [] h = refl
any-trim_end q p (c ∷ s) h = ground (arith, any-trim_end q p s)

any-trim_matches : (q p : ℕ → Bool) (s : Text) → any q s ≡ false → any q (trim_matches p s) ≡ false
unfolding trim_matches
any-trim_matches q p s h = any-trim_end q p (trim_start p s) (any-trim_start q p s h)

-- A plain name: not empty, without separators and control characters, and beginning with neither
-- a space nor a dot, so that it is neither `.` nor `..` and names no hidden file.
unfoldable pub is_plain_name : Text → Bool
is_plain_name s =
    not (is_empty s) && not (any is_separator_or_control s) && starts_without is_space_or_dot s

sanitized :
    (name t : Text)
    → sanitize_file_name name ≡ ok t
    → (t ≡ trim_matches is_space_or_dot name)
      × (any is_separator_or_control name ≡ false)
      × (is_empty t ≡ false)
      × (is_windows_reserved_name (device_stem t) ≡ false)
unfolding sanitize_file_name
sanitized name t h = ground arith

pub sanitize_file_name-is_plain :
    (name t : Text) → sanitize_file_name name ≡ ok t → is_plain_name t ≡ true
unfolding is_plain_name
sanitize_file_name-is_plain name t h =
    let facts = sanitized name t h in
    let plain = any-trim_matches is_separator_or_control is_space_or_dot name facts.1 in
    let first = trim_matches-starts_without is_space_or_dot name in
    rw facts.0 (ground (arith, plain, first, facts))

not_dots :
    (t : Text)
    → starts_without is_space_or_dot t ≡ true
    → ((t == codes ".") ≡ false) × ((t == codes "..") ≡ false)
unfolding is_space_or_dot list_beq
not_dots [] h = (refl, refl)
not_dots (c ∷ s) h = ground arith

-- A name that was made safe is safe: the receiver leaves it as the sender wrote it.
pub sanitize_file_name-sanitize_file_name :
    (name t : Text) → sanitize_file_name name ≡ ok t → sanitize_file_name t ≡ ok t
unfolding sanitize_file_name
sanitize_file_name-sanitize_file_name name t h =
    let facts = sanitized name t h in
    let plain : any is_separator_or_control t ≡ false =
      rw facts.0 (any-trim_matches is_separator_or_control is_space_or_dot name facts.1) in
    let first : starts_without is_space_or_dot t ≡ true =
      rw facts.0 (trim_matches-starts_without is_space_or_dot name) in
    let again : trim_matches is_space_or_dot t ≡ t =
      rw facts.0 (trim_matches-trim_matches is_space_or_dot name) in
    ground (arith, not_dots t first, plain, again, facts)

any-append : (q : ℕ → Bool) (s t : Text) → any q (s ++ t) ≡ (any q s || any q t)
unfolding any
any-append q [] t = refl
any-append q (c ∷ s) t = ground (arith, any-append q s t)

any-digits : (fuel n : ℕ) → any is_separator_or_control (digits fuel n) ≡ false
unfolding digits any is_separator_or_control is_control
any-digits zero n = refl
any-digits (suc fuel) n = elim (Bool-cases (ltb n 10)) [
  | inl one ↦ ground arith
  | inr more ↦ ground (
    arith,
    any-digits fuel (n / 10),
    any-append is_separator_or_control (digits fuel (n / 10)) ((b'0' + n % 10) ∷ []),
  )
]

-- The dot's part of the test on a text whose head the first part holds.
prefix-is_plain :
    (s t : Text)
    → is_plain_name s ≡ true
    → any is_separator_or_control t ≡ false
    → is_plain_name (s ++ t) ≡ true
unfolding is_plain_name any
prefix-is_plain [] t h k = absurd (ground arith)
prefix-is_plain (c ∷ s) t h k = ground (arith, any-append is_separator_or_control s t)

any-numbered :
    (i : ℕ) (t : Text)
    → any is_separator_or_control t ≡ false
    → any is_separator_or_control (codes " (" ++ (digits 10 i ++ t)) ≡ false
unfolding any is_separator_or_control is_control
any-numbered i t h =
    ground (arith, any-digits 10 i, any-append is_separator_or_control (digits 10 i) t)

numbered_name-is_plain :
    (stem : Text) (ext : Option Text) (i : ℕ)
    → is_plain_name stem ≡ true
    → ((e : Text) → ext ≡ some e → any is_separator_or_control e ≡ false)
    → is_plain_name (numbered_name stem ext i) ≡ true
unfolding numbered_name any is_separator_or_control is_control
numbered_name-is_plain stem none i h k =
    prefix-is_plain stem (codes " (" ++ (digits 10 i ++ codes ")")) h
      (any-numbered i (codes ")") refl)
numbered_name-is_plain stem (some e) i h k =
    prefix-is_plain stem (codes " (" ++ (digits 10 i ++ (codes ")." ++ e))) h
      (any-numbered i (codes ")." ++ e) (ground (arith, k e refl)))

rsplit_once-append :
    (c : ℕ) (s : Text) (p : Text × Text) → rsplit_once c s ≡ some p → s ≡ p.0 ++ c ∷ p.1
unfolding rsplit_once
rsplit_once-append c [] p h = ground arith
rsplit_once-append c (x ∷ s) p h = elim (Option-cases (rsplit_once c s)) [
  | inl e ↦ ground (arith, e)
  | inr (q, e) ↦ ground (arith, e, rsplit_once-append c s q e)
]

split-is_plain :
    (name : Text) (p : Text × Text)
    → name ≡ p.0 ++ b'.' ∷ p.1
    → is_plain_name name ≡ true
    → is_empty p.0 ≡ false
    → (is_plain_name p.0 ≡ true)
      × ((e : Text) → some p.1 ≡ some e → any is_separator_or_control e ≡ false)
unfolding is_plain_name any
split-is_plain name ([], t) e h k = absurd (ground arith)
split-is_plain name (c ∷ s, t) e h k = (
  ground (arith, any-append is_separator_or_control s (b'.' ∷ t)),
  λ x found. ground (arith, any-append is_separator_or_control s (b'.' ∷ t)),
)

-- The two parts of a plain name, the first one a plain name too.
split_name_ext-is_plain :
    (name : Text)
    → is_plain_name name ≡ true
    → (is_plain_name (split_name_ext name).0 ≡ true)
      × ((e : Text) → (split_name_ext name).1 ≡ some e → any is_separator_or_control e ≡ false)
unfolding split_name_ext
split_name_ext-is_plain name h = elim (Option-cases (rsplit_once b'.' name)) [
  | inl e ↦ rw (e, split_name_ext) (h, λ x k. absurd (ground arith))
  | inr (p, e) ↦ elim (Bool-cases (not (is_empty p.0) && not (is_empty p.1))) [
    | inl both ↦
        rw (e, split_name_ext, both)
          (split-is_plain name p (rsplit_once-append b'.' name p e) h (ground (arith, both)))
    | inr one ↦ rw (e, split_name_ext, one) (h, λ x k. absurd (ground arith))
  ]
]

-- The path is the destination directory joined with a plain name.
abbrev pub IsPlaced : (Text → Text) → Text → Type 0
IsPlaced join path = (name : Text) × (path ≡ join name) × (is_plain_name name ≡ true)

first_free_lem :
    (join : Text → Text) (exists : Text → Bool) (stem : Text) (ext : Option Text) (n i : ℕ)
    (path : Text)
    → is_plain_name stem ≡ true
    → ((e : Text) → ext ≡ some e → any is_separator_or_control e ≡ false)
    → first_free join exists stem ext n i ≡ ok path
    → (exists path ≡ false) × IsPlaced join path
unfolding first_free
first_free_lem join exists stem ext zero i path h k e = absurd (ground arith)
first_free_lem join exists stem ext (suc n) i path h k e =
    elim (Bool-cases (exists (join (numbered_name stem ext i)))) [
      | inl taken ↦ first_free_lem join exists stem ext n (i + 1) path h k (ground (arith, taken))
      | inr free ↦
          let here : join (numbered_name stem ext i) ≡ path = ground (arith, e, free) in
          (
            subst (λ p. exists p ≡ false) here free,
            (numbered_name stem ext i, sym here, numbered_name-is_plain stem ext i h k),
          )
    ]

-- The path chosen for a received file names no file that exists, and is the destination directory
-- joined with a plain name, one without separators and control characters, whatever name was offered.
pub unique_destination_path-is_plain :
    (join : Text → Text) (exists : Text → Bool) (file_name path : Text)
    → unique_destination_path join exists file_name ≡ ok path
    → (exists path ≡ false) × ((name : Text) × (path ≡ join name) × (is_plain_name name ≡ true))
unfolding unique_destination_path
unique_destination_path-is_plain join exists file_name path h =
    elim (Result-cases (sanitize_file_name file_name)) [
      | inl (safe, e) ↦
          let plain = sanitize_file_name-is_plain file_name safe e in
          let parts = split_name_ext-is_plain safe plain in
          elim (Bool-cases (exists (join safe))) [
            | inl taken ↦
                first_free_lem join exists (split_name_ext safe).0 (split_name_ext safe).1 9999 1
                  path parts.0 parts.1 (ground (arith, e, taken))
            | inr free ↦
                let here : join safe ≡ path = ground (arith, h, e, free) in
                (subst (λ p. exists p ≡ false) here free, (safe, sym here, plain))
          ]
      | inr (x, e) ↦ absurd (ground (arith, e))
    ]
