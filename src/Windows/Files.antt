-- ===== src/Windows/Files.antt =====
-- The file history of clients/windows/src/bridge.rs, and what sending files leaves in it.
use clip_bridge.Windows.{
  history_limit, FileStatus, sent, failed, FileTransferHistoryEntry, FileStore, remove_entry,
  store_file_history,
}
use clip_bridge.Windows.Sending.{
  Transfers, failed_entry, answered_entry, final_entry, send_to, send_each, send_files_to_peers,
}
use clip_bridge.Prelude.{
  ℕ, zero, suc, ◌+◌, ◌*◌, ◌≤◌, ◌≡◌, ◌⊎◌, inl, inr, refl, subst, Bool, true, false, not, some, List,
  [], ◌∷◌, arith, ◌==◌, eq_iff, list_eq, nat_eq, option_eq, length, is_empty, take, All, All-append,
  length-append, retain, contains, Distinct, Text, if_both, if_given, length-take,
}
use clip_bridge.Prelude.Chars.{is_whitespace, trim_matches}

abbrev pub file_ids : List FileTransferHistoryEntry → List Text
file_ids [] = []
file_ids (e ∷ h) = e.id ∷ file_ids h

-- No id twice, and no more than the limit.
pub record IsFileStore (s : FileStore) : Type 0 where
  pub distinct : Distinct (file_ids s.file_history)
  pub bounded : length s.file_history ≤ history_limit

remove_entry-absent :
    (id k : Text) (h : List FileTransferHistoryEntry)
    → contains (file_ids h) k ≡ false
    → contains (file_ids (remove_entry id h)) k ≡ false
unfolding remove_entry contains
remove_entry-absent id k [] n = refl
remove_entry-absent id k (e ∷ h) n =
    if_both (λ (l : List FileTransferHistoryEntry). contains (file_ids l) k ≡ false) (e.id == id) _
      _ (ground (arith, n)) (ground (arith, n, remove_entry-absent id k h (ground (arith, n))))

remove_entry-Distinct :
    (id : Text) (h : List FileTransferHistoryEntry)
    → Distinct (file_ids h)
    → Distinct (file_ids (remove_entry id h)) × (contains (file_ids (remove_entry id h)) id ≡ false)
unfolding remove_entry contains
remove_entry-Distinct id [] d = (tt, refl)
remove_entry-Distinct id (e ∷ h) d =
    let rest = remove_entry-Distinct id h d.1 in
    if_given
      (λ (l : List FileTransferHistoryEntry).
        Distinct (file_ids l) × (contains (file_ids l) id ≡ false))
      (e.id == id) _ _
      (λ same. (d.1, subst (λ k. contains (file_ids h) k ≡ false) ((eq_iff e.id id).0 same) d.0))
      (λ other. ((remove_entry-absent id e.id h d.0, rest.0), ground (arith, other, rest.1)))

take-absent :
    (n : ℕ) (k : Text) (h : List FileTransferHistoryEntry)
    → contains (file_ids h) k ≡ false
    → contains (file_ids (take n h)) k ≡ false
unfolding contains
take-absent zero k h a = refl
take-absent (suc n) k [] a = refl
take-absent (suc n) k (e ∷ h) a = ground (arith, a, take-absent n k h (ground (arith, a)))

take-Distinct :
    (n : ℕ) (h : List FileTransferHistoryEntry)
    → Distinct (file_ids h)
    → Distinct (file_ids (take n h))
take-Distinct zero h d = tt
take-Distinct (suc n) [] d = tt
take-Distinct (suc n) (e ∷ h) d = (take-absent n e.id h d.0, take-Distinct n h d.1)

pub store_file_history-IsFileStore :
    (e : FileTransferHistoryEntry) (s : FileStore)
    → IsFileStore s
    → IsFileStore (store_file_history e s)
unfolding store_file_history
store_file_history-IsFileStore e s v =
    let kept = remove_entry-Distinct e.id s.file_history v.distinct in
    record {
      distinct =
          take-Distinct history_limit (e ∷ remove_entry e.id s.file_history) (kept.1, kept.0);
      bounded = omega (arith, length-take history_limit (e ∷ remove_entry e.id s.file_history));
    }

unfoldable pub is_final : FileStatus → Bool
is_final sent = true
is_final failed = true
is_final other = false

-- An entry that ends the transfer of the entry shown before it.
abbrev pub IsFinal : FileTransferHistoryEntry → Type 0
IsFinal e = is_final e.status ≡ true

answered_entry-IsFinal :
    (ts len : ℕ) (shown : FileTransferHistoryEntry) (answer : (Text × ℕ) ⊎ Text)
    → IsFinal (answered_entry ts len shown answer)
unfolding answered_entry failed_entry is_final
answered_entry-IsFinal ts len shown (inl (file_name, bytes_sent)) = refl
answered_entry-IsFinal ts len shown (inr e) = refl

final_entry-IsFinal :
    (env : Transfers) (ts : ℕ) (path target : Text) (shown : FileTransferHistoryEntry)
    (metadata : (Bool × ℕ) ⊎ Text)
    → IsFinal (final_entry env ts path target shown metadata)
unfolding final_entry failed_entry is_final
final_entry-IsFinal env ts path target shown (inr e) = refl
final_entry-IsFinal env ts path target shown (inl (is_file, len)) =
    if_both IsFinal is_file _ _ (answered_entry-IsFinal ts len shown (env.send_file target path))
      refl

send_to-IsFinal :
    (env : Transfers) (path : Text) (targets : List Text) (n : ℕ) (s : FileStore)
    → IsFileStore s
    → (length (send_to env path targets n s).0 ≡ length targets)
      × All IsFinal (send_to env path targets n s).0
      × IsFileStore (send_to env path targets n s).1
unfolding send_to
send_to-IsFinal env path [] n s v = (refl, tt, v)
send_to-IsFinal env path (target ∷ targets) n s v =
    let rest =
      send_to-IsFinal env path targets (n + 1) _
        (store_file_history-IsFileStore _ _ (store_file_history-IsFileStore _ s v)) in
    (
      omega (arith, rest.0),
      (final_entry-IsFinal env (env.ended_at n) path target _ (env.metadata path), rest.1),
      rest.2,
    )

send_each-IsFinal :
    (env : Transfers) (paths targets : List Text) (n : ℕ) (s : FileStore)
    → IsFileStore s
    → (length (send_each env paths targets n s).0 ≡ length paths * length targets)
      × All IsFinal (send_each env paths targets n s).0
      × IsFileStore (send_each env paths targets n s).1
unfolding send_each
send_each-IsFinal env [] targets n s v = (omega arith, tt, v)
send_each-IsFinal env (path ∷ paths) targets n s v =
    let one = send_to-IsFinal env path targets n s v in
    let rest =
      send_each-IsFinal env paths targets (n + length targets) (send_to env path targets n s).1
        one.2 in
    (
      omega (
        arith,
        length-append (send_to env path targets n s).0
            (send_each env paths targets (n + length targets) (send_to env path targets n s).1).0,
        one.0,
        rest.0,
      ),
      All-append IsFinal (send_to env path targets n s).0
          (send_each env paths targets (n + length targets) (send_to env path targets n s).1).0
          one.1 rest.1,
      rest.2,
    )

-- Sending files when some target is not blank gives an entry for every file and every such target,
-- each sent or failed and none still sending, and the history keeps at most 24 entries with no id
-- twice, if it did so before.
pub send_files_to_peers-IsFinal :
    (env : Transfers) (paths target_device_ids : List Text) (s : FileStore)
    → IsFileStore s
    → is_empty (retain (λ id. not (is_empty (trim_matches is_whitespace id))) target_device_ids)
      ≡ false
    → let targets =
        retain (λ id. not (is_empty (trim_matches is_whitespace id))) target_device_ids in
      let (result, after) = send_files_to_peers (some env) paths target_device_ids s in
      IsFileStore after
      × (entries : List FileTransferHistoryEntry) × (result ≡ some entries)
      × (length entries ≡ length paths * length targets)
      × All IsFinal entries
unfolding send_files_to_peers
send_files_to_peers-IsFinal env paths target_device_ids s v some_target =
    let targets = retain (λ id. not (is_empty (trim_matches is_whitespace id))) target_device_ids in
    let all = send_each-IsFinal env paths targets 0 s v in
    rw some_target (all.2, (send_each env paths targets 0 s).0, refl, all.0, all.1)
