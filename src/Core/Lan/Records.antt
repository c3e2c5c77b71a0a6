-- ===== src/Core/Lan/Records.antt =====
-- What the host is told of its LAN peers: `peer_records` and `unique_peer_names` of core/src/lan.rs and
-- `lan_peer_records` of core/src/client.rs. A locked map is given in the order in which it iterates.
pub mod Rows
mod Tests
use clip_bridge.Prelude.Assoc
use clip_bridge.Prelude.Assoc.{
  Assoc, IsMap, is_some, lookup-remove, lookup-insert, lookup-insert_self, remove-IsMap,
  insert-IsMap, All-remove, All-remove_other, All-lookup, length-remove, remove_missing,
  length-remove_found,
}
use clip_bridge.Prelude.{
  String, ℕ, zero, suc, ◌+◌, ◌-◌, ◌*◌, ◌/◌, ◌%◌, ◌^◌, ◌≤◌, ◌<◌, ◌≡◌, ◌≢◌, ◌↔◌, ◌⊎◌, inl, inr, refl,
  sym, ap, subst, ◌∙◌, Bool, true, false, not, ◌&&◌, ◌||◌, Option, none, some, List, [], ◌∷◌, ◌++◌,
  map, append-nil, append_assoc, arith, ltb, leb, if◌then◌else◌, Eq, ◌==◌, eq_iff, eq_refl, ne-eq,
  eq_symm, list_eq, nat_eq, option_eq, list_beq, option_beq, length, is_empty, take, drop, All,
  All-append, All-map, length-append, retain, any, contains, Distinct, length-retain, retain-append,
  Text, codes, text_lt, starts_with, Bool-cases, Option-cases, if_both, if_given, ltb→lt, leb→le,
  leb→gt, le→leb, length-take, length-drop, take-append-drop, append-take-drop, drop-all,
  contains-append, Distinct-append_one, retain_all, All-retain, nat_beq,
}
use clip_bridge.Core.Lan.Peers.{PeerAddrEntry, non_empty_display_name}
use clip_bridge.Core.Lan.Session.{short_id}

-- A session's key, and the device id and name that its guard registered.
abbrev pub Registry : Type 0
Registry = Assoc Text (Text × Text)

pub record LanPeerRecord : Type 0 where
  pub device_id : Text
  pub display_name : Text
  pub candidate_count : ℕ

abbrev pub u32_max : ℕ
u32_max = 2 ^ 32 - 1

-- `entry(key).or_insert(value)`
unfoldable pub or_insert {ℓ} : {V : Type ℓ} → Text → V → Assoc Text V → Assoc Text V
or_insert k v m = if is_some (Assoc.lookup k m) then m else Assoc.insert k v m

unfoldable pub insert_entry : Text × (Text × Text) → Registry → Registry
insert_entry e [] = e ∷ []
insert_entry e (f ∷ sorted) =
    let rest = insert_entry e sorted in if text_lt f.0 e.0 then f ∷ rest else e ∷ f ∷ sorted

-- The entries of the registry by their keys.
unfoldable pub sort_entries : Registry → Registry
sort_entries [] = []
sort_entries (e ∷ entries) = insert_entry e (sort_entries entries)

unfoldable pub names_loop : Registry → Assoc Text Text → Assoc Text Text
names_loop [] names = names
names_loop (e ∷ entries) names = names_loop entries (or_insert e.1.0 e.1.1 names)

-- The name of a device that has an address.
unfoldable pub name_of : Assoc Text Text → PeerAddrEntry → Text
name_of names e = elim (Assoc.lookup e.device_id names) [
  | some name ↦ name
  | none ↦ elim e.display_name [
    | none ↦ short_id e.device_id
    | some name ↦ elim (non_empty_display_name name) [
      | none ↦ short_id e.device_id
      | some trimmed ↦ trimmed
    ]
  ]
]

unfoldable pub saturating_add : ℕ → ℕ → ℕ
saturating_add a b = if ltb u32_max (a + b) then u32_max else a + b

unfoldable pub count_candidates :
    Assoc Text Text → PeerAddrEntry → Assoc Text (Text × ℕ) → Assoc Text (Text × ℕ)
count_candidates names e by_device =
    let row = elim (Assoc.lookup e.device_id by_device) as (λ x. Text × ℕ) [
      | none ↦ (name_of names e, 0)
      | some there ↦ there
    ] in
    Assoc.insert e.device_id (row.0, saturating_add row.1 (length e.candidates % 2 ^ 32)) by_device

unfoldable pub devices_loop :
    Assoc Text Text → Assoc Text PeerAddrEntry → Assoc Text (Text × ℕ) → Assoc Text (Text × ℕ)
devices_loop names [] by_device = by_device
devices_loop names ((k, e) ∷ addrs) by_device =
    devices_loop names addrs (count_candidates names e by_device)

unfoldable pub add_named : Assoc Text Text → Assoc Text (Text × ℕ) → Assoc Text (Text × ℕ)
add_named [] by_device = by_device
add_named ((did, name) ∷ names) by_device = add_named names (or_insert did (name, 0) by_device)

unfoldable pub record_of : Text × (Text × ℕ) → LanPeerRecord
record_of row = record { device_id = row.0; display_name = row.1.0; candidate_count = row.1.1 }

-- Whether the first of two rows is shown above the second.
unfoldable pub is_above : LanPeerRecord → LanPeerRecord → Bool
is_above a b =
    if a.display_name == b.display_name
    then text_lt a.device_id b.device_id
    else text_lt a.display_name b.display_name

unfoldable pub insert_record : LanPeerRecord → List LanPeerRecord → List LanPeerRecord
insert_record r [] = r ∷ []
insert_record r (s ∷ sorted) =
    let rest = insert_record r sorted in if is_above s r then s ∷ rest else r ∷ s ∷ sorted

unfoldable pub sorted_rows : Assoc Text (Text × ℕ) → List LanPeerRecord
sorted_rows [] = []
sorted_rows (row ∷ rows) = insert_record (record_of row) (sorted_rows rows)

unfoldable pub peer_records : Registry → Assoc Text PeerAddrEntry → List LanPeerRecord
peer_records peers addrs =
    let names = names_loop (sort_entries peers) [] in
    sorted_rows (add_named names (devices_loop names addrs []))

unfoldable pub lan_peer_records : Text → Registry → Assoc Text PeerAddrEntry → List LanPeerRecord
lan_peer_records device_id peers addrs =
    retain (λ p. not (p.device_id == device_id)) (peer_records peers addrs)

unfoldable pub unique_loop : Registry → List Text → List Text
unique_loop [] seen = []
unique_loop (e ∷ entries) seen =
    let rest = unique_loop entries seen in
    let more = unique_loop entries (e.1.0 ∷ seen) in
    if contains seen e.1.0 then rest else e.1.1 ∷ more

unfoldable pub unique_peer_names : Registry → List Text
unique_peer_names peers = unique_loop peers []
