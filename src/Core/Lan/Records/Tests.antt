-- ===== src/Core/Lan/Records/Tests.antt =====
-- The rows that the host is shown of its peers (core/src/lan.rs) at small inputs.
use clip_bridge.Prelude.Assoc
use clip_bridge.Prelude.Assoc.{
  Assoc, IsMap, is_some, lookup-remove, lookup-insert, lookup-insert_self, remove-IsMap,
  insert-IsMap, All-remove, All-remove_other, All-lookup, length-remove, remove_missing,
  length-remove_found,
}
use clip_bridge.Prelude.{
  ◌==◌, not, retain, ◌&&◌, ◌≡◌, refl, ◌||◌, none, [], ◌∷◌, list_eq, nat_eq, option_eq, list_beq,
  contains, Distinct, Text, codes, text_lt,
}
use clip_bridge.Core.Net.{v4}
use clip_bridge.Core.Lan.Peers.{PeerAddrEntry}
use clip_bridge.Core.Lan.Session.{short_id, to_ascii_lowercase}
use clip_bridge.Core.FileTransfer.Names.{is_ascii_alphanumeric}
use clip_bridge.Core.Lan.Records.{
  Registry, peer_records, lan_peer_records, unique_peer_names, or_insert, names_loop, sort_entries,
  insert_entry, devices_loop, count_candidates, saturating_add, add_named, name_of, record_of,
  sorted_rows, insert_record, is_above, unique_loop,
}
use clip_bridge.Core.Lan.Records.Rows.{
  device_ids, is_registered, has_addresses, lan_peer_records-one_row,
}

abbrev mac : Text
mac = codes "mac"

abbrev pad : Text
pad = codes "pad"

-- Two sessions of one device, of which the one with the smaller key gives the name.
abbrev sessions : Registry
sessions = (codes "z", (mac, codes "Old")) ∷ (codes "a", (mac, codes "Mac")) ∷ []

abbrev known_at : Text → PeerAddrEntry
known_at did = record {
  device_id = did;
  display_name = none;
  candidates = record { ip = v4 9; port = 5000 } ∷ [];
}

-- Each of two instances of one device, and another device, which has no session.
abbrev found : Assoc Text PeerAddrEntry
found = (codes "i", known_at mac) ∷ (codes "j", known_at mac) ∷ (codes "k", known_at pad) ∷ []

records_of_both :
    lan_peer_records (codes "me") sessions found
    ≡ record { device_id = mac; display_name = codes "Mac"; candidate_count = 2 }
      ∷ record { device_id = pad; display_name = pad; candidate_count = 1 }
      ∷ []
unfolding lan_peer_records peer_records or_insert names_loop sort_entries insert_entry devices_loop
    count_candidates saturating_add add_named name_of record_of sorted_rows insert_record is_above
    Assoc.lookup Assoc.insert Assoc.remove retain list_beq short_id to_ascii_lowercase text_lt
    is_ascii_alphanumeric
records_of_both = refl

names_of_both : unique_peer_names sessions ≡ codes "Old" ∷ []
unfolding unique_peer_names unique_loop contains list_beq
names_of_both = refl

lan_peer_records-one_row_example :
    Distinct (device_ids (lan_peer_records mac sessions found))
    × ((did : Text)
        → contains (device_ids (lan_peer_records mac sessions found)) did
          ≡ (not (mac == did) && (is_registered did sessions || has_addresses did found)))
lan_peer_records-one_row_example = lan_peer_records-one_row mac sessions found
