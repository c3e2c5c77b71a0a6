-- ===== src/Core/Tests.antt =====
-- The theorems on deliveries and commands (core/src/client.rs) at small inputs.
use clip_bridge.Core.Protocol.{ClipPayload, text, RecentClip, clip}
use clip_bridge.Core.Dedup
use clip_bridge.Core.Dedup.{DedupCache, Seen}
use clip_bridge.Core.Delivery.{
  LanClip, Receiver, Codec, accept, receive_lan, handle_recent, handle_server,
}
use clip_bridge.Core.Dedup.Window.{inserts, insert-inserts}
use clip_bridge.Core.Delivery.Laws.{
  over_lan, arrivals, handle_server-receive_lan, handle_recent-retain,
}
use clip_bridge.Core.Client
use clip_bridge.Core.Client.{
  Cmd, send_clip_cmd, fetch_recent_cmd, refresh_lan_cmd, stop_cmd, SuspendWait, stop, Woken,
  received, notified, Session, Advertising, apply_session_cmd,
}
use clip_bridge.Core.Client.Commands.{wait_while_relay_suspended-commands, commands}
use clip_bridge.Prelude.{
  ℕ, ◌≡◌, refl, Bool, true, false, none, some, List, [], ◌∷◌, ◌++◌, arith, list_eq, nat_eq,
  option_eq, list_beq, retain, any, Text, codes,
}

abbrev phone : Text
phone = codes "phone"

abbrev mac : Text
mac = codes "mac"

abbrev empty_cache : DedupCache
empty_cache = record { entries = []; capacity = 2; ttl = 10000 }

-- A third delivery makes the cache drop its oldest entry.
abbrev full_cache : DedupCache
full_cache = record {
  entries =
      record { sender = phone; ts = 1; at = 100 } ∷ record { sender = mac; ts = 1; at = 200 } ∷ [];
  capacity = 2;
  ttl = 10000;
}

-- Two other deliveries in between, and a third one would push the entry out.
abbrev two_more : List Seen
two_more =
    record { sender = mac; ts = 5; at = 310 } ∷ record { sender = mac; ts = 6; at = 320 } ∷ []

abbrev roomy_cache : DedupCache
roomy_cache = record full_cache { capacity = 3 }

insert-inserts_example :
    ((Dedup.insert 400 phone 2 (inserts two_more (Dedup.insert 300 phone 2 roomy_cache).1)).0
      ≡ false)
    × ((Dedup.insert 20000 phone 2 (inserts two_more (Dedup.insert 300 phone 2 roomy_cache).1)).0
        ≡ true)
unfolding Dedup.insert Dedup.drop_expired any list_beq
insert-inserts_example = (
  insert-inserts 300 400 phone 2 two_more roomy_cache (omega arith, (omega arith, tt)) refl
      (omega arith) (omega arith, (omega arith, tt)),
  insert-inserts 300 20000 phone 2 two_more roomy_cache (omega arith, (omega arith, tt)) refl
      (omega arith) (omega arith, (omega arith, tt)),
)

abbrev hello_clip : ClipPayload
hello_clip = record {
  kind = text;
  content = codes "hello";
  device_name = phone;
  ts = 7;
  image = none;
}

-- A cipher that does nothing, and a text that is its own payload.
abbrev codec : Codec
codec = record {
  cipher = record { seal = λ k n p. some p; open_sealed = λ k n c. some c };
  key = [];
  parse_payload = λ b. some hello_clip;
}

abbrev receiver : Receiver
receiver = record {
  device_id = mac;
  dedup = empty_cache;
  lan_advertise_error_pending = true;
  lan_advertise_disabled = false;
}

abbrev first_clip : LanClip
first_clip = record { sender_device_id = phone; ts = 7; payload = hello_clip }

abbrev other_clip : LanClip
other_clip = record { sender_device_id = phone; ts = 8; payload = hello_clip }

handle_server-receive_lan_example :
    (handle_server codec
      (λ i. 900)
      (clip (1 ∷ []) (2 ∷ []) 7 phone)
      (arrivals codec (over_lan 600 other_clip ∷ []) (receive_lan 500 first_clip receiver).0)).1
    ≡ []
unfolding receive_lan accept Dedup.insert Dedup.drop_expired any list_beq
handle_server-receive_lan_example =
    handle_server-receive_lan codec 500 (λ i. 900) first_clip (1 ∷ []) (2 ∷ [])
      (over_lan 600 other_clip ∷ []) receiver tt refl (omega arith) (omega arith, tt) (omega arith)

abbrev replay : Text → ℕ → RecentClip
replay sender ts = record { ciphertext = 1 ∷ []; nonce = []; ts = ts; sender_device_id = sender }

handle_recent-retain_example :
    handle_recent codec (λ i. i) 0 (replay mac 1 ∷ replay phone 1 ∷ replay mac 2 ∷ []) receiver
    ≡ handle_recent codec (λ i. i) 0 (replay phone 1 ∷ []) receiver
unfolding retain list_beq
handle_recent-retain_example =
    handle_recent-retain codec (λ i. i) 0 (replay mac 1 ∷ replay phone 1 ∷ replay mac 2 ∷ [])
      receiver

abbrev turns : List (Bool × Woken)
turns =
    (true, received fetch_recent_cmd)
    ∷ (true, notified true)
    ∷ (true, received (send_clip_cmd hello_clip))
    ∷ (true, received stop_cmd)
    ∷ (true, received refresh_lan_cmd)
    ∷ []

wait_while_relay_suspended-commands_example :
    (refresh_lan_cmd ∷ fetch_recent_cmd ∷ send_clip_cmd hello_clip ∷ []) ++ refresh_lan_cmd ∷ []
    ≡ refresh_lan_cmd ∷ fetch_recent_cmd ∷ send_clip_cmd hello_clip ∷ refresh_lan_cmd ∷ []
unfolding Client.wait_while_relay_suspended commands
wait_while_relay_suspended-commands_example =
    wait_while_relay_suspended-commands turns (refresh_lan_cmd ∷ [])
      (
        stop,
        refresh_lan_cmd ∷ fetch_recent_cmd ∷ send_clip_cmd hello_clip ∷ [],
        (true, received refresh_lan_cmd) ∷ [],
      )
      refl
