-- ===== src/Core/Client/Tests.antt =====
-- The client's loops (core/src/client.rs) at small inputs.
use clip_bridge.Core.Crypto.{Bytes, sha256_hex, hex_digest}
use clip_bridge.Core.BlobClient.{ok}
use clip_bridge.Core.Protocol.{ClipPayload, ImageMeta}
use clip_bridge.Core.Lan.BlobCache.{BlobCache}
use clip_bridge.Core.Delivery.{Codec}
use clip_bridge.Core.Client.{Session}
use clip_bridge.Core.Client.Reconnect.{Round, session_error, run}
use clip_bridge.Core.Client.Reconnect.Backoff.{IsPatient, run-IsPatient}
use clip_bridge.Core.Client.Reconnect.Pacing.{IsPaced}
use clip_bridge.Core.Client.Relay.{Link, Turn, woke, reconnect_wake, event_loop, is_running}
use clip_bridge.Core.Client.Relay.Deadline.{is_inbound, is_late, event_loop-probe}
use clip_bridge.Core.Client.Images.{
  ImageEnv, ImageInfo, IsFaithful, send_image, fetch_image, fetch_image-send_image,
}
use clip_bridge.Prelude.{
  ◌≡◌, refl, true, false, none, some, [], ◌∷◌, arith, list_eq, nat_eq, option_eq, All, any,
}

-- A session that fails at once, and one that the host stops.
abbrev failing : Round
failing = record {
  idle_mode = false;
  suspended = [];
  result = session_error;
  elapsed = 0;
  idle_after = false;
  waiting = (false, true) ∷ [];
}

run-IsPatient_example :
    All IsPatient (run 1 ((failing, []) ∷ (failing, []) ∷ [])).0
    × IsPaced 1 (run 1 ((failing, []) ∷ (failing, []) ∷ [])).0
run-IsPatient_example =
    run-IsPatient 1 ((failing, []) ∷ (failing, []) ∷ []) (omega arith, omega arith)

abbrev codec : Codec
codec = record {
  cipher = record { seal = λ k n p. some p; open_sealed = λ k n c. some c };
  key = [];
  parse_payload = λ p. none;
}

abbrev plain_session : Session
plain_session = record {
  group_id = [];
  device_id = [];
  device_name = [];
  writable = true;
  lan = none;
  lan_active = false;
  encode = λ p. none;
  encrypt = λ p. none;
}

abbrev link : Link
link = record {
  advertising = record {
    lan_advertise_disabled = false;
    lan_advertise_error_pending = false;
    last_lan_advertise = none;
  };
  dedup = record { entries = []; capacity = 128; ttl = 10 };
  last_seen = 0;
  probe_deadline = none;
}

abbrev asks : Turn
asks = record {
  idle_mode = false;
  idle_then = false;
  now = 20;
  writable = true;
  lan = none;
  lan_active = false;
  event = reconnect_wake;
}

-- The host asks at second 20, and at second 28 there is no answer.
event_loop-probe_example :
    is_running
      (event_loop codec plain_session
        (λ i. i)
        (asks ∷ record asks { now = 28; event = woke } ∷ [])
        link).0
    ≡ false
unfolding any is_inbound is_late
event_loop-probe_example =
    event_loop-probe codec plain_session (λ i. i) asks (record asks { now = 28; event = woke } ∷ [])
      link refl refl refl refl

-- A cipher that knows one image, and seals it as the empty text.
abbrev toy_env : ImageEnv
toy_env = record {
  digest = λ b. b;
  cipher = record { seal = λ k n p. some []; open_sealed = λ k n c. some (5 ∷ []) };
  key = [];
  b64_encode = λ b. b;
  b64_decode = λ t. some t;
}

abbrev nonce : Bytes
nonce = 1 ∷ 2 ∷ 3 ∷ 4 ∷ 5 ∷ 6 ∷ 7 ∷ 8 ∷ 9 ∷ 10 ∷ 11 ∷ 12 ∷ []

only_empty : (c : Bytes) → sha256_hex toy_env.digest c ≡ sha256_hex toy_env.digest [] → c ≡ []
unfolding sha256_hex hex_digest
only_empty [] h = refl
only_empty (b ∷ c) h = absurd (ground (arith, h))

toy_env-IsFaithful : IsFaithful toy_env nonce (5 ∷ []) []
toy_env-IsFaithful = record {
  reads_back = refl;
  nonce_length = refl;
  opens = refl;
  no_collision = only_empty;
}

abbrev info : ImageInfo
info = record { mime_type = []; width = 1; height = 1; device_name = []; ts = 0 }

abbrev no_blobs : BlobCache
no_blobs = record { map = []; order = []; bytes = 0 }

-- One of two peers answers with something else.
fetch_image-send_image_example :
    (payload : ClipPayload) × (meta : ImageMeta) × ((send_image toy_env nonce
        (λ sha c. none)
        info
        (5 ∷ [])
        no_blobs).0
      ≡ some payload)
    × (payload.image ≡ some meta)
    × ((fetch_image toy_env 2 (some (9 ∷ []) ∷ none ∷ []) (λ sha. ok []) meta no_blobs).0
        ≡ some (5 ∷ []))
fetch_image-send_image_example =
    fetch_image-send_image toy_env nonce (5 ∷ []) [] info (λ sha c. none) (λ sha. ok []) 2
      (some (9 ∷ []) ∷ none ∷ []) no_blobs no_blobs toy_env-IsFaithful refl refl refl
