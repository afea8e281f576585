-- ===== src/Tests/Mobiles.antt =====
-- Probes, the handoff file and the echo test at concrete inputs.
use fips_nostr_bootstrap.Base.{
  ℕ, ◌*◌, ◌==◌, ◌≡◌, ◌↔◌, nat_eq, text_eq, refl, if◌then◌else◌, true, Option, none, some, List, [],
  ◌∷◌, ◌++◌, map, Text, text, done, ℕ_discrete, Text-discrete, arith,
}
use fips_nostr_bootstrap.SessionFrames.{frame_magic}
use fips_nostr_bootstrap.Bootstrap.{
  ServerInfoMessage, Punch, Frame, pos, skipped, delivered, received, validate_for,
  wait_for_server_info,
}
use fips_nostr_bootstrap.Bootstrap.Waiting.{FirstValid}
use fips_nostr_bootstrap.Bootstrap.Probing.{
  Bootstrapping, BootstrapHandoff, handoff_of, hand_off, probe_loop,
}
use fips_nostr_bootstrap.Bootstrap.Probing.Window.{HandsOff, hand_off-HandsOff}
use fips_nostr_bootstrap.Server.Udp.{Next, serve_datagram}
use fips_nostr_bootstrap.Server.Udp.Ignored.{object, serve_datagram-object}
use fips_nostr_bootstrap.Mobile.{
  datagram, silence, timed_out, received_channel, Turn, echo_loop, wait_for_info,
}
use fips_nostr_bootstrap.Mobile.Versions.{
  frame_at_1_0, wait_at_1_0, wait_for_info-wait_for_server_info,
}
use fips_nostr_bootstrap.Mobile.Echo.{FirstPong, echo_loop-FirstPong}
use fips_nostr_bootstrap.Tests.Bootstraps.{info, session, token}
use fips_nostr_bootstrap.Tests.Wire.{flat_digest}
use fips_nostr_bootstrap.Tests.Servers.{asked, client_at, here, listening, only, pair_payload}

abbrev window : Punch
window = record { start_at_ms = pos 1_700_000_001_000; interval_ms = 300; duration_ms = 900 }

abbrev info_with_punch : ServerInfoMessage
info_with_punch = record info { punch = some window }

abbrev heard : List Frame
heard = skipped ∷ delivered (some info_with_punch) ∷ []

heard_taken : wait_for_server_info (text "e1") session token heard ≡ received info_with_punch
unfolding wait_for_server_info validate_for text ℕ_discrete Text-discrete
heard_taken = refl

-- The second of three probes is acknowledged.
abbrev run : Bootstrapping
run = record {
  relay = text "wss://relay.example";
  server_npub = text "npub1server";
  connects = true;
  received_at_ms = pos 1_700_000_000_600;
  elapsed = λ n. n * 300;
  sends = λ n. true;
  answers =
      λ n. if n == 1 then some (record { t = some (text "PROBE_ACK"); n = some token }) else none;
}

acknowledged :
    hand_off 4 run (received info_with_punch) ≡ done (some (handoff_of run info_with_punch))
unfolding hand_off probe_loop text ℕ_discrete Text-discrete
acknowledged = refl

hand_off-HandsOff_example :
    FirstValid (text "e1") session token heard info_with_punch
    × ((o : Option BootstrapHandoff) × (hand_off 4 run
            (wait_for_server_info (text "e1") session token heard)
          ≡ done o)
        × HandsOff run info_with_punch window o)
hand_off-HandsOff_example =
    hand_off-HandsOff run (text "e1") session token heard info_with_punch window 3 refl heard_taken
      refl (omega arith)

serve_datagram-object_example :
    serve_datagram
      (only asked)
      pair_payload
      flat_digest
      here
      listening
      client_at
      (object (text "\"t\":\"PROBE\",\"n\":\"n-1\",\"s\":0}"))
    ≡ done (record { state = listening; effects = []; next = Next.goes_on })
serve_datagram-object_example =
    serve_datagram-object (only asked) pair_payload flat_digest here listening client_at
      (text "\"t\":\"PROBE\",\"n\":\"n-1\",\"s\":0}")

abbrev old : List Frame
old = delivered (some (record info { version = text "0.9" })) ∷ []

wait_for_info-wait_for_server_info_example :
    wait_at_1_0 (wait_for_info (text "e1") session token old)
    ≡ wait_for_server_info (text "e1") session token (map frame_at_1_0 old)
wait_for_info-wait_for_server_info_example =
    wait_for_info-wait_for_server_info (text "e1") session token old

-- The mobile client takes what the bootstrap client refuses.
old_taken :
    wait_for_info (text "e1") session token old ≡ received (record info { version = text "0.9" })
unfolding wait_for_info text ℕ_discrete Text-discrete
old_taken = refl

abbrev channel_of : List ℕ → Option Text
channel_of body = if body == text "{}" then some (text "fips_pong") else none

abbrev turns : List Turn
turns = silence ∷ datagram (frame_magic ++ text "{}") ∷ []

echo_loop-FirstPong_example :
    (echo_loop channel_of turns timed_out ≡ some (true, received_channel (text "fips_pong")))
    ↔ FirstPong channel_of turns (received_channel (text "fips_pong"))
echo_loop-FirstPong_example =
    echo_loop-FirstPong channel_of turns timed_out (received_channel (text "fips_pong"))
