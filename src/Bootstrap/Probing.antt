-- ===== src/Bootstrap/Probing.antt =====
-- What `main` of rust/bootstrap-client/src/main.rs does with the server's message: the handoff, and in
-- the mode connect the loop that probes the server.
pub mod Window
use fips_nostr_bootstrap.Base.{
  ℕ, zero, suc, ◌-◌, max, ltb, ◌==◌, text_eq, ◌&&◌, if◌then◌else◌, Bool, true, false, Option, none,
  some, Text, text, Run, done, panicked, stuck,
}
use fips_nostr_bootstrap.Schema.{LegacyEndpoint, LegacyStunInfo}
use fips_nostr_bootstrap.Bootstrap.{
  ℤ, pos, negsuc, Punch, ServerInfoMessage, Wait, received, not_received, failed, hello_rejected,
}

pub record BootstrapHandoff : Type 0 where
  pub relay_url : Text
  pub server_npub : Text
  pub session_id : Text
  pub nonce : Text
  pub endpoint : LegacyEndpoint
  pub punch : Option Punch
  pub stun : Option LegacyStunInfo
  pub received_at_ms : ℤ

-- What comes back in a round, if anything does: the members `t` and `n` of its JSON, where they are
-- strings. What is no JSON has none.
pub record Packet : Type 0 where
  pub t : Option Text
  pub n : Option Text

abbrev pub is_text : Option Text → Text → Bool
is_text none s = false
is_text (some t) s = t == s

abbrev pub is_probe_ack : Text → Option Packet → Bool
is_probe_ack nonce none = false
is_probe_ack nonce (some packet) = is_text packet.t (text "PROBE_ACK") && is_text packet.n nonce

pub record Probed : Type 0 where
  pub probe_acked : Bool
  pub seq : ℕ

module _ (nonce : Text) (duration_ms : ℕ) (elapsed : ℕ → ℕ) (sends : ℕ → Bool)
    (answers : ℕ → Option Packet) where
  -- The loop from round `n` on, on fuel: `elapsed n` is the time since the start when the round is
  -- tested, `sends n` whether its probe could be sent, and `answers n` what comes back in it. A probe that
  -- cannot be sent ends `main` with an error, as a window without an acknowledgement does.
  unfoldable pub probe_loop : ℕ → ℕ → Run Probed
  probe_loop zero n = stuck
  probe_loop (suc fuel) n =
      let rest = probe_loop fuel (suc n) in
      if ltb (elapsed n) duration_ms
      then if sends n
        then if is_probe_ack nonce (answers n)
          then done (record { probe_acked = true; seq = suc n })
          else rest
        else done (record { probe_acked = false; seq = suc n })
      else done (record { probe_acked = false; seq = n })

-- One run: the arguments, the clock, and what the probes meet.
pub record Bootstrapping : Type 0 where
  pub relay : Text
  pub server_npub : Text
  pub connects : Bool
  pub received_at_ms : ℤ
  pub elapsed : ℕ → ℕ
  pub sends : ℕ → Bool
  pub answers : ℕ → Option Packet

abbrev pub handoff_of : Bootstrapping → ServerInfoMessage → BootstrapHandoff
handoff_of run info = record {
  relay_url = run.relay;
  server_npub = run.server_npub;
  session_id = info.session_id;
  nonce = info.nonce;
  endpoint = info.endpoint;
  punch = info.punch;
  stun = info.stun;
  received_at_ms = run.received_at_ms;
}

abbrev pub if_acked : BootstrapHandoff → Run Probed → Run (Option BootstrapHandoff)
if_acked handoff (done p) = if p.probe_acked then done (some handoff) else done none
if_acked handoff panicked = panicked
if_acked handoff stuck = stuck

-- The mode connect needs a punch, and an acknowledged probe.
abbrev pub connect_mode :
    ℕ → Bootstrapping → ServerInfoMessage → Option Punch → Run (Option BootstrapHandoff)
connect_mode fuel run info none = done none
connect_mode fuel run info (some punch) =
    if_acked (handoff_of run info)
      (probe_loop info.nonce punch.duration_ms run.elapsed run.sends run.answers fuel 0)

-- From the wait for the server's message to the handoff, or none where `main` ends with an error.
unfoldable pub hand_off : ℕ → Bootstrapping → Wait → Run (Option BootstrapHandoff)
hand_off fuel run (received info) =
    if run.connects
    then connect_mode fuel run info info.punch
    else done (some (handoff_of run info))
hand_off fuel run _ = done none
