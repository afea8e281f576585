-- ===== src/Mobile/Versions.antt =====
-- The mobile client against the bootstrap client: they wait in the same way, but for the version.
use fips_nostr_bootstrap.Base.{
  ◌≡◌, inl, inr, refl, sym, ◌∙◌, ◌==◌, text_eq, ==_refl, not, ◌&&◌, Bool-cases, none, some, List,
  [], ◌∷◌, map, Text,
}
use fips_nostr_bootstrap.Bootstrap.{
  ServerInfoMessage, Frame, Wait, broken, skipped, verdict, delivered, received, not_received,
  failed, hello_rejected, server_info_type, version_1_0, is_valid, validate_for,
  wait_for_server_info,
}
use fips_nostr_bootstrap.Mobile.{accepts, wait_for_info}

-- The same with the version that the bootstrap client wants.
abbrev pub at_1_0 : ServerInfoMessage → ServerInfoMessage
at_1_0 info = record info { version = version_1_0 }

abbrev pub frame_at_1_0 : Frame → Frame
frame_at_1_0 broken = broken
frame_at_1_0 skipped = skipped
frame_at_1_0 (verdict event_id status) = verdict event_id status
frame_at_1_0 (delivered none) = delivered none
frame_at_1_0 (delivered (some parsed)) = delivered (some (at_1_0 parsed))

abbrev pub wait_at_1_0 : Wait → Wait
wait_at_1_0 (received info) = received (at_1_0 info)
wait_at_1_0 not_received = not_received
wait_at_1_0 failed = failed
wait_at_1_0 hello_rejected = hello_rejected

accepts-validate_for :
    (parsed : ServerInfoMessage) (session_id nonce : Text)
    → accepts parsed session_id nonce ≡ is_valid (validate_for (at_1_0 parsed) session_id nonce)
unfolding validate_for
accepts-validate_for parsed session_id nonce =
    elim (Bool-cases (parsed.msg_type == server_info_type)) [
      | inr other ↦ rw other refl
      | inl typed ↦ elim (Bool-cases (parsed.session_id == session_id)) [
        | inr other ↦ rw (typed, ==_refl version_1_0, other) refl
        | inl same ↦ elim (Bool-cases (parsed.nonce == nonce)) [
          | inr other ↦ rw (typed, ==_refl version_1_0, same, other) refl
          | inl its ↦ rw (typed, ==_refl version_1_0, same, its) refl
        ]
      ]
    ]

-- On every sequence of frames the mobile client waits as the bootstrap client does on the same frames with
-- their messages at version 1.0: it takes the same message, or fails in the same way. So it takes
-- a message of any version.
pub wait_for_info-wait_for_server_info :
    (hello_id session_id nonce : Text) (frames : List Frame)
    → wait_at_1_0 (wait_for_info hello_id session_id nonce frames)
      ≡ wait_for_server_info hello_id session_id nonce (map frame_at_1_0 frames)
unfolding wait_for_info wait_for_server_info
wait_for_info-wait_for_server_info hello_id session_id nonce [] = refl
wait_for_info-wait_for_server_info hello_id session_id nonce (broken ∷ frames) = refl
wait_for_info-wait_for_server_info hello_id session_id nonce (skipped ∷ frames) =
    wait_for_info-wait_for_server_info hello_id session_id nonce frames
wait_for_info-wait_for_server_info hello_id session_id nonce (verdict event_id status ∷ frames) =
    elim (Bool-cases (event_id == hello_id && not status)) [
      | inl refused ↦ rw refused refl
      | inr other ↦ rw other (wait_for_info-wait_for_server_info hello_id session_id nonce frames)
    ]
wait_for_info-wait_for_server_info hello_id session_id nonce (delivered none ∷ frames) =
    wait_for_info-wait_for_server_info hello_id session_id nonce frames
wait_for_info-wait_for_server_info hello_id session_id nonce (delivered (some parsed) ∷ frames) =
    let same = accepts-validate_for parsed session_id nonce in
    elim (Bool-cases (accepts parsed session_id nonce)) [
      | inl good ↦ rw (good, sym same ∙ good) refl
      | inr bad ↦
          rw (bad, sym same ∙ bad)
            (wait_for_info-wait_for_server_info hello_id session_id nonce frames)
    ]
