-- ===== src/Console/Delivers.antt =====
-- What the console sends: the lines of the input, up to the first that is not delivered.
use mathlib.Core.List.{◌++◌}
use fips_nostr_bootstrap.Base.{
  ℕ, zero, suc, ◌+◌, ◌<◌, ◌≡◌, ◌≢◌, inl, inr, refl, ap, not, Bool-cases, List, [], ◌∷◌, Text,
  length, map, arith,
}
use fips_nostr_bootstrap.Schema.{ok, err}
use fips_nostr_bootstrap.Trim.{trim_end}
use fips_nostr_bootstrap.Traversal.{is_empty}
use fips_nostr_bootstrap.Adverts.{filter}
use fips_nostr_bootstrap.Console.{
  Delivery, ConsoleEffect, ConsoleRun, sent_with, run_console_runtime,
}

-- The texts of the lines that hold more than white space.
abbrev pub texts_of : List Text → List Text
texts_of lines = filter (λ line. not (is_empty line)) (map trim_end lines)

module _ (peer_npub : Text) (responses : ℕ → Delivery) where
  abbrev pub all_sent : List Text → List ConsoleEffect
  all_sent [] = []
  all_sent (t ∷ texts) =
      ConsoleEffect.send_datagram peer_npub t ∷ ConsoleEffect.shown t ∷ all_sent texts

  abbrev pub tried : Text → Delivery → List ConsoleEffect
  tried t Delivery.delivered = []
  tried t Delivery.command_channel_closed = []
  tried t Delivery.response_dropped = ConsoleEffect.send_datagram peer_npub t ∷ []
  tried t Delivery.refused = ConsoleEffect.send_datagram peer_npub t ∷ []

  abbrev pub AllDelivered : ℕ → ℕ → Type 0
  AllDelivered n count = (j : ℕ) → j < count → responses (n + j) ≡ Delivery.delivered

  pub data Delivers (n : ℕ) (texts : List Text) (run : ConsoleRun) : Type 0 where
    -- Every text is sent, and shown when it is delivered.
    to_the_end :
        AllDelivered n (length texts)
        → run ≡ record { effects = all_sent texts; result = ok tt }
        → Delivers n texts run
    -- The first text that is not delivered ends the run; if the runtime took it, it is the last to be
    -- sent.
    up_to :
        (before after : List Text) (t : Text) (d : Delivery)
        → texts ≡ before ++ t ∷ after
        → AllDelivered n (length before)
        → responses (n + length before) ≡ d
        → d ≢ Delivery.delivered
        → run ≡ record { effects = all_sent before ++ tried t d; result = err d }
        → Delivers n texts run

  all_one_more :
      (n count : ℕ)
      → responses n ≡ Delivery.delivered
      → AllDelivered (suc n) count
      → AllDelivered n (suc count)
  all_one_more n count now later zero h = let here : n + 0 ≡ n = omega arith in rw here now
  all_one_more n count now later (suc j) h =
      let here : n + suc j ≡ suc n + j = omega arith in rw here (later j (omega (arith, h)))

  delivered-Delivers :
      (n : ℕ) (t : Text) (texts : List Text) (rest : ConsoleRun)
      → responses n ≡ Delivery.delivered
      → Delivers (suc n) texts rest
      → Delivers n (t ∷ texts) (sent_with peer_npub responses t rest Delivery.delivered)
  delivered-Delivers n t texts rest now (to_the_end later e) =
      to_the_end (all_one_more n (length texts) now later) (simp e refl)
  delivered-Delivers n t texts rest now (up_to before after u d split later met bad e) =
      let here : n + suc (length before) ≡ suc n + length before = omega arith in
      up_to (t ∷ before) after u d (ap (λ us. t ∷ us) split)
        (all_one_more n (length before) now later) (rw here met) bad (simp e refl)

  stops_at :
      (n : ℕ) (t : Text) (texts : List Text) (d : Delivery) (run : ConsoleRun)
      → responses n ≡ d
      → d ≢ Delivery.delivered
      → run ≡ record { effects = tried t d; result = err d }
      → Delivers n (t ∷ texts) run
  stops_at n t texts d run e bad ran =
      let here : n + 0 ≡ n = omega arith in
      up_to [] texts t d refl (λ j h. elim h [ ]) (rw here e) bad ran

  sent_with-Delivers :
      (n : ℕ) (t : Text) (texts : List Text) (rest : ConsoleRun) (d : Delivery)
      → responses n ≡ d
      → Delivers (suc n) texts rest
      → Delivers n (t ∷ texts) (sent_with peer_npub responses t rest d)
  sent_with-Delivers n t texts rest Delivery.delivered e later =
      delivered-Delivers n t texts rest e later
  sent_with-Delivers n t texts rest Delivery.command_channel_closed e later =
      stops_at n t texts Delivery.command_channel_closed _ e (λ same. cc same) refl
  sent_with-Delivers n t texts rest Delivery.response_dropped e later =
      stops_at n t texts Delivery.response_dropped _ e (λ same. cc same) refl
  sent_with-Delivers n t texts rest Delivery.refused e later =
      stops_at n t texts Delivery.refused _ e (λ same. cc same) refl

  runs-Delivers :
      (n : ℕ) (lines : List Text)
      → Delivers n (texts_of lines) (run_console_runtime peer_npub responses n lines)
  unfolding run_console_runtime filter
  runs-Delivers n [] = to_the_end (λ j h. elim h [ ]) refl
  runs-Delivers n (line ∷ lines) = elim (Bool-cases (is_empty (trim_end line))) [
    | inl blank ↦ rw blank (runs-Delivers n lines)
    | inr spoken ↦ rw spoken (
        sent_with-Delivers n (trim_end line) (texts_of lines) _ (responses n) refl
          (runs-Delivers (suc n) lines))
  ]

  -- The console's loop sends the texts of the input in order, without the white space at their end and
  -- without blank lines. Where the runtime delivers them all, it shows them all and ends without an
  -- error at the end of the input. Otherwise it ends at the first that is not delivered, with what
  -- became of it as the error, and shows the texts before it.
  pub run_console_runtime-Delivers :
      (lines : List Text)
      → Delivers 0 (texts_of lines) (run_console_runtime peer_npub responses 0 lines)
  run_console_runtime-Delivers = runs-Delivers 0
