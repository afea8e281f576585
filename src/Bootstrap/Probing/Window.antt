-- ===== src/Bootstrap/Probing/Window.antt =====
-- When the mode connect succeeds.
use fips_nostr_bootstrap.Base.{
  ℕ, zero, suc, ◌+◌, ◌≤◌, ◌<◌, ◌≡◌, ◌↔◌, inl, inr, refl, sym, ap, ◌∙◌, subst, ltb, ◌==◌, nat_eq,
  ==_iff, ℕ_discrete, Bool, true, false, Bool-cases, Option, none, some, List, Text, text, text_eq,
  Run, done, arith,
}
use fips_nostr_bootstrap.Bootstrap.{Punch, ServerInfoMessage, Frame, received, wait_for_server_info}
use fips_nostr_bootstrap.Bootstrap.Waiting.{FirstValid, wait_for_server_info-FirstValid}
use fips_nostr_bootstrap.Bootstrap.Probing.{
  Packet, is_text, is_probe_ack, Probed, probe_loop, Bootstrapping, BootstrapHandoff, handoff_of,
  if_acked, connect_mode, hand_off,
}

-- An acknowledgement of a probe with the nonce.
abbrev pub Acknowledges : Text → Option Packet → Type 0
Acknowledges nonce o =
    (packet : Packet) × (o ≡ some packet)
    × (packet.t ≡ some (text "PROBE_ACK"))
    × (packet.n ≡ some nonce)

is_text_iff : (o : Option Text) (s : Text) → (is_text o s ≡ true) ↔ (o ≡ some s)
is_text_iff none s = (λ h. cc, λ h. cc)
is_text_iff (some t) s =
    (λ h. ap some ((==_iff t s).0 h), λ h. let same : t ≡ s = cc in (==_iff t s).1 same)

is_probe_ack_iff :
    (nonce : Text) (o : Option Packet) → (is_probe_ack nonce o ≡ true) ↔ Acknowledges nonce o
is_probe_ack_iff nonce none = (λ h. cc, λ (packet, e, t, n). cc)
is_probe_ack_iff nonce (some packet) = (
  λ h. (
    packet,
    refl,
    (is_text_iff packet.t (text "PROBE_ACK")).0 (ground arith),
    (is_text_iff packet.n nonce).0 (ground arith),
  ),
  λ (other, e, t, n).
      let same : packet ≡ other = cc in
      let its_t = (is_text_iff packet.t (text "PROBE_ACK")).1 (ap (λ p. p.t) same ∙ t) in
      let its_n = (is_text_iff packet.n nonce).1 (ap (λ p. p.n) same ∙ n) in
      ground (arith, its_t, its_n),
)

module _ (nonce : Text) (duration_ms : ℕ) (elapsed : ℕ → ℕ) (sends : ℕ → Bool)
    (answers : ℕ → Option Packet) where
  -- A round begins in the window, and its probe is sent.
  abbrev pub Probes : ℕ → Type 0
  Probes j = (elapsed j < duration_ms) × (sends j ≡ true)

  -- The probe of round `i` is acknowledged, and the rounds from `n` up to it are probed.
  pub record AckedIn (n i : ℕ) : Type 0 where
    pub from : n ≤ i
    pub acked : Acknowledges nonce (answers i)
    pub probed : (j : ℕ) → n ≤ j → j ≤ i → Probes j

  abbrev pub Decides : ℕ → Run Probed → Type 0
  Decides n r = (p : Probed) × (r ≡ done p) × ((p.probe_acked ≡ true) ↔ ((i : ℕ) × AckedIn n i))

  ends_unacked :
      (n seq : ℕ) → (Probes n → ⊥) → Decides n (done (record { probe_acked = false; seq = seq }))
  ends_unacked n seq ended = (
    record { probe_acked = false; seq = seq },
    refl,
    (λ e. cc, λ (i, a). absurd (ended (a.probed n (omega arith) a.from))),
  )

  later :
      (n : ℕ) (r : Run Probed)
      → Probes n
      → is_probe_ack nonce (answers n) ≡ false
      → Decides (suc n) r
      → Decides n r
  later n r probes unacked (p, e, iff) = (
    p,
    e,
    (
      λ yes_a.
          let (i, a) = iff.0 yes_a in
          (
            i,
            record {
              from = omega (arith, a.from);
              acked = a.acked;
              probed = λ j lo hi. elim (Bool-cases (j == n)) [
                | inl here ↦ subst Probes (sym ((==_iff j n).0 here)) probes
                | inr past ↦ a.probed j (ground arith) hi
              ];
            },
          ),
      λ (i, a). iff.1 (
        i,
        record {
          from = elim (Bool-cases (i == n)) [
            | inl here ↦ cc (
              unacked,
              (is_probe_ack_iff nonce (answers i)).1 a.acked,
              ap (λ k. is_probe_ack nonce (answers k)) ((==_iff i n).0 here),
            )
            | inr past ↦ let least : n ≤ i = a.from in ground arith
          ];
          acked = a.acked;
          probed = λ j lo hi. a.probed j (omega (arith, lo)) hi;
        },
      ),
    ),
  )

  before_end :
      (n k : ℕ) → ltb (elapsed n) duration_ms ≡ true → duration_ms ≤ elapsed k → n ≤ k → suc n ≤ k
  unfolding ℕ_discrete
  before_end n k early over below = elim (Bool-cases (n == k)) [
    | inl same ↦
        let at_end : elapsed n ≡ elapsed k = ap elapsed ((==_iff n k).0 same) in
        absurd (ground (arith, at_end))
    | inr other ↦ ground arith
  ]

  -- With a round `k` that begins after the window, and fuel for it.
  probe_loop-Decides :
      (k fuel n : ℕ)
      → duration_ms ≤ elapsed k
      → n + fuel ≡ suc k
      → n ≤ k
      → Decides n (probe_loop nonce duration_ms elapsed sends answers fuel n)
  unfolding probe_loop ℕ_discrete
  probe_loop-Decides k zero n over total below = absurd (omega arith)
  probe_loop-Decides k (suc fuel) n over total below =
      elim (Bool-cases (ltb (elapsed n) duration_ms)) [
        | inr late ↦ rw late (ends_unacked n n (λ p. ground (arith, p.0)))
        | inl early ↦ elim (Bool-cases (sends n)) [
          | inr unsent ↦ rw (early, unsent) (ends_unacked n (suc n) (λ p. cc (p.1, unsent)))
          | inl sent ↦ elim (Bool-cases (is_probe_ack nonce (answers n))) [
            | inl ack ↦
                rw (early, sent, ack)
                  (
                    record { probe_acked = true; seq = suc n },
                    refl,
                    (
                      λ e. (
                        n,
                        record {
                          from = omega arith;
                          acked = (is_probe_ack_iff nonce (answers n)).0 ack;
                          probed = λ j lo hi.
                              let here : n ≡ j = omega (arith, lo, hi) in
                              subst Probes here (ground arith, sent);
                        },
                      ),
                      λ a. refl,
                    ),
                  )
            | inr no_ack ↦
                rw (early, sent, no_ack)
                  (later n (probe_loop nonce duration_ms elapsed sends answers fuel (suc n))
                    (ground arith, sent) no_ack
                    (probe_loop-Decides k fuel (suc n) over (omega arith)
                      (before_end n k early over below)))
          ]
        ]
      ]

-- The fate of a message that was received: what it is handed off as, if anything.
abbrev pub HandsOff : Bootstrapping → ServerInfoMessage → Punch → Option BootstrapHandoff → Type 0
HandsOff run info punch o =
    (o
      ≡ some (record {
        relay_url = run.relay;
        server_npub = run.server_npub;
        session_id = info.session_id;
        nonce = info.nonce;
        endpoint = info.endpoint;
        punch = some punch;
        stun = info.stun;
        received_at_ms = run.received_at_ms;
      }))
    ↔ ((i : ℕ) × AckedIn info.nonce punch.duration_ms run.elapsed run.sends run.answers 0 i)

if_acked-HandsOff :
    (run : Bootstrapping) (info : ServerInfoMessage) (punch : Punch) (r : Run Probed)
    → info.punch ≡ some punch
    → Decides info.nonce punch.duration_ms run.elapsed run.sends run.answers 0 r
    → (o : Option BootstrapHandoff) × (if_acked (handoff_of run info) r ≡ done o)
      × HandsOff run info punch o
if_acked-HandsOff run info punch r punches (p, e, iff) = elim (Bool-cases p.probe_acked) [
  | inl acked ↦ (
    some (handoff_of run info),
    rw e (simp acked refl),
    (λ same. iff.0 acked, λ a. simp punches refl),
  )
  | inr unacked ↦ (none, rw e (simp unacked refl), (λ same. cc, λ a. cc (iff.1 a, unacked)))
]

-- In the mode connect, on a message with a punch and a window that is over by round `k`: `main` comes to an
-- end, the message is the first valid one for its session and nonce, and the message is handed off
-- exactly if a probe that was sent in a round of the window is acknowledged with its nonce, every
-- round up to that one having begun in the window and sent its probe.
pub hand_off-HandsOff :
    (run : Bootstrapping) (hello_id session_id nonce : Text) (frames : List Frame)
    (info : ServerInfoMessage) (punch : Punch) (k : ℕ)
    → run.connects ≡ true
    → wait_for_server_info hello_id session_id nonce frames ≡ received info
    → info.punch ≡ some punch
    → punch.duration_ms ≤ run.elapsed k
    → FirstValid hello_id session_id nonce frames info
      × ((o : Option BootstrapHandoff) × (hand_off
              (suc k)
              run
              (wait_for_server_info hello_id session_id nonce frames)
            ≡ done o)
          × HandsOff run info punch o)
unfolding hand_off
hand_off-HandsOff run hello_id session_id nonce frames info punch k connects got punches over =
    let (o, e, hands) =
      if_acked-HandsOff run info punch
        (probe_loop info.nonce punch.duration_ms run.elapsed run.sends run.answers (suc k) 0)
        punches
        (probe_loop-Decides info.nonce punch.duration_ms run.elapsed run.sends run.answers k (suc k)
          0 over (omega arith) (omega arith)) in
    (
      (wait_for_server_info-FirstValid hello_id session_id nonce frames info).0 got,
      (o, rw got (simp connects (ap (connect_mode (suc k) run info) punches ∙ e)), hands),
    )
