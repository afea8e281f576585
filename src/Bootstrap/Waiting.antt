-- ===== src/Bootstrap/Waiting.antt =====
-- Which message the client waits for.
use fips_nostr_bootstrap.Base.{
  ◌≡◌, ◌≢◌, ◌↔◌, inl, inr, refl, sym, ◌∙◌, ap, ◌==◌, text_eq, not, ◌&&◌, true, false, Bool-cases,
  none, some, List, [], ◌∷◌, ◌++◌, Text, All,
}
use fips_nostr_bootstrap.Schema.{Result, ok, err}
use fips_nostr_bootstrap.Bootstrap.{
  ServerInfoMessage, Invalid, Frame, broken, skipped, verdict, delivered, received, is_valid,
  validate_for, wait_for_server_info,
}

-- A frame that the loop goes past: it does not break the connection, does not refuse the hello, and
-- holds no valid message.
abbrev pub Passes : Text → Text → Text → Frame → Type 0
Passes hello_id session_id nonce broken = ⊥
Passes hello_id session_id nonce skipped = Unit {0}
Passes hello_id session_id nonce (verdict event_id status) =
    (event_id == hello_id && not status) ≡ false
Passes hello_id session_id nonce (delivered none) = Unit {0}
Passes hello_id session_id nonce (delivered (some parsed)) =
    validate_for parsed session_id nonce ≢ ok tt

-- The message is the first valid one, and nothing before it ends the wait.
pub record FirstValid (hello_id session_id nonce : Text) (frames : List Frame)
    (info : ServerInfoMessage) : Type 0 where
  pub before : List Frame
  pub after : List Frame
  pub order : frames ≡ before ++ (delivered (some info) ∷ after)
  pub passed : All (Passes hello_id session_id nonce) before
  pub valid : validate_for info session_id nonce ≡ ok tt

valid_ok : (r : Result (Unit {0}) Invalid) → is_valid r ≡ true → r ≡ ok tt
valid_ok (ok u) h = refl
valid_ok (err e) h = cc

module _ (hello_id session_id nonce : Text) where
  passing :
      (f : Frame) (frames : List Frame) (info : ServerInfoMessage)
      → Passes hello_id session_id nonce f
      → FirstValid hello_id session_id nonce frames info
      → FirstValid hello_id session_id nonce (f ∷ frames) info
  passing f frames info p v = record {
    before = f ∷ v.before;
    after = v.after;
    order = ap (λ xs. f ∷ xs) v.order;
    passed = (p, v.passed);
    valid = v.valid;
  }

  -- What the client takes is the first valid message, behind frames that the loop goes past.
  received-FirstValid :
      (frames : List Frame) (info : ServerInfoMessage)
      → wait_for_server_info hello_id session_id nonce frames ≡ received info
      → FirstValid hello_id session_id nonce frames info
  unfolding wait_for_server_info
  received-FirstValid [] info h = cc
  received-FirstValid (broken ∷ frames) info h = cc
  received-FirstValid (skipped ∷ frames) info h =
      passing skipped frames info tt (received-FirstValid frames info h)
  received-FirstValid (verdict event_id status ∷ frames) info h =
      elim (Bool-cases (event_id == hello_id && not status)) [
        | inl refused ↦ absurd (cc (simp refused at h))
        | inr other ↦
            passing (verdict event_id status) frames info other
              (received-FirstValid frames info (simp other at h))
      ]
  received-FirstValid (delivered none ∷ frames) info h =
      passing (delivered none) frames info tt (received-FirstValid frames info h)
  received-FirstValid (delivered (some parsed) ∷ frames) info h =
      elim (Bool-cases (is_valid (validate_for parsed session_id nonce))) [
        | inl good ↦
            let taken : received parsed ≡ received info = simp good at h in
            let same : parsed ≡ info = cc in
            record {
              before = [];
              after = frames;
              order = ap (λ p. delivered (some p) ∷ frames) same;
              passed = tt;
              valid = ap (λ p. validate_for p session_id nonce) (sym same) ∙ valid_ok _ good;
            }
        | inr bad ↦
            passing (delivered (some parsed)) frames info (λ e. cc (ap is_valid e, bad))
              (received-FirstValid frames info (simp bad at h))
      ]

  received_past :
      (before after : List Frame) (info : ServerInfoMessage)
      → All (Passes hello_id session_id nonce) before
      → validate_for info session_id nonce ≡ ok tt
      → wait_for_server_info hello_id session_id nonce (before ++ (delivered (some info) ∷ after))
        ≡ received info
  unfolding wait_for_server_info
  received_past [] after info p v = rw (ap is_valid v) refl
  received_past (broken ∷ before) after info p v = elim p.0 [ ]
  received_past (skipped ∷ before) after info p v = received_past before after info p.1 v
  received_past (verdict event_id status ∷ before) after info p v =
      rw p.0 (received_past before after info p.1 v)
  received_past (delivered none ∷ before) after info p v = received_past before after info p.1 v
  received_past (delivered (some parsed) ∷ before) after info p v =
      elim (Bool-cases (is_valid (validate_for parsed session_id nonce))) [
        | inl good ↦ absurd (p.0 (valid_ok _ good))
        | inr bad ↦ rw bad (received_past before after info p.1 v)
      ]

  -- The client takes a message exactly if it is the first valid one for its session and nonce, and no
  -- frame before it breaks the connection or refuses the hello.
  pub wait_for_server_info-FirstValid :
      (frames : List Frame) (info : ServerInfoMessage)
      → (wait_for_server_info hello_id session_id nonce frames ≡ received info)
        ↔ FirstValid hello_id session_id nonce frames info
  wait_for_server_info-FirstValid frames info = (
    received-FirstValid frames info,
    λ v.
        ap (wait_for_server_info hello_id session_id nonce) v.order
        ∙ received_past v.before v.after info v.passed v.valid,
  )
