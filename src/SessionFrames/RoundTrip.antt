-- ===== src/SessionFrames/RoundTrip.antt =====
-- Frames are read back, and only what starts with the magic is a frame.
use fips_nostr_bootstrap.Base.{
  ℕ, ◌≡◌, refl, sym, ap, ◌∙◌, ==_refl, ◌↔◌, ◌==◌, text_eq, ==_iff, ltb, false, true, Option, none,
  some, Bool-cases, inl, inr, List, ◌++◌, length, take, drop, take-append-drop, arith,
}
use fips_nostr_bootstrap.Schema.{SessionFrame, ok}
use fips_nostr_bootstrap.SessionFrames.{
  FrameJson, frame_magic, with_magic, encode_session_frame, decode_session_frame, or_magic_error,
}

framed_long : (body : List ℕ) → ltb (length (frame_magic ++ body)) 5 ≡ false
framed_long body = ground arith

same_magic : (frame_magic == frame_magic) ≡ true
same_magic = ==_refl frame_magic

split_at_five : (bytes : List ℕ) → take 5 bytes ≡ frame_magic → bytes ≡ frame_magic ++ drop 5 bytes
split_at_five bytes e = sym (take-append-drop 5 bytes) ∙ ap (λ t. t ++ drop 5 bytes) e

module _ {Value : Type 0} (json : FrameJson Value) where
  decode_session_frame-framed :
      (body : List ℕ)
      → decode_session_frame json (frame_magic ++ body) ≡ or_magic_error json (json.from_slice body)
  unfolding decode_session_frame
  decode_session_frame-framed body = rw (framed_long body, same_magic)

  encoded_body :
      (o : Option (List ℕ)) (bytes : List ℕ)
      → with_magic json o ≡ some bytes
      → (body : List ℕ) × (o ≡ some body) × (bytes ≡ frame_magic ++ body)
  encoded_body none bytes e = cc
  encoded_body (some body) bytes e = (body, refl, cc)

  -- Every frame that encodes is decoded to itself.
  pub decode_session_frame-encode :
      (frame : SessionFrame Value) (bytes : List ℕ)
      → encode_session_frame json frame ≡ some bytes
      → decode_session_frame json bytes ≡ ok frame
  unfolding encode_session_frame
  decode_session_frame-encode frame bytes e =
      let (body, written, framed) = encoded_body (json.to_vec frame) bytes e in
      rw (framed, decode_session_frame-framed body, json.from_slice-to_vec frame body written) refl

  or_magic_error-ok :
      (o : Option (SessionFrame Value)) (frame : SessionFrame Value)
      → or_magic_error json o ≡ ok frame
      → o ≡ some frame
  or_magic_error-ok none frame e = cc
  or_magic_error-ok (some f) frame e = cc

  decoded-magic :
      (bytes : List ℕ) (frame : SessionFrame Value)
      → decode_session_frame json bytes ≡ ok frame
      → take 5 bytes ≡ frame_magic
  unfolding decode_session_frame
  decoded-magic bytes frame e = elim (Bool-cases (ltb (length bytes) 5)) [
    | inl short ↦ absurd (cc (rw short at e))
    | inr long ↦ elim (Bool-cases (take 5 bytes == frame_magic)) [
      | inl same ↦ (==_iff (take 5 bytes) frame_magic).0 same
      | inr other ↦ absurd (cc (rw (long, other) at e))
    ]
  ]

  -- A datagram decodes exactly when it is the magic and the JSON of the frame.
  pub decode_session_frame-ok :
      (bytes : List ℕ) (frame : SessionFrame Value)
      → (decode_session_frame json bytes ≡ ok frame)
        ↔ ((body : List ℕ) × (bytes ≡ frame_magic ++ body) × (json.from_slice body ≡ some frame))
  decode_session_frame-ok bytes frame = (
    λ e.
        let framed = starts bytes frame e in
        (
          drop 5 bytes,
          framed,
          or_magic_error-ok (json.from_slice (drop 5 bytes)) frame (
              sym (decode_session_frame-framed (drop 5 bytes))
              ∙ ap (decode_session_frame json) (sym framed)
              ∙ e),
        ),
    λ (body, framed, parsed). rw (framed, decode_session_frame-framed body, parsed) refl,
  )
    where
      starts :
          (bytes : List ℕ) (frame : SessionFrame Value)
          → decode_session_frame json bytes ≡ ok frame
          → bytes ≡ frame_magic ++ drop 5 bytes
      starts bytes frame e = split_at_five bytes (decoded-magic bytes frame e)
