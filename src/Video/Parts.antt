-- ===== src/Video/Parts.antt =====
-- `accept_chunk` on the chunks of one frame, in any order.
use fips_nostr_bootstrap.Base.{
  ℕ, zero, suc, ◌+◌, ◌<◌, ◌≡◌, ◌≢◌, refl, ap, sym, ◌∙◌, false, Option, none, some, List, [], ◌∷◌,
  ◌++◌, length, set, get_elem?, arith, leb, ◌==◌, nat_eq, ℕ_discrete, if◌then◌else◌, ==_iff,
  ==_refl, ==_ne, All, contains, Distinct, for_each,
}
use fips_nostr_bootstrap.Base.HashMap.{get, get-insert, get-remove, get-insert_self}
use fips_nostr_bootstrap.Video.{
  FrameAssembly, FrameKey, frame_key_eq, VideoState, or_fresh, keep_assembly, store_chunk,
  accept_chunk,
}
use fips_nostr_bootstrap.Video.Assembly.{count_some, count_some-set}
use fips_nostr_bootstrap.Video.Chunks.{concat}
use fips_nostr_bootstrap.Video.Slots.{
  fill, assembly_of, length-fill, get_elem?-fill, set-fill, concat_chunks-fill,
}

pub length-get_elem? {ℓ} :
    {A : Type ℓ} (xs : List A) (i : ℕ) → i < length xs → (a : A) × (get_elem? xs i ≡ some a)
length-get_elem? [] i h = elim h [ ]
length-get_elem? (x ∷ xs) zero h = (x, refl)
length-get_elem? (x ∷ xs) (suc i) h = length-get_elem? xs i (omega arith)

-- What a frame that arrived whole has done: it is the latest, it was announced once, its assembly is
-- gone, and the assemblies of other frames are as they were.
pub record Received (key : FrameKey) (jpeg : List ℕ) (now : ℕ) (s t : VideoState) : Type 0 where
  pub latest :
      t.latest_frame ≡ some (record { frame_id = key.1; jpeg = jpeg; received_at_ms = now })
  pub announced : t.frame_events ≡ s.frame_events ++ (key.1 ∷ [])
  pub pending :
      (k : FrameKey) → get t.pending_frames k ≡ (if key == k then none else get s.pending_frames k)

module _ (key : FrameKey) (parts : List (List ℕ)) (now : ℕ) where
  -- The chunk with an index, and nothing for an index out of range.
  abbrev pub accept_part : VideoState → Option (List ℕ) → ℕ → VideoState
  accept_part s none i = s
  accept_part s (some c) i = accept_chunk s key (length parts) i c now

  -- The assembly that the next packet will find.
  abbrev pub Awaits : VideoState → List ℕ → Type 0
  Awaits s seen =
      (or_fresh (length parts) (get s.pending_frames key) ≡ assembly_of parts seen)
      × (count_some (fill 0 seen parts) ≡ length seen)

  slot_empty :
      (seen : List ℕ) (i : ℕ) (c : List ℕ)
      → get_elem? parts i ≡ some c
      → contains seen i ≡ false
      → get_elem? (fill 0 seen parts) i ≡ some none
  slot_empty seen i c e new =
      let at : 0 + i ≡ i = omega arith in
      get_elem?-fill 0 seen parts i c e (ap (contains seen) at ∙ new)

  slot_set :
      (seen : List ℕ) (i : ℕ) (c : List ℕ)
      → get_elem? parts i ≡ some c
      → set (fill 0 seen parts) i (some c) ≡ fill 0 (i ∷ seen) parts
  slot_set seen i c e =
      let at : 0 + i ≡ i = omega arith in
      set-fill 0 seen parts i c e ∙ ap (λ j. fill 0 (j ∷ seen) parts) at

  -- A chunk that is new is stored with those that are there.
  accept_new :
      (s : VideoState) (seen : List ℕ) (i : ℕ) (c : List ℕ)
      → Awaits s seen
      → get_elem? parts i ≡ some c
      → i < length parts
      → contains seen i ≡ false
      → accept_chunk s key (length parts) i c now
        ≡ store_chunk s key (assembly_of parts (i ∷ seen)) (length parts) now
  unfolding accept_chunk
  accept_new s seen i c w e h new =
      let inside : leb (length (fill 0 seen parts)) i ≡ false =
        ground (arith, length-fill 0 seen parts) in
      let more : length seen + 1 ≡ suc (length seen) = omega arith in
      rw (w.0, inside, slot_empty seen i c e new, slot_set seen i c e, more) refl

  count_some-fill :
      (seen : List ℕ) (i : ℕ) (c : List ℕ)
      → count_some (fill 0 seen parts) ≡ length seen
      → get_elem? parts i ≡ some c
      → contains seen i ≡ false
      → count_some (fill 0 (i ∷ seen) parts) ≡ suc (length seen)
  count_some-fill seen i c w e new =
      ap count_some (sym (slot_set seen i c e))
      ∙ count_some-set (fill 0 seen parts) i c (slot_empty seen i c e new)
      ∙ ap suc w

  -- The last chunk completes the frame.
  store_last :
      (s : VideoState) (seen : List ℕ)
      → count_some (fill 0 seen parts) ≡ length seen
      → length seen ≡ length parts
      → Received key
          (concat parts)
          now
          s
          (store_chunk s key (assembly_of parts seen) (length parts) now)
  unfolding store_chunk ℕ_discrete
  store_last s seen w full = rw ((==_iff (length seen) (length parts)).1 full) (record {
    latest = rw (concat_chunks-fill 0 seen parts (omega (arith, w, full))) refl;
    announced = refl;
    pending = get-remove s.pending_frames key;
  })

  store_more :
      (s : VideoState) (seen : List ℕ)
      → length seen ≢ length parts
      → store_chunk s key (assembly_of parts seen) (length parts) now
        ≡ keep_assembly s key (assembly_of parts seen)
  unfolding store_chunk ℕ_discrete
  store_more s seen more = rw (==_ne (length seen) (length parts) more) refl

  kept-Awaits :
      (s : VideoState) (seen : List ℕ)
      → count_some (fill 0 seen parts) ≡ length seen
      → Awaits (keep_assembly s key (assembly_of parts seen)) seen
  unfolding ℕ_discrete
  kept-Awaits s seen w = (
    rw (get-insert_self s.pending_frames key (assembly_of parts seen), ==_refl (length parts)) refl,
    w,
  )

  new_rest :
      (seen rest : List ℕ) (i : ℕ)
      → contains rest i ≡ false
      → All (λ j. (j < length parts) × (contains seen j ≡ false)) rest
      → All (λ j. (j < length parts) × (contains (i ∷ seen) j ≡ false)) rest
  unfolding ℕ_discrete
  new_rest seen [] i d new = tt
  new_rest seen (j ∷ rest) i d new =
      ((new.0.0, ground (arith, new.0.1)), new_rest seen rest i (ground arith) new.1)

  pub none_seen :
      (order : List ℕ)
      → All (λ i. i < length parts) order
      → All (λ i. (i < length parts) × (contains [] i ≡ false)) order
  none_seen [] h = tt
  none_seen (i ∷ order) h = ((h.0, refl), none_seen order h.1)

  -- What follows a chunk that was kept counts from before it.
  keep-Received :
      (s t : VideoState) (jpeg : List ℕ) (a : FrameAssembly)
      → Received key jpeg now (keep_assembly s key a) t
      → Received key jpeg now s t
  keep-Received s t jpeg a r = record {
    latest = r.latest;
    announced = r.announced;
    pending = λ k. ground (arith, r.pending k, get-insert s.pending_frames key a k);
  }

  -- New indices in any order, as many as are missing, complete the frame.
  pub accept_parts-Received :
      (s : VideoState) (seen order : List ℕ)
      → Awaits s seen
      → Distinct order
      → All (λ i. (i < length parts) × (contains seen i ≡ false)) order
      → 0 < length order
      → length seen + length order ≡ length parts
      → Received key
          (concat parts)
          now
          s
          (for_each (λ t i. accept_part t (get_elem? parts i) i) s order)
  accept_parts-Received s seen [] w d new p count = elim p [ ]
  accept_parts-Received s seen (i ∷ []) w d new p count =
      let (c, e) = length-get_elem? parts i new.0.0 in
      let counted = count_some-fill seen i c w.1 e new.0.1 in
      rw (e, accept_new s seen i c w e new.0.0 new.0.1)
        (store_last s (i ∷ seen) counted (omega arith))
  accept_parts-Received s seen (i ∷ j ∷ rest) w d new p count =
      let (c, e) = length-get_elem? parts i new.0.0 in
      let counted = count_some-fill seen i c w.1 e new.0.1 in
      let kept : VideoState = keep_assembly s key (assembly_of parts (i ∷ seen)) in
      let step : accept_part s (get_elem? parts i) i ≡ kept =
        rw e (
          accept_new s seen i c w e new.0.0 new.0.1 ∙ store_more s (i ∷ seen) (λ f. omega arith)) in
      rw step (
        keep-Received s _ (concat parts) (assembly_of parts (i ∷ seen)) (
          accept_parts-Received kept (i ∷ seen) (j ∷ rest) (kept-Awaits s (i ∷ seen) counted) d.1
            (new_rest seen (j ∷ rest) i d.0 new.1) (omega arith) (omega arith)))
