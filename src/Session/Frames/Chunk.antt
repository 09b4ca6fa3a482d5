-- ===== src/Session/Frames/Chunk.antt =====
-- What `handle_data_frame` of src/session/mod.rs does on each of its branches, and with the frames
-- that `flush` writes.
use seam.Prelude.{
  ℕ, ◌+◌, ◌%◌, ◌≤◌, ◌<◌, List, [], ◌∷◌, ◌++◌, none, some, Bool, true, false, ◌≡◌, ◌≢◌, refl, sym,
  ap, ◌∙◌, ◌⊎◌, inl, inr, arith, ltb, ◌==◌, if◌then◌else◌, Option-cases, length, get_or,
  length-append,
}
use seam.Prelude.Bytes.{
  u16_mod, u32_mod, u64_mod, to_le, from_le, slice, length-to_le, from_le-to_le,
}
use seam.Prelude.Splice.{slice-skip, slice-end, slice-front}
use seam.Prelude.Map.{lookup, insert}
use seam.Error.{SeamError, ok, err}
use seam.Session.Stream
use seam.Session.Stream.{Stream}
use seam.Session.State.{Session, local_parity, is_full}
use seam.Session.State.Credits.{Result-cases}
use seam.Session.Frames.{
  wrong_parity, too_many, stream_frame, flag, is_odd, stream_or_new, refusal, note_consumed,
  deliver, handle_data_frame,
}

module _ (s : Session) (frame : List ℕ) where
  abbrev pub data_len : ℕ
  data_len = from_le (slice frame 2 4)

  abbrev pub stream_id : ℕ
  stream_id = from_le (slice frame 4 8)

  pub handle_short : length frame < 16 → handle_data_frame s frame ≡ (ok [], s)
  unfolding handle_data_frame
  handle_short h = ground arith

  pub handle_cut : length frame < 16 + data_len → handle_data_frame s frame ≡ (ok [], s)
  unfolding handle_data_frame
  handle_cut h = ground arith

  pub handle_refused :
      (e : SeamError)
      → 16 + data_len ≤ length frame
      → refusal s stream_id ≡ some e
      → handle_data_frame s frame ≡ (err e, s)
  unfolding handle_data_frame
  handle_refused e h r =
      rw (not_less (length frame) 16 (omega arith))
        (rw (not_less (length frame) (16 + data_len) h) (rw (r, handle_data_frame) refl))
    where
      not_less : (a b : ℕ) → b ≤ a → ltb a b ≡ false
      not_less a b h = ground arith

  pub handle_taken :
      16 + data_len ≤ length frame
      → refusal s stream_id ≡ none
      → handle_data_frame s frame
        ≡ deliver s stream_id
            (from_le (slice frame 8 16))
            (slice frame 16 (16 + data_len))
            (is_odd (get_or frame 1 0))
  unfolding handle_data_frame
  handle_taken h r =
      rw (not_less (length frame) 16 (omega arith))
        (rw (not_less (length frame) (16 + data_len) h) (rw (r, handle_data_frame) refl))
    where
      not_less : (a b : ℕ) → b ≤ a → ltb a b ≡ false
      not_less a b h = ground arith

-- The session once the data has reached its stream, whether the stream accepts it or not.
abbrev pub delivered : Session → ℕ → ℕ → List ℕ → Bool → Session
delivered s sid offset data' is_fin = record (note_consumed s (length data')) {
  streams = insert sid (Stream.receive (stream_or_new s sid) offset data' is_fin).1 s.streams;
}

pub deliver-delivered :
    (s : Session) (sid offset : ℕ) (data' : List ℕ) (is_fin : Bool)
    → (deliver s sid offset data' is_fin).1 ≡ delivered s sid offset data' is_fin
unfolding deliver
deliver-delivered s sid offset data' is_fin =
    elim (Result-cases (Stream.receive (stream_or_new s sid) offset data' is_fin).0) [
      | inl (e, h) ↦ rw (h, deliver) refl
      | inr (u, h) ↦ rw (h, deliver) refl
    ]

-- A stream that is not refused is there, or can be added: it has the peer's parity, and there are fewer
-- than the limit.
pub refusal-none :
    (s : Session) (sid : ℕ)
    → refusal s sid ≡ none
    → ((stream : Stream) × (lookup sid s.streams ≡ some stream))
      ⊎ ((lookup sid s.streams ≡ none) × (sid % 2 ≢ local_parity s.role) × (is_full s ≡ false))
refusal-none s sid h = elim (Option-cases (lookup sid s.streams)) [
  | inr found ↦ inl found
  | inl missing ↦
      let (p, room) =
        open_ (sid % 2) (local_parity s.role) (is_full s) (sym (reduce missing) ∙ h) in
      inr (missing, p, room)
]
  where
    reduce :
        lookup sid s.streams ≡ none
        → refusal s sid ≡ (
            if sid % 2 == local_parity s.role
            then some wrong_parity
            else if is_full s
            then some too_many
            else none)
    reduce m = rw (m, refusal) refl

    open_ :
        (a b : ℕ) (full : Bool)
        → (if a == b then some wrong_parity else if full then some too_many else none) ≡ none
        → (a ≢ b) × (full ≡ false)
    open_ a b full g = ground arith

-- The frame's fields.
module _ (sid offset : ℕ) (chunk : List ℕ) (is_fin : Bool) where
  abbrev frame : List ℕ
  frame = stream_frame sid offset chunk is_fin

  pub length-frame : length frame ≡ 16 + length chunk
  unfolding stream_frame
  length-frame = omega (
    arith,
    length-append (to_le 2 (length chunk % u16_mod)) (to_le 4 sid ++ (to_le 8 offset ++ chunk)),
    length-append (to_le 4 sid) (to_le 8 offset ++ chunk),
    length-append (to_le 8 offset) chunk,
    length-to_le 2 (length chunk % u16_mod),
    length-to_le 4 sid,
    length-to_le 8 offset,
  )

  abbrev flags : List ℕ
  flags = 0x01 ∷ flag is_fin ∷ []

  size : List ℕ
  size = to_le 2 (length chunk % u16_mod)

  frame_len : length chunk < u16_mod → from_le (slice frame 2 4) ≡ length chunk
  unfolding stream_frame size
  frame_len h =
      ap from_le (
        slice-skip flags (size ++ (to_le 4 sid ++ (to_le 8 offset ++ chunk))) 2 0 2 refl
        ∙ slice-front size _ 2 (length-to_le 2 _))
      ∙ from_le-to_le 2 (length chunk % u16_mod) (omega arith)
      ∙ omega arith

  frame_id : sid < u32_mod → from_le (slice frame 4 8) ≡ sid
  unfolding stream_frame size
  frame_id h =
      ap from_le (
        slice-skip flags (size ++ (to_le 4 sid ++ (to_le 8 offset ++ chunk))) 2 2 6 refl
        ∙ slice-skip size (to_le 4 sid ++ (to_le 8 offset ++ chunk)) 2 0 4 (length-to_le 2 _)
        ∙ slice-front (to_le 4 sid) _ 4 (length-to_le 4 _))
      ∙ from_le-to_le 4 sid h

  frame_offset : offset < u64_mod → from_le (slice frame 8 16) ≡ offset
  unfolding stream_frame size
  frame_offset h =
      ap from_le (
        slice-skip flags (size ++ (to_le 4 sid ++ (to_le 8 offset ++ chunk))) 2 6 14 refl
        ∙ slice-skip size (to_le 4 sid ++ (to_le 8 offset ++ chunk)) 2 4 12 (length-to_le 2 _)
        ∙ slice-skip (to_le 4 sid) (to_le 8 offset ++ chunk) 4 0 8 (length-to_le 4 _)
        ∙ slice-front (to_le 8 offset) _ 8 (length-to_le 8 _))
      ∙ from_le-to_le 8 offset h

  frame_data : slice frame 16 (16 + length chunk) ≡ chunk
  unfolding stream_frame size
  frame_data =
      ap (slice frame 16) {y = 2 + (2 + (4 + (8 + length chunk)))} (omega arith)
      ∙ slice-skip flags (size ++ (to_le 4 sid ++ (to_le 8 offset ++ chunk))) 2 14 _ refl
      ∙ slice-skip size (to_le 4 sid ++ (to_le 8 offset ++ chunk)) 2 12 _ (length-to_le 2 _)
      ∙ slice-skip (to_le 4 sid) (to_le 8 offset ++ chunk) 4 8 _ (length-to_le 4 _)
      ∙ slice-end (to_le 8 offset) chunk 8 (8 + length chunk) (length-to_le 8 _) refl

  frame_fin : is_odd (get_or frame 1 0) ≡ is_fin
  unfolding stream_frame
  frame_fin = either is_fin
    where
      either : (b : Bool) → is_odd (flag b) ≡ b
      either true = refl
      either false = refl

  -- The frame of a chunk, handled by a session that does not refuse its stream, hands the stream
  -- its offset, its data and whether it is the last one.
  pub handle-stream_frame :
      (s : Session)
      → length chunk < u16_mod
      → sid < u32_mod
      → offset < u64_mod
      → refusal s sid ≡ none
      → handle_data_frame s frame ≡ deliver s sid offset chunk is_fin
  handle-stream_frame s small few low r =
      handle_taken s frame (omega (arith, length-frame, frame_len small))
        (ap (refusal s) (frame_id few) ∙ r)
      ∙ ap
          (λ i.
            deliver s i (from_le (slice frame 8 16)) (slice frame 16 (16 + data_len s frame))
              (is_odd (get_or frame 1 0)))
          (frame_id few)
      ∙ ap
          (λ o.
            deliver s sid o (slice frame 16 (16 + data_len s frame)) (is_odd (get_or frame 1 0)))
          (frame_offset low)
      ∙ ap (λ n. deliver s sid offset (slice frame 16 (16 + n)) (is_odd (get_or frame 1 0)))
          (frame_len small)
      ∙ ap (λ d. deliver s sid offset d (is_odd (get_or frame 1 0))) frame_data
      ∙ ap (deliver s sid offset chunk) frame_fin
