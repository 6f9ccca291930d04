-- ===== src/Grpc/Frames.antt =====
-- code/grpc_example/rpc.go: `writeFrame` and `readFrame`. A connection is the list of the bytes that
-- are still to be read; writing to it succeeds.
use system_design_handbook.Base.{
  ℕ, ◌+◌, ◌*◌, ◌/◌, ◌%◌, ◌^◌, ◌≤◌, ◌<◌, ◌≡◌, none, some, [], ◌∷◌, ◌++◌, length, ltb, if◌then◌else◌,
  arith,
}
use system_design_handbook.Bytes.{Bytes, read_full, read_full-append}

-- Frame kinds.
abbrev pub frame_message : ℕ
frame_message = 0

abbrev pub frame_end : ℕ
frame_end = 1

abbrev pub frame_error : ℕ
frame_error = 2

-- `16<<20`
abbrev pub frame_limit : ℕ
frame_limit = 16_777_216

-- The byte for the kind, the length in four bytes with the highest first, and the payload.
unfoldable pub write_frame : ℕ → Bytes → Bytes
write_frame kind payload =
    let size = length payload % 2 ^ 32 in
    (kind ∷ size / 2 ^ 24 % 256 ∷ size / 2 ^ 16 % 256 ∷ size / 2 ^ 8 % 256 ∷ size % 256 ∷ [])
    ++ payload

-- `cut` when the connection ends too early, and `too_large` for a declared length over the limit.
pub data FrameRead : Type 0 where
  got : ℕ → Bytes → Bytes → FrameRead
  cut too_large : FrameRead

unfoldable pub read_payload : ℕ → ℕ → Bytes → FrameRead
read_payload kind size r =
    if ltb frame_limit size
    then too_large
    else elim (read_full size r) [ none ↦ cut | some (payload, rest) ↦ got kind payload rest ]

unfoldable pub read_frame : Bytes → FrameRead
unfolding read_payload
read_frame (kind ∷ a ∷ b ∷ c ∷ d ∷ r) = read_payload kind (((a * 256 + b) * 256 + c) * 256 + d) r
read_frame r = cut

module _ (kind : ℕ) (payload rest : Bytes) where
  -- The frame that was written is read, and nothing behind it.
  pub read_frame-write_frame :
      length payload ≤ frame_limit
      → read_frame (write_frame kind payload ++ rest) ≡ got kind payload rest
  unfolding read_frame write_frame read_payload
  read_frame-write_frame h = ground (arith, read_full-append payload rest)

  -- A payload over the limit is written, and refused by the reader.
  pub read_frame_too_large :
      frame_limit < length payload
      → length payload < 2 ^ 32
      → read_frame (write_frame kind payload ++ rest) ≡ too_large
  unfolding read_frame write_frame read_payload
  read_frame_too_large h k = ground arith
