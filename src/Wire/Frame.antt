-- ===== src/Wire/Frame.antt =====
-- Frames of the data plane: dataplane/codec.go over the codes of dataplane/protocol.go. A stream is the list of the bytes
-- that are left until it closes, and the writer is taken to accept every byte.
pub mod RoundTrip
use orlop.Prelude.{
  ℕ, ◌*◌, Bool, true, false, List, [], ◌∷◌, ◌++◌, length, take, drop, ◌&&◌, ◌||◌, not, ltb, leb,
  ◌==◌, if◌then◌else◌, Outcome, ok, err, guard, ◌>>=◌, ◌>>◌, put_uint, uint,
}

pub record Frame : Type 0 where
  pub op : ℕ
  pub flags : ℕ
  pub rid : ℕ
  pub payload : List ℕ

pub data FrameError : Type 0 where
  eof unexpected_eof unknown_op reserved_not_zero payload_too_long : FrameError

abbrev pub header_len : ℕ
header_len = 16

abbrev pub max_payload_len : ℕ
max_payload_len = 64 * 1024 * 1024

-- The codes from OpList to OpChangesEvent, without 0x03 and 0x14.
abbrev pub is_valid : ℕ → Bool
is_valid op = ltb 0 op && ltb op 0x1E && not (op == 0x03) && not (op == 0x14)

abbrev pub header : Frame → List ℕ
header f = f.op ∷ f.flags ∷ (put_uint 8 f.rid ++ (0 ∷ 0 ∷ put_uint 4 (length f.payload)))

unfoldable pub write_frame : Frame → Outcome FrameError (List ℕ)
write_frame f =
    guard (leb (length f.payload) max_payload_len) payload_too_long >> ok (header f ++ f.payload)

-- io.ReadFull: the first `n` bytes and the stream behind them; a stream that closes before the first byte is at its end.
abbrev pub read_full : ℕ → List ℕ → Outcome FrameError (List ℕ × List ℕ)
read_full n [] = err eof
read_full n (b ∷ bs) =
    if ltb (length (b ∷ bs)) n then err unexpected_eof else ok (take n (b ∷ bs), drop n (b ∷ bs))

abbrev pub byte_at : ℕ → List ℕ → ℕ
byte_at n [] = 0
byte_at ℕ.zero (b ∷ bs) = b
byte_at (ℕ.suc n) (b ∷ bs) = byte_at n bs

-- The payload of a header whose fields passed.
unfoldable pub read_payload : ℕ → ℕ → ℕ → ℕ → List ℕ → Outcome FrameError (Frame × List ℕ)
read_payload op flags rid plen rest =
    if ltb 0 plen
    then read_full plen rest
      >>= (λ r. ok (record { op = op; flags = flags; rid = rid; payload = r.0 }, r.1))
    else ok (record { op = op; flags = flags; rid = rid; payload = [] }, rest)

-- The reserved bytes and the length of the payload stand behind the request's number.
unfoldable pub read_header : List ℕ → List ℕ → Outcome FrameError (Frame × List ℕ)
read_header hdr rest =
    let tail = drop 8 (drop 2 hdr) in
    let plen = uint (take 4 (drop 2 tail)) in
    guard (is_valid (byte_at 0 hdr)) unknown_op
    >> guard (byte_at 0 tail == 0 && byte_at 1 tail == 0) reserved_not_zero
    >> guard (leb plen max_payload_len) payload_too_long
    >> read_payload (byte_at 0 hdr) (byte_at 1 hdr) (uint (take 8 (drop 2 hdr))) plen rest

unfoldable pub read_frame : List ℕ → Outcome FrameError (Frame × List ℕ)
read_frame bytes = read_full header_len bytes >>= (λ r. read_header r.0 r.1)
