-- ===== src/Frame/Wire.antt =====
-- Frames: `[length: u32][seq: u32][data]`, where the length counts the sequence number too.
pub mod RoundTrip
use hush_rs.Base.{
  ℕ, ◌+◌, ◌-◌, ◌%◌, ◌^◌, Bool, [], ◌∷◌, ◌++◌, leb, length, take, drop, Result, ok, err, ◌>>=◌, ◌>>◌,
  guard, map_err,
}
use hush_rs.Std.Words.{Bytes, to_be_bytes, from_be_bytes}
use hush_rs.Std.Io.{IoError, unexpected_eof, other, Reader, Writer, read_exact, write_all}

-- `MAX_FRAME_SIZE`, `FRAME_OVERHEAD`, `FRAME_MIN_DATA`
abbrev pub max_frame_size : ℕ
max_frame_size = 1_048_576

abbrev pub frame_overhead : ℕ
frame_overhead = 4 + 12 + 16

abbrev pub frame_min_data : ℕ
frame_min_data = 4

-- `max_safe_payload`, `wire_overhead`
unfoldable pub max_safe_payload : ℕ
max_safe_payload = max_frame_size - frame_overhead

unfoldable pub wire_overhead : ℕ
wire_overhead = 36

-- `Frame`
pub record Frame : Type 0 where
  pub seq : ℕ
  pub body : Bytes

-- `FrameError`
pub data FrameError : Type 0 where
  eof : FrameError
  io : IoError → FrameError
  too_large : ℕ → ℕ → FrameError
  too_short : ℕ → FrameError

-- How the failure of the first read is reported.
abbrev pub first_read : IoError → FrameError
first_read unexpected_eof = eof
first_read other = io other

-- `read_frame`
unfoldable pub read_frame : Reader → Result FrameError (Frame × Reader)
read_frame r = do
  (len_buf, r') ← map_err first_read (read_exact 4 r)
  let frame_len = from_be_bytes len_buf
  guard (leb frame_len max_frame_size) (too_large frame_len max_frame_size)
  guard (leb frame_min_data frame_len) (too_short frame_len)
  (whole, r'') ← map_err io (read_exact frame_len r')
  ok (record { seq = from_be_bytes (take 4 whole); body = drop 4 whole }, r'')

-- `read_frame_async` has the same body.
unfoldable pub read_frame_async : Reader → Result FrameError (Frame × Reader)
unfolding read_frame
read_frame_async r = read_frame r

-- `4u32 + frame_data.len() as u32`, in 32 bits.
abbrev pub total_length : Bytes → ℕ
total_length frame_data = (4 + length frame_data % 2 ^ 32) % 2 ^ 32

-- `encode_frame`
unfoldable pub encode_frame : ℕ → Bytes → Result FrameError Bytes
encode_frame seq frame_data = do
  let total_len = total_length frame_data
  guard (leb total_len max_frame_size) (too_large total_len max_frame_size)
  ok (to_be_bytes 4 total_len ++ (to_be_bytes 4 seq ++ frame_data))

-- `write_frame`
unfoldable pub write_frame : Writer → ℕ → Bytes → Result FrameError Writer
write_frame w seq frame_data = do
  let total_len = total_length frame_data
  guard (leb total_len max_frame_size) (too_large total_len max_frame_size)
  map_err io (write_all (to_be_bytes 4 total_len ++ (to_be_bytes 4 seq ++ frame_data)) w)

-- `write_frame_async` has the same body.
unfoldable pub write_frame_async : Writer → ℕ → Bytes → Result FrameError Writer
unfolding write_frame
write_frame_async w seq frame_data = write_frame w seq frame_data

-- `parse_frame_data`
unfoldable pub parse_frame_data : Bytes → Result FrameError Frame
parse_frame_data wire_data = do
  guard (leb 4 (length wire_data)) (too_short (length wire_data % 2 ^ 32))
  ok (record { seq = from_be_bytes (take 4 wire_data); body = drop 4 wire_data })
