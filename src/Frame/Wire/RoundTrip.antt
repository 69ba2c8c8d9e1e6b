-- ===== src/Frame/Wire/RoundTrip.antt =====
-- Frames written, read and parsed.
use hush_rs.Base.{
  ok-injective, length-take, All, All-append, take-append-drop, ap, ◌∙◌, ltb, ◌⊎◌, if◌then◌else◌,
  leb-true, ℕ, ◌+◌, ◌^◌, ◌≤◌, ◌<◌, ◌≡◌, true, ◌++◌, leb, length, length-append, length-drop,
  append_assoc, take, drop, take_prefix, drop_prefix, arith, ok, err, map_err, bind-eq_ok,
  guard-eq_ok, map_err-eq_ok,
}
use hush_rs.Std.Words.{
  Bytes, IsByte, to_be_bytes-from_be_bytes, to_be_bytes, from_be_bytes, length-to_be_bytes,
  from_be_bytes-to_be_bytes,
}
use hush_rs.Std.Io.{
  IoError, Reader, Writer, read_exact, write_all, read_exact-append, read_exact_takes,
  read_exact_splits,
}
use hush_rs.Frame.Wire.{
  max_frame_size, Frame, too_large, too_short, io, read_frame, write_frame, encode_frame,
  total_length, parse_frame_data, first_read, frame_min_data,
}

total_length_fits : (bs : Bytes) → 4 + length bs ≤ max_frame_size → total_length bs ≡ 4 + length bs
total_length_fits bs h = omega arith

-- The four bytes of a sequence number in front of the rest.
pub seq_first : (n : ℕ) (q : Bytes) → take 4 (to_be_bytes 4 n ++ q) ≡ to_be_bytes 4 n
seq_first n q = take_prefix 4 (to_be_bytes 4 n) q (length-to_be_bytes 4 n)

pub seq_gone : (n : ℕ) (q : Bytes) → drop 4 (to_be_bytes 4 n ++ q) ≡ q
seq_gone n q = drop_prefix 4 (to_be_bytes 4 n) q (length-to_be_bytes 4 n)

pub seq_read : (n : ℕ) (q : Bytes) → n < 2 ^ 32 → from_be_bytes (take 4 (to_be_bytes 4 n ++ q)) ≡ n
seq_read n q h = rw (seq_first n q) (from_be_bytes-to_be_bytes 4 n (omega arith))

-- A frame as it stands on the wire.
abbrev pub frame_bytes : ℕ → Bytes → Bytes
frame_bytes seq frame_data =
    to_be_bytes 4 (4 + length frame_data) ++ (to_be_bytes 4 seq ++ frame_data)

-- `encode_frame` and `write_frame` produce the same bytes.
pub encode_frame_lem :
    (seq : ℕ) (frame_data : Bytes)
    → 4 + length frame_data ≤ max_frame_size
    → encode_frame seq frame_data ≡ ok (frame_bytes seq frame_data)
unfolding encode_frame
encode_frame_lem seq frame_data h =
    rw (total_length_fits frame_data h, leb-true (4 + length frame_data) max_frame_size h)

pub write_frame_lem :
    (w : Writer) (seq : ℕ) (frame_data : Bytes)
    → w.is_open ≡ true
    → 4 + length frame_data ≤ max_frame_size
    → write_frame w seq frame_data
      ≡ ok (record w { outgoing = w.outgoing ++ frame_bytes seq frame_data })
unfolding write_frame write_all
write_frame_lem w seq frame_data o h =
    rw (total_length_fits frame_data h, leb-true (4 + length frame_data) max_frame_size h, o)

pub read_frame-frame_bytes :
    (seq : ℕ) (frame_data rest : Bytes) (e : IoError)
    → seq < 2 ^ 32
    → 4 + length frame_data ≤ max_frame_size
    → read_frame (record { incoming = frame_bytes seq frame_data ++ rest; ending = e })
      ≡ ok (record { seq = seq; body = frame_data }, record { incoming = rest; ending = e })
unfolding read_frame
read_frame-frame_bytes seq frame_data rest e hs h =
    let len = 4 + length frame_data in
    let whole = to_be_bytes 4 seq ++ frame_data in
    let size : length whole ≡ len =
      omega (arith, length-append {0} (to_be_bytes 4 seq) frame_data, length-to_be_bytes 4 seq) in
    rw (
      append_assoc (to_be_bytes 4 len) whole rest,
      read_exact-append 4 (to_be_bytes 4 len) (whole ++ rest) e (length-to_be_bytes 4 len),
      from_be_bytes-to_be_bytes 4 len (omega arith),
      leb-true len max_frame_size h,
      leb-true 4 len (omega arith),
      read_exact-append len whole rest e size,
      seq_read seq frame_data hs,
      seq_gone seq frame_data,
    )

-- On an open stream, a frame of at most 2^20 bytes is appended to what was sent; `encode_frame` gives
-- the same bytes; and reading them gives the frame back and leaves what follows them.
pub read_frame-write_frame :
    (w : Writer) (seq : ℕ) (frame_data rest : Bytes) (e : IoError)
    → w.is_open ≡ true
    → seq < 2 ^ 32
    → 4 + length frame_data ≤ max_frame_size
    → (sent : Bytes) × (write_frame w seq frame_data
        ≡ ok (record w { outgoing = w.outgoing ++ sent }))
      × (encode_frame seq frame_data ≡ ok sent)
      × (read_frame (record { incoming = sent ++ rest; ending = e })
          ≡ ok (record { seq = seq; body = frame_data }, record { incoming = rest; ending = e }))
read_frame-write_frame w seq frame_data rest e o hs h = (
  frame_bytes seq frame_data,
  write_frame_lem w seq frame_data o h,
  encode_frame_lem seq frame_data h,
  read_frame-frame_bytes seq frame_data rest e hs h,
)

-- A length above 2^20 or below 4 is refused whatever follows it: the data is not read.
pub read_frame_refuses :
    (n : ℕ) (rest : Bytes) (e : IoError)
    → n < 2 ^ 32
    → (max_frame_size < n) ⊎ (n < 4)
    → read_frame (record { incoming = to_be_bytes 4 n ++ rest; ending = e })
      ≡ err (if ltb max_frame_size n then too_large n max_frame_size else too_short n)
unfolding read_frame
read_frame_refuses n rest e hn bad =
    let first = read_exact-append 4 (to_be_bytes 4 n) rest e (length-to_be_bytes 4 n) in
    let back = from_be_bytes-to_be_bytes 4 n (omega arith) in rw (first, back) (ground arith)

-- A frame that is read has at most 2^20 bytes behind the length, with its sequence number, and
-- exactly the bytes of the frame are taken from the stream.
pub read_frame_takes :
    (r r' : Reader) (f : Frame)
    → read_frame r ≡ ok (f, r')
    → (4 + length f.body ≤ max_frame_size)
      × (length r.incoming ≡ 8 + length f.body + length r'.incoming)
      × (r'.ending ≡ r.ending)
unfolding read_frame
read_frame_takes r r' f h =
    let first = bind-eq_ok (map_err first_read (read_exact 4 r)) _ h in
    let n = from_be_bytes first.0.0 in
    let small = guard-eq_ok (leb n max_frame_size) (too_large n max_frame_size) _ first.2 in
    let enough = guard-eq_ok (leb frame_min_data n) (too_short n) _ small.1 in
    let second = bind-eq_ok (map_err io (read_exact n first.0.1)) _ enough.1 in
    let header = read_exact_takes 4 r first.0.1 first.0.0 (map_err-eq_ok first_read _ first.1) in
    let whole = read_exact_takes n first.0.1 second.0.1 second.0.0 (map_err-eq_ok io _ second.1) in
    ground (arith, length-drop {0} 4 second.0.0, second.2, small.0, enough.0)

-- The length and the rest of a frame that were read are the frame's bytes.
frame_bytes_lem :
    (header whole rest : Bytes)
    → length header ≡ 4
    → length whole ≡ from_be_bytes header
    → 4 ≤ length whole
    → All IsByte header
    → All IsByte whole
    → header ++ (whole ++ rest) ≡ frame_bytes (from_be_bytes (take 4 whole)) (drop 4 whole) ++ rest
frame_bytes_lem header whole rest four size enough small small' =
    let whole_split = take-append-drop 4 whole in
    let seq_bytes = All-append IsByte (take 4 whole) (drop 4 whole) (rw whole_split small') in
    let seq : to_be_bytes 4 (from_be_bytes (take 4 whole)) ≡ take 4 whole =
      to_be_bytes-from_be_bytes 4 (take 4 whole) (omega (arith, length-take {0} 4 whole))
        seq_bytes.0 in
    let total : 4 + length (drop 4 whole) ≡ from_be_bytes header =
      omega (arith, size, length-drop {0} 4 whole) in
    rw (
      total,
      to_be_bytes-from_be_bytes 4 header four small,
      seq,
      whole_split,
      append_assoc header whole rest,
    )

-- What is read as a frame, of bytes, is what writing that frame gives: on an open stream, `write_frame`
-- sends, for the sequence number and the data that were read, exactly the bytes that reading took.
pub write_frame-read_frame :
    (w : Writer) (r r' : Reader) (f : Frame)
    → w.is_open ≡ true
    → All IsByte r.incoming
    → read_frame r ≡ ok (f, r')
    → (sent : Bytes) × (write_frame w f.seq f.body
        ≡ ok (record w { outgoing = w.outgoing ++ sent }))
      × (encode_frame f.seq f.body ≡ ok sent)
      × (r.incoming ≡ sent ++ r'.incoming)
unfolding read_frame
write_frame-read_frame w r r' f o bytes h =
    let first = bind-eq_ok (map_err first_read (read_exact 4 r)) _ h in
    let ((header, r1), e, next) = first in
    let n = from_be_bytes header in
    let fits = guard-eq_ok (leb n max_frame_size) (too_large n max_frame_size) _ next in
    let enough = guard-eq_ok (leb frame_min_data n) (too_short n) _ fits.1 in
    let second = bind-eq_ok (map_err io (read_exact n r1)) _ enough.1 in
    let ((whole, r2), e', last) = second in
    let read = map_err-eq_ok first_read _ e in
    let read' = map_err-eq_ok io _ e' in
    let split = read_exact_splits 4 r r1 header read in
    let split' = read_exact_splits n r1 r2 whole read' in
    let both : r.incoming ≡ header ++ (whole ++ r2.incoming) = rw (← split') split in
    let small = All-append IsByte header (whole ++ r2.incoming) (rw (← both) bytes) in
    let small' = All-append IsByte whole r2.incoming small.1 in
    let size = (read_exact_takes n r1 r2 whole read').0 in
    let long : 4 ≤ length whole = ground (arith, size, enough.0) in
    let same : (record { seq = from_be_bytes (take 4 whole); body = drop 4 whole }, r2) ≡ (f, r') =
      ok-injective last in
    (
      frame_bytes f.seq f.body,
      write_frame_lem w f.seq f.body o (read_frame_takes r r' f h).0,
      encode_frame_lem f.seq f.body (read_frame_takes r r' f h).0,
      both
          ∙ frame_bytes_lem header whole r2.incoming (read_exact_takes 4 r r1 header read).0 size
              long small.0 small'.0
          ∙ ap (λ p. frame_bytes p.0.seq p.0.body ++ p.1.incoming) same,
    )

pub parse_frame_data_lem :
    (seq : ℕ) (frame_data : Bytes)
    → seq < 2 ^ 32
    → parse_frame_data (to_be_bytes 4 seq ++ frame_data)
      ≡ ok (record { seq = seq; body = frame_data })
unfolding parse_frame_data
parse_frame_data_lem seq frame_data h =
    let enough : leb 4 (length (to_be_bytes 4 seq ++ frame_data)) ≡ true =
      leb-true 4 _ (
        omega
          (arith, length-append {0} (to_be_bytes 4 seq) frame_data, length-to_be_bytes 4 seq)) in
    rw (enough, seq_read seq frame_data h, seq_gone seq frame_data)
