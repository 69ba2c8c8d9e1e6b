-- ===== src/Std/Io.antt =====
-- Byte streams: the receiving and the sending half of a connection.
use hush_rs.Base.{
  [], ℕ, ◌+◌, ◌≤◌, ◌≡◌, Bool, true, ◌++◌, leb, length, length-append, take, drop,
  take-length_append, drop-length_append, length-drop, length-take, if◌then◌else◌, arith, Result,
  ok, err, take-append-drop,
}
use hush_rs.Std.Words.{Bytes}

-- `ErrorKind::UnexpectedEof`, or any other kind.
pub data IoError : Type 0 where
  unexpected_eof other : IoError

-- The bytes that will still arrive, and what a read meets behind them.
pub record Reader : Type 0 where
  pub incoming : Bytes
  pub ending : IoError

-- The bytes that were sent, and whether the peer still takes more.
pub record Writer : Type 0 where
  pub outgoing : Bytes
  pub is_open : Bool

-- A stream that nothing was sent on.
abbrev pub fresh : Writer
fresh = record { outgoing = []; is_open = true }

-- `read_exact` into a buffer of `n` bytes.
unfoldable pub read_exact : ℕ → Reader → Result IoError (Bytes × Reader)
read_exact n r =
    if leb n (length r.incoming)
    then ok (take n r.incoming, record r { incoming = drop n r.incoming })
    else err r.ending

-- `write_all`
unfoldable pub write_all : Bytes → Writer → Result IoError Writer
write_all bs w = if w.is_open then ok (record w { outgoing = w.outgoing ++ bs }) else err other

pub read_exact-append :
    (n : ℕ) (bs rest : Bytes) (e : IoError)
    → length bs ≡ n
    → read_exact n (record { incoming = bs ++ rest; ending = e })
      ≡ ok (bs, record { incoming = rest; ending = e })
unfolding read_exact
read_exact-append n bs rest e h =
    let fits : leb (length bs) (length (bs ++ rest)) ≡ true =
      ground (arith, length-append {0} bs rest) in
    rw (← h, fits, take-length_append bs rest, drop-length_append bs rest)

pub read_exact_short :
    (n : ℕ) (r : Reader) → length r.incoming + 1 ≤ n → read_exact n r ≡ err r.ending
unfolding read_exact
read_exact_short n r h = ground arith

pub read_exact_takes :
    (n : ℕ) (r r' : Reader) (bs : Bytes)
    → read_exact n r ≡ ok (bs, r')
    → (length bs ≡ n) × (length r.incoming ≡ n + length r'.incoming) × (r'.ending ≡ r.ending)
unfolding read_exact
read_exact_takes n r r' bs h =
    ground (arith, length-take {0} n r.incoming, length-drop {0} n r.incoming)

-- What was read and what is left are what there was.
pub read_exact_splits :
    (n : ℕ) (r r' : Reader) (bs : Bytes)
    → read_exact n r ≡ ok (bs, r')
    → r.incoming ≡ bs ++ r'.incoming
unfolding read_exact
read_exact_splits n r r' bs h = grind (arith, take-append-drop {0} n r.incoming)
