-- ===== src/Logger.antt =====
-- src/logger.rs: the lines that are written to standard error. The time is seconds since the epoch.
pub mod Clock
use hush_rs.Base.{ℕ, ◌+◌, ◌/◌, ◌%◌, Bool, List, [], ◌∷◌, ◌++◌}
use hush_rs.Std.Words.{Bytes}
use hush_rs.Std.Utf8.{ascii}

-- `\x1b[` and a colour
abbrev pub escape : Bytes → Bytes
escape code = 27 ∷ ascii "[" ++ (code ++ ascii "m")

abbrev pub reset : Bytes
reset = escape (ascii "0")

abbrev pub dim : Bytes
dim = escape (ascii "90")

abbrev pub blue : Bytes
blue = escape (ascii "34")

abbrev pub yellow : Bytes
yellow = escape (ascii "33")

abbrev pub red : Bytes
red = escape (ascii "31")

-- `{:02}`, of a number below 100
unfoldable pub two_digits : ℕ → Bytes
two_digits n = (48 + n / 10) ∷ (48 + n % 10) ∷ []

-- `timestamp`
unfoldable pub timestamp : ℕ → Bytes
timestamp secs =
    let h = secs / 3600 % 24 in
    let m = secs / 60 % 60 in
    let s = secs % 60 in two_digits h ++ (58 ∷ two_digits m ++ (58 ∷ two_digits s))

-- `Logger`
pub record Logger : Type 0 where
  pub tag : Bytes

abbrev pub tag_of : Bytes → Bytes
tag_of [] = []
tag_of (b ∷ tag) = ascii " " ++ (dim ++ (ascii "[" ++ ((b ∷ tag) ++ (ascii "]" ++ reset))))

-- `write`: the line that is written
unfoldable pub log_line : Logger → ℕ → Bytes → Bytes → Bytes → Bytes
log_line logger secs level color msg =
    dim
    ++ (timestamp secs
        ++ (reset
            ++ (tag_of logger.tag
                ++ (ascii " "
                    ++ (color
                        ++ (ascii "["
                            ++ (level
                                ++ (ascii "]"
                                    ++ (reset ++ (ascii " " ++ (msg ++ (10 ∷ []))))))))))))

-- `info`, `warn`, `error`
unfoldable pub info : Logger → ℕ → Bytes → Bytes
info logger secs msg = log_line logger secs (ascii "INF") blue msg

unfoldable pub warn : Logger → ℕ → Bytes → Bytes
warn logger secs msg = log_line logger secs (ascii "WRN") yellow msg

unfoldable pub error : Logger → ℕ → Bytes → Bytes
error logger secs msg = log_line logger secs (ascii "ERR") red msg
