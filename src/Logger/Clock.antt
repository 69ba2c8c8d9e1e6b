-- ===== src/Logger/Clock.antt =====
-- What a timestamp tells.
use hush_rs.Base.{ℕ, ◌/◌, ◌%◌, ◌≡◌, ◌↔◌, ◌∷◌, ◌++◌, arith}
use hush_rs.Std.Words.{Bytes}
use hush_rs.Logger.{two_digits, timestamp}

-- Hours, minutes and seconds are those of the day, and make it up.
hours_lem : (t : ℕ) → t / 3600 % 24 ≡ t % 86_400 / 3600
hours_lem t = omega arith

minutes_lem : (t : ℕ) → t / 60 % 60 ≡ t % 86_400 / 60 % 60
minutes_lem t = omega arith

seconds_lem : (t : ℕ) → t % 60 ≡ t % 86_400 % 60
seconds_lem t = omega arith

abbrev digits_of_day : ℕ → ℕ → ℕ → Bytes
digits_of_day h m s = two_digits h ++ (58 ∷ two_digits m ++ (58 ∷ two_digits s))

same_digits :
    (h m s h' m' s' : ℕ)
    → digits_of_day h m s ≡ digits_of_day h' m' s'
    → (h ≡ h') × (m ≡ m') × (s ≡ s')
unfolding two_digits
same_digits h m s h' m' s' e = grind arith

-- Two times have the same timestamp exactly when they are the same second of the day.
pub timestamp_iff : (t u : ℕ) → (timestamp t ≡ timestamp u) ↔ (t % 86_400 ≡ u % 86_400)
unfolding timestamp
timestamp_iff t u = (
  λ e.
      let (h, m, s) =
        same_digits (t / 3600 % 24) (t / 60 % 60) (t % 60) (u / 3600 % 24) (u / 60 % 60) (u % 60)
          e in
      omega (arith, h, m, s),
  λ e. rw (hours_lem t, hours_lem u, minutes_lem t, minutes_lem u, seconds_lem t, seconds_lem u, e),
)
