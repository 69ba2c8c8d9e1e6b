-- ===== src/Std/Act.antt =====
-- Code that acts on the outside world and may fail or panic.
use hush_rs.Base.{Option, none, some, Result, ok, err}

-- How a call ends: `Ok`, `Err`, or a panic.
pub data Attempt (E A : Type 0) : Type 0 where
  done : A → Attempt E A
  fails : E → Attempt E A
  panics : Attempt E A

-- An action on a world `W`.
abbrev pub Act : Type 0 → Type 0 → Type 0 → Type 0
Act W E A = W → Attempt E A × W

module _ {W E A B : Type 0} where
  abbrev pub and_then : Attempt E A × W → (A → Act W E B) → Attempt E B × W
  and_then (done a, w) f = f a w
  and_then (fails e, w) f = (fails e, w)
  and_then (panics, w) f = (panics, w)

  infixl 5 ◌>>=◌
  abbrev pub ◌>>=◌ : Act W E A → (A → Act W E B) → Act W E B
  (m >>= f) w = and_then (m w) f

module _ {W E A : Type 0} where
  -- `Ok(a)`
  abbrev pub done_with : A → Act W E A
  done_with a w = (done a, w)

  -- `r.map_err(f)?`, of what acts on nothing
  abbrev pub pure : {F : Type 0} → (F → E) → Result F A → Act W E A
  pure f (ok a) w = (done a, w)
  pure f (err e) w = (fails (f e), w)

  abbrev pub attempt : {F : Type 0} → (F → E) → Result F A × W → Attempt E A × W
  attempt f (ok a, w) = (done a, w)
  attempt f (err e, w) = (fails (f e), w)

  -- `m.map_err(f)?`
  abbrev pub run : {F : Type 0} → (F → E) → (W → Result F A × W) → Act W E A
  run f m w = attempt f (m w)

  -- `.unwrap()`
  abbrev pub unwrap : {F : Type 0} → Result F A → Act W E A
  unwrap (ok a) w = (done a, w)
  unwrap (err e) w = (panics, w)

  -- `.ok_or_else(..)?`
  abbrev pub required : Option A → E → Act W E A
  required (some a) e w = (done a, w)
  required none e w = (fails e, w)

-- What cannot fail, or whose result is dropped.
abbrev pub does : {W E : Type 0} → (W → W) → Act W E (Unit {0})
does f w = (done tt, f w)

-- `?` where the failure is converted
abbrev pub failing_as : {W E F A : Type 0} → (F → E) → Attempt F A × W → Attempt E A × W
failing_as f (done a, w) = (done a, w)
failing_as f (fails e, w) = (fails (f e), w)
failing_as f (panics, w) = (panics, w)
