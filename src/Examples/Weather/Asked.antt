-- ===== src/Examples/Weather/Asked.antt =====
-- A client of examples/weather.rs and its server together.
use hush_rs.Base.{
  ℕ, ◌+◌, ◌%◌, ◌^◌, ◌<◌, ◌≡◌, refl, ◌++◌, length, Option, some, Result, ok, err, false, arith,
}
use hush_rs.Std.Words.{Bytes}
use hush_rs.Std.Utf8.{ascii}
use hush_rs.Std.Io.{fresh}
use hush_rs.Std.Eq.{nat_eq, bytes_eq}
use hush_rs.Std.HashMap
use hush_rs.Tlv.Map
use hush_rs.Session.Crypto.{Crypto, IsSound}
use hush_rs.Session.Cipher.{nonce_size, key_size}
use hush_rs.Session.Store
use hush_rs.Session.Store.{Session, SessionStore}
use hush_rs.Frame.Body.{Response}
use hush_rs.Frame.Body.RoundTrip.{IsCarried, AreCarried}
use hush_rs.Middleware.{wrapped, wrap_all}
use hush_rs.Server.{is_dead, handle}
use hush_rs.Client.{Client, do_quinn}
use hush_rs.Client.Calls.{meant, by_outcome, serving, do_quinn-handle_request_stream}
use hush_rs.Examples.Weather.{
  Service, url_of, or_default, weather_response, weather, weather_table, city_map, Shown,
  complained, showed, shown,
}

-- What there is to show: the text of the service, or that it failed and why.
abbrev pub news : Result Bytes (Option Bytes) → Shown
news (ok body) = showed (or_default body)
news (err e) = complained (ascii "fetch failed: " ++ e)

shown-weather_response :
    (city : Bytes) (fetched : Result Bytes (Option Bytes)) (seq : ℕ)
    → shown (record (weather_response city fetched) { seq = seq }) ≡ news fetched
unfolding shown weather_response Map.set Map.new Map.get_string Map.get bytes_eq
shown-weather_response city (ok body) seq = refl
shown-weather_response city (err e) seq = refl

module _ {W : Type 0} (service : Service W) where
  weather_meant :
      (seq id : ℕ) (aid city : Bytes) (state : W)
      → meant seq
          (record { opcode = 0x0001; payload = city_map city; session_id = id; api_key_id = aid })
          state
          (HashMap.get 0x0001 (weather_table service))
        ≡ some (weather_response city (service (url_of city) state).0)
  unfolding meant by_outcome weather_table weather handle wrapped wrap_all HashMap.get
      HashMap.insert city_map Map.set Map.new Map.get_string Map.get bytes_eq
  weather_meant seq id aid city state = refl

  -- A client over QUIC that asks for the weather of a city, with one key of 32 bytes on both sides, a
  -- session that is neither expired nor idle for too long, nonces of 12 bytes, a counter that is a u32
  -- and payloads that can be carried, gets a response, counts the call, and shows what the service said for the URL of that city, or why it failed.
  pub shown-do_quinn :
      (c : Crypto) (s : IsSound c) (cl : Client) (nonce nonce' api_key_id city : Bytes) (now id : ℕ)
      (sessions : SessionStore) (sess : Session) (state : W)
      → length nonce ≡ nonce_size
      → length nonce' ≡ nonce_size
      → length cl.session_key ≡ key_size
      → cl.seq < 2 ^ 32
      → IsCarried (city_map city)
      → Store.get id sessions ≡ some sess
      → sess.key ≡ cl.session_key
      → is_dead now sessions (some sess) ≡ false
      → AreCarried (weather_response city (service (url_of city) state).0).payload
      → (resp : Response) × (do_quinn c nonce
            (some fresh)
            (serving c nonce' now id api_key_id (weather_table service) sessions state)
            0x0001
            (some (city_map city))
            cl
          ≡ (ok resp, record cl { seq = (cl.seq + 1) % 2 ^ 32 }))
        × (shown resp ≡ news (service (url_of city) state).0)
  shown-do_quinn c s cl nonce nonce' aid city now id sessions sess state hn hn' hk hs fits found
        same alive fits' =
      let fetched = (service (url_of city) state).0 in
      let resp = weather_response city fetched in
      (
        record resp { seq = cl.seq },
        do_quinn-handle_request_stream c s cl nonce nonce' aid now id 0x0001 (some (city_map city))
            (weather_table service) sessions sess state resp hn hn' hk hs (omega arith) fits found
            same alive (weather_meant cl.seq id aid city state) fits',
        shown-weather_response city fetched cl.seq,
      )
