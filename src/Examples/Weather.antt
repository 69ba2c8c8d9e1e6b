-- ===== src/Examples/Weather.antt =====
-- examples/weather.rs: the handler that `run_server` registers, and what `run_client` makes of the
-- response. The call of the service, `ureq::get(..).call()`, is an argument.
pub mod Asked
use hush_rs.Session.Store.{MapKeyStore, ApiKeyStore}
use hush_rs.Examples.Commands.{Command, command_of}
use hush_rs.Base.{ℕ, List, Bool, [], ◌∷◌, ◌++◌, Option, none, some, Result, ok, err}
use hush_rs.Std.Words.{Bytes}
use hush_rs.Std.Utf8.{ascii}
use hush_rs.Std.Eq.{bytes_instance}
use hush_rs.Tlv.Value.{Value, Map}
use hush_rs.Tlv.Map
use hush_rs.Std.HashMap
use hush_rs.Frame.Body.{StatusCode, success, bad_request, internal_error, Response}
use hush_rs.Middleware.{Request, Outcome, responded, Handler}
use hush_rs.Server.{Handlers, handle}

-- The call of the service: the body of its answer, `none` where that is no text, or the text of the
-- error.
abbrev pub Service : Type 0 → Type 0
Service W = Bytes → W → Result Bytes (Option Bytes) × W

unfoldable pub url_of : Bytes → Bytes
url_of city = ascii "https://wttr.in/" ++ (city ++ ascii "?format=%C+%t+%w+%h")

abbrev pub failure : StatusCode → Bytes → Response
failure status text = record {
  status = status;
  payload = some (Map.set (ascii "error") (Value.string text) Map.new);
  seq = 0;
}

-- `r.into_string().unwrap_or_default()`
abbrev pub or_default : Option Bytes → Bytes
or_default none = []
or_default (some body) = body

-- The response for what the service gave.
unfoldable pub weather_response : Bytes → Result Bytes (Option Bytes) → Response
weather_response city (ok body) = record {
  status = success;
  payload = some (
      Map.set (ascii "weather") (Value.string (or_default body))
        (Map.set (ascii "city") (Value.string city) Map.new));
  seq = 0;
}
weather_response city (err e) = failure internal_error (ascii "fetch failed: " ++ e)

module _ {W : Type 0} (service : Service W) where
  abbrev pub weather_for : Option Bytes → W → Outcome × W
  weather_for none s = (responded (failure bad_request (ascii "city required")), s)
  weather_for (some city) s =
      let (fetched, s') = service (url_of city) s in (responded (weather_response city fetched), s')

  unfoldable pub weather : Handler W
  weather req s = weather_for (Map.get_string (ascii "city") req.payload) s

  unfoldable pub weather_table : Handlers W
  weather_table = handle [] 0x0001 weather []

-- The payload of the client's request.
unfoldable pub city_map : Bytes → Map
city_map city = Map.set (ascii "city") (Value.string city) Map.new

-- What the client prints: an error, or the weather.
pub data Shown : Type 0 where
  complained showed : Bytes → Shown

abbrev pub text_or : Bytes → Bytes → Option Map → Bytes
text_or default key none = default
text_or default key (some m) = elim (Map.get_string key m) [ some text ↦ text | none ↦ default ]

abbrev pub shown_by : StatusCode → Option Map → Shown
shown_by success payload = showed (text_or (ascii "???") (ascii "weather") payload)
shown_by _ payload = complained (text_or (ascii "unknown") (ascii "error") payload)

unfoldable pub shown : Response → Shown
shown resp = shown_by resp.status resp.payload

-- `main`
unfoldable pub main : List Bytes → Command
main args = command_of 6 args

-- `KeyStore` and its `get`
unfoldable pub key_store : MapKeyStore → ApiKeyStore
key_store keys id = HashMap.get id keys
