-- ===== src/Media.antt =====
-- src/media.rs: media tokens that are bound to a session. Times are nanoseconds; `now` is what
-- `Instant::now()` gives. A token's 16 bytes are what the random generator filled in.
pub mod Lifetime
use mathlib.Core.Option
use hush_rs.Base.{
  ℕ, ◌-◌, ◌*◌, ◌^◌, ◌/◌, ◌%◌, ◌+◌, Bool, true, false, [], ◌∷◌, ◌++◌, Option, none, some, leb, ltb,
  if◌then◌else◌,
}
use hush_rs.Std.Words.{Bytes}
use hush_rs.Std.Utf8.{ascii}
use hush_rs.Std.Eq.{bytes_instance}
use hush_rs.Std.HashMap
use hush_rs.Std.HashMap.{HashMap}

-- `DEFAULT_MAX_TOKEN_TTL`
abbrev pub default_max_token_ttl : ℕ
default_max_token_ttl = 7200 * 10 ^ 9

-- `Token`
pub record Token : Type 0 where
  pub id : Bytes
  pub track_id : Bytes
  pub hls_url : Bytes
  pub created_at : ℕ
  pub issued_at : ℕ
  pub session_id : ℕ

-- `TokenStore`. The validator is a closure over shared state: what it answers at the time of a call
-- is an argument of `validate`, and the field says whether there is one.
pub record TokenStore : Type 0 where
  pub tokens : HashMap Bytes Token
  pub has_validator : Bool
  pub max_token_ttl : ℕ

-- `TokenStore::new`
unfoldable pub new_token_store : TokenStore
new_token_store = record {
  tokens = [];
  has_validator = false;
  max_token_ttl = default_max_token_ttl;
}

-- `TokenStore::with_validator`
unfoldable pub with_validator : TokenStore
with_validator = record { tokens = []; has_validator = true; max_token_ttl = default_max_token_ttl }

-- `issue_with_hls`
unfoldable pub issue_with_hls : Bytes → ℕ → ℕ → Bytes → Bytes → TokenStore → Token × TokenStore
issue_with_hls id now session_id track_id hls_url st =
    let tok : Token = record {
      id = id;
      track_id = track_id;
      hls_url = hls_url;
      created_at = now;
      issued_at = now;
      session_id = session_id;
    } in
    (tok, record st { tokens = HashMap.insert id tok st.tokens })

-- `issue`
unfoldable pub issue : Bytes → ℕ → ℕ → Bytes → TokenStore → Token × TokenStore
issue id now session_id track_id st = issue_with_hls id now session_id track_id [] st

-- `tok.issued_at.elapsed() > self.max_token_ttl`
abbrev pub is_overdue : ℕ → TokenStore → Token → Bool
is_overdue now st tok = ltb st.max_token_ttl (now - tok.issued_at)

-- The validator's verdict, which holds where there is no validator.
abbrev pub session_holds : (ℕ → Bool) → TokenStore → Token → Bool
session_holds validator st tok = if st.has_validator then validator tok.session_id else true

abbrev pub forget : Bytes → TokenStore → TokenStore
forget id st = record st { tokens = HashMap.remove id st.tokens }

-- `validate`, for a token that is in the store.
unfoldable pub validate_found : (ℕ → Bool) → ℕ → Bytes → Token → TokenStore → Bool × TokenStore
validate_found validator now id tok st =
    if is_overdue now st tok
    then (false, forget id st)
    else if session_holds validator st tok
    then (
      true,
      record st { tokens = HashMap.insert id (record tok { created_at = now }) st.tokens },
    )
    else (false, forget id st)

-- `validate`
unfoldable pub validate_entry :
    (ℕ → Bool) → ℕ → Bytes → TokenStore → Option Token → Bool × TokenStore
validate_entry validator now id st none = (false, st)
validate_entry validator now id st (some tok) = validate_found validator now id tok st

unfoldable pub validate : (ℕ → Bool) → ℕ → Bytes → TokenStore → Bool × TokenStore
validate validator now id st = validate_entry validator now id st (HashMap.get id st.tokens)

-- `exists`
unfoldable pub exists : Bytes → TokenStore → Bool
exists id st = HashMap.contains_key id st.tokens

-- `lookup_hls`
unfoldable pub lookup_hls : Bytes → TokenStore → Option Bytes
lookup_hls id st = Option.map (λ tok. tok.hls_url) (HashMap.get id st.tokens)

-- `gc`
unfoldable pub gc : ℕ → TokenStore → TokenStore
gc now st = record st {
  tokens = HashMap.retain (λ _ tok. leb (now - tok.issued_at) st.max_token_ttl) st.tokens;
}

-- `MediaURLBuilder::build_url`; `hex` is `hex::encode`.
unfoldable pub build_url : (Bytes → Bytes) → Bytes → Bytes → Bytes → Bytes
build_url hex base_url token_id track_id =
    base_url ++ (ascii "/media/" ++ (hex token_id ++ (ascii "/" ++ track_id)))
