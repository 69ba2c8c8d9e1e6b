-- ===== src/Tests/ServiceRuns.antt =====
-- The theorems on src/media.rs and src/middleware.rs at concrete values.
use hush_rs.Base.{ℕ, ◌≡◌, refl, [], ◌∷◌, arith, Bool, true, ◌&&◌, ◌==◌}
use hush_rs.Std.Utf8.{ascii}
use hush_rs.Std.Eq.{bytes_instance}
use hush_rs.Media.{Token, TokenStore, issue_with_hls, validate, gc}
use hush_rs.Media.Lifetime.{validate-issue_with_hls, validate-gc, validate-validate}

abbrev token : Token
token = record {
  id = 1 ∷ [];
  track_id = ascii "t";
  hls_url = [];
  created_at = 0;
  issued_at = 0;
  session_id = 1;
}

abbrev tokens : TokenStore
tokens = record { tokens = (1 ∷ [], token) ∷ []; has_validator = true; max_token_ttl = 100 }

abbrev only_one : ℕ → Bool
only_one id = id == 1

validate-issue_with_hls_example :
    (validate only_one 150
      (2 ∷ [])
      (issue_with_hls (2 ∷ []) 60 1 (ascii "t") (ascii "u") tokens).1).0
    ≡ true
validate-issue_with_hls_example =
    validate-issue_with_hls only_one (2 ∷ []) (ascii "t") (ascii "u") 60 150 1 tokens (omega arith)
      refl

validate-gc_example :
    (validate only_one 90 (1 ∷ []) (gc 80 tokens)).0 ≡ (validate only_one 90 (1 ∷ []) tokens).0
validate-gc_example = validate-gc only_one 80 90 (1 ∷ []) tokens (tt, tt) (omega arith)

validate-validate_example :
    (validate only_one 120 (1 ∷ []) (validate only_one 50 (1 ∷ []) tokens).1).0
    ≡ ((validate only_one 50 (1 ∷ []) tokens).0 && (validate only_one 120 (1 ∷ []) tokens).0)
validate-validate_example = validate-validate only_one only_one 50 120 (1 ∷ []) tokens
