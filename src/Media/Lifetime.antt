-- ===== src/Media/Lifetime.antt =====
-- How long a media token is valid.
use hush_rs.Base.{
  ℕ, ◌+◌, ◌-◌, ◌≤◌, ◌≡◌, Bool, true, false, ◌&&◌, Option, none, some, leb, ltb, if◌then◌else◌,
  arith, Option-cases, inl, inr,
}
use hush_rs.Std.Words.{Bytes}
use hush_rs.Std.Eq.{bytes_instance, bytes_eq}
use hush_rs.Std.HashMap
use hush_rs.Std.HashMap.{
  IsUnique, keep_if, beq_self, get-insert, get-remove, get-retain, contains_key-insert,
  contains_key-remove, contains_key-get,
}
use hush_rs.Media.{
  Token, TokenStore, issue_with_hls, validate, validate_entry, validate_found, exists, gc,
  is_overdue, session_holds,
}

-- After `validate`, the token is in the store exactly when it was found valid.
pub exists-validate :
    (validator : ℕ → Bool) (now : ℕ) (id : Bytes) (st : TokenStore)
    → exists id (validate validator now id st).1 ≡ (validate validator now id st).0
unfolding exists validate validate_entry validate_found
exists-validate validator now id st = elim (Option-cases (HashMap.get id st.tokens)) [
  | inl gone ↦ rw gone (contains_key-get id st.tokens gone)
  | inr (tok, found) ↦ rw found (
      ground (
        arith,
        contains_key-remove id st.tokens,
        contains_key-insert id (record tok { created_at = now }) st.tokens,
      ))
]

-- A token that was issued is valid until `max_token_ttl` has passed, as long as its session holds,
-- whatever was in the store before.
pub validate-issue_with_hls :
    (validator : ℕ → Bool) (id track_id hls_url : Bytes) (now later session_id : ℕ)
    (st : TokenStore)
    → later ≤ now + st.max_token_ttl
    → (if st.has_validator then validator session_id else true) ≡ true
    → (validate validator later id (issue_with_hls id now session_id track_id hls_url st).1).0
      ≡ true
unfolding validate validate_entry validate_found issue_with_hls
validate-issue_with_hls validator id track_id hls_url now later session_id st h holds =
    let tok : Token = record {
      id = id;
      track_id = track_id;
      hls_url = hls_url;
      created_at = now;
      issued_at = now;
      session_id = session_id;
    } in
    let young : ltb st.max_token_ttl (later - now) ≡ false = ground arith in
    rw (get-insert id id tok st.tokens, beq_self id, young, holds)

-- What `validate` says of a token depends only on the entry in the store.
verdict : (ℕ → Bool) → ℕ → TokenStore → Option Token → Bool
verdict validator now st none = false
verdict validator now st (some tok) =
    if is_overdue now st tok then false else session_holds validator st tok

validate_lem :
    (validator : ℕ → Bool) (now : ℕ) (id : Bytes) (st : TokenStore)
    → (validate validator now id st).0 ≡ verdict validator now st (HashMap.get id st.tokens)
unfolding validate validate_entry validate_found verdict
validate_lem validator now id st = elim (Option-cases (HashMap.get id st.tokens)) [
  | inl gone ↦ rw gone
  | inr (tok, found) ↦ rw found (ground arith)
]

-- `gc` is not noticed by a later `validate`: it takes away only tokens that are refused anyway.
pub validate-gc :
    (validator : ℕ → Bool) (now later : ℕ) (id : Bytes) (st : TokenStore)
    → IsUnique st.tokens
    → now ≤ later
    → (validate validator later id (gc now st)).0 ≡ (validate validator later id st).0
unfolding gc verdict
validate-gc validator now later id st u h =
    rw
      (
        validate_lem validator later id (gc now st),
        validate_lem validator later id st,
        get-retain (λ tok. leb (now - tok.issued_at) st.max_token_ttl) id st.tokens u,
      )
      (elim (Option-cases (HashMap.get id st.tokens)) [
        | inl gone ↦ rw gone
        | inr (tok, found) ↦ rw found (ground arith)
      ])

-- A second `validate` of a token agrees with what it would have been without the first, where the
-- first succeeded, and fails where the first failed: a validation does not lengthen a token's life.
pub validate-validate :
    (first second : ℕ → Bool) (now later : ℕ) (id : Bytes) (st : TokenStore)
    → (validate second later id (validate first now id st).1).0
      ≡ ((validate first now id st).0 && (validate second later id st).0)
unfolding validate validate_entry validate_found verdict
validate-validate first second now later id st =
    rw (validate_lem second later id (validate first now id st).1, validate_lem second later id st)
      (elim (Option-cases (HashMap.get id st.tokens)) [
        | inl gone ↦ rw (gone, gone)
        | inr (tok, found) ↦ rw found (
            ground (
              arith,
              get-remove id id st.tokens,
              get-insert id id (record tok { created_at = now }) st.tokens,
              beq_self id,
            ))
      ])

-- `validate` of a token leaves all other tokens as they are.
pub get-validate_others :
    (validator : ℕ → Bool) (now : ℕ) (id j : Bytes) (st : TokenStore)
    → bytes_eq id j ≡ false
    → HashMap.get j (validate validator now id st).1.tokens ≡ HashMap.get j st.tokens
unfolding validate validate_entry validate_found
get-validate_others validator now id j st ne = elim (Option-cases (HashMap.get id st.tokens)) [
  | inl gone ↦ rw gone
  | inr (tok, found) ↦ rw found (
      ground (
        arith,
        get-remove id j st.tokens,
        get-insert id j (record tok { created_at = now }) st.tokens,
      ))
]
