-- ===== src/Server/State/MediaSessions.antt =====
-- Which sessions a media token depends on.
use hush_rs.Base.{
  ℕ, ◌+◌, ◌-◌, ◌≤◌, ◌<◌, ◌≡◌, ap, ◌∙◌, ◌==◌, [], Bool, false, none, some, Result, ok, err, ltb,
  arith, if◌then◌else◌,
}
use hush_rs.Std.Words.{Bytes}
use hush_rs.Std.Eq.{bytes_instance}
use hush_rs.Std.HashMap.{beq_self, get-insert}
use hush_rs.Session.Store
use hush_rs.Session.Store.{SessionConfig, SessionStore, fill}
use hush_rs.Media.{
  Token, default_max_token_ttl, with_validator, issue, issue_with_hls, validate, validate_entry,
  validate_found,
}
use hush_rs.Server.Establish.{ServerError}
use hush_rs.Server.State.{
  Heap, write, Server, with_media, with_session_config, session_store, issue_media_token,
  has_session, validate_media,
}

-- Whether the token that was issued is valid at a later time.
unfoldable pub holds_later : {W : Type 0} → Heap → ℕ → Result ServerError (Token × Server W) → Bool
holds_later heap later (err e) = false
holds_later heap later (ok (tok, srv)) = elim srv.media_store [
  | none ↦ false
  | some media ↦ (validate_media heap later tok.id media).0
]

-- A token of a fresh token store holds within its time exactly when its session does.
validate-fresh :
    (validator : ℕ → Bool) (id track_id hls_url : Bytes) (now later session_id : ℕ)
    → later ≤ now + default_max_token_ttl
    → (validate validator later id
        (issue_with_hls id now session_id track_id hls_url with_validator).1).0
      ≡ validator session_id
unfolding validate validate_entry validate_found issue_with_hls with_validator
validate-fresh validator id track hls now later sid h =
    let tok : Token = record {
      id = id;
      track_id = track;
      hls_url = hls;
      created_at = now;
      issued_at = now;
      session_id = sid;
    } in
    let young : ltb default_max_token_ttl (later - now) ≡ false = ground arith in
    rw (get-insert id id tok [], beq_self id, young) (ground arith)

-- A token that a server issues after `with_media` is valid, for two hours, exactly while the session
-- that it was issued for is in the server's session store.
pub holds_later-with_media :
    {W : Type 0} (srv : Server W) (heap : Heap) (id track_id : Bytes) (now later session_id : ℕ)
    → later ≤ now + default_max_token_ttl
    → holds_later heap later (issue_media_token id now session_id track_id (with_media srv))
      ≡ has_session (session_store srv heap) session_id
unfolding holds_later issue_media_token with_media session_store validate_media issue issue_with_hls
holds_later-with_media srv heap id track now later sid h =
    validate-fresh (has_session (heap.at srv.sessions)) id track [] now later sid h

-- A `with_session_config` after `with_media` cuts that tie: whatever the server's session store comes
-- to hold, a token is valid exactly when its session is in the store that the server had before.
pub holds_later-with_session_config :
    {W : Type 0} (srv : Server W) (heap : Heap) (cfg : SessionConfig) (st : SessionStore)
    (id track_id : Bytes) (now later session_id : ℕ)
    → srv.sessions < heap.size
    → later ≤ now + default_max_token_ttl
    → holds_later
        (write
          (with_session_config cfg (with_media srv) heap).0.sessions
          st
          (with_session_config cfg (with_media srv) heap).1)
        later
        (issue_media_token id now session_id track_id
          (with_session_config cfg (with_media srv) heap).0)
      ≡ has_session (session_store srv heap) session_id
unfolding holds_later issue_media_token with_media with_session_config session_store validate_media
    issue issue_with_hls
holds_later-with_session_config srv heap cfg st id track now later sid old h =
    let other : (heap.size == srv.sessions) ≡ false = ground arith in
    let newer = λ (x y : SessionStore). if heap.size == srv.sessions then x else y in
    let asked = newer st (newer (Store.new (fill cfg)) (heap.at srv.sessions)) in
    let kept : asked ≡ heap.at srv.sessions = rw other in
    validate-fresh (has_session asked) id track [] now later sid h
    ∙ ap (λ x. has_session x sid) kept
