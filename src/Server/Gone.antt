-- ===== src/Server/Gone.antt =====
-- What src/server.rs does with the requests of a session that is no longer in the store, as after `gc`.
use hush_rs.Base.{
  ℕ, ◌≡◌, refl, false, [], length, none, some, Result, ok, err, ◌+◌, guard, leb, map_err, IsErr,
  bind-IsErr, bind_failed, map_err-IsErr,
}
use hush_rs.Std.Words.{Bytes}
use hush_rs.Std.Io.{Reader, Writer}
use hush_rs.Session.Crypto.{Crypto, IsSound}
use hush_rs.Session.Cipher.{encrypt, decrypt, nonce_size, tag_size}
use hush_rs.Session.Store
use hush_rs.Session.Store.{Session, SessionStore}
use hush_rs.Frame.Wire.{read_frame_async, parse_frame_data}
use hush_rs.Frame.Body
use hush_rs.Frame.Body.{
  RequestError, frame, session, map_bytes, protect, unprotect, decode_request, encode_response_body,
  read_request_async, Response,
}
use hush_rs.Server.{Handlers, served, is_dead, write_body, reply, answer, handle_request_stream}
use hush_rs.Server.Tcp.{tcp_turn}

module _ (c : Crypto) (s : IsSound c) where
  no_key : c.accepts_key [] ≡ false
  no_key = rw (s.key_length []) refl

  encrypt-no_key : (nonce text : Bytes) → IsErr (encrypt c nonce [] text)
  unfolding encrypt
  encrypt-no_key nonce text = rw no_key tt

  decrypt-no_key : (sealed : Bytes) → IsErr (decrypt c [] sealed)
  unfolding decrypt
  decrypt-no_key sealed =
      bind-IsErr (guard (leb (nonce_size + tag_size) (length sealed)) _) _ (λ a. rw no_key tt)

  encode_response_body-no_key :
      (nonce : Bytes) (resp : Response) → IsErr (encode_response_body c nonce (some []) resp)
  unfolding encode_response_body protect
  encode_response_body-no_key nonce resp =
      bind-IsErr (map_bytes resp.payload) _
        (λ tlv_data. map_err-IsErr session _ (encrypt-no_key nonce _))

  read_request_async-no_key : (r : Reader) → IsErr (read_request_async c r (some []))
  unfolding read_request_async decode_request unprotect
  read_request_async-no_key r = bind-IsErr (map_err frame (read_frame_async r)) _ (λ found.
      bind_failed (decode_request c (some []) _) _ (
        bind-IsErr (map_err frame (parse_frame_data _)) _ (λ f.
          bind_failed (unprotect c (some []) f.body) _
            (map_err-IsErr session _ (decrypt-no_key f.body)))))

  write_body-IsErr :
      (w : Writer) (seq : ℕ) (body : Result RequestError Bytes)
      → IsErr body
      → write_body c w seq body ≡ w
  write_body-IsErr w seq (ok bs) h = absurd h
  write_body-IsErr w seq (err e) h = refl

  answer-IsErr :
      {W : Type 0} (nonce : Bytes) (sid : ℕ) (aid : Bytes) (handlers : Handlers W) (r : Reader)
      (w : Writer) (t : W) (found : Result RequestError ((Body.Request × ℕ) × Reader))
      → IsErr found
      → answer c nonce [] sid aid handlers r w t found ≡ served w t
  unfolding answer reply
  answer-IsErr nonce sid aid handlers r w t (ok x) h = absurd h
  answer-IsErr nonce sid aid handlers r w t (err e) h =
      rw (write_body-IsErr w 0 _ (encode_response_body-no_key nonce _)) refl

-- Where the session of a connection is not in the store, as after a collection: over QUIC no request is
-- served, nothing is sent and nothing changes, whatever arrives; but over TCP the turn of the loop is
-- the same as with any session in the store that is neither expired nor idle for too long.
pub requests_of_gone_session :
    (c : Crypto) {W : Type 0} (nonce key : Bytes) (now sid : ℕ) (aid : Bytes)
    (handlers : Handlers W) (sessions live : SessionStore) (sess : Session) (r : Reader)
    (w : Writer) (t : W)
    → IsSound c
    → Store.get sid sessions ≡ none
    → Store.get sid live ≡ some sess
    → is_dead now live (some sess) ≡ false
    → (handle_request_stream c nonce now sid aid handlers sessions r w t ≡ served w t)
      × (tcp_turn c nonce now sessions key sid aid handlers r w t
          ≡ tcp_turn c nonce now live key sid aid handlers r w t)
unfolding handle_request_stream tcp_turn is_dead
requests_of_gone_session c nonce key now sid aid handlers sessions live sess r w t s gone found
      alive =
    (
      rw gone (answer-IsErr c s nonce sid aid handlers r w t _ (read_request_async-no_key c s r)),
      rw (gone, found, alive) refl,
    )
