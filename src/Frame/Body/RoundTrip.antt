-- ===== src/Frame/Body/RoundTrip.antt =====
-- Requests and responses sent and received.
use hush_rs.Base.{
  leb-true, ℕ, ◌+◌, ◌^◌, ◌≤◌, ◌<◌, ◌≡◌, refl, true, false, [], ◌∷◌, ◌++◌, leb, ltb, lt→ltb, length,
  length-append, take_prefix, drop_prefix, arith, Option, none, some, ok,
}
use hush_rs.Std.Words.{Bytes, to_be_bytes, length-to_be_bytes, from_be_bytes-to_be_bytes}
use hush_rs.Tlv.Value.{Value, Map, max_payload_size, max_decode_depth}
use hush_rs.Tlv.Encode.{encode_map}
use hush_rs.Tlv.Encode.Grammar.{payload, wire, encode-wire, length-tlv}
use hush_rs.Tlv.Decode.{decode_map, decode_map_opt}
use hush_rs.Tlv.Decode.Scalars.{IsPortable}
use hush_rs.Tlv.Decode.Steps.{nesting}
use hush_rs.Tlv.Decode.RoundTrip.{decode-wire}
use hush_rs.Session.Crypto.{Crypto, IsSound}
use hush_rs.Session.Cipher.{decrypt-encrypt, nonce_size, key_size}
use hush_rs.Frame.Wire.RoundTrip.{parse_frame_data_lem}
use hush_rs.Frame.Body.{
  StatusCode, status_byte, status_from_u8, success, Request, Response, map_bytes, map_behind,
  protect, unprotect, encode_request_body, decode_request, encode_response_body, decode_response,
}

-- Every status code is read back from its byte.
pub status_from_u8-status_byte : (s : StatusCode) → status_from_u8 (status_byte s) ≡ some s
unfolding status_byte status_from_u8
status_from_u8-status_byte success = refl
status_from_u8-status_byte _ = refl

-- A byte that `from_u8` accepts is the byte of the status that it gives.
pub status_from_u8_only : (b : ℕ) (s : StatusCode) → status_from_u8 b ≡ some s → b ≡ status_byte s
unfolding status_byte status_from_u8
status_from_u8_only b s h = ground arith

-- The maps that a frame can carry.
pub record IsCarried (m : Map) : Type 0 where
  pub portable : IsPortable (Value.map m)
  pub small : length (payload (Value.map m)) ≤ max_payload_size
  pub shallow : nesting (Value.map m) ≤ max_decode_depth

abbrev pub AreCarried : Option Map → Type 0
AreCarried none = Unit
AreCarried (some m) = IsCarried m

encode_map_lem : (m : Map) → IsCarried m → encode_map m ≡ some (wire (Value.map m))
unfolding encode_map
encode_map_lem m h = encode-wire (Value.map m) (omega arith)

decode_map-wire : (m : Map) → IsCarried m → decode_map (wire (Value.map m)) ≡ ok m
unfolding decode_map
decode_map-wire m h = rw (decode-wire (Value.map m) h.portable h.small h.shallow)

-- A map is read back from its binary form.
decode_map_opt-wire : (m : Map) → IsCarried m → decode_map_opt (wire (Value.map m)) ≡ some m
unfolding decode_map_opt
decode_map_opt-wire m h = rw (decode_map-wire m h, decode_map_opt)

-- The bytes of an optional map.
abbrev pub carried_bytes : Option Map → Bytes
carried_bytes none = []
carried_bytes (some m) = wire (Value.map m)

map_bytes_lem : (o : Option Map) → AreCarried o → map_bytes o ≡ ok (carried_bytes o)
map_bytes_lem none h = refl
map_bytes_lem (some m) h = rw (encode_map_lem m h)

map_behind_lem :
    (n : ℕ) (front : Bytes) (o : Option Map)
    → length front ≡ n
    → AreCarried o
    → map_behind n (front ++ carried_bytes o) ≡ o
map_behind_lem n front none hn h =
    let nothing : ltb n (length (front ++ [])) ≡ false =
      ground (arith, length-append {0} front []) in
    rw nothing
map_behind_lem n front (some m) hn h =
    let more : ltb n (length (front ++ wire (Value.map m))) ≡ true =
      lt→ltb n _ (omega (arith, length-append {0} front (wire (Value.map m)))) in
    rw (more, drop_prefix n front (wire (Value.map m)) hn) (decode_map_opt-wire m h)

length-carried_bytes : (o : Option Map) → AreCarried o → length (carried_bytes o) ≤ 524_299
length-carried_bytes none h = omega arith
length-carried_bytes (some m) h =
    let s = h.small in omega (arith, length-tlv 0x0d (payload (Value.map m)))

-- Without a key, or with one of 32 bytes.
abbrev pub IsKey : Option Bytes → Type 0
IsKey none = Unit
IsKey (some key) = length key ≡ key_size

module _ (c : Crypto) (s : IsSound c) where
  unprotect-protect :
      (nonce : Bytes) (key : Option Bytes) (plaintext : Bytes)
      → length nonce ≡ nonce_size
      → IsKey key
      → length plaintext ≤ 600_000
      → (body : Bytes) × (protect c nonce key plaintext ≡ ok body)
        × (length body ≤ length plaintext + 28)
        × (unprotect c key body ≡ ok plaintext)
  unfolding protect unprotect
  unprotect-protect nonce none plaintext hn hk size = (plaintext, refl, omega arith, refl)
  unprotect-protect nonce (some key) plaintext hn hk size =
      let (sealed, e, len, d) = decrypt-encrypt c s nonce key plaintext hn hk (omega arith) in
      (sealed, rw e, omega arith, rw d)

  -- A request is read back from its body behind a sequence number: an opcode of 16 bits, and no map
  -- or one that a frame can carry; in plain or under a key of 32 bytes.
  pub decode_request-encode_request_body :
      (nonce : Bytes) (key : Option Bytes) (req : Request) (seq : ℕ)
      → length nonce ≡ nonce_size
      → IsKey key
      → req.opcode < 2 ^ 16
      → AreCarried req.payload
      → seq < 2 ^ 32
      → (body : Bytes) × (encode_request_body c nonce key req ≡ ok body)
        × (length body ≤ 524_329)
        × (decode_request c key (to_be_bytes 4 seq ++ body) ≡ ok (req, seq))
  unfolding encode_request_body decode_request
  decode_request-encode_request_body nonce key req seq hn hk ho hp hs =
      let front = to_be_bytes 2 req.opcode in
      let text = front ++ carried_bytes req.payload in
      let two = length-to_be_bytes 2 req.opcode in
      let size = length-append {0} front (carried_bytes req.payload) in
      let carried = length-carried_bytes req.payload hp in
      let (body, e, len, d) = unprotect-protect nonce key text hn hk (omega arith) in
      let enough : leb 2 (length text) ≡ true = leb-true 2 _ (omega arith) in
      (
        body,
        rw (map_bytes_lem req.payload hp, e),
        omega arith,
        rw (
          parse_frame_data_lem seq body hs,
          d,
          enough,
          take_prefix 2 front (carried_bytes req.payload) two,
          from_be_bytes-to_be_bytes 2 req.opcode (omega arith),
          map_behind_lem 2 front req.payload two hp,
        ),
      )

  -- A response is read back from its body, with the sequence number that stands before it: any
  -- status, and no map or one that a frame can carry; in plain or under a key of 32 bytes.
  pub decode_response-encode_response_body :
      (nonce : Bytes) (key : Option Bytes) (resp : Response) (seq : ℕ)
      → length nonce ≡ nonce_size
      → IsKey key
      → AreCarried resp.payload
      → seq < 2 ^ 32
      → (body : Bytes) × (encode_response_body c nonce key resp ≡ ok body)
        × (length body ≤ 524_328)
        × (decode_response c key (to_be_bytes 4 seq ++ body) ≡ ok (record resp { seq = seq }))
  unfolding encode_response_body decode_response
  decode_response-encode_response_body nonce key resp seq hn hk hp hs =
      let front = status_byte resp.status ∷ [] in
      let text = front ++ carried_bytes resp.payload in
      let carried = length-carried_bytes resp.payload hp in
      let (body, e, len, d) = unprotect-protect nonce key text hn hk (omega arith) in
      (
        body,
        rw (map_bytes_lem resp.payload hp, e),
        omega arith,
        rw (
          parse_frame_data_lem seq body hs,
          d,
          status_from_u8-status_byte resp.status,
          map_behind_lem 1 front resp.payload refl hp,
        ),
      )
