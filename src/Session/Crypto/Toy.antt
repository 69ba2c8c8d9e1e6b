-- ===== src/Session/Crypto/Toy.antt =====
-- A toy instance, which shows that the assumptions on the cryptography can be met together.
use hush_rs.Base.{
  ℕ, ◌+◌, ◌-◌, ◌≡◌, refl, ap, [], ◌∷◌, ◌++◌, ◌==◌, length, length-append, length-take,
  length-replicate, take, take_prefix, replicate, some, arith,
}
use hush_rs.Std.Words.{Bytes}
use hush_rs.Session.Crypto.Assumed.{Crypto, IsSound}
use mathlib.Core.Option.{some-injective}
use native.Mathlib.Nat.{add_comm}

abbrev tag : Bytes
tag = replicate 16 0

abbrev toy_point : Bytes → Bytes
toy_point secret = take 32 (secret ++ replicate 32 0)

abbrev add_points : Bytes → Bytes → Bytes
add_points [] bs = []
add_points (a ∷ as') [] = []
add_points (a ∷ as') (b ∷ bs) = (a + b) ∷ add_points as' bs

add_points_comm : (as' bs : Bytes) → add_points as' bs ≡ add_points bs as'
add_points_comm [] [] = refl
add_points_comm [] (b ∷ bs) = refl
add_points_comm (a ∷ as') [] = refl
add_points_comm (a ∷ as') (b ∷ bs) = λ i. add_comm a b i ∷ add_points_comm as' bs i

-- The tag is sixteen zeros, and nothing is hidden.
abbrev pub toy : Crypto
toy = record {
  accepts_key = λ key. length key == 32;
  seal = λ key nonce text. some (text ++ tag);
  unseal = λ key nonce sealed. some (take (length sealed - 16) sealed);
  hkdf = λ salt ikm info n. some (take n (salt ++ (ikm ++ replicate n 0)));
  public_key = toy_point;
  diffie_hellman = λ secret point. add_points (toy_point secret) point;
}

unseal_toy : (text : Bytes) → take (length (text ++ tag) - 16) (text ++ tag) ≡ text
unseal_toy text =
    take_prefix (length (text ++ tag) - 16) text tag (omega (arith, length-append {0} text tag))

length-okm : (n : ℕ) (salt ikm : Bytes) → length (take n (salt ++ (ikm ++ replicate n 0))) ≡ n
length-okm n salt ikm = omega (
  arith,
  length-take {0} n (salt ++ (ikm ++ replicate n 0)),
  length-append {0} salt (ikm ++ replicate n 0),
  length-append {0} ikm (replicate n 0),
  length-replicate {A = ℕ} n 0,
)

length-toy_point : (secret : Bytes) → length (toy_point secret) ≡ 32
length-toy_point secret = omega (
  arith,
  length-take {0} 32 (secret ++ replicate 32 0),
  length-append {0} secret (replicate 32 0),
)

unsealed :
    (key nonce text sealed : Bytes)
    → toy.seal key nonce text ≡ some sealed
    → toy.unseal key nonce sealed ≡ some text
unsealed key nonce text sealed e =
    let p : text ++ tag ≡ sealed = some-injective (text ++ tag) sealed e in
    rw (← p) (ap some (unseal_toy text))

tagged :
    (key nonce text sealed : Bytes)
    → toy.seal key nonce text ≡ some sealed
    → length sealed ≡ length text + 16
tagged key nonce text sealed e =
    let p : text ++ tag ≡ sealed = some-injective (text ++ tag) sealed e in
    rw (← p) (omega (arith, length-append {0} text tag))

pub toy-IsSound : IsSound toy
toy-IsSound = record {
  key_length = λ key. refl;
  unseal_seal = unsealed;
  sealed_length = tagged;
  seals = λ key nonce text hk hn ht. (text ++ tag, refl);
  expands =
      λ salt ikm info n h. (take n (salt ++ (ikm ++ replicate n 0)), refl, length-okm n salt ikm);
  public_length = length-toy_point;
  agreement = λ a b. add_points_comm (toy_point a) (toy_point b);
}
