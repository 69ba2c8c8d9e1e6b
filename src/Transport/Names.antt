-- ===== src/Transport/Names.antt =====
-- The server's name that `tcp_dial` of src/transport.rs takes from an address.
use hush_rs.Base.{ℕ, ◌≡◌, refl, ap, ◌==◌, false, [], ◌∷◌, ◌++◌, All}
use hush_rs.Std.Words.{Bytes}
use hush_rs.Transport.{server_name_of}

-- For the address of a host whose text has no colon, `tcp_dial` takes the host for the server's name,
-- whatever port follows, and where no port follows.
pub server_name_of-host :
    (host port : Bytes)
    → All (λ (b : ℕ). (b == 58) ≡ false) host
    → (server_name_of (host ++ (58 ∷ port)) ≡ host) × (server_name_of host ≡ host)
unfolding server_name_of
server_name_of-host [] port no_colon = (refl, refl)
server_name_of-host (b ∷ host) port (other, no_colon) =
    let (with_port, alone) = server_name_of-host host port no_colon in
    rw other (ap (◌∷◌ b) with_port, ap (◌∷◌ b) alone)
