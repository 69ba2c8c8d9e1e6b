-- ===== src/Server/Listen/LoadTls.antt =====
-- `load_tls` of src/server.rs.
use hush_rs.Base.{List, [], ◌∷◌, Result, ok, err}
use hush_rs.Std.Words.{Bytes}
use hush_rs.Std.Utf8.{ascii}
use hush_rs.Std.Act.{Act, ◌>>=◌, does, pure, run, unwrap, required}
use hush_rs.Transport.Libraries.{Net}
use hush_rs.Server.Listen.{ListenError, config, because}

abbrev add : {A : Type 0} → A → Result Bytes (List A) → Result Bytes (List A)
add a (ok rest) = ok (a ∷ rest)
add a (err e) = err e

-- `collect::<Result<Vec<_>, _>>()`
unfoldable pub collect : {A : Type 0} → List (Result Bytes A) → Result Bytes (List A)
collect [] = ok []
collect (ok a ∷ xs) = add a (collect xs)
collect (err e ∷ xs) = err e

module _ (net : Net) where
  -- `load_tls`
  unfoldable pub load_tls : Bytes → Bytes → Act net.World ListenError net.ServerTls
  load_tls cert_path key_path = do
    cert_pem ← run (because (ascii "read cert: ")) (net.read_file cert_path)
    key_pem ← run (because (ascii "read key: ")) (net.read_file key_path)
    certs ← pure (because (ascii "parse cert: ")) (collect (net.pem_certs cert_pem))
    found ← pure (because (ascii "parse key: ")) (net.pem_private_key key_pem)
    key ← required found (config (ascii "no private key"))
    _ ← does net.install_provider
    builder ← unwrap net.server_tls13
    pure (because (ascii "tls: ")) (net.with_single_cert builder certs key)
