-- ===== src/Examples/Commands.antt =====
-- `main` of the programs under examples: what they make of their command line.
use hush_rs.Base.{ℕ, ◌+◌, [], ◌∷◌, List, length, ltb, take, ◌-◌, if◌then◌else◌}
use hush_rs.Std.Words.{Bytes}
use hush_rs.Std.Utf8.{ascii}
use hush_rs.Std.Eq.{bytes_eq}

-- What is done: the usage is printed, of the program or of its client; `run_server`; `run_client` with
-- its arguments; or the complaint about a command.
pub data Command : Type 0 where
  usage client_usage : Command
  run_server : Command
  run_client : List Bytes → Command
  unknown_command : Bytes → Command

-- The `match` of `main`, for a client that takes the arguments up to number `needed`.
unfoldable pub command_of : ℕ → List Bytes → Command
command_of needed [] = usage
command_of needed (program ∷ []) = usage
command_of needed (program ∷ (command ∷ args)) =
    if bytes_eq command (ascii "server")
    then run_server
    else if bytes_eq command (ascii "client")
    then (if ltb (2 + length args) needed
        then client_usage
        else run_client (take (needed - 2) args))
    else unknown_command command
