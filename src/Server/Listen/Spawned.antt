-- ===== src/Server/Listen/Spawned.antt =====
-- The tasks that the listeners of src/server.rs spawn, and the ids that these get.
use hush_rs.Base.{ℕ, zero, suc, ◌+◌, ◌%◌, ◌^◌, ◌≡◌, List, [], ◌∷◌, length}
use hush_rs.Logger.{Logger}
use hush_rs.Session.Store.{SessionConfig}
use hush_rs.Server.Accept.{System, Reach}
use hush_rs.Server.Listen.{Task, collecting, serving, Listened}

-- The session ids of the connections that were spawned.
abbrev pub served_ids : {Conn : Type 0} → List (Task Conn) → List ℕ
served_ids [] = []
served_ids (collecting interval ∷ tasks) = served_ids tasks
served_ids (serving id conn ∷ tasks) = id ∷ served_ids tasks

-- `k` ids in a row, counted as a u64 counts.
abbrev pub ids_from : ℕ → ℕ → List ℕ
ids_from id zero = []
ids_from id (suc k) = id ∷ ids_from ((id + 1) % 2 ^ 64) k

-- The connections of a listener that started on `sys`, behind `m` others: their ids follow the counter,
-- and the server is where accepting them leads.
pub record IsNumbered (cfg : SessionConfig) (m : ℕ) (sys : System) {World Conn : Type 0}
    (l : Listened World Conn) : Type 0 where
  pub in_order : served_ids l.tasks ≡ ids_from sys.next_id (length (served_ids l.tasks))
  pub reached : Reach cfg (m + length (served_ids l.tasks)) l.system
