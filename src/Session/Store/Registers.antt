-- ===== src/Session/Store/Registers.antt =====
-- The session store of src/session.rs as a register for each id.
use hush_rs.Base.{
  ℕ, ◌≡◌, refl, ◌==◌, true, false, List, [], ◌∷◌, Option, none, some, ltb, ◌-◌, if◌then◌else◌,
}
use hush_rs.Std.Eq.{nat_eq}
use hush_rs.Std.HashMap.{IsUnique, keep_if, insert-IsUnique, remove-IsUnique, retain-IsUnique}
use hush_rs.Session.Store.{
  Session, SessionStore, next_session_id, insert, get, delete, is_expired, gc,
}
use hush_rs.Session.Store.Expiry.{get-insert_session, get-delete, get-gc}

-- An operation that changes the store: `insert`, `delete`, `gc` at a time, or `next_session_id`.
pub data Operation : Type 0 where
  inserts : Session → Operation
  deletes : ℕ → Operation
  collects : ℕ → Operation
  numbers : Operation

unfoldable pub run_one : Operation → SessionStore → SessionStore
run_one (inserts s) st = insert s st
run_one (deletes id) st = delete id st
run_one (collects now) st = gc now st
run_one numbers st = (next_session_id st).1

-- The operations in order.
unfoldable pub run_all : List Operation → SessionStore → SessionStore
run_all [] st = st
run_all (op ∷ ops) st = run_all ops (run_one op st)

-- What an operation makes of the register of an id, where sessions live for `lifetime`.
unfoldable pub register : ℕ → ℕ → Operation → Option Session → Option Session
register lifetime id (inserts s) found = if s.id == id then some s else found
register lifetime id (deletes j) found = if j == id then none else found
register lifetime id (collects now) found =
    keep_if (λ s. if ltb lifetime (now - s.created_at) then false else true) found
register lifetime id numbers found = found

unfoldable pub registers : ℕ → ℕ → List Operation → Option Session → Option Session
registers lifetime id [] found = found
registers lifetime id (op ∷ ops) found = registers lifetime id ops (register lifetime id op found)

pub run_one-config : (op : Operation) (st : SessionStore) → (run_one op st).config ≡ st.config
unfolding run_one insert delete gc next_session_id
run_one-config (inserts s) st = refl
run_one-config (deletes id) st = refl
run_one-config (collects now) st = refl
run_one-config numbers st = refl

pub run_one-IsUnique :
    (op : Operation) (st : SessionStore) → IsUnique st.sessions → IsUnique (run_one op st).sessions
unfolding run_one insert delete gc next_session_id
run_one-IsUnique (inserts s) st u = insert-IsUnique s.id s st.sessions u
run_one-IsUnique (deletes id) st u = remove-IsUnique id st.sessions u
run_one-IsUnique (collects now) st u = retain-IsUnique _ st.sessions u
run_one-IsUnique numbers st u = u

pub get-run_one :
    (op : Operation) (id : ℕ) (st : SessionStore)
    → IsUnique st.sessions
    → get id (run_one op st) ≡ register st.config.max_lifetime id op (get id st)
unfolding run_one register next_session_id get is_expired
get-run_one (inserts s) id st u = get-insert_session id s st
get-run_one (deletes j) id st u = get-delete j id st
get-run_one (collects now) id st u = get-gc now id st u
get-run_one numbers id st u = refl

-- The session store implements one register for each id: after any operations in any order, a look-up
-- gives what the operations make of that id's register alone. An insert of the id sets it, a delete
-- clears it, a collection clears it where the session is older than `max_lifetime`, and nothing else
-- touches it; the store's entries have unique keys at the start.
pub get-run_all :
    (ops : List Operation) (id : ℕ) (st : SessionStore)
    → IsUnique st.sessions
    → get id (run_all ops st) ≡ registers st.config.max_lifetime id ops (get id st)
unfolding run_all registers
get-run_all [] id st u = refl
get-run_all (op ∷ ops) id st u = simp (
  get-run_all ops id (run_one op st) (run_one-IsUnique op st u),
  run_one-config op st,
  get-run_one op id st u,
)
