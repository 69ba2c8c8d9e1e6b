-- ===== src/Session/Store/Expiry.antt =====
-- What the session store holds after each operation, and what `gc` takes away.
use hush_rs.Base.{
  zero, suc, ◌∙◌, ◌∷◌, ℕ, ◌+◌, ◌-◌, ◌%◌, ◌^◌, ◌<◌, ◌≡◌, ◌≢◌, refl, ap, Bool, true, false, [], none,
  some, leb, ◌==◌, if◌then◌else◌, arith,
}
use mathlib.Core.Path.{fun_ext}
use hush_rs.Std.Eq.{nat_eq}
use hush_rs.Std.HashMap
use hush_rs.Std.HashMap.{
  HashMap, IsUnique, keep_if, get-insert, get-remove, get-retain, insert-IsUnique, remove-IsUnique,
  retain-IsUnique,
}
use hush_rs.Session.Store.{
  Session, SessionConfig, SessionStore, fill, next_session_id, insert, get, delete, is_expired, gc,
}

-- `fill` leaves no duration at zero, keeps what was set, and changes nothing the second time.
pub fill_positive :
    (c : SessionConfig)
    → (0 < (fill c).idle_timeout)
      × (0 < (fill c).max_lifetime)
      × (0 < (fill c).gc_interval)
      × (fill (fill c) ≡ fill c)
unfolding fill
fill_positive c = ground arith

-- After `insert`, the session is found under its id, and under other ids what was there before.
pub get-insert_session :
    (id : ℕ) (s : Session) (st : SessionStore)
    → get id (insert s st) ≡ (if s.id == id then some s else get id st)
unfolding get insert
get-insert_session id s st = get-insert s.id id s st.sessions

-- After `delete`, that id is not found, and others are as before.
pub get-delete :
    (id j : ℕ) (st : SessionStore) → get j (delete id st) ≡ (if id == j then none else get j st)
unfolding get delete
get-delete id j st = get-remove id j st.sessions

-- `gc` takes away exactly the sessions that `is_expired` at that time; a session that is only idle
-- stays.
pub get-gc :
    (now id : ℕ) (st : SessionStore)
    → IsUnique st.sessions
    → get id (gc now st) ≡ keep_if (λ s. if is_expired now st s then false else true) (get id st)
unfolding get gc is_expired
get-gc now id st u =
    get-retain (λ s. leb (now - s.created_at) st.config.max_lifetime) id st.sessions u
    ∙ ap (λ p. keep_if p (HashMap.get id st.sessions)) (fun_ext (λ s. ground arith))

-- Every session stands under its own id.
abbrev pub HaveOwnIds : HashMap ℕ Session → Type 0
HaveOwnIds [] = Unit
HaveOwnIds ((k, s) ∷ m) = (k ≡ s.id) × HaveOwnIds m

pub record IsConsistent (st : SessionStore) : Type 0 where
  pub unique : IsUnique st.sessions
  pub own_ids : HaveOwnIds st.sessions

insert-HaveOwnIds :
    (s : Session) (m : HashMap ℕ Session) → HaveOwnIds m → HaveOwnIds (HashMap.insert s.id s m)
unfolding HashMap.insert
insert-HaveOwnIds s [] h = (refl, tt)
insert-HaveOwnIds s ((k, t) ∷ m) h = ground (arith, insert-HaveOwnIds s m)

remove-HaveOwnIds :
    (id : ℕ) (m : HashMap ℕ Session) → HaveOwnIds m → HaveOwnIds (HashMap.remove id m)
unfolding HashMap.remove
remove-HaveOwnIds id [] h = tt
remove-HaveOwnIds id ((k, t) ∷ m) h = ground (arith, remove-HaveOwnIds id m)

retain-HaveOwnIds :
    (p : ℕ → Session → Bool) (m : HashMap ℕ Session)
    → HaveOwnIds m
    → HaveOwnIds (HashMap.retain p m)
unfolding HashMap.retain
retain-HaveOwnIds p [] h = tt
retain-HaveOwnIds p ((k, t) ∷ m) h = ground (arith, retain-HaveOwnIds p m)

-- Every operation of the store keeps it consistent: one entry for each id, and under it a session
-- of that id.
pub store_keeps-IsConsistent :
    (st : SessionStore) (s : Session) (id now : ℕ)
    → IsConsistent st
    → IsConsistent (insert s st)
      × IsConsistent (delete id st)
      × IsConsistent (gc now st)
      × IsConsistent (next_session_id st).1
unfolding insert delete gc next_session_id
store_keeps-IsConsistent st s id now h = (
  record {
    unique = insert-IsUnique s.id s st.sessions h.unique;
    own_ids = insert-HaveOwnIds s st.sessions h.own_ids;
  },
  record {
    unique = remove-IsUnique id st.sessions h.unique;
    own_ids = remove-HaveOwnIds id st.sessions h.own_ids;
  },
  record {
    unique = retain-IsUnique _ st.sessions h.unique;
    own_ids = retain-HaveOwnIds _ st.sessions h.own_ids;
  },
  record { unique = h.unique; own_ids = h.own_ids },
)

-- The store after `k` more calls of `next_session_id`.
pub calls : ℕ → SessionStore → SessionStore
unfolding next_session_id
calls zero st = st
calls (suc k) st = (next_session_id (calls k st)).1

next_id_after :
    (k : ℕ) (st : SessionStore)
    → st.next_id < 2 ^ 64
    → (calls k st).next_id ≡ (st.next_id + k) % 2 ^ 64
unfolding calls
next_id_after zero st h = omega arith
next_id_after (suc k) st h = omega (arith, next_id_after k st h)

-- Of 2^64 calls of `next_session_id` in a row, no two give the same id.
pub next_session_id-distinct :
    (st : SessionStore) (j k : ℕ)
    → st.next_id < 2 ^ 64
    → j < k
    → k < j + 2 ^ 64
    → (next_session_id (calls j st)).0 ≢ (next_session_id (calls k st)).0
unfolding next_session_id
next_session_id-distinct st j k h lt near =
    omega (arith, next_id_after j st h, next_id_after k st h)
