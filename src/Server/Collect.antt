-- ===== src/Server/Collect.antt =====
-- `gc_loop` of src/server.rs: the session store is collected at every tick, and the first tick is at
-- once.
use hush_rs.Base.{
  ℕ, zero, suc, ◌+◌, ◌-◌, ◌*◌, ◌<◌, ◌≡◌, ◌⊎◌, inl, inr, refl, ◌∙◌, none, some, arith,
}
use hush_rs.Std.Eq.{nat_eq}
use hush_rs.Std.HashMap.{IsUnique, retain-IsUnique}
use hush_rs.Session.Store
use hush_rs.Session.Store.{Session, SessionStore, gc, is_expired}
use hush_rs.Session.Store.Expiry.{get-gc}

-- The store after `n` ticks, which are `interval` apart; before the `i`-th, the other tasks have done
-- `others i`.
unfoldable pub gc_loop : (ℕ → SessionStore → SessionStore) → ℕ → ℕ → ℕ → SessionStore → SessionStore
gc_loop others start interval zero st = st
gc_loop others start interval (suc i) st =
    gc (start + i * interval) (others i (gc_loop others start interval i st))

-- Other tasks leave a session alone or delete it, and keep the keys of the store unique.
pub record Leaves (id : ℕ) (others : ℕ → SessionStore → SessionStore) : Type 0 where
  pub config : (i : ℕ) (st : SessionStore) → (others i st).config ≡ st.config
  pub unique : (i : ℕ) (st : SessionStore) → IsUnique st.sessions → IsUnique (others i st).sessions
  pub found :
      (i : ℕ) (st : SessionStore)
      → (Store.get id (others i st) ≡ Store.get id st) ⊎ (Store.get id (others i st) ≡ none)

-- The store has this session under the id, or none.
abbrev HasAtMost : ℕ → Session → SessionStore → Type 0
HasAtMost id s st = (Store.get id st ≡ some s) ⊎ (Store.get id st ≡ none)

module _ (id : ℕ) (s : Session) (others : ℕ → SessionStore → SessionStore)
    (leaves : Leaves id others) (start interval : ℕ) where
  record IsKept (st st' : SessionStore) : Type 0 where
    same_config : st'.config ≡ st.config
    unique : IsUnique st'.sessions
    at_most : HasAtMost id s st'

  gc_lem :
      (now : ℕ) (st : SessionStore)
      → IsUnique st.sessions
      → HasAtMost id s st
      → HasAtMost id s (gc now st)
        × (st.config.max_lifetime < now - s.created_at → Store.get id (gc now st) ≡ none)
  unfolding is_expired
  gc_lem now st u (inl found) = rw (get-gc now id st u, found) (ground arith)
  gc_lem now st u (inr gone) = rw (get-gc now id st u, gone) (inr refl, λ h. refl)

  others_lem : (i : ℕ) (st st' : SessionStore) → IsKept st st' → IsKept st (others i st')
  others_lem i st st' k = record {
    same_config = leaves.config i st' ∙ k.same_config;
    unique = leaves.unique i st' k.unique;
    at_most = elim (leaves.found i st') [ inl same ↦ rw same k.at_most | inr gone ↦ inr gone ];
  }

  gc_loop-IsKept :
      (n : ℕ) (st : SessionStore)
      → IsUnique st.sessions
      → Store.get id st ≡ some s
      → IsKept st (gc_loop others start interval n st)
  unfolding gc_loop gc
  gc_loop-IsKept zero st u found = record { same_config = refl; unique = u; at_most = inl found }
  gc_loop-IsKept (suc i) st u found =
      let before = gc_loop others start interval i st in
      let k = others_lem i st before (gc_loop-IsKept i st u found) in
      record {
        same_config = k.same_config;
        unique = retain-IsUnique _ (others i before).sessions k.unique;
        at_most = (gc_lem (start + i * interval) (others i before) k.unique k.at_most).0;
      }

  -- No session outlives its lifetime for long, also one that a panic left behind: when other tasks
  -- leave it alone or delete it, it is gone after the first tick that is later than `max_lifetime`
  -- after its creation.
  pub gc_loop-collects :
      (n : ℕ) (st : SessionStore)
      → IsUnique st.sessions
      → Store.get id st ≡ some s
      → s.created_at + st.config.max_lifetime < start + n * interval
      → Store.get id (gc_loop others start interval (suc n) st) ≡ none
  unfolding gc_loop
  gc_loop-collects n st u found late =
      let before = gc_loop others start interval n st in
      let k = others_lem n st before (gc_loop-IsKept n st u found) in
      (gc_lem (start + n * interval) (others n before) k.unique k.at_most).1
        (rw k.same_config (omega arith))
