-- ===== src/Session/Store/View.antt =====
-- The session store of src/session.rs without the order of its table: two stores are the same where
-- every look-up, all settings and the number that comes next are.
use hush_rs.Base.{ℕ, ◌+◌, ◌%◌, ◌^◌, ◌≡◌, refl, sym, ap, ◌∙◌, Option}
use mathlib.Core.Quot
use mathlib.Core.Quot.{Quot, Quot-set}
use hush_rs.Std.Eq.{nat_eq}
use hush_rs.Std.HashMap.{IsUnique}
use hush_rs.Session.Store.{Session, SessionStore, get, insert, delete, gc, next_session_id}
use hush_rs.Session.Store.Apart.{IsApart, register-register}
use hush_rs.Session.Store.Registers.{
  Operation, inserts, deletes, collects, numbers, run_one, register, run_one-config,
  run_one-IsUnique, get-run_one,
}

-- A store whose table has each key once.
pub record Stored : Type 0 where
  pub store : SessionStore
  pub unique : IsUnique store.sessions

pub record SameView (a b : Stored) : Type 0 where
  pub same_config : a.store.config ≡ b.store.config
  pub same_next : a.store.next_id ≡ b.store.next_id
  pub same_sessions : (id : ℕ) → get id a.store ≡ get id b.store

abbrev pub View : Type 0
View = Quot SameView

abbrev run_stored : Operation → Stored → Stored
run_stored op a = record {
  store = run_one op a.store;
  unique = run_one-IsUnique op a.store a.unique;
}

get-run_stored :
    (op : Operation) (a : Stored) (id : ℕ)
    → get id (run_stored op a).store ≡ register a.store.config.max_lifetime id op (get id a.store)
get-run_stored op a id = get-run_one op id a.store a.unique

run_stored-lifetime :
    (op : Operation) (a : Stored)
    → (run_stored op a).store.config.max_lifetime ≡ a.store.config.max_lifetime
run_stored-lifetime op a = ap (λ c. c.max_lifetime) (run_one-config op a.store)

-- The number that comes next behind an operation.
abbrev next_of : Operation → ℕ → ℕ
next_of (inserts s) n = n
next_of (deletes id) n = n
next_of (collects now) n = n
next_of numbers n = (n + 1) % 2 ^ 64

run_one-next_id :
    (op : Operation) (st : SessionStore) → (run_one op st).next_id ≡ next_of op st.next_id
unfolding run_one insert delete gc next_session_id
run_one-next_id (inserts s) st = refl
run_one-next_id (deletes id) st = refl
run_one-next_id (collects now) st = refl
run_one-next_id numbers st = refl

next_of-next_of :
    (op op' : Operation) (n : ℕ) → next_of op (next_of op' n) ≡ next_of op' (next_of op n)
next_of-next_of (inserts s) op' n = refl
next_of-next_of (deletes id) op' n = refl
next_of-next_of (collects now) op' n = refl
next_of-next_of numbers (inserts s) n = refl
next_of-next_of numbers (deletes id) n = refl
next_of-next_of numbers (collects now) n = refl
next_of-next_of numbers numbers n = refl

pub run_stored-SameView :
    (op : Operation) (a b : Stored) → SameView a b → SameView (run_stored op a) (run_stored op b)
run_stored-SameView op a b h = record {
  same_config = run_one-config op a.store ∙ h.same_config ∙ sym (run_one-config op b.store);
  same_next =
      run_one-next_id op a.store ∙ ap (next_of op) h.same_next ∙ sym (run_one-next_id op b.store);
  same_sessions = λ id.
      get-run_stored op a id
      ∙ (simp (h.same_config, h.same_sessions id))
      ∙ sym (get-run_stored op b id);
}

-- An operation on what a store tells.
unfoldable pub change : Operation → View → View
change op =
    Quot.lift Quot-set (λ a. Quot.mk (run_stored op a))
      (λ a b h. Quot.sound (run_stored-SameView op a b h))

pub Session-IsSet : IsSet (Option Session)
Session-IsSet = hlevel

pub ℕ-IsSet : IsSet ℕ
ℕ-IsSet = hlevel

-- A look-up, and `max_lifetime`
unfoldable pub look : ℕ → View → Option Session
look id = Quot.lift Session-IsSet (λ a. get id a.store) (λ a b h. h.same_sessions id)

unfoldable pub lifetime_of : View → ℕ
lifetime_of =
    Quot.lift ℕ-IsSet (λ a. a.store.config.max_lifetime)
      (λ a b h. ap (λ c. c.max_lifetime) h.same_config)

-- What a look-up gives behind an operation is what the operation makes of what it gave before.
pub look-change :
    (id : ℕ) (op : Operation) (v : View)
    → look id (change op v) ≡ register (lifetime_of v) id op (look id v)
unfolding look change lifetime_of
look-change id op =
    Quot.ind
      (λ v. Session-IsSet (look id (change op v)) (register (lifetime_of v) id op (look id v)))
      (λ a. get-run_stored op a id)

get-run_stored_twice :
    (op op' : Operation) (a : Stored) (id : ℕ)
    → get id (run_stored op (run_stored op' a)).store
      ≡ register a.store.config.max_lifetime id op
          (register a.store.config.max_lifetime id op' (get id a.store))
get-run_stored_twice op op' a id =
    get-run_stored op (run_stored op' a) id
    ∙ simp (run_stored-lifetime op' a, get-run_stored op' a id)

run_stored-run_stored :
    (op op' : Operation) (a : Stored)
    → IsApart a.store.config.max_lifetime op op'
    → SameView (run_stored op (run_stored op' a)) (run_stored op' (run_stored op a))
run_stored-run_stored op op' a apart =
    let st = a.store in
    record {
      same_config =
          run_one-config op (run_one op' st)
          ∙ run_one-config op' st
          ∙ sym (run_one-config op st)
          ∙ sym (run_one-config op' (run_one op st));
      same_next =
          run_one-next_id op (run_one op' st)
          ∙ ap (next_of op) (run_one-next_id op' st)
          ∙ next_of-next_of op op' st.next_id
          ∙ sym (ap (next_of op') (run_one-next_id op st))
          ∙ sym (run_one-next_id op' (run_one op st));
      same_sessions = λ id.
          get-run_stored_twice op op' a id
          ∙ register-register _ id op op' (get id st) apart
          ∙ sym (get-run_stored_twice op' op a id);
    }

-- Tasks do not disturb each other in the session store: any two of `insert`, `delete`, `gc` and
-- `next_session_id` can be done in either order, unless both concern one session (they insert the same
-- id, or insert and delete it, or the session that is inserted is too old at the time of the
-- collection). The store is then the same in every look-up, in all its settings and in the number that
-- comes next: only the order of its entries may differ.
pub change-change :
    (op op' : Operation) (v : View)
    → IsApart (lifetime_of v) op op'
    → change op (change op' v) ≡ change op' (change op v)
unfolding change lifetime_of
change-change op op' =
    Quot.ind
      (λ v. λ p q i apart.
        Quot-set (change op (change op' v)) (change op' (change op v)) (p apart) (q apart) i)
      (λ a apart. Quot.sound (run_stored-run_stored op op' a apart))
