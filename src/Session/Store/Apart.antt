-- ===== src/Session/Store/Apart.antt =====
-- Which operations of the session store of src/session.rs can be exchanged, at the register of an id.
use hush_rs.Base.{
  ℕ, ◌-◌, ◌≤◌, ◌≡◌, ◌≢◌, ◌==◌, refl, sym, Bool, true, false, Option, none, some, ltb, if◌then◌else◌,
  arith, Bool-cases, inl, inr,
}
use hush_rs.Std.Eq.{nat_eq}
use hush_rs.Std.HashMap.{keep_if}
use hush_rs.Session.Store.{Session}
use hush_rs.Session.Store.Registers.{Operation, inserts, deletes, collects, numbers, register}

-- Two operations that do not concern each other: a session that is stored has another id than one that
-- is stored or deleted beside it, and is not yet for collection at the time of one.
abbrev pub IsApart : ℕ → Operation → Operation → Type 0
IsApart lifetime (inserts s) (inserts t) = s.id ≢ t.id
IsApart lifetime (inserts s) (deletes id) = s.id ≢ id
IsApart lifetime (inserts s) (collects now) = now - s.created_at ≤ lifetime
IsApart lifetime (inserts s) numbers = Unit
IsApart lifetime (deletes id) (inserts s) = s.id ≢ id
IsApart lifetime (deletes id) (deletes j) = Unit
IsApart lifetime (deletes id) (collects now) = Unit
IsApart lifetime (deletes id) numbers = Unit
IsApart lifetime (collects now) (inserts s) = now - s.created_at ≤ lifetime
IsApart lifetime (collects now) (deletes id) = Unit
IsApart lifetime (collects now) (collects later) = Unit
IsApart lifetime (collects now) numbers = Unit
IsApart lifetime numbers op = Unit

-- Whether a collection keeps a session.
abbrev keeps : ℕ → ℕ → Session → Bool
keeps lifetime now s = if ltb lifetime (now - s.created_at) then false else true

keeps-true :
    (lifetime now : ℕ) (s : Session) → now - s.created_at ≤ lifetime → keeps lifetime now s ≡ true
keeps-true lifetime now s h = ground (arith, h)

insert-collect :
    (lifetime now id : ℕ) (s : Session) (found : Option Session)
    → now - s.created_at ≤ lifetime
    → (if s.id == id then some s else keep_if (keeps lifetime now) found)
      ≡ keep_if (keeps lifetime now) (if s.id == id then some s else found)
insert-collect lifetime now id s found h = elim (Bool-cases (s.id == id)) [
  | inl same ↦ rw (same, keeps-true lifetime now s h) refl
  | inr other ↦ rw other refl
]

delete-collect :
    (p : Session → Bool) (test : Bool) (found : Option Session)
    → (if test then none else keep_if p found) ≡ keep_if p (if test then none else found)
delete-collect p true found = refl
delete-collect p false found = refl

keep_if-keep_if :
    (p q : Session → Bool) (found : Option Session)
    → keep_if p (keep_if q found) ≡ keep_if q (keep_if p found)
keep_if-keep_if p q none = refl
keep_if-keep_if p q (some s) = elim (Bool-cases (p s)) [
  | inl y ↦ elim (Bool-cases (q s)) [ inl y' ↦ rw (y, y', y) refl | inr n' ↦ rw (y, n') refl ]
  | inr n ↦ elim (Bool-cases (q s)) [ inl y' ↦ rw (n, y', n) refl | inr n' ↦ rw (n, n') refl ]
]

pub register-register :
    (lifetime id : ℕ) (op op' : Operation) (found : Option Session)
    → IsApart lifetime op op'
    → register lifetime id op (register lifetime id op' found)
      ≡ register lifetime id op' (register lifetime id op found)
unfolding register
register-register lifetime id (inserts s) (inserts t) found apart = grind arith
register-register lifetime id (inserts s) (deletes j) found apart = grind arith
register-register lifetime id (inserts s) (collects now) found apart =
    insert-collect lifetime now id s found apart
register-register lifetime id (inserts s) numbers found apart = refl
register-register lifetime id (deletes j) (inserts t) found apart = grind arith
register-register lifetime id (deletes j) (deletes m) found apart = grind arith
register-register lifetime id (deletes j) (collects now) found apart =
    delete-collect (keeps lifetime now) (j == id) found
register-register lifetime id (deletes j) numbers found apart = refl
register-register lifetime id (collects now) (inserts s) found apart =
    sym (insert-collect lifetime now id s found apart)
register-register lifetime id (collects now) (deletes j) found apart =
    sym (delete-collect (keeps lifetime now) (j == id) found)
register-register lifetime id (collects now) (collects later) found apart =
    keep_if-keep_if (keeps lifetime now) (keeps lifetime later) found
register-register lifetime id (collects now) numbers found apart = refl
register-register lifetime id numbers op' found apart = refl
