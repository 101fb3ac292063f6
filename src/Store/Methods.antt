-- ===== src/Store/Methods.antt =====
-- What a service method does: state and exceptions (src/common/exceptions/business.exception.ts and
-- `withTransaction` of src/common/prisma/prisma.service.ts).
use mathlib.Core.Path.{subst}
use vpn_saas.Base.{
  ℕ, suc, max, ◌<◌, ◌≡◌, refl, sym, Bool, true, false, Option, none, some, List, [], ◌∷◌, String,
  arith, if◌then◌else◌, ◌==◌, ◌⊎◌, inl, inr,
}
use vpn_saas.Base.Table.{find, create}
use vpn_saas.Store.Rows.{Db}

pub data ErrorCode : Type 0 where
  not_found conflict forbidden unauthorized payment_required : ErrorCode
  wallet_insufficient_funds voucher_invalid voucher_expired validation_error : ErrorCode

-- `business` is a `BusinessException`, `client_error` the error of a request to a panel with its
-- message; the others are Prisma's P2002 and P2025, a `TypeError` or a
-- `SyntaxError`, a text that does not decrypt, a token that does not verify, a request that gets no
-- answer, and a value that a schema does not accept.
pub data Failure : Type 0 where
  business : ErrorCode → String → Failure
  client_error : String → Failure
  unique_violation record_not_found type_error decryption_error token_error : Failure
  network_error schema_error : Failure

pub data Result (A : Type 0) : Type 0 where
  ok : A → Result A
  err : Failure → Result A

abbrev pub Action : Type 0 → Type 0
Action A = Db → Result A × Db

module _ {A : Type 0} where
  abbrev pub pure : A → Action A
  pure a db = (ok a, db)

  abbrev pub throw : Failure → Action A
  throw e db = (err e, db)

  abbrev pub gets : (Db → A) → Action A
  gets f db = (ok (f db), db)

  -- A query that must find its row.
  abbrev pub or_throw : Option A → Failure → Action A
  or_throw none e = throw e
  or_throw (some a) e = pure a

  -- The body's writes are undone when it throws.
  abbrev pub commit : Result A × Db → Db → Result A × Db
  commit (ok a, after) before = (ok a, after)
  commit (err e, after) before = (err e, before)

  abbrev pub with_transaction : Action A → Action A
  with_transaction m db = commit (m db) db

abbrev pub resume : {A B : Type 0} → Result A × Db → (A → Action B) → Result B × Db
resume (ok a, db) f = f a db
resume (err e, db) f = (err e, db)

infixl 5 ◌>>=◌ ◌>>◌
abbrev pub ◌>>=◌ : {A B : Type 0} → Action A → (A → Action B) → Action B
◌>>=◌ m f db = resume (m db) f

abbrev pub ◌>>◌ : {A B : Type 0} → Action A → Action B → Action B
m >> k = m >>= λ _. k

abbrev pub throw_if : Bool → Failure → Action (Unit {0})
throw_if c e db = (if c then err e else ok tt, db)

abbrev pub modify : (Db → Db) → Action (Unit {0})
modify f db = (ok tt, f db)

-- An action that runs only under a condition, or only with a value.
abbrev pub when : Bool → Action (Unit {0}) → Action (Unit {0})
when true m = m
when false m = pure tt

abbrev pub when_some : {A : Type 0} → Option A → (A → Action (Unit {0})) → Action (Unit {0})
when_some none f = pure tt
when_some (some a) f = f a

-- `try` and `catch`.
abbrev pub rescued : {A : Type 0} → Result A × Db → (Failure → Action A) → Result A × Db
rescued (ok a, db) h = (ok a, db)
rescued (err e, db) h = h e db

abbrev pub on_error : {A : Type 0} → Action A → (Failure → Action A) → Action A
on_error m h db = rescued (m db) h

-- `AuditService.log`
abbrev pub audit : Option ℕ → String → String → String → Action (Unit {0})
audit user action resource id = modify (λ db. record db {
  audits =
      create (record { user_id = user; action = action; resource = resource; resource_id = id })
        db.audits;
})

-- One of two actions.
abbrev pub if_action : {A : Type 0} → Bool → Action A → Action A → Action A
if_action true m k = m
if_action false m k = k

-- `?? d`
abbrev pub get_or {ℓ} : {A : Type ℓ} → Option A → A → A
get_or none d = d
get_or (some a) d = a

abbrev pub is_some {ℓ} : {A : Type ℓ} → Option A → Bool
is_some none = false
is_some (some a) = true

abbrev pub is_none {ℓ} : {A : Type ℓ} → Option A → Bool
is_none none = true
is_none (some a) = false

-- An optional column that holds an id.
abbrev pub same_id : Option ℕ → ℕ → Bool
same_id none id = false
same_id (some n) id = n == id

-- An optional id as a condition: `0n` is falsy.
abbrev pub truthy : Option ℕ → Option ℕ
truthy none = none
truthy (some n) = if n == 0 then none else some n

module _ {A : Type 0} (key : A → ℕ) where
  highest : List A → ℕ
  highest [] = 0
  highest (x ∷ xs) = max (key x) (highest xs)

  -- The next value of an autoincremented column.
  unfoldable pub fresh_id : List A → ℕ
  unfolding highest
  fresh_id xs = suc (highest xs)

  highest_unused : (xs : List A) (n : ℕ) → highest xs < n → find (λ x. key x == n) xs ≡ none
  unfolding highest
  highest_unused [] n h = refl
  highest_unused (x ∷ xs) n h = ground (arith, highest_unused xs n (omega arith))

  -- No row has the next id yet.
  pub find-fresh_id : (xs : List A) → find (λ x. key x == fresh_id xs) xs ≡ none
  unfolding fresh_id
  find-fresh_id xs = highest_unused xs (suc (highest xs)) (omega arith)

pub Result-cases :
    {A : Type 0} (p : Result A × Db)
    → ((a : A) × (db : Db) × (p ≡ (ok a, db))) ⊎ ((e : Failure) × (db : Db) × (p ≡ (err e, db)))
Result-cases (ok a, db) = inl (a, db, refl)
Result-cases (err e, db) = inr (e, db, refl)

module _ {A : Type 0} where
  pub ok-injective :
      {a b : A} {s t : Db} → ◌≡◌ {A = Result A × Db} (ok a, s) (ok b, t) → (a ≡ b) × (s ≡ t)
  ok-injective e = (cc, cc)

  pub ok-ne-err :
      {a : A} {e : Failure} {s t : Db} → ◌≡◌ {A = Result A × Db} (err e, s) (ok a, t) → ⊥
  ok-ne-err e = cc

  -- A transaction that has returned has returned what its body did.
  pub commit-eq-ok :
      (r : Result A × Db) (db : Db) {a : A} {after : Db}
      → commit r db ≡ (ok a, after)
      → r ≡ (ok a, after)
  commit-eq-ok (ok a, s) db h = h
  commit-eq-ok (err e, s) db h = cc

  -- A transaction that has thrown has changed nothing.
  pub commit-eq-err :
      (r : Result A × Db) (db : Db) {e : Failure} {after : Db}
      → commit r db ≡ (err e, after)
      → after ≡ db
  commit-eq-err (ok a, s) db h = cc
  commit-eq-err (err e, s) db h = cc

-- A chain that has returned has returned from each of its steps.
pub resume-eq-ok :
    {A B : Type 0} (r : Result A × Db) (f : A → Action B) {b : B} {after : Db}
    → resume r f ≡ (ok b, after)
    → (a : A) × (s : Db) × (r ≡ (ok a, s)) × (f a s ≡ (ok b, after))
resume-eq-ok (ok a, s) f h = (a, s, refl, h)
resume-eq-ok (err e, s) f h = cc

pub or_throw-eq-ok :
    {A : Type 0} (o : Option A) (e : Failure) (db : Db) {a : A} {after : Db}
    → or_throw o e db ≡ (ok a, after)
    → (o ≡ some a) × (after ≡ db)
or_throw-eq-ok none e db h = cc
or_throw-eq-ok (some x) e db h = (cc, cc)

pub throw_if-eq-ok :
    (c : Bool) (e : Failure) (db : Db) {u : Unit {0}} {after : Db}
    → throw_if c e db ≡ (ok u, after)
    → (c ≡ false) × (after ≡ db)
throw_if-eq-ok true e db h = cc
throw_if-eq-ok false e db h = (refl, cc)

-- What has returned under a handler has returned of itself, or from the handler.
pub rescued-eq-ok :
    {A : Type 0} (r : Result A × Db) (h : Failure → Action A) {a : A} {after : Db}
    → rescued r h ≡ (ok a, after)
    → (r ≡ (ok a, after)) ⊎ ((e : Failure) × (s : Db) × (r ≡ (err e, s)) × (h e s ≡ (ok a, after)))
rescued-eq-ok (ok a, s) h run = inl run
rescued-eq-ok (err e, s) h run = inr (e, s, refl, run)

-- What holds after a step, however it has ended, and after every step that may follow.
pub resume_leads {ℓ} :
    {A B : Type 0} (Q P : Db → Type ℓ) (r : Result A × Db) (f : A → Action B)
    → Q r.1
    → ((s : Db) → Q s → P s)
    → ((a : A) (s : Db) → Q s → P (f a s).1)
    → P (resume r f).1
resume_leads Q P (ok a, s) f q stop go = go a s q
resume_leads Q P (err e, s) f q stop go = stop s q

-- The same for a step under a handler.
pub rescued_leads {ℓ} :
    {A : Type 0} (Q : Db → Type ℓ) (r : Result A × Db) (h : Failure → Action A)
    → Q r.1
    → ((e : Failure) (s : Db) → Q s → Q (h e s).1)
    → Q (rescued r h).1
rescued_leads Q (ok a, s) h q go = q
rescued_leads Q (err e, s) h q go = go e s q

-- A step that leaves the database as it was.
abbrev pub Reads : {A : Type 0} → Action A → Type 0
Reads m = (db : Db) → (m db).1 ≡ db

-- A step that only reads leads wherever its continuation does.
pub reads_leads :
    {A B : Type 0} (Q P : Db → Type 0) (m : Action A) (f : A → Action B) (db : Db)
    → Reads m
    → Q db
    → ((s : Db) → Q s → P s)
    → ((a : A) (s : Db) → Q s → P (f a s).1)
    → P (resume (m db) f).1
reads_leads Q P m f db reads q stop go =
    resume_leads Q P (m db) f (subst Q (sym (reads db)) q) stop go
