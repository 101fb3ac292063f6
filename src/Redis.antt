-- ===== src/Redis.antt =====
-- The counters of the cache: `incr` and `del` of src/common/redis/redis.service.ts. A counter whose
-- time has passed is absent; instants are milliseconds, the time to live is seconds.
use vpn_saas.Base.{
  ◌<◌, lt→ltb, inl, inr, sym, Bool-cases, Option-cases, ℕ, suc, ◌+◌, ◌*◌, ◌≡◌, refl, ◌∙◌, Bool,
  true, false, not, Option, none, some, String, List, ltb, str_eq, str_eq_iff, if◌then◌else◌,
}
use mathlib.Core.Option.{some_inj}
use vpn_saas.Base.Table.{find, find_many, create, others}
use vpn_saas.Base.Table.Laws.{find-create_new, find-find_many, others-replace}
use vpn_saas.Store.Rows.{Counter, Db}

abbrev pub is_live : ℕ → Option ℕ → Bool
is_live now none = true
is_live now (some at) = ltb now at

abbrev pub has_key : String → Counter → Bool
has_key key c = str_eq c.key key

-- The counter with a key, unless its time has passed.
abbrev live_counter : ℕ → Option Counter → Option Counter
live_counter now none = none
live_counter now (some c) = if is_live now c.expires_at then some c else none

unfoldable pub counter_at : String → ℕ → Db → Option Counter
counter_at key now db = live_counter now (find (has_key key) db.counters)

abbrev pub value_of : Option Counter → ℕ
value_of none = 0
value_of (some c) = c.value

abbrev next : String → ℕ → ℕ → Option Counter → Counter
next key now ttl none = record { key = key; value = 1; expires_at = some (now + ttl * 1000) }
next key now ttl (some c) = record c { key = key; value = suc c.value }

abbrev pub without : String → List Counter → List Counter
without key cs = find_many (λ c. not (has_key key c)) cs

unfoldable pub incr : String → ℕ → ℕ → Db → Db
unfolding counter_at
incr key now ttl db = record db {
  counters = create (next key now ttl (counter_at key now db)) (without key db.counters);
}

unfoldable pub del : String → Db → Db
del key db = record db { counters = without key db.counters }

apart : (key : String) (c : Counter) → has_key key c ≡ true → not (has_key key c) ≡ false
apart key c hit = rw hit refl

next-has_key :
    (key : String) (now ttl : ℕ) (o : Option Counter) → has_key key (next key now ttl o) ≡ true
next-has_key key now ttl none = (str_eq_iff key key).1 refl
next-has_key key now ttl (some c) = (str_eq_iff key key).1 refl

-- A counter that is live stays live, and a new one lives for its time.
value_of-next :
    (key : String) (now ttl : ℕ) (o : Option Counter)
    → now < now + ttl * 1000
    → value_of (live_counter now (some (next key now ttl (live_counter now o))))
      ≡ suc (value_of (live_counter now o))
value_of-next key now ttl none later = rw (lt→ltb now (now + ttl * 1000) later) refl
value_of-next key now ttl (some c) later = elim (Bool-cases (is_live now c.expires_at)) [
  | inl live ↦ rw live (rw live refl)
  | inr dead ↦ rw dead (rw (lt→ltb now (now + ttl * 1000) later) refl)
]

-- A call counts once.
pub value_of-incr :
    (key : String) (now ttl : ℕ) (db : Db)
    → now < now + ttl * 1000
    → value_of (counter_at key now (incr key now ttl db)) ≡ suc (value_of (counter_at key now db))
unfolding incr counter_at
value_of-incr key now ttl db later =
    let c = next key now ttl (counter_at key now db) in
    let there : find (has_key key) (create c (without key db.counters)) ≡ some c =
      find-create_new (has_key key) c (without key db.counters)
        (find-find_many (λ d. not (has_key key d)) (has_key key) db.counters (apart key))
      ∙ rw (next-has_key key now ttl (counter_at key now db)) refl in
    rw there (value_of-next key now ttl (find (has_key key) db.counters) later)

pub counter_at-del :
    (key : String) (now : ℕ) (db : Db) → value_of (counter_at key now (del key db)) ≡ 0
unfolding del counter_at
counter_at-del key now db =
    rw (find-find_many (λ c. not (has_key key c)) (has_key key) db.counters (apart key)) refl

abbrev pub expiry : ℕ → ℕ → Option Counter → Option ℕ
expiry now ttl none = some (now + ttl * 1000)
expiry now ttl (some c) = c.expires_at

find-live :
    (key : String) (now : ℕ) (o : Option Counter) {c : Counter}
    → live_counter now o ≡ some c
    → is_live now c.expires_at ≡ true
find-live key now none h = cc
find-live key now (some d) {c} h = elim (Bool-cases (is_live now d.expires_at)) [
  | inl live ↦ let same : d ≡ c = some_inj.0 (rw live at h) in rw (sym same) live
  | inr dead ↦ absurd (let no = rw dead at h in cc)
]

-- A call counts in a window that the first call opens and no later call moves.
pub counter_at-incr :
    (key : String) (now ttl : ℕ) (db : Db)
    → now < now + ttl * 1000
    → counter_at key now (incr key now ttl db)
      ≡ some (record {
        key = key;
        value = suc (value_of (counter_at key now db));
        expires_at = expiry now ttl (counter_at key now db);
      })
unfolding incr counter_at
counter_at-incr key now ttl db later =
    let o = counter_at key now db in
    let c = next key now ttl o in
    let there : find (has_key key) (create c (without key db.counters)) ≡ some c =
      find-create_new (has_key key) c (without key db.counters)
        (find-find_many (λ d. not (has_key key d)) (has_key key) db.counters (apart key))
      ∙ rw (next-has_key key now ttl o) refl in
    rw there (elim (Option-cases o) [
      | inl new ↦ rw new (rw (lt→ltb now (now + ttl * 1000) later) refl)
      | inr (d, old) ↦ rw old (rw (find-live key now (find (has_key key) db.counters) old) refl)
    ])

pub others-incr :
    (key : String) (now ttl : ℕ) (db : Db)
    → others (has_key key) (incr key now ttl db).counters ≡ others (has_key key) db.counters
unfolding incr
others-incr key now ttl db =
    others-replace (has_key key) (next key now ttl (counter_at key now db)) db.counters
      (next-has_key key now ttl (counter_at key now db))
