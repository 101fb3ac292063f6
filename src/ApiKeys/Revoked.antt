-- ===== src/ApiKeys/Revoked.antt =====
-- Keys that have been revoked (src/modules/api/api.service.ts).
use vpn_saas.Base.{
  ℕ, ◌≡◌, refl, sym, ◌∙◌, Bool, true, false, none, some, String, List, [], ◌∷◌, str_eq, str_eq_iff,
  inl, inr, Bool-cases, Option-cases, All,
}
use vpn_saas.Base.Table.{find, count, update, find_many}
use vpn_saas.Base.Table.Laws.{All-create, All-find, All-update, All-update_one, find_sound}
use vpn_saas.Store.{ok, is_some}
use vpn_saas.Store.Rows.{Db}
use vpn_saas.Store.Rows.Access.{ApiKey}
use vpn_saas.ApiKeys.{
  Texts, KeyInput, KeyUpdate, has_hash, has_public_id, has_id, new_key, changed, switched_off,
  opened, used, create_key, update_key, revoke, delete_key, validate,
}

-- The calls, with the clock and the texts that each draws.
pub data Call : Type 0 where
  to_create : ℕ → String → String → ℕ → KeyInput → Call
  to_update : String → KeyUpdate → Call
  to_revoke : String → Call
  to_delete : String → Call
  to_validate : ℕ → String → Call

unfoldable pub perform : Texts → Call → Db → Db
unfolding create_key update_key revoke delete_key validate
perform texts (to_create now uuid raw user input) db =
    (create_key texts now uuid raw user input db).1
perform texts (to_update public_id input) db = (update_key public_id input db).1
perform texts (to_revoke public_id) db = (revoke public_id db).1
perform texts (to_delete public_id) db = (delete_key public_id db).1
perform texts (to_validate now raw) db = (validate texts now raw db).1

unfoldable pub history : Texts → List Call → Db → Db
unfolding perform
history texts [] db = db
history texts (c ∷ cs) db = history texts cs (perform texts c db)

-- The calls that could give a key with the hash back: the draw of the same key, and a change of the
-- row with the public id.
abbrev pub restores : Texts → String → String → Call → Bool
restores texts h public_id (to_create now uuid raw user input) = str_eq (texts.hash raw) h
restores texts h public_id (to_update other input) = str_eq other public_id
restores texts h public_id _ = false

module _ (texts : Texts) (h public_id : String) where
  -- The row with the hash is the revoked one.
  abbrev IsOff : ApiKey → Type 0
  IsOff k = has_hash h k ≡ true → (k.public_id ≡ public_id) × (k.is_active ≡ false)

  create_key-IsOff :
      (now : ℕ) (uuid raw : String) (user : ℕ) (input : KeyInput) (db : Db)
      → str_eq (texts.hash raw) h ≡ false
      → All IsOff db.api_keys
      → All IsOff (create_key texts now uuid raw user input db).1.api_keys
  unfolding create_key
  create_key-IsOff now uuid raw user input db other off =
      elim (Bool-cases (is_some (find (has_hash (texts.hash raw)) db.api_keys))) [
        | inl taken ↦ rw taken off
        | inr free ↦ rw free (
            All-create IsOff (new_key texts now uuid raw user input db.api_keys) db.api_keys off
              (λ same. absurd (cc)))
      ]

  update_key-IsOff :
      (name : String) (input : KeyUpdate) (db : Db)
      → str_eq name public_id ≡ false
      → All IsOff db.api_keys
      → All IsOff (update_key name input db).1.api_keys
  unfolding update_key
  update_key-IsOff name input db other off =
      elim (Option-cases (find (has_public_id name) db.api_keys)) [
        | inl missing ↦ rw missing off
        | inr (k, found) ↦ rw found (
            All-update IsOff (has_public_id name) (changed input) db.api_keys
              (λ x was hit same. absurd (
                let here : x.public_id ≡ name = (str_eq_iff x.public_id name).0 hit in
                let clash : str_eq name public_id ≡ true =
                  (str_eq_iff name public_id).1 (sym here ∙ (was same).0) in
                cc))
              off)
      ]

  revoke-IsOff :
      (name : String) (db : Db) → All IsOff db.api_keys → All IsOff (revoke name db).1.api_keys
  unfolding revoke
  revoke-IsOff name db off = elim (Option-cases (find (has_public_id name) db.api_keys)) [
    | inl missing ↦ rw missing off
    | inr (k, found) ↦ rw found (
        All-update IsOff (has_public_id name) switched_off db.api_keys
          (λ x was hit same. ((was same).0, refl)) off)
  ]

  All-find_many :
      (P : ApiKey → Type 0) (p : ApiKey → Bool) (ks : List ApiKey)
      → All P ks
      → All P (find_many p ks)
  All-find_many P p [] off = tt
  All-find_many P p (k ∷ ks) (first, off) = elim (Bool-cases (p k)) [
    | inl kept ↦ rw kept (first, All-find_many P p ks off)
    | inr gone ↦ rw gone (All-find_many P p ks off)
  ]

  -- A raw key with the hash opens nothing.
  validate_off :
      (now : ℕ) (raw : String) (db : Db)
      → texts.hash raw ≡ h
      → All IsOff db.api_keys
      → validate texts now raw db ≡ (ok none, db)
  unfolding validate
  validate_off now raw db same off = elim (Bool-cases (texts.starts raw)) [
    | inr foreign ↦ rw foreign refl
    | inl ours ↦ elim (Option-cases (find (has_hash h) db.api_keys)) [
      | inl missing ↦ rw (ours, same) (rw missing refl)
      | inr (k, found) ↦
          let off_k = All-find IsOff (has_hash h) db.api_keys off found in
          let shut = (off_k (find_sound (has_hash h) db.api_keys found)).1 in
          rw (ours, same) (rw found (rw shut refl))
    ]
  ]

  validate-IsOff :
      (now : ℕ) (raw : String) (db : Db)
      → All IsOff db.api_keys
      → All IsOff (validate texts now raw db).1.api_keys
  unfolding validate
  validate-IsOff now raw db off = elim (Bool-cases (texts.starts raw)) [
    | inr foreign ↦ rw foreign off
    | inl ours ↦ elim (Option-cases (opened now (find (has_hash (texts.hash raw)) db.api_keys))) [
      | inl shut ↦ rw ours (rw shut off)
      | inr (k, open_) ↦
          rw ours (
            rw open_ (All-update IsOff (has_id k.id) (used now) db.api_keys (λ x was hit. was) off))
    ]
  ]

  history-IsOff :
      (calls : List Call) (db : Db)
      → All (λ c. restores texts h public_id c ≡ false) calls
      → All IsOff db.api_keys
      → All IsOff (history texts calls db).api_keys
  unfolding history perform delete_key
  history-IsOff [] db others off = off
  history-IsOff (to_create now uuid raw user input ∷ cs) db (other, others) off =
      history-IsOff cs _ others (create_key-IsOff now uuid raw user input db other off)
  history-IsOff (to_update name input ∷ cs) db (other, others) off =
      history-IsOff cs _ others (update_key-IsOff name input db other off)
  history-IsOff (to_revoke name ∷ cs) db (_, others) off =
      history-IsOff cs _ others (revoke-IsOff name db off)
  history-IsOff (to_delete name ∷ cs) db (_, others) off =
      history-IsOff cs _ others (All-find_many IsOff _ db.api_keys off)
  history-IsOff (to_validate now raw ∷ cs) db (_, others) off =
      history-IsOff cs _ others (validate-IsOff now raw db off)

-- A key, the only one with its hash, is revoked, and then any calls are made, which neither change
-- the key's row by an update nor draw the same key again. Its raw key, whenever it is presented
-- after them, opens nothing, and the attempt changes nothing.
pub revoke-validate :
    (texts : Texts) (public_id raw : String) (calls : List Call) (now : ℕ) (db : Db) {k : ApiKey}
    → find (has_public_id public_id) db.api_keys ≡ some k
    → k.key_hash ≡ texts.hash raw
    → count (has_hash (texts.hash raw)) db.api_keys ≡ 1
    → All (λ c. restores texts (texts.hash raw) public_id c ≡ false) calls
    → let after = history texts calls (revoke public_id db).1 in
      validate texts now raw after ≡ (ok none, after)
unfolding revoke
revoke-validate texts public_id raw calls now db {k} found named one others =
    let h = texts.hash raw in
    let mine : has_hash h k ≡ true = (str_eq_iff k.key_hash h).1 named in
    let its : k.public_id ≡ public_id =
      (str_eq_iff k.public_id public_id).0
        (find_sound (has_public_id public_id) db.api_keys found) in
    let off : All (IsOff texts h public_id)
        (update (has_public_id public_id) switched_off db.api_keys) =
      All-update_one (has_hash h) (has_public_id public_id) switched_off
        (λ x. (x.public_id ≡ public_id) × (x.is_active ≡ false)) db.api_keys found mine one
        (its, refl) in
    validate_off texts h public_id now raw _ refl
      (history-IsOff texts h public_id calls _ others (rw found off))
