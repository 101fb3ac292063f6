-- ===== src/Cards/Defaults.antt =====
-- The default card over the calls of the service (src/modules/payments/bank-cards.service.ts).
mod Reads
unfoldable pub use Reads.*
use vpn_saas.Base.{
  ℕ, ◌+◌, ◌≤◌, ◌≡◌, refl, Bool, true, false, Option, none, some, String, List, [], ◌∷◌, arith, sym,
  inl, inr, Bool-cases, Option-cases, if◌then◌else◌,
}
use mathlib.Core.Path.{subst}
use vpn_saas.Base.Table.{count, update_many, update, find}
use vpn_saas.Base.Table.Laws.{count-create, count-update_many, count-update_le, count-update_kept}
use vpn_saas.Store.{Action, get_or, resume, when, resume_leads, reads_leads, throw_if}
use vpn_saas.Store.Rows.{Db}
use vpn_saas.Store.Rows.Cards.{BankCard}
use vpn_saas.Cards.{
  no_change, checked_if, CardInput, CardUpdate, Changes, is_default, demoted, disabled, changed,
  has_public_id, new_card, card_of, check_update, checked_card_number, checked_text, checked_sheba,
  clear_default, create_card, update_card, remove_card, set_active, set_default,
}

-- How many cards are the default.
abbrev pub defaults : Db → ℕ
defaults db = count is_default db.bank_cards

-- One card at most is the default, counted with the one that is to become it.
abbrev HasRoom : Option Bool → Db → Type 0
HasRoom chosen db = defaults db + (if get_or chosen false then 1 else 0) ≤ 1

cleared :
    (chosen : Option Bool) (db : Db)
    → defaults db ≤ 1
    → HasRoom chosen (when (get_or chosen false) clear_default db).1
unfolding clear_default
cleared none db one = omega arith
cleared (some false) db one = omega arith
cleared (some true) db one =
    let gone = count-update_many is_default demoted db.bank_cards (λ c. refl) in omega (arith, gone)

create_card-defaults :
    (upper : List ℕ → List ℕ) (uuid : String) (input : CardInput) (admin : Option ℕ) (db : Db)
    → defaults db ≤ 1
    → defaults (create_card upper uuid input admin db).1 ≤ 1
unfolding create_card
create_card-defaults upper uuid input admin db one =
    let Q = HasRoom input.is_default in
    let P : Db → Type 0 = λ s. defaults s ≤ 1 in
    let stop : (s : Db) → Q s → P s = λ s q. omega arith in
    resume_leads Q P (when (get_or input.is_default false) clear_default db) _
      (cleared input.is_default db one) stop
      (λ _ s1 q1.
        reads_leads Q P (checked_card_number input.card_number) _ s1
          (checked_card_number-Reads input.card_number) q1 stop
          (λ number s2 q2.
            reads_leads Q P (checked_text input.card_holder "Card holder") _ s2
              (checked_text-Reads input.card_holder "Card holder") q2 stop
              (λ holder s3 q3.
                reads_leads Q P (checked_text input.bank_name "Bank name") _ s3
                  (checked_text-Reads input.bank_name "Bank name") q3 stop
                  (λ bank s4 q4.
                    reads_leads Q P (checked_sheba upper input.sheba_number) _ s4
                      (checked_sheba-Reads upper input.sheba_number) q4 stop
                      (λ sheba s5 q5.
                        let card =
                          new_card uuid input number holder bank sheba admin s5.bank_cards in
                        let more = count-create is_default card s5.bank_cards in
                        omega (arith, more))))))

changed-defaults :
    (public_id : String) (input : CardUpdate) (checked : Changes) (db : Db)
    → HasRoom input.is_default db
    → count is_default (update (has_public_id public_id) (changed input checked) db.bank_cards) ≤ 1
changed-defaults public_id input checked db room =
    elim (Bool-cases (get_or input.is_default false)) [
      | inl chosen ↦
          let none_left = rw chosen at room in
          omega (
            arith,
            count-update_le is_default (has_public_id public_id) (changed input checked)
                db.bank_cards,
          )
      | inr kept ↦
          let same : (c : BankCard)
              → is_default (changed input checked c) ≡ true
              → is_default c ≡ true =
            λ c h. elim (Option-cases input.is_default) [
              | inl absent ↦ rw absent at h
              | inr (b, given) ↦ absurd (let off = rw given at kept in let on = rw given at h in cc)
            ] in
          omega (
            arith,
            count-update_kept is_default (has_public_id public_id) (changed input checked)
                db.bank_cards same,
          )
    ]

update_card-defaults :
    (upper : List ℕ → List ℕ) (public_id : String) (input : CardUpdate) (admin : Option ℕ) (db : Db)
    → defaults db ≤ 1
    → defaults (update_card upper public_id input admin db).1 ≤ 1
unfolding update_card
update_card-defaults upper public_id input admin db one =
    let Q = HasRoom input.is_default in
    let P : Db → Type 0 = λ s. defaults s ≤ 1 in
    let stop : (s : Db) → Q s → P s = λ s q. omega arith in
    reads_leads P P (card_of public_id) _ db (card_of-Reads public_id) one (λ s p. p)
      (λ existing s1 p1.
        resume_leads Q P (when (get_or input.is_default false) clear_default s1) _
          (cleared input.is_default s1 p1) stop
          (λ _ s2 q2.
            reads_leads Q P (check_update upper input) _ s2 (check_update-Reads upper input) q2 stop
              (λ checked s3 q3.
                subst P (sym (card_of-Reads public_id _))
                  (changed-defaults public_id input checked s3 q3))))

remove_card-defaults :
    (public_id : String) (admin : Option ℕ) (db : Db)
    → defaults db ≤ 1
    → defaults (remove_card public_id admin db).1 ≤ 1
unfolding remove_card
remove_card-defaults public_id admin db one =
    let P : Db → Type 0 = λ s. defaults s ≤ 1 in
    reads_leads P P (card_of public_id) _ db (card_of-Reads public_id) one (λ s p. p)
      (λ c s p.
        let kept =
          count-update_kept is_default (has_public_id public_id) disabled s.bank_cards
            (λ x h. cc) in
        omega (arith, kept))

set_default-defaults :
    (upper : List ℕ → List ℕ) (public_id : String) (admin : Option ℕ) (db : Db)
    → defaults db ≤ 1
    → defaults (set_default upper public_id admin db).1 ≤ 1
unfolding set_default clear_default
set_default-defaults upper public_id admin db one =
    let P : Db → Type 0 = λ s. defaults s ≤ 1 in
    reads_leads P P (card_of public_id) _ db (card_of-Reads public_id) one (λ s p. p)
      (λ c s p. elim (Bool-cases c.is_active) [
        | inr off ↦ rw off p
        | inl on ↦
            let gone = count-update_many is_default demoted s.bank_cards (λ x. refl) in
            rw on (
              update_card-defaults upper public_id (record no_change { is_default = some true })
                admin (record s { bank_cards = update_many is_default demoted s.bank_cards })
                (omega (arith, gone)))
      ])

-- The calls that write the cards.
pub data Call : Type 0 where
  to_create : String → CardInput → Option ℕ → Call
  to_update : String → CardUpdate → Option ℕ → Call
  to_remove : String → Option ℕ → Call
  to_set_active : String → Bool → Option ℕ → Call
  to_set_default : String → Option ℕ → Call

-- The database after a call, whether it has returned or thrown.
unfoldable pub perform : (List ℕ → List ℕ) → Call → Db → Db
unfolding create_card update_card remove_card set_active set_default
perform upper (to_create uuid input admin) db = (create_card upper uuid input admin db).1
perform upper (to_update public_id input admin) db = (update_card upper public_id input admin db).1
perform upper (to_remove public_id admin) db = (remove_card public_id admin db).1
perform upper (to_set_active public_id on admin) db = (set_active upper public_id on admin db).1
perform upper (to_set_default public_id admin) db = (set_default upper public_id admin db).1

unfoldable pub history : (List ℕ → List ℕ) → List Call → Db → Db
unfolding perform
history upper [] db = db
history upper (c ∷ cs) db = history upper cs (perform upper c db)

perform-defaults :
    (upper : List ℕ → List ℕ) (c : Call) (db : Db)
    → defaults db ≤ 1
    → defaults (perform upper c db) ≤ 1
unfolding perform set_active
perform-defaults upper (to_create uuid input admin) db one =
    create_card-defaults upper uuid input admin db one
perform-defaults upper (to_update public_id input admin) db one =
    update_card-defaults upper public_id input admin db one
perform-defaults upper (to_remove public_id admin) db one =
    remove_card-defaults public_id admin db one
perform-defaults upper (to_set_active public_id on admin) db one =
    update_card-defaults upper public_id
      (record no_change { is_active = some on; is_default = if on then none else some false }) admin
      db one
perform-defaults upper (to_set_default public_id admin) db one =
    set_default-defaults upper public_id admin db one

-- Whatever calls create, change, disable or promote cards, and whether each returns or throws on the
-- way: where one card at most was the default, one at most is.
pub history-defaults :
    (upper : List ℕ → List ℕ) (calls : List Call) (db : Db)
    → defaults db ≤ 1
    → defaults (history upper calls db) ≤ 1
unfolding history
history-defaults upper [] db one = one
history-defaults upper (c ∷ cs) db one =
    history-defaults upper cs (perform upper c db) (perform-defaults upper c db one)
