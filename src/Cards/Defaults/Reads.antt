-- ===== src/Cards/Defaults/Reads.antt =====
-- The checks of an input as calls that only read (src/modules/payments/bank-cards.service.ts).
use vpn_saas.Base.{ℕ, ◌≡◌, refl, Option, none, some, String, List, inl, inr, Option-cases}
use vpn_saas.Base.Table.{find}
use vpn_saas.Store.{Action, resume_leads, Reads, reads_leads, throw_if}
use vpn_saas.Store.Rows.{Db}
use vpn_saas.Cards.{
  checked_if, CardUpdate, has_public_id, card_of, check_update, checked_card_number, checked_text,
  checked_sheba,
}

pub checked_card_number-Reads : (value : List ℕ) → Reads (checked_card_number value)
checked_card_number-Reads value db =
    resume_leads (λ s. s ≡ db) (λ s. s ≡ db) (throw_if _ _ db) _ refl (λ s e. e) (λ a s e. e)

pub checked_text-Reads : (value : List ℕ) (field : String) → Reads (checked_text value field)
checked_text-Reads value field db =
    resume_leads (λ s. s ≡ db) (λ s. s ≡ db) (throw_if _ _ db) _ refl (λ s e. e) (λ a s e. e)

pub checked_sheba-Reads :
    (upper : List ℕ → List ℕ) (o : Option (List ℕ)) → Reads (checked_sheba upper o)
checked_sheba-Reads upper none db = refl
checked_sheba-Reads upper (some value) db =
    resume_leads (λ s. s ≡ db) (λ s. s ≡ db) (throw_if _ _ db) _ refl (λ s e. e) (λ a s e. e)

checked_if-Reads :
    {A B : Type 0} (check : A → Action B) (o : Option A)
    → ((a : A) → Reads (check a))
    → Reads (checked_if check o)
checked_if-Reads check none reads db = refl
checked_if-Reads check (some a) reads db =
    resume_leads (λ s. s ≡ db) (λ s. s ≡ db) (check a db) _ (reads a db) (λ s e. e) (λ b s e. e)

pub card_of-Reads : (public_id : String) → Reads (card_of public_id)
card_of-Reads public_id db = elim (Option-cases (find (has_public_id public_id) db.bank_cards)) [
  | inl missing ↦ rw missing refl
  | inr (c, found) ↦ rw found refl
]

pub check_update-Reads :
    (upper : List ℕ → List ℕ) (input : CardUpdate) → Reads (check_update upper input)
check_update-Reads upper input db =
    let Same : Db → Type 0 = λ s. s ≡ db in
    let stop : (s : Db) → Same s → Same s = λ s e. e in
    reads_leads Same Same (checked_if checked_card_number input.card_number) _ db
      (checked_if-Reads checked_card_number input.card_number checked_card_number-Reads) refl stop
      (λ number s1 e1.
        reads_leads Same Same (checked_if (λ v. checked_text v "Card holder") input.card_holder) _
          s1
          (checked_if-Reads (λ v. checked_text v "Card holder") input.card_holder
            (λ v. checked_text-Reads v "Card holder"))
          e1 stop
          (λ holder s2 e2.
            reads_leads Same Same (checked_if (λ v. checked_text v "Bank name") input.bank_name) _
              s2
              (checked_if-Reads (λ v. checked_text v "Bank name") input.bank_name
                (λ v. checked_text-Reads v "Bank name"))
              e2 stop
              (λ bank s3 e3.
                reads_leads Same Same (checked_if (checked_sheba upper) input.sheba_number) _ s3
                  (checked_if-Reads (checked_sheba upper) input.sheba_number
                    (checked_sheba-Reads upper))
                  e3 stop (λ sheba s4 e4. e4))))
