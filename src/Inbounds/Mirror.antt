-- ===== src/Inbounds/Mirror.antt =====
-- The rows of inbounds, one by one, before and after a synchronization
-- (src/modules/panels/panel-inbounds.service.ts).
use vpn_saas.Base.{
  ℕ, ◌≡◌, refl, sym, ◌∙◌, ap, Bool, true, false, ◌&&◌, not, Option, none, some, List, [], ◌∷◌, ◌==◌,
  arith, inl, inr, Bool-cases, Option-cases, if◌then◌else◌, ==_iff, ==-refl,
}
use mathlib.Core.Path.{subst}
use vpn_saas.Base.Table.{find, update_many}
use vpn_saas.Base.Table.Laws.{
  find_sound, find-create_new, find-create_other, find-update_same, find-update_other,
  find-update_many-written, written,
}
use vpn_saas.Store.{is_some}
use vpn_saas.Store.Rows.{InboundConfig}
use vpn_saas.Xui.Clients.{XuiInbound}
use vpn_saas.Inbounds.{
  is_inbound, created_row, updated_row, is_remote, is_gone, withdrawn, upsert, upsert_all,
}

-- What decides whether an inbound is used.
pub record Flags : Type 0 where
  pub active : Bool
  pub present : Bool
  pub provisionable : Bool
  pub excluded : Bool
  pub compatible : Bool

abbrev pub flags : InboundConfig → Flags
flags i = record {
  active = i.is_active;
  present = i.is_remote_present;
  provisionable = i.is_provisionable;
  excluded = i.is_excluded;
  compatible = i.is_client_compatible;
}

abbrev pub seen : Option InboundConfig → Option Flags
seen none = none
seen (some i) = some (flags i)

-- The flags under which a listed inbound is kept: what the panel says of it, and what the
-- administrators have set for it before.
abbrev pub mirrored : XuiInbound → Option Flags → Option Flags
mirrored r none = some (record {
  active = r.enabled;
  present = true;
  provisionable = true;
  excluded = false;
  compatible = r.client_compatible;
})
mirrored r (some f) =
    some (record f { active = r.enabled; present = true; compatible = r.client_compatible })

abbrev pub dropped : Option Flags → Option Flags
dropped none = none
dropped (some f) =
    some (if f.present then record f { active = false; present = false; compatible = false } else f)

abbrev later : Option XuiInbound → Option XuiInbound → Option XuiInbound
later none o = o
later (some r) o = some r

-- The last inbound of a listing with an id.
abbrev pub last_listed : ℕ → List XuiInbound → Option XuiInbound
last_listed n [] = none
last_listed n (r ∷ rs) = later (last_listed n rs) (if r.id == n then some r else none)

abbrev pub listed_or_dropped : Option XuiInbound → Option Flags → Option Flags
listed_or_dropped none o = dropped o
listed_or_dropped (some r) o = mirrored r o

abbrev if_listed : Option XuiInbound → Option Flags → Option Flags
if_listed none o = o
if_listed (some r) o = mirrored r o

mirrored_again : (r s : XuiInbound) (o : Option Flags) → mirrored r (mirrored s o) ≡ mirrored r o
mirrored_again r s none = refl
mirrored_again r s (some f) = refl

if_listed-later :
    (a b : Option XuiInbound) (o : Option Flags)
    → if_listed a (if_listed b o) ≡ if_listed (later a b) o
if_listed-later none b o = refl
if_listed-later (some r) none o = refl
if_listed-later (some r) (some s) o = mirrored_again r s o

is_remote-last_listed : (n : ℕ) (rs : List XuiInbound) → is_remote rs n ≡ is_some (last_listed n rs)
is_remote-last_listed n [] = refl
is_remote-last_listed n (r ∷ rs) =
    let rest = is_remote-last_listed n rs in
    elim (Option-cases (last_listed n rs)) [
      | inl none_later ↦ elim (Bool-cases (r.id == n)) [
        | inl hit ↦ rw hit (rw none_later refl)
        | inr miss ↦ rw miss (rw none_later (rest ∙ rw none_later refl))
      ]
      | inr (s, some_later) ↦ elim (Bool-cases (r.id == n)) [
        | inl hit ↦ rw hit (rw some_later refl)
        | inr miss ↦ rw miss (rw some_later (rest ∙ rw some_later refl))
      ]
    ]

module _ (upper : List ℕ → List ℕ) (panel server : ℕ) where
  upsert-seen_same :
      (r : XuiInbound) (rows : List InboundConfig)
      → seen (find (is_inbound panel r.id) (upsert upper panel server r rows))
        ≡ mirrored r (seen (find (is_inbound panel r.id) rows))
  upsert-seen_same r rows = elim (Option-cases (find (is_inbound panel r.id) rows)) [
    | inl missing ↦ rw missing (
        rw
          (find-create_new (is_inbound panel r.id) (created_row upper panel server r rows) rows
            missing)
          (rw (==-refl panel, ==-refl r.id) refl))
    | inr (i, found) ↦ rw found (
        rw
          (find-update_same (is_inbound panel r.id) (is_inbound panel r.id) (updated_row upper r)
            rows found found (find_sound (is_inbound panel r.id) rows found))
          refl)
  ]

  upsert-other :
      (r : XuiInbound) (q n : ℕ) (rows : List InboundConfig)
      → (panel == q && (r.id == n)) ≡ false
      → find (is_inbound q n) (upsert upper panel server r rows) ≡ find (is_inbound q n) rows
  upsert-other r q n rows other = elim (Option-cases (find (is_inbound panel r.id) rows)) [
    | inl missing ↦
        rw missing
          (find-create_other (is_inbound q n) (created_row upper panel server r rows) rows other)
    | inr (i, found) ↦ rw found (
        find-update_other (is_inbound panel r.id) (is_inbound q n) (updated_row upper r) rows
          (λ x hit.
            let apart : (x.panel_id == q && x.inbound_id == n) ≡ false = ground arith in
            (apart, apart)))
  ]

  upsert_all-seen :
      (rs : List XuiInbound) (n : ℕ) (rows : List InboundConfig)
      → seen (find (is_inbound panel n) (upsert_all upper panel server rs rows))
        ≡ if_listed (last_listed n rs) (seen (find (is_inbound panel n) rows))
  upsert_all-seen [] n rows = refl
  upsert_all-seen (r ∷ rs) n rows =
      let old = seen (find (is_inbound panel n) rows) in
      upsert_all-seen rs n (upsert upper panel server r rows) ∙ elim (Bool-cases (r.id == n)) [
        | inl same ↦
            let step =
              subst
                (λ m.
                  seen (find (is_inbound panel m) (upsert upper panel server r rows))
                  ≡ mirrored r (seen (find (is_inbound panel m) rows)))
                ((==_iff r.id n).0 same) (upsert-seen_same r rows) in
            rw same (rw step (if_listed-later (last_listed n rs) (some r) old))
        | inr other ↦
            let step = upsert-other r panel n rows (rw (==-refl panel) other) in
            rw other (rw step (if_listed-later (last_listed n rs) none old))
      ]

  upsert_all-other :
      (rs : List XuiInbound) (q n : ℕ) (rows : List InboundConfig)
      → (panel == q) ≡ false
      → find (is_inbound q n) (upsert_all upper panel server rs rows) ≡ find (is_inbound q n) rows
  upsert_all-other [] q n rows apart = refl
  upsert_all-other (r ∷ rs) q n rows apart =
      upsert_all-other rs q n (upsert upper panel server r rows) apart
      ∙ upsert-other r q n rows (rw apart refl)

  is_gone-remote :
      (remote : List XuiInbound) (n : ℕ) (i : InboundConfig)
      → is_inbound panel n i ≡ true
      → is_gone panel remote i ≡ (not (is_remote remote n) && i.is_remote_present)
  is_gone-remote remote n i own =
      let here : (i.panel_id == panel) ≡ true = ground arith in
      let same : i.inbound_id ≡ n = ground arith in
      rw here (ap (λ m. not (is_remote remote m) && i.is_remote_present) same)

  withdrawn-seen :
      (remote : List XuiInbound) (n : ℕ) (o : Option InboundConfig) (l : Option XuiInbound)
      (before : Option Flags)
      → ((i : InboundConfig) → o ≡ some i → is_inbound panel n i ≡ true)
      → is_remote remote n ≡ is_some l
      → seen o ≡ if_listed l before
      → seen (written (is_gone panel remote) withdrawn o) ≡ listed_or_dropped l before
  withdrawn-seen remote n none none none own listed e = refl
  withdrawn-seen remote n none none (some f) own listed e = cc
  withdrawn-seen remote n none (some r) none own listed e = cc
  withdrawn-seen remote n none (some r) (some f) own listed e = cc
  withdrawn-seen remote n (some i) (some r) before own listed e =
      rw (is_gone-remote remote n i (own i refl)) (rw listed e)
  withdrawn-seen remote n (some i) none before own listed e =
      let test = is_gone-remote remote n i (own i refl) in
      elim (Bool-cases i.is_remote_present) [
        | inl there ↦ rw test (rw (listed, there) (sym (ap dropped (sym e) ∙ rw there refl)))
        | inr absent ↦ rw test (rw (listed, absent) (sym (ap dropped (sym e) ∙ rw absent refl)))
      ]

  -- The row of an id after both writes.
  pub stored-seen :
      (remote : List XuiInbound) (n : ℕ) (rows : List InboundConfig)
      → seen (
          find (is_inbound panel n) (
            update_many
              (is_gone panel remote)
              withdrawn
              (upsert_all upper panel server remote rows)))
        ≡ listed_or_dropped (last_listed n remote) (seen (find (is_inbound panel n) rows))
  stored-seen remote n rows =
      let middle = upsert_all upper panel server remote rows in
      ap seen (
        find-update_many-written (is_gone panel remote) (is_inbound panel n) withdrawn middle
          (λ x. refl))
      ∙ withdrawn-seen remote n (find (is_inbound panel n) middle) (last_listed n remote)
          (seen (find (is_inbound panel n) rows))
          (λ i found. find_sound (is_inbound panel n) middle found) (is_remote-last_listed n remote)
          (upsert_all-seen remote n rows)

  pub stored-other :
      (remote : List XuiInbound) (q n : ℕ) (rows : List InboundConfig)
      → (panel == q) ≡ false
      → find
          (is_inbound q n)
          (update_many (is_gone panel remote) withdrawn (upsert_all upper panel server remote rows))
        ≡ find (is_inbound q n) rows
  stored-other remote q n rows apart =
      let middle = upsert_all upper panel server remote rows in
      find-update_many-written (is_gone panel remote) (is_inbound q n) withdrawn middle (λ x. refl)
      ∙ elim (Option-cases (find (is_inbound q n) middle)) [
        | inl missing ↦ rw missing (sym missing ∙ upsert_all-other remote q n rows apart)
        | inr (i, found) ↦
            let own = find_sound (is_inbound q n) middle found in
            let away : (i.panel_id == panel) ≡ false = ground arith in
            rw found (rw away (sym found ∙ upsert_all-other remote q n rows apart))
      ]
