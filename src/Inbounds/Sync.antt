-- ===== src/Inbounds/Sync.antt =====
-- A whole synchronization (`performSync` of src/modules/panels/panel-inbounds.service.ts).
use vpn_saas.Base.{
  ℕ, ◌+◌, ◌≡◌, refl, sym, ◌∙◌, ap, Bool, false, not, Option, some, String, List, [], ◌∷◌, ◌==◌,
  arith, inl, inr, length, str_eq,
}
use mathlib.Core.Path.{subst}
use vpn_saas.Base.Table.{find, count}
use vpn_saas.Store.{
  ok, business, ErrorCode, or_throw, throw_if, on_error, resume-eq-ok, or_throw-eq-ok,
  throw_if-eq-ok, rescued-eq-ok, ok-injective, client_error, decryption_error, is_some,
}
use vpn_saas.Store.Rows.{VpnPanel, InboundConfig, Db}
use vpn_saas.Store.Rows.Sites.{Server}
use vpn_saas.Panels.{PanelConnection, get_connection, get_client}
use vpn_saas.Vpn.{is_active_xui}
use vpn_saas.Xui.Clients.{XuiInbound}
use vpn_saas.Inbounds.{
  InboundSyncResult, conflict, is_inbound, is_panel, listing, note_failure, store_inbounds,
  perform_sync,
}
use vpn_saas.Inbounds.Mirror.{seen, listed_or_dropped, last_listed, stored-seen, stored-other}

count_not :
    {A : Type 0} (p : A → Bool) (xs : List A) → count (λ x. not (p x)) xs + count p xs ≡ length xs
count_not p [] = refl
count_not p (x ∷ xs) = ground (arith, count_not p xs)

-- The connection of the panel's own row, with its key decrypted.
pub record IsConnected (decrypt : String → Option String) (panel : ℕ) (db : Db)
    (c : PanelConnection) : Type 0 where
  pub row : VpnPanel
  pub at_panel : find (λ (p : VpnPanel). p.id == panel) db.panels ≡ some row
  pub key : String
  pub decrypts : decrypt row.api_key ≡ some key
  pub connection : c ≡ (record { id = row.id; type = row.type; api_key = key })

get_connection-row :
    (decrypt : String → Option String) (panel : ℕ) (db : Db) {c : PanelConnection} {s : Db}
    → get_connection decrypt panel db ≡ (ok c, s)
    → (s ≡ db) × IsConnected decrypt panel db c
unfolding get_connection
get_connection-row decrypt panel db run =
    let (p, s1, found, run1) =
      resume-eq-ok
        (or_throw (find (λ (v : VpnPanel). v.id == panel) db.panels)
          (business ErrorCode.not_found "Panel not found") db)
        _ run in
    let (u, s2, guard, run2) =
      resume-eq-ok
        (throw_if (not (str_eq p.status "ACTIVE")) (business ErrorCode.conflict "Panel is inactive")
          s1)
        _ run1 in
    let (key, s3, plain, run3) =
      resume-eq-ok (or_throw (decrypt p.api_key) decryption_error s2) _ run2 in
    let (at, same) = or_throw-eq-ok _ _ db found in
    let (opened, same3) = or_throw-eq-ok (decrypt p.api_key) decryption_error s2 plain in
    (
      sym (ok-injective run3).1 ∙ same3 ∙ (throw_if-eq-ok _ _ s1 guard).1 ∙ same,
      record {
        row = p;
        at_panel = at;
        key = key;
        decrypts = opened;
        connection = sym (ok-injective run3).0;
      },
    )

-- The table of inbounds after a listing of the panel.
pub record Mirrors (panel : ℕ) (remote : List XuiInbound) (before after : List InboundConfig)
    : Type 0 where
  pub own :
      (n : ℕ)
      → seen (find (is_inbound panel n) after)
        ≡ listed_or_dropped (last_listed n remote) (seen (find (is_inbound panel n) before))
  pub others :
      (q n : ℕ) → (panel == q) ≡ false → find (is_inbound q n) after ≡ find (is_inbound q n) before

module _ (decrypt : String → Option String) (upper : List ℕ → List ℕ)
    (listed : PanelConnection → Option (List XuiInbound)) (now panel : ℕ) where
  listing-state :
      (db : Db) {remote : List XuiInbound} {s : Db}
      → listing decrypt upper listed now panel db ≡ (ok remote, s)
      → (s ≡ db) × (c : PanelConnection) × IsConnected decrypt panel db c × (listed c ≡ some remote)
  unfolding get_client
  listing-state db run =
      let (c, s1, connected, run1) = resume-eq-ok (get_connection decrypt panel db) _ run in
      let (there, same) = or_throw-eq-ok (listed c) (client_error "") s1 run1 in
      let (kept, own) = get_connection-row decrypt panel db connected in
      (same ∙ kept, c, own, there)

  -- A listing that fails ends the synchronization.
  listed-state :
      (db : Db) {remote : List XuiInbound} {s : Db}
      → on_error
          (listing decrypt upper listed now panel)
          (note_failure decrypt upper listed now panel)
          db
        ≡ (ok remote, s)
      → (s ≡ db) × (c : PanelConnection) × IsConnected decrypt panel db c × (listed c ≡ some remote)
  listed-state db run =
      elim (rescued-eq-ok (listing decrypt upper listed now panel db)
        (note_failure decrypt upper listed now panel) run) [
          | inl lists ↦ listing-state db lists
          | inr (e, s, failed, handled) ↦ absurd (cc)
        ]

  stored-Mirrors :
      (server : ℕ) (remote : List XuiInbound) (db : Db) {result : InboundSyncResult} {after : Db}
      → store_inbounds decrypt upper listed now panel server remote db ≡ (ok result, after)
      → Mirrors panel remote db.inbounds after.inbounds
        × (result.created + result.updated ≡ length remote)
  unfolding store_inbounds
  stored-Mirrors server remote db run =
      let (results, states) = ok-injective run in
      let rows = ap (λ (d : Db). d.inbounds) states in
      (
        record {
          own = λ n.
              ap (λ t. seen (find (is_inbound panel n) t)) (sym rows)
              ∙ stored-seen upper panel server remote n db.inbounds;
          others = λ q n apart.
              ap (find (is_inbound q n)) (sym rows)
              ∙ stored-other upper panel server remote q n db.inbounds apart;
        },
        ap (λ (r : InboundSyncResult). r.created + r.updated) (sym results)
            ∙ count_not (λ (r : XuiInbound). is_some (find (is_inbound panel r.id) db.inbounds))
                remote,
      )

  -- A synchronization of a panel that returns has listed its inbounds, over the connection of the
  -- panel's own row with its key decrypted. Afterwards each listed inbound has a row that is present, enabled and compatible as the panel says, where the exclusion and
  -- the permission to provision are those of the earlier row, if there was one; a row that is no
  -- longer listed is neither active nor compatible; the rows of other panels are found as before;
  -- and the created and the updated rows are as many as the listed inbounds.
  pub perform_sync-Mirrors :
      (db : Db) {result : InboundSyncResult} {after : Db}
      → perform_sync decrypt upper listed now panel db ≡ (ok result, after)
      → (remote : List XuiInbound) × ((c : PanelConnection) × IsConnected decrypt panel db c
          × (listed c ≡ some remote))
        × Mirrors panel remote db.inbounds after.inbounds
        × (result.created + result.updated ≡ length remote)
  unfolding perform_sync
  perform_sync-Mirrors db {result} {after} run =
      let (p, s1, found, run1) =
        resume-eq-ok
          (or_throw (find (is_panel panel) db.panels)
            (business ErrorCode.not_found "Panel not found") db)
          _ run in
      let (u, s2, guard, run2) =
        resume-eq-ok
          (throw_if (not (is_active_xui p)) (conflict "Panel is not an enabled XUI panel") s1) _
          run1 in
      let (server, s3, at, run3) =
        resume-eq-ok
          (or_throw (find (λ (s : Server). s.panel_id == panel) s2.servers)
            (conflict "Panel has no server for inbound synchronization") s2)
          _ run2 in
      let (remote, s4, lists, run4) =
        resume-eq-ok
          (on_error (listing decrypt upper listed now panel)
            (note_failure decrypt upper listed now panel) s3)
          _ run3 in
      let (kept, c, own, answer) = listed-state s3 lists in
      let first : s3 ≡ db =
        (or_throw-eq-ok _ _ s2 at).1
        ∙ (throw_if-eq-ok _ _ s1 guard).1
        ∙ (or_throw-eq-ok _ _ db found).1 in
      let connected = subst (λ d. IsConnected decrypt panel d c) first own in
      let same : s4.inbounds ≡ db.inbounds = ap (λ (d : Db). d.inbounds) (kept ∙ first) in
      let (mirrors, counts) = stored-Mirrors server.id remote s4 run4 in
      (
        remote,
        (c, connected, answer),
        subst (λ t. Mirrors panel remote t after.inbounds) same mirrors,
        counts,
      )
