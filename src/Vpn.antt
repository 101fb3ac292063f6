-- ===== src/Vpn.antt =====
-- The choice of the panel and of the inbounds for a new subscription: `selectProvisioningTarget` and
-- `snapshotTarget` of src/modules/vpn/vpn.service.ts, `isEligibleXuiInbound` and `eligibleInbounds`
-- of src/modules/panels/panel-inbounds.service.ts. Panels are listed by their age.
pub mod Target
pub mod Clients
pub mod Claims
pub mod Runtime
pub mod Provision
pub mod Pending
pub mod Status
use vpn_saas.Base.{
  ℕ, ◌^◌, Bool, true, false, ◌&&◌, ◌||◌, not, Option, none, some, List, [], ◌∷◌, map, ltb, ◌==◌,
  str_eq, if◌then◌else◌,
}
use vpn_saas.Base.Table.{find, find_many}
use vpn_saas.Store.{
  Action, pure, gets, or_throw, throw_if, ◌>>=◌, ◌>>◌, business, ErrorCode, truthy, same_id,
}
use vpn_saas.Store.Rows.{
  Plan, InboundPolicy, all_active, selected, VpnPanel, PanelType, xui, InboundConfig, Subscription,
  Db,
}

pub record ProvisioningTarget : Type 0 where
  pub panel_id : ℕ
  pub inbound_ids : List ℕ

abbrev pub is_xui : PanelType → Bool
is_xui xui = true
is_xui _ = false

abbrev pub is_active_xui : VpnPanel → Bool
is_active_xui panel = str_eq panel.status "ACTIVE" && is_xui panel.type

abbrev pub is_eligible : InboundConfig → Bool
is_eligible i =
    i.is_remote_present
    && (i.is_active
        && (i.is_provisionable
            && (not i.is_excluded
                && (i.is_client_compatible && (ltb i.inbound_id (2 ^ 53) && ltb 0 i.inbound_id)))))

abbrev eligible_rows : Option VpnPanel → ℕ → List InboundConfig → List InboundConfig
eligible_rows none panel_id inbounds = []
eligible_rows (some panel) panel_id inbounds =
    if is_active_xui panel
    then find_many is_eligible (find_many (λ (i : InboundConfig). i.panel_id == panel_id) inbounds)
    else []

unfoldable pub eligible_inbounds : ℕ → Db → List InboundConfig
eligible_inbounds panel_id db =
    eligible_rows (find (λ (p : VpnPanel). p.id == panel_id) db.panels) panel_id db.inbounds

-- `new Set(…)`: the first of each value.
unfoldable pub distinct : List ℕ → List ℕ
distinct [] = []
distinct (n ∷ ns) = n ∷ find_many (λ m. not (m == n)) (distinct ns)

insert_sorted : ℕ → List ℕ → List ℕ
insert_sorted n [] = n ∷ []
insert_sorted n (m ∷ ms) = if ltb m n then m ∷ insert_sorted n ms else n ∷ m ∷ ms

-- `sort((a, b) => a - b)`
unfoldable pub sorted : List ℕ → List ℕ
unfolding insert_sorted
sorted [] = []
sorted (n ∷ ns) = insert_sorted n (sorted ns)

abbrev is_selected : InboundPolicy → Bool
is_selected selected = true
is_selected all_active = false

-- The panel that the plan names, or the oldest active one.
abbrev pub panel_for : Option ℕ → Db → Option VpnPanel
panel_for none db = find is_active_xui db.panels
panel_for (some id) db = find (λ (p : VpnPanel). p.id == id && is_active_xui p) db.panels

abbrev pub is_empty : List ℕ → Bool
is_empty [] = true
is_empty (n ∷ ns) = false

-- The inbound ids for the plan on the panel.
unfoldable pub inbound_ids_for : Plan → ℕ → Db → List ℕ
unfolding eligible_inbounds distinct sorted
inbound_ids_for plan panel_id db = sorted (
    distinct (
      map (λ (i : InboundConfig). i.inbound_id)
        (find_many
          (λ (i : InboundConfig).
            not (is_selected plan.inbound_policy) || same_id plan.inbound_config_id i.id)
          (eligible_inbounds panel_id db))))

unfoldable pub select_provisioning_target : Plan → Action ProvisioningTarget
unfolding inbound_ids_for
select_provisioning_target plan = do
  panel ←
      or_throw (← gets (panel_for (truthy plan.panel_id)))
        (business ErrorCode.conflict "No enabled XUI panel is available for this plan")
  ids ← gets (inbound_ids_for plan panel.id)
  throw_if (is_empty ids)
      (business ErrorCode.conflict "No eligible active XUI inbound is available for this plan")
  pure (record { panel_id = panel.id; inbound_ids = ids })

abbrev as_target : Option ℕ → List ℕ → Option ProvisioningTarget
as_target none ids = none
as_target (some panel_id) ids =
    if is_empty ids then none else some (record { panel_id = panel_id; inbound_ids = ids })

-- The target that a subscription has kept.
unfoldable pub snapshot_target : Subscription → Option ProvisioningTarget
unfolding distinct sorted
snapshot_target sub =
    as_target (truthy sub.provisioning_panel_id)
      (sorted (distinct (find_many (λ n. ltb n (2 ^ 53) && ltb 0 n) sub.provisioning_inbound_ids)))
