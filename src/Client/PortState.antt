-- ===== src/Client/PortState.antt =====
-- client/core/port_state.h and client/core/port_state.cpp. The protobuf messages are generated
-- code: their types, and the fields that the code reads and writes, are a parameter.
pub mod Sync
pub mod Edits
pub mod Requests
use ostinato.Base.{
  ℕ, ◌≡◌, Bool, true, false, not, ◌&&◌, ◌||◌, Option, none, some, List, [], ◌∷◌, ◌++◌,
  if◌then◌else◌,
}
use ostinato.Base.OrderedSet.{contains, set_insert, insert_all, set_difference}
use ostinato.Base.OrderedMap.{keys, lookup, has_key, assign, erase}

-- `asSet`.
unfoldable pub as_set : List ℕ → List ℕ
as_set v = insert_all v []

pub record PortSyncState : Type 0 where
  pub streams : List ℕ
  pub device_groups : List ℕ
  pub modified_device_groups : List ℕ
  pub dirty : Bool

abbrev pub new_sync : PortSyncState
new_sync = record { streams = []; device_groups = []; modified_device_groups = []; dirty = false }

unfoldable pub mark_dirty : PortSyncState → PortSyncState
mark_dirty s = record s { dirty = true }

unfoldable pub clear_dirty : PortSyncState → PortSyncState
clear_dirty s = record s { dirty = false }

unfoldable pub mark_device_group_modified : ℕ → PortSyncState → PortSyncState
mark_device_group_modified id s = record s {
  modified_device_groups = set_insert id s.modified_device_groups;
  dirty = true;
}

unfoldable pub new_streams : PortSyncState → List ℕ → List ℕ
new_streams s current = set_difference (as_set current) s.streams

unfoldable pub deleted_streams : PortSyncState → List ℕ → List ℕ
deleted_streams s current = set_difference s.streams (as_set current)

unfoldable pub new_device_groups : PortSyncState → List ℕ → List ℕ
new_device_groups s current = set_difference (as_set current) s.device_groups

unfoldable pub deleted_device_groups : PortSyncState → List ℕ → List ℕ
deleted_device_groups s current = set_difference s.device_groups (as_set current)

-- The loop of `modifiedDeviceGroups` over the ids to modify.
unfoldable pub only_in : List ℕ → List ℕ → List ℕ
only_in current [] = []
only_in current (id ∷ ids) =
    let rest = only_in current ids in if contains id current then id ∷ rest else rest

unfoldable pub modified_device_groups : PortSyncState → List ℕ → List ℕ
modified_device_groups s current_ids =
    only_in (as_set current_ids)
      (insert_all (new_device_groups s current_ids) s.modified_device_groups)

unfoldable pub refresh_remote_baseline : List ℕ → List ℕ → PortSyncState → PortSyncState
refresh_remote_baseline ss gs s = record s { streams = as_set ss; device_groups = as_set gs }

unfoldable pub mark_device_groups_added_remote : List ℕ → PortSyncState → PortSyncState
mark_device_groups_added_remote ids s = record s { device_groups = insert_all ids s.device_groups }

unfoldable pub mark_sync_complete : List ℕ → List ℕ → PortSyncState → PortSyncState
mark_sync_complete ss gs s = record (refresh_remote_baseline ss gs s) {
  modified_device_groups = [];
  dirty = false;
}

-- `ApplyOperation::Kind`.
pub data ApplyOperation : Type 0 where
  delete_device_groups add_device_groups modify_device_groups : ApplyOperation
  refresh_devices delete_streams add_streams modify_streams : ApplyOperation
  resolve_neighbors build : ApplyOperation

unfoldable pub is_empty {ℓ} : {A : Type ℓ} → List A → Bool
is_empty [] = true
is_empty (x ∷ xs) = false

-- `if (test) operations_.push_back(operation)`.
unfoldable pub push_if : Bool → ApplyOperation → List ApplyOperation → List ApplyOperation
push_if test op plan = if test then plan ++ op ∷ [] else plan

-- `ApplyPlan::create`.
unfoldable pub create_plan {ℓ κ} :
    {S : Type ℓ} {G : Type κ} → List (ℕ × S) → List (ℕ × G) → PortSyncState → List ApplyOperation
create_plan streams groups sync =
    let stream_ids = keys streams in
    let group_ids = keys groups in
    let deleting = not (is_empty (deleted_device_groups sync group_ids)) in
    let adding = not (is_empty (new_device_groups sync group_ids)) in
    let modifying = not (is_empty (modified_device_groups sync group_ids)) in
    let plan = push_if deleting delete_device_groups [] in
    let plan' = push_if adding add_device_groups plan in
    let plan'' = push_if modifying modify_device_groups plan' in
    let with_devices = push_if (deleting || adding || modifying) refresh_devices plan'' in
    let removed =
      push_if (not (is_empty (deleted_streams sync stream_ids))) delete_streams with_devices in
    let added = push_if (not (is_empty (new_streams sync stream_ids))) add_streams removed in
    let modified = push_if (not (is_empty streams)) modify_streams added in
    modified ++ resolve_neighbors ∷ build ∷ []

-- The generated message classes.
pub record Messages : Type 1 where
  pub Stream : Type 0
  pub DeviceGroup : Type 0
  pub Port : Type 0
  pub PortDeviceList : Type 0
  pub PortStats : Type 0
  pub stream_id : Stream → ℕ
  pub device_group_id : DeviceGroup → ℕ
  -- A default message whose port id was set.
  pub port_of : ℕ → Port
  pub devices_of : ℕ → PortDeviceList
  pub stats_of : ℕ → PortStats
  pub has_state : PortStats → Bool
  pub is_transmit_on : PortStats → Bool
  pub is_capture_on : PortStats → Bool

module _ (M : Messages) where
  open M use {
    Stream, DeviceGroup, Port, PortDeviceList, PortStats, stream_id, device_group_id, port_of,
    devices_of, stats_of, has_state, is_transmit_on, is_capture_on,
  }

  pub record PortState : Type 0 where
    pub id : ℕ
    pub config : Port
    pub streams : List (ℕ × Stream)
    pub groups : List (ℕ × DeviceGroup)
    pub devices : PortDeviceList
    pub stats : PortStats
    pub sync : PortSyncState
    pub transmitting : Bool
    pub capturing : Bool

  unfoldable pub new_port : ℕ → PortState
  new_port id = record {
    id = id;
    config = port_of id;
    streams = [];
    groups = [];
    devices = devices_of id;
    stats = stats_of id;
    sync = new_sync;
    transmitting = false;
    capturing = false;
  }

  unfoldable pub hydrate_config : Port → PortState → PortState
  hydrate_config value p = record p { config = value }

  -- The loops of `hydrateStreams` and `hydrateDeviceGroups` over a map that was cleared.
  unfoldable pub assign_streams : List Stream → List (ℕ × Stream) → List (ℕ × Stream)
  assign_streams [] m = m
  assign_streams (v ∷ vs) m = assign_streams vs (assign (stream_id v) v m)

  unfoldable pub assign_groups : List DeviceGroup → List (ℕ × DeviceGroup) → List (ℕ × DeviceGroup)
  assign_groups [] m = m
  assign_groups (v ∷ vs) m = assign_groups vs (assign (device_group_id v) v m)

  unfoldable pub hydrate_streams : List Stream → PortState → PortState
  hydrate_streams values p = record p { streams = assign_streams values [] }

  unfoldable pub hydrate_device_groups : List DeviceGroup → PortState → PortState
  hydrate_device_groups values p = record p { groups = assign_groups values [] }

  unfoldable pub hydrate_devices : PortDeviceList → PortState → PortState
  hydrate_devices value p = record p { devices = value }

  unfoldable pub hydrate_stats : PortStats → PortState → PortState
  hydrate_stats value p = record p {
    stats = value;
    transmitting = has_state value && is_transmit_on value;
    capturing = has_state value && is_capture_on value;
  }

  -- The new state and the result.
  unfoldable pub add_stream : Stream → PortState → PortState × Bool
  add_stream value p =
      let id = stream_id value in
      if has_key id p.streams
      then (p, false)
      else (record p { streams = assign id value p.streams; sync = mark_dirty p.sync }, true)

  unfoldable pub update_stream : Stream → PortState → PortState × Bool
  update_stream value p =
      let id = stream_id value in
      if not (has_key id p.streams)
      then (p, false)
      else (record p { streams = assign id value p.streams; sync = mark_dirty p.sync }, true)

  unfoldable pub delete_stream : ℕ → PortState → PortState × Bool
  delete_stream id p =
      if not (has_key id p.streams)
      then (p, false)
      else (record p { streams = erase id p.streams; sync = mark_dirty p.sync }, true)

  unfoldable pub add_device_group : DeviceGroup → PortState → PortState × Bool
  add_device_group value p =
      let id = device_group_id value in
      if has_key id p.groups then (p, false) else (
        record p { groups = assign id value p.groups; sync = mark_device_group_modified id p.sync },
        true,
      )

  unfoldable pub update_device_group : DeviceGroup → PortState → PortState × Bool
  update_device_group value p =
      let id = device_group_id value in
      if not (has_key id p.groups) then (p, false) else (
        record p { groups = assign id value p.groups; sync = mark_device_group_modified id p.sync },
        true,
      )

  unfoldable pub delete_device_group : ℕ → PortState → PortState × Bool
  delete_device_group id p =
      if not (has_key id p.groups)
      then (p, false)
      else (record p { groups = erase id p.groups; sync = mark_dirty p.sync }, true)

  unfoldable pub set_transmitting : Bool → PortState → PortState
  set_transmitting value p = record p { transmitting = value }

  unfoldable pub set_capturing : Bool → PortState → PortState
  set_capturing value p = record p { capturing = value }

  unfoldable pub apply_plan : PortState → List ApplyOperation
  apply_plan p = create_plan p.streams p.groups p.sync

  unfoldable pub port_sync_complete : PortState → PortState
  port_sync_complete p = record p {
    sync = mark_sync_complete (keys p.streams) (keys p.groups) p.sync;
  }
