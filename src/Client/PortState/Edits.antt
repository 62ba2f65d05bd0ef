-- ===== src/Client/PortState/Edits.antt =====
-- The edits of a port's desired state.
use ostinato.Base.{ℕ, ◌≡◌, Bool, true, false, not, some, List, [], ◌∷◌, arith, if◌then◌else◌}
use ostinato.Base.OrderedSet.{Ascends}
use ostinato.Base.OrderedMap.{
  keys, lookup, has_key, assign, erase, assign-Ascends, erase-Ascends, lookup-assign, lookup-erase,
}
use ostinato.Client.PortState.{
  Messages, PortState, new_port, mark_dirty, clear_dirty, refresh_remote_baseline,
  mark_device_groups_added_remote, hydrate_config, assign_streams, assign_groups, hydrate_streams,
  hydrate_device_groups, hydrate_devices, hydrate_stats, add_stream, update_stream, delete_stream,
  add_device_group, update_device_group, delete_device_group, set_transmitting, set_capturing,
  port_sync_complete, mark_device_group_modified,
}
use ostinato.Client.PortState.Sync.{
  IsSync, mark_dirty-IsSync, clear_dirty-IsSync, baseline-IsSync, added_remote-IsSync,
  modified-IsSync, complete-IsSync,
}

module _ (M : Messages) where
  open M use {Stream, DeviceGroup, Port, PortDeviceList, PortStats, stream_id, device_group_id}

  -- The calls of `PortState` that change it.
  pub data Edit : Type 0 where
    hydrates_config : Port → Edit
    hydrates_streams : List Stream → Edit
    hydrates_groups : List DeviceGroup → Edit
    hydrates_devices : PortDeviceList → Edit
    hydrates_stats : PortStats → Edit
    adds_stream updates_stream : Stream → Edit
    deletes_stream : ℕ → Edit
    adds_group updates_group : DeviceGroup → Edit
    deletes_group : ℕ → Edit
    sets_transmitting sets_capturing : Bool → Edit
    completes : Edit
    -- By the reference that `syncState()` gives.
    marks_dirty clears_dirty : Edit
    marks_group : ℕ → Edit
    reads_baseline : List ℕ → List ℕ → Edit
    adds_remote : List ℕ → Edit

  unfoldable pub edit : PortState M → Edit → PortState M
  edit p (hydrates_config v) = hydrate_config M v p
  edit p (hydrates_streams vs) = hydrate_streams M vs p
  edit p (hydrates_groups vs) = hydrate_device_groups M vs p
  edit p (hydrates_devices v) = hydrate_devices M v p
  edit p (hydrates_stats v) = hydrate_stats M v p
  edit p (adds_stream v) = (add_stream M v p).0
  edit p (updates_stream v) = (update_stream M v p).0
  edit p (deletes_stream id) = (delete_stream M id p).0
  edit p (adds_group v) = (add_device_group M v p).0
  edit p (updates_group v) = (update_device_group M v p).0
  edit p (deletes_group id) = (delete_device_group M id p).0
  edit p (sets_transmitting b) = set_transmitting M b p
  edit p (sets_capturing b) = set_capturing M b p
  edit p completes = port_sync_complete M p
  edit p marks_dirty = record p { sync = mark_dirty p.sync }
  edit p clears_dirty = record p { sync = clear_dirty p.sync }
  edit p (marks_group id) = record p { sync = mark_device_group_modified id p.sync }
  edit p (reads_baseline ss gs) = record p { sync = refresh_remote_baseline ss gs p.sync }
  edit p (adds_remote ids) = record p { sync = mark_device_groups_added_remote ids p.sync }

  unfoldable pub edits : PortState M → List Edit → PortState M
  edits p [] = p
  edits p (e ∷ es) = edits (edit p e) es

  -- A map in order, each value under its own id.
  pub record IsKeyed {V : Type 0} (id_of : V → ℕ) (m : List (ℕ × V)) : Type 0 where
    pub ordered : Ascends (keys m)
    pub own_id : (k : ℕ) (v : V) → lookup k m ≡ some v → id_of v ≡ k

  assign-IsKeyed :
      {V : Type 0} (id_of : V → ℕ) (v : V) (m : List (ℕ × V))
      → IsKeyed id_of m
      → IsKeyed id_of (assign (id_of v) v m)
  assign-IsKeyed id_of v m h = record {
    ordered = assign-Ascends (id_of v) v m h.ordered;
    own_id = λ k w e. ground (arith, lookup-assign k (id_of v) v m, h.own_id k w);
  }

  erase-IsKeyed :
      {V : Type 0} (id_of : V → ℕ) (id : ℕ) (m : List (ℕ × V))
      → IsKeyed id_of m
      → IsKeyed id_of (erase id m)
  erase-IsKeyed id_of id m h = record {
    ordered = erase-Ascends id m h.ordered;
    own_id = λ k w e. ground (arith, lookup-erase k id m h.ordered, h.own_id k w);
  }

  pub empty-IsKeyed : {V : Type 0} (id_of : V → ℕ) → IsKeyed id_of []
  unfolding keys lookup
  empty-IsKeyed id_of = record { ordered = tt; own_id = λ k v e. cc }

  pub assign_streams-IsKeyed :
      (vs : List Stream) (m : List (ℕ × Stream))
      → IsKeyed stream_id m
      → IsKeyed stream_id (assign_streams M vs m)
  unfolding assign_streams
  assign_streams-IsKeyed [] m h = h
  assign_streams-IsKeyed (v ∷ vs) m h =
      assign_streams-IsKeyed vs (assign (stream_id v) v m) (assign-IsKeyed stream_id v m h)

  pub assign_groups-IsKeyed :
      (vs : List DeviceGroup) (m : List (ℕ × DeviceGroup))
      → IsKeyed device_group_id m
      → IsKeyed device_group_id (assign_groups M vs m)
  unfolding assign_groups
  assign_groups-IsKeyed [] m h = h
  assign_groups-IsKeyed (v ∷ vs) m h =
      assign_groups-IsKeyed vs (assign (device_group_id v) v m)
        (assign-IsKeyed device_group_id v m h)

  -- Both maps are keyed by their values' own ids, and the sets are in order.
  pub record IsPort (p : PortState M) : Type 0 where
    pub streams : IsKeyed stream_id p.streams
    pub groups : IsKeyed device_group_id p.groups
    pub sync : IsSync p.sync

  new_port-IsPort : (id : ℕ) → IsPort (new_port M id)
  unfolding new_port
  new_port-IsPort id = record {
    streams = empty-IsKeyed stream_id;
    groups = empty-IsKeyed device_group_id;
    sync = record { streams = tt; device_groups = tt; modified = tt };
  }

  with_streams :
      (p : PortState M) (m : List (ℕ × Stream))
      → IsPort p
      → IsKeyed stream_id m
      → IsPort (record p { streams = m; sync = mark_dirty p.sync })
  with_streams p m h keyed = record {
    streams = keyed;
    groups = h.groups;
    sync = mark_dirty-IsSync p.sync h.sync;
  }

  with_groups :
      (p : PortState M) (id : ℕ) (m : List (ℕ × DeviceGroup))
      → IsPort p
      → IsKeyed device_group_id m
      → IsPort (record p { groups = m; sync = mark_device_group_modified id p.sync })
  with_groups p id m h keyed = record {
    streams = h.streams;
    groups = keyed;
    sync = modified-IsSync id p.sync h.sync;
  }

  -- Either result of a guarded edit.
  guarded-IsPort :
      (b : Bool) (p q : PortState M)
      → IsPort p
      → IsPort q
      → IsPort (if◌then◌else◌ {A = PortState M × Bool} b (p, false) (q, true)).0
  guarded-IsPort true p q h k = h
  guarded-IsPort false p q h k = k

  pub edit-IsPort : (p : PortState M) (e : Edit) → IsPort p → IsPort (edit p e)
  unfolding edit hydrate_config hydrate_streams hydrate_device_groups hydrate_devices hydrate_stats
      add_stream update_stream delete_stream add_device_group update_device_group
      delete_device_group set_transmitting set_capturing port_sync_complete
  edit-IsPort p (hydrates_config v) h = record {
    streams = h.streams;
    groups = h.groups;
    sync = h.sync;
  }
  edit-IsPort p (hydrates_streams vs) h = record {
    streams = assign_streams-IsKeyed vs [] (empty-IsKeyed stream_id);
    groups = h.groups;
    sync = h.sync;
  }
  edit-IsPort p (hydrates_groups vs) h = record {
    streams = h.streams;
    groups = assign_groups-IsKeyed vs [] (empty-IsKeyed device_group_id);
    sync = h.sync;
  }
  edit-IsPort p (hydrates_devices v) h = record {
    streams = h.streams;
    groups = h.groups;
    sync = h.sync;
  }
  edit-IsPort p (hydrates_stats v) h = record {
    streams = h.streams;
    groups = h.groups;
    sync = h.sync;
  }
  edit-IsPort p (adds_stream v) h =
      guarded-IsPort (has_key (stream_id v) p.streams) p _ h
        (with_streams p _ h (assign-IsKeyed stream_id v p.streams h.streams))
  edit-IsPort p (updates_stream v) h =
      guarded-IsPort (not (has_key (stream_id v) p.streams)) p _ h
        (with_streams p _ h (assign-IsKeyed stream_id v p.streams h.streams))
  edit-IsPort p (deletes_stream id) h =
      guarded-IsPort (not (has_key id p.streams)) p _ h
        (with_streams p _ h (erase-IsKeyed stream_id id p.streams h.streams))
  edit-IsPort p (adds_group v) h =
      guarded-IsPort (has_key (device_group_id v) p.groups) p _ h
        (with_groups p _ _ h (assign-IsKeyed device_group_id v p.groups h.groups))
  edit-IsPort p (updates_group v) h =
      guarded-IsPort (not (has_key (device_group_id v) p.groups)) p _ h
        (with_groups p _ _ h (assign-IsKeyed device_group_id v p.groups h.groups))
  edit-IsPort p (deletes_group id) h = guarded-IsPort (not (has_key id p.groups)) p _ h (record {
    streams = h.streams;
    groups = erase-IsKeyed device_group_id id p.groups h.groups;
    sync = mark_dirty-IsSync p.sync h.sync;
  })
  edit-IsPort p (sets_transmitting b) h = record {
    streams = h.streams;
    groups = h.groups;
    sync = h.sync;
  }
  edit-IsPort p (sets_capturing b) h = record {
    streams = h.streams;
    groups = h.groups;
    sync = h.sync;
  }
  edit-IsPort p completes h = record {
    streams = h.streams;
    groups = h.groups;
    sync = complete-IsSync (keys p.streams) (keys p.groups) p.sync h.sync;
  }
  edit-IsPort p marks_dirty h = record {
    streams = h.streams;
    groups = h.groups;
    sync = mark_dirty-IsSync p.sync h.sync;
  }
  edit-IsPort p clears_dirty h = record {
    streams = h.streams;
    groups = h.groups;
    sync = clear_dirty-IsSync p.sync h.sync;
  }
  edit-IsPort p (marks_group id) h = record {
    streams = h.streams;
    groups = h.groups;
    sync = modified-IsSync id p.sync h.sync;
  }
  edit-IsPort p (reads_baseline ss gs) h = record {
    streams = h.streams;
    groups = h.groups;
    sync = baseline-IsSync ss gs p.sync h.sync;
  }
  edit-IsPort p (adds_remote ids) h = record {
    streams = h.streams;
    groups = h.groups;
    sync = added_remote-IsSync ids p.sync h.sync;
  }

  kept-IsPort : (p : PortState M) (es : List Edit) → IsPort p → IsPort (edits p es)
  unfolding edits
  kept-IsPort p [] h = h
  kept-IsPort p (e ∷ es) h = kept-IsPort (edit p e) es (edit-IsPort p e h)

  -- Whatever the calls on a new port, its two maps stay in the order of their keys with each
  -- message under its own id, and the three sets of ids stay in order.
  pub edits-IsPort : (id : ℕ) (es : List Edit) → IsPort (edits (new_port M id) es)
  edits-IsPort id es = kept-IsPort (new_port M id) es (new_port-IsPort id)
