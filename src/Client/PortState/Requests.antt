-- ===== src/Client/PortState/Requests.antt =====
-- What an edit of client/core/port_state.cpp answers and does, when it is accepted and when not.
use ostinato.Base.{
  ℕ, ◌≡◌, refl, Bool, true, false, not, ◌||◌, Option, none, some, List, arith, ◌==◌, if◌then◌else◌,
}
use ostinato.Base.OrderedSet.{contains, contains-set_insert}
use ostinato.Base.OrderedMap.{
  lookup, has_key, assign, lookup-assign, lookup-erase, erase-assign, has_key-lookup,
}
use ostinato.Client.PortState.{
  Messages, PortState, mark_dirty, add_stream, update_stream, delete_stream, add_device_group,
  update_device_group, delete_device_group, mark_device_group_modified,
}
use ostinato.Client.PortState.Edits.{IsPort}

module _ (M : Messages) where
  open M use {Stream, DeviceGroup, stream_id, device_group_id}

  -- The streams are read as `read`, the port is dirty, and all else of it is as it was.
  abbrev pub StreamsTo : PortState M → PortState M → (ℕ → Option Stream) → Type 0
  StreamsTo p q read =
      ((k : ℕ) → lookup k q.streams ≡ read k)
      × (q ≡ record p { streams = q.streams; sync = record p.sync { dirty = true } })

  -- The answer is `ok`; then the port is changed so, else it is as it was.
  abbrev pub StreamEdited : PortState M → PortState M × Bool → Bool → (ℕ → Option Stream) → Type 0
  StreamEdited p r ok read =
      (r.1 ≡ ok) × (ok ≡ false → r.0 ≡ p) × (ok ≡ true → StreamsTo p r.0 read)

  -- Both outcomes of a request that a test refuses.
  stream_guarded :
      (refused : Bool) (p q : PortState M) (read : ℕ → Option Stream)
      → StreamsTo p q read
      → StreamEdited p (if refused then (p, false) else (q, true)) (not refused) read
  stream_guarded true p q read h = (refl, λ e. refl, λ e. cc)
  stream_guarded false p q read h = (refl, λ e. cc, λ e. h)

  stream_guarded_not :
      (here : Bool) (p q : PortState M) (read : ℕ → Option Stream)
      → StreamsTo p q read
      → StreamEdited p (if not here then (p, false) else (q, true)) here read
  stream_guarded_not false p q read h = (refl, λ e. refl, λ e. cc)
  stream_guarded_not true p q read h = (refl, λ e. cc, λ e. h)

  -- A stream is added only under a new id, and updated or deleted only under one that is there.
  -- An accepted request changes what is read under that id and makes the port dirty; the other
  -- streams, the port's id and configuration, its groups, devices, statistics, flags and sets of ids
  -- stay. A refused one changes nothing.
  pub stream_requests :
      (p : PortState M) (value : Stream) (id : ℕ)
      → IsPort M p
      → let here = has_key (stream_id value) p.streams in
        let read = λ (k : ℕ). if k == stream_id value then some value else lookup k p.streams in
        StreamEdited p (add_stream M value p) (not here) read
        × StreamEdited p (update_stream M value p) here read
        × StreamEdited p
            (delete_stream M id p)
            (has_key id p.streams)
            (λ k. if k == id then none else lookup k p.streams)
  unfolding add_stream update_stream delete_stream mark_dirty
  stream_requests p value id ok =
      let own = stream_id value in
      let write = λ (k : ℕ). lookup-assign k own value p.streams in
      let drop = λ (k : ℕ). lookup-erase k id p.streams ok.streams.ordered in
      (
        stream_guarded (has_key own p.streams) p _ _ (write, refl),
        stream_guarded_not (has_key own p.streams) p _ _ (write, refl),
        stream_guarded_not (has_key id p.streams) p _ _ (drop, refl),
      )

  -- The groups are read as `read`, the port is dirty, these ids are recorded as modified, and all
  -- else of it is as it was.
  abbrev pub GroupsTo : PortState M → PortState M → (ℕ → Option DeviceGroup) → (ℕ → Bool) → Type 0
  GroupsTo p q read changed =
      ((k : ℕ) → lookup k q.groups ≡ read k)
      × ((k : ℕ)
          → contains k q.sync.modified_device_groups
            ≡ (changed k || contains k p.sync.modified_device_groups))
      × (q ≡ record p {
        groups = q.groups;
        sync = record p.sync {
          modified_device_groups = q.sync.modified_device_groups;
          dirty = true;
        };
      })

  abbrev pub GroupEdited :
      PortState M → PortState M × Bool → Bool → (ℕ → Option DeviceGroup) → (ℕ → Bool) → Type 0
  GroupEdited p r ok read changed =
      (r.1 ≡ ok) × (ok ≡ false → r.0 ≡ p) × (ok ≡ true → GroupsTo p r.0 read changed)

  group_guarded :
      (refused : Bool) (p q : PortState M) (read : ℕ → Option DeviceGroup) (changed : ℕ → Bool)
      → GroupsTo p q read changed
      → GroupEdited p (if refused then (p, false) else (q, true)) (not refused) read changed
  group_guarded true p q read changed h = (refl, λ e. refl, λ e. cc)
  group_guarded false p q read changed h = (refl, λ e. cc, λ e. h)

  group_guarded_not :
      (here : Bool) (p q : PortState M) (read : ℕ → Option DeviceGroup) (changed : ℕ → Bool)
      → GroupsTo p q read changed
      → GroupEdited p (if not here then (p, false) else (q, true)) here read changed
  group_guarded_not false p q read changed h = (refl, λ e. refl, λ e. cc)
  group_guarded_not true p q read changed h = (refl, λ e. cc, λ e. h)

  -- A device group is added only under a new id, and updated or deleted only under one that is
  -- there. An accepted request changes what is read under that id and makes the port dirty; one that
  -- adds or updates records the id, and no other, as modified, and one that deletes leaves that
  -- record as it was. The other groups, the port's id and configuration, its streams, devices,
  -- statistics, flags and the ids known of the agent stay. A refused one changes nothing.
  pub device_group_requests :
      (p : PortState M) (value : DeviceGroup) (id : ℕ)
      → IsPort M p
      → let own = device_group_id value in
        let here = has_key own p.groups in
        let read = λ (k : ℕ). if k == own then some value else lookup k p.groups in
        let changed = λ (k : ℕ). k == own in
        GroupEdited p (add_device_group M value p) (not here) read changed
        × GroupEdited p (update_device_group M value p) here read changed
        × GroupEdited p
            (delete_device_group M id p)
            (has_key id p.groups)
            (λ k. if k == id then none else lookup k p.groups)
            (λ k. false)
  unfolding add_device_group update_device_group delete_device_group mark_dirty
      mark_device_group_modified
  device_group_requests p value id ok =
      let own = device_group_id value in
      let write = λ (k : ℕ). lookup-assign k own value p.groups in
      let drop = λ (k : ℕ). lookup-erase k id p.groups ok.groups.ordered in
      let mark = λ (k : ℕ). contains-set_insert k own p.sync.modified_device_groups in
      (
        group_guarded (has_key own p.groups) p _ _ _ (write, mark, refl),
        group_guarded_not (has_key own p.groups) p _ _ _ (write, mark, refl),
        group_guarded_not (has_key id p.groups) p _ _ (λ k. false) (drop, λ k. refl, refl),
      )

  has_key-assign : {V : Type 0} (k : ℕ) (v : V) (m : List (ℕ × V)) → has_key k (assign k v m) ≡ true
  has_key-assign k v m = ground (arith, has_key-lookup k (assign k v m), lookup-assign k k v m)

  -- A stream, and a device group, that is added under a new id can be deleted again, and then the
  -- port has the streams and the groups that it had.
  pub delete-add :
      (p : PortState M) (s : Stream) (g : DeviceGroup)
      → has_key (stream_id s) p.streams ≡ false
      → has_key (device_group_id g) p.groups ≡ false
      → let r = delete_stream M (stream_id s) (add_stream M s p).0 in
        let t = delete_device_group M (device_group_id g) (add_device_group M g p).0 in
        (r.1 ≡ true)
        × (r.0.streams ≡ p.streams)
        × (r.0.groups ≡ p.groups)
        × (t.1 ≡ true)
        × (t.0.streams ≡ p.streams)
        × (t.0.groups ≡ p.groups)
  unfolding add_stream delete_stream add_device_group delete_device_group
  delete-add p s g no_s no_g =
      let i = stream_id s in
      let j = device_group_id g in
      simp (no_s, no_g, has_key-assign i s p.streams, has_key-assign j g p.groups)
        (refl, erase-assign i s p.streams no_s, refl, refl, refl, erase-assign j g p.groups no_g)
