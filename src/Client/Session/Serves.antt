-- ===== src/Client/Session/Serves.antt =====
-- What `ClientSession::apply` of client/core/client_session.cpp relies on for success: an agent that
-- answers for one port, and does what it is asked for. `streams_of` and `groups_of` are what it holds.
use ostinato.Base.{ℕ, ◌≡◌, true, not, ◌&&◌, ◌||◌, some, List, none, false, if◌then◌else◌}
use ostinato.Base.OrderedSet.{contains}
use ostinato.Base.OrderedMap.{keys, lookup, has_key}
use ostinato.Client.PortState.{Messages, assign_streams, assign_groups}
use ostinato.Client.PortState.Edits.{IsKeyed}
use ostinato.Client.Session.{Agent, Answer, answers, Ack, values}

module _ {M : Messages} {R : Type 0} (agent : Agent M R) where
  open M use {Stream, DeviceGroup, stream_id, device_group_id}

  -- An acknowledgement of success.
  pub record Done (t : R × Answer Ack) : Type 0 where
    pub ack : Ack
    pub answer : t.1 ≡ answers ack
    pub success : ack.success ≡ true

  pub record Serves (id : ℕ) : Type 0 where
    pub streams_of : R → List (ℕ × Stream)
    pub groups_of : R → List (ℕ × DeviceGroup)
    pub stream_keys : (r : R) → IsKeyed M stream_id (streams_of r)
    pub group_keys : (r : R) → IsKeyed M device_group_id (groups_of r)
    -- The lists of what it holds.
    pub stream_ids :
        (r : R)
        → agent.get_stream_id_list r id
          ≡ (r, answers (record { port_id = some id; items = keys (streams_of r) }))
    pub group_ids :
        (r : R)
        → agent.get_device_group_id_list r id
          ≡ (r, answers (record { port_id = some id; items = keys (groups_of r) }))
    pub stream_config :
        (r : R)
        → agent.get_stream_config r (record { port_id = some id; items = keys (streams_of r) })
          ≡ (r, answers (record { port_id = some id; items = values (streams_of r) }))
    pub group_config :
        (r : R)
        → agent.get_device_group_config r (record { port_id = some id; items = keys (groups_of r) })
          ≡ (r, answers (record { port_id = some id; items = values (groups_of r) }))
    pub devices : R → M.PortDeviceList
    pub device_list : (r : R) → agent.get_device_list r id ≡ (r, answers (devices r))
    pub device_port : (r : R) → agent.device_list_port (devices r) ≡ some id
    -- Each call succeeds, and changes what it is about.
    pub deletes_groups : (r : R) (ids : List ℕ) → Done (agent.delete_device_group r id ids)
    pub group_deleted :
        (r : R) (ids : List ℕ) (k : ℕ)
        → lookup k (groups_of (agent.delete_device_group r id ids).0)
          ≡ (if contains k ids then none else lookup k (groups_of r))
    pub adds_groups : (r : R) (ids : List ℕ) → Done (agent.add_device_group r id ids)
    pub group_added :
        (r : R) (ids : List ℕ) (k : ℕ)
        → has_key k (groups_of (agent.add_device_group r id ids).0)
          ≡ (has_key k (groups_of r) || contains k ids)
    pub group_kept_adding :
        (r : R) (ids : List ℕ) (k : ℕ)
        → contains k ids ≡ false
        → lookup k (groups_of (agent.add_device_group r id ids).0) ≡ lookup k (groups_of r)
    pub modifies_groups : (r : R) (vs : List DeviceGroup) → Done (agent.modify_device_group r id vs)
    pub group_modified :
        (r : R) (vs : List DeviceGroup)
        → groups_of (agent.modify_device_group r id vs).0 ≡ assign_groups M vs (groups_of r)
    pub deletes_streams : (r : R) (ids : List ℕ) → Done (agent.delete_stream r id ids)
    pub stream_deleted :
        (r : R) (ids : List ℕ) (k : ℕ)
        → has_key k (streams_of (agent.delete_stream r id ids).0)
          ≡ (has_key k (streams_of r) && not (contains k ids))
    pub adds_streams : (r : R) (ids : List ℕ) → Done (agent.add_stream r id ids)
    pub stream_added :
        (r : R) (ids : List ℕ) (k : ℕ)
        → has_key k (streams_of (agent.add_stream r id ids).0)
          ≡ (has_key k (streams_of r) || contains k ids)
    pub modifies_streams : (r : R) (vs : List Stream) → Done (agent.modify_stream r id vs)
    pub stream_modified :
        (r : R) (vs : List Stream)
        → streams_of (agent.modify_stream r id vs).0 ≡ assign_streams M vs (streams_of r)
    pub resolves : (r : R) → Done (agent.resolve_device_neighbors r id)
    pub builds : (r : R) → Done (agent.build r id)
    -- What a call is not about stays.
    pub streams_kept_deleting :
        (r : R) (ids : List ℕ) → streams_of (agent.delete_device_group r id ids).0 ≡ streams_of r
    pub streams_kept_adding :
        (r : R) (ids : List ℕ) → streams_of (agent.add_device_group r id ids).0 ≡ streams_of r
    pub streams_kept_modifying :
        (r : R) (vs : List DeviceGroup)
        → streams_of (agent.modify_device_group r id vs).0 ≡ streams_of r
    pub groups_kept_deleting :
        (r : R) (ids : List ℕ) → groups_of (agent.delete_stream r id ids).0 ≡ groups_of r
    pub groups_kept_adding :
        (r : R) (ids : List ℕ) → groups_of (agent.add_stream r id ids).0 ≡ groups_of r
    pub groups_kept_modifying :
        (r : R) (vs : List Stream) → groups_of (agent.modify_stream r id vs).0 ≡ groups_of r
    pub streams_kept_resolving :
        (r : R) → streams_of (agent.resolve_device_neighbors r id).0 ≡ streams_of r
    pub groups_kept_resolving :
        (r : R) → groups_of (agent.resolve_device_neighbors r id).0 ≡ groups_of r
    pub streams_kept_building : (r : R) → streams_of (agent.build r id).0 ≡ streams_of r
    pub groups_kept_building : (r : R) → groups_of (agent.build r id).0 ≡ groups_of r
    -- A message is equivalent to itself.
    pub reflexive : (v : Stream) → agent.equivalent v v ≡ true
