-- ===== src/Client/Session.antt =====
-- `ClientSession::apply` of client/core/client_session.cpp, from the port that it found on. The
-- agent is a parameter with a state of its own: each RPC gives a fault or an answer.
pub mod ExactIds
pub mod Distinct
pub mod Kept
pub mod Confirmed
pub mod Apply
pub mod Hydrate
pub mod Settled
pub mod Serves
pub mod Values
pub mod Reached
pub mod Progress
pub mod Streams
pub mod Carried
pub mod Planned
pub mod Operations
pub mod Edited
pub mod Standing
pub mod Requests
pub mod Notices
pub mod Success
mod Tests
use Prim.Native.String.{String, len, ◌++◌}
use ostinato.Base.{
  ℕ, ◌≡◌, Bool, true, false, not, ◌&&◌, ◌||◌, Option, none, some, List, [], ◌∷◌, map, leb, ◌==◌,
  if◌then◌else◌,
}
use ostinato.Base.OrderedMap.{keys, lookup, has_key, assign}
use ostinato.Client.PortState.{
  Messages, PortState, ApplyOperation, delete_device_groups, add_device_groups,
  modify_device_groups, refresh_devices, delete_streams, add_streams, modify_streams,
  resolve_neighbors, build, new_streams, deleted_streams, new_device_groups, deleted_device_groups,
  modified_device_groups, refresh_remote_baseline, hydrate_streams, hydrate_device_groups,
  hydrate_devices, apply_plan, port_sync_complete,
}

-- `TcpRpcClient::Error` but for `None`.
pub data RpcError : Type 0 where
  timeout canceled disconnected transport remote protocol invalid_protobuf : RpcError

-- A result that is not a success.
pub record Fault : Type 0 where
  pub error : RpcError
  pub message : String

pub data Answer {ℓ} (A : Type ℓ) : Type ℓ where
  fails : Fault → Answer A
  answers : A → Answer A

-- A message with an optional port id and a list.
pub record Listed {ℓ} (A : Type ℓ) : Type ℓ where
  pub port_id : Option ℕ
  pub items : List A

pub record Ack : Type 0 where
  pub success : Bool
  pub notes : String

-- The service of the agent, as the client calls it.
pub record Agent (M : Messages) (R : Type 0) : Type 0 where
  pub get_port_id_list : R → R × Answer (List ℕ)
  pub get_port_config : R → List ℕ → R × Answer (List M.Port)
  pub port_config_id : M.Port → ℕ
  pub get_stream_id_list : R → ℕ → R × Answer (Listed ℕ)
  pub get_device_group_id_list : R → ℕ → R × Answer (Listed ℕ)
  pub get_stream_config : R → Listed ℕ → R × Answer (Listed M.Stream)
  pub get_device_group_config : R → Listed ℕ → R × Answer (Listed M.DeviceGroup)
  pub get_device_list : R → ℕ → R × Answer M.PortDeviceList
  pub device_list_port : M.PortDeviceList → Option ℕ
  pub delete_device_group : R → ℕ → List ℕ → R × Answer Ack
  pub add_device_group : R → ℕ → List ℕ → R × Answer Ack
  pub modify_device_group : R → ℕ → List M.DeviceGroup → R × Answer Ack
  pub delete_stream : R → ℕ → List ℕ → R × Answer Ack
  pub add_stream : R → ℕ → List ℕ → R × Answer Ack
  pub modify_stream : R → ℕ → List M.Stream → R × Answer Ack
  pub resolve_device_neighbors : R → ℕ → R × Answer Ack
  pub build : R → ℕ → R × Answer Ack
  -- `MessageDifferencer::Equivalent`.
  pub equivalent : M.Stream → M.Stream → Bool

-- `ackCall`, once it is answered.
unfoldable pub ack_fault : String → Answer Ack → Option Fault
ack_fault name (fails f) = some f
ack_fault name (answers a) =
    if a.success
    then none
    else some (record {
      error = remote;
      message = if len a.notes == 0 then name ++ " failed" else a.notes;
    })

-- `std::sort`.
unfoldable pub sort_insert : ℕ → List ℕ → List ℕ
sort_insert x [] = x ∷ []
sort_insert x (y ∷ ys) = if leb x y then x ∷ y ∷ ys else y ∷ sort_insert x ys

unfoldable pub sort : List ℕ → List ℕ
sort [] = []
sort (x ∷ xs) = sort_insert x (sort xs)

unfoldable pub same_ids : List ℕ → List ℕ → Bool
same_ids [] [] = true
same_ids (x ∷ xs) (y ∷ ys) = x == y && same_ids xs ys
same_ids _ _ = false

-- Whether `std::adjacent_find` finds nothing.
unfoldable pub no_adjacent : List ℕ → Bool
no_adjacent [] = true
no_adjacent (x ∷ []) = true
no_adjacent (x ∷ y ∷ ys) = not (x == y) && no_adjacent (y ∷ ys)

unfoldable pub exact_ids : List ℕ → List ℕ → Bool
exact_ids actual expected = same_ids (sort actual) (sort expected) && no_adjacent (sort actual)

-- `has_port_id()` with this id.
unfoldable pub is_port : ℕ → Option ℕ → Bool
is_port id none = false
is_port id (some p) = p == id

unfoldable pub values {ℓ} : {V : Type ℓ} → List (ℕ × V) → List V
values [] = []
values ((k, v) ∷ m) = v ∷ values m

-- The loop that asks a map for each of these ids; each is a key.
unfoldable pub values_at {ℓ} : {V : Type ℓ} → List ℕ → List (ℕ × V) → List V
values_at [] m = []
values_at (id ∷ ids) m = elim (lookup id m) [
  | none ↦ values_at ids m
  | some v ↦ v ∷ values_at ids m
]

module _ {M : Messages} {R : Type 0} (agent : Agent M R) where
  open M use {Stream, DeviceGroup, stream_id, device_group_id}

  -- The state of the agent, the port and, on failure, the fault.
  abbrev pub Outcome : Type 0
  Outcome = R × PortState M × Option Fault

  -- `ackCall`, of a call with this name.
  unfoldable pub acknowledged : String → PortState M → R × Answer Ack → Outcome
  acknowledged name p (r, a) = (r, p, ack_fault name a)

  unfoldable pub refreshed : ℕ → PortState M → R × Answer M.PortDeviceList → Outcome
  refreshed id p (r, fails f) = (r, p, some f)
  refreshed id p (r, answers devices) =
      if is_port id (agent.device_list_port devices)
      then (r, hydrate_devices M devices p, none)
      else (
        r,
        p,
        some (record { error = protocol; message = "refreshed device response port differs" }),
      )

  -- One operation of the plan.
  unfoldable pub operate : ℕ → ApplyOperation → R → PortState M → Outcome
  operate id delete_device_groups r p =
      acknowledged "deleteDeviceGroup" p
        (agent.delete_device_group r id (deleted_device_groups p.sync (keys p.groups)))
  operate id add_device_groups r p =
      acknowledged "addDeviceGroup" p
        (agent.add_device_group r id (new_device_groups p.sync (keys p.groups)))
  operate id modify_device_groups r p = acknowledged "modifyDeviceGroup" p (
      agent.modify_device_group r id
        (values_at (modified_device_groups p.sync (keys p.groups)) p.groups))
  operate id refresh_devices r p = refreshed id p (agent.get_device_list r id)
  operate id delete_streams r p =
      acknowledged "deleteStream" p
        (agent.delete_stream r id (deleted_streams p.sync (keys p.streams)))
  operate id add_streams r p =
      acknowledged "addStream" p (agent.add_stream r id (new_streams p.sync (keys p.streams)))
  operate id modify_streams r p =
      acknowledged "modifyStream" p (agent.modify_stream r id (values p.streams))
  operate id resolve_neighbors r p =
      acknowledged "resolveDeviceNeighbors" p (agent.resolve_device_neighbors r id)
  operate id build r p = acknowledged "build" p (agent.build r id)

  -- What follows a step that has not failed.
  unfoldable pub followed : Outcome → (R → PortState M → Outcome) → Outcome
  followed (r, p, none) next = next r p
  followed (r, p, some f) next = (r, p, some f)

  unfoldable pub run_plan : ℕ → List ApplyOperation → R → PortState M → Outcome
  run_plan id [] r p = (r, p, none)
  run_plan id (op ∷ ops) r p = followed (operate id op r p) (λ r' q. run_plan id ops r' q)

  -- A call whose answer the rest needs.
  unfoldable pub asked {ℓ} : {A : Type ℓ} → PortState M → R × Answer A → (R → A → Outcome) → Outcome
  asked p (r, fails f) next = (r, p, some f)
  asked p (r, answers a) next = next r a

  -- `confirmedStreams`: `emplace` keeps the first value of a key.
  unfoldable pub emplace_all : List Stream → List (ℕ × Stream) → List (ℕ × Stream)
  emplace_all [] m = m
  emplace_all (v ∷ vs) m =
      emplace_all vs (if has_key (stream_id v) m then m else assign (stream_id v) v m)

  -- The last loop; each desired id is a key of the confirmed streams.
  unfoldable pub all_equivalent : List (ℕ × Stream) → List (ℕ × Stream) → Bool
  all_equivalent [] confirmed = true
  all_equivalent ((id, v) ∷ desired) confirmed = elim (lookup id confirmed) [
    | none ↦ false
    | some w ↦ agent.equivalent v w && all_equivalent desired confirmed
  ]

  abbrev pub protocol_fault : String → Option Fault
  protocol_fault text = some (record { error = protocol; message = text })

  -- What the agent has confirmed is taken over, where it is what was desired.
  unfoldable pub confirm :
      ℕ → Listed ℕ → Listed Stream → Listed ℕ → Listed DeviceGroup → R → PortState M → Outcome
  confirm id stream_ids streams group_ids groups r p =
      let ports =
        is_port id stream_ids.port_id
        && is_port id streams.port_id
        && is_port id group_ids.port_id
        && is_port id groups.port_id in
      let ids =
        exact_ids stream_ids.items (keys p.streams)
        && exact_ids (map stream_id streams.items) (keys p.streams)
        && exact_ids group_ids.items (keys p.groups)
        && exact_ids (map device_group_id groups.items) (keys p.groups) in
      let hydrated = hydrate_device_groups M groups.items (hydrate_streams M streams.items p) in
      if not (ports && ids)
      then (r, p, protocol_fault "server apply confirmation ID closure differs")
      else if all_equivalent p.streams (emplace_all streams.items [])
      then (r, port_sync_complete M hydrated, none)
      else (r, p, protocol_fault "server stream confirmation differs")

  unfoldable pub read_back : ℕ → R → PortState M → Outcome
  read_back id r p = asked p (agent.get_stream_id_list r id) (λ r1 stream_ids.
      asked p (agent.get_stream_config r1 stream_ids) (λ r2 streams.
        asked p (agent.get_device_group_id_list r2 id) (λ r3 group_ids.
          asked p (agent.get_device_group_config r3 group_ids)
            (λ r4 groups. confirm id stream_ids streams group_ids groups r4 p))))

  -- The plan is made, and each of its operations looks up its ids, from the baseline that the
  -- agent gave.
  unfoldable pub synchronise : ℕ → Listed ℕ → Listed ℕ → R → PortState M → Outcome
  synchronise id streams groups r p =
      let q : PortState M = record p {
        sync = refresh_remote_baseline streams.items groups.items p.sync;
      } in
      if not (is_port id streams.port_id && is_port id groups.port_id)
      then (r, p, protocol_fault "apply baseline response port differs")
      else if not (exact_ids streams.items streams.items && exact_ids groups.items groups.items)
      then (r, p, protocol_fault "duplicate apply baseline ID")
      else followed (run_plan id (apply_plan M q) r q) (λ r' t. read_back id r' t)

  unfoldable pub apply : ℕ → R → PortState M → Outcome
  apply id r p = asked p (agent.get_stream_id_list r id) (λ r1 streams.
      asked p (agent.get_device_group_id_list r1 id)
        (λ r2 groups. synchronise id streams groups r2 p))
