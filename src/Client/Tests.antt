-- ===== src/Client/Tests.antt =====
-- Runs of the port's state on small inputs, and its theorems at inputs that meet their hypotheses.
use ostinato.Base.{
  ℕ, ◌≡◌, refl, Bool, true, false, not, ◌&&◌, ◌||◌, none, some, List, [], ◌∷◌, ◌++◌, arith, ◌==◌,
  if◌then◌else◌,
}
use ostinato.Base.OrderedSet.{contains, set_insert, insert_all, set_difference}
use ostinato.Base.OrderedMap.{keys, assign, erase, lookup, has_key}
use ostinato.Client.PortState.{
  Messages, PortState, PortSyncState, apply_plan, mark_dirty, mark_device_group_modified,
  refresh_remote_baseline, hydrate_devices, new_port, new_streams, deleted_streams,
  new_device_groups, deleted_device_groups, modified_device_groups, mark_sync_complete, is_empty,
  create_plan, modify_streams, resolve_neighbors, build, add_stream, update_stream, delete_stream,
  add_device_group, update_device_group, delete_device_group, as_set, only_in, push_if, add_streams,
  delete_streams, modify_device_groups, refresh_devices,
}
use ostinato.Client.PortState.Sync.{
  IsSync, Membership, sync-Membership, sync_reaches_desired, IsSettled,
  mark_sync_complete-IsSettled, retried_sync, modified_survives,
}
use ostinato.Client.PortState.Edits.{
  IsPort, adds_stream, deletes_stream, adds_group, completes, edit, edits, edits-IsPort,
}
use ostinato.Client.PortState.Requests.{
  StreamEdited, stream_requests, GroupEdited, device_group_requests, delete-add,
}
use ostinato.Client.Session.{
  Agent, answers, Ack, apply, acknowledged, ack_fault, refreshed, operate, followed, run_plan,
  asked, emplace_all, all_equivalent, confirm, read_back, synchronise, sort_insert, sort, same_ids,
  no_adjacent, exact_ids, is_port, values, values_at,
}
use ostinato.Client.Session.Apply.{Ends, apply-Ends}
use ostinato.Client.Session.Hydrate.{hydrate}
use ostinato.Client.Session.Settled.{Answered, PortsOf, hydrate-PortsOf}

-- Messages with an id and a name.
abbrev pairs : Messages
pairs = record {
  Stream = ℕ × ℕ;
  DeviceGroup = ℕ × ℕ;
  Port = ℕ;
  PortDeviceList = ℕ;
  PortStats = Bool;
  stream_id = λ s. s.0;
  device_group_id = λ g. g.0;
  port_of = λ id. id;
  devices_of = λ id. id;
  stats_of = λ id. false;
  has_state = λ s. s;
  is_transmit_on = λ s. s;
  is_capture_on = λ s. false;
}

abbrev server : PortSyncState
server = record {
  streams = 1 ∷ 4 ∷ [];
  device_groups = 2 ∷ [];
  modified_device_groups = 2 ∷ [];
  dirty = true;
}

server-IsSync : IsSync server
server-IsSync = record { streams = (omega arith, tt); device_groups = tt; modified = tt }

server_plan :
    create_plan ((1, true) ∷ (3, true) ∷ []) ((2, true) ∷ []) server
    ≡ modify_device_groups ∷ refresh_devices ∷ delete_streams ∷ add_streams ∷ modify_streams
      ∷ resolve_neighbors ∷ build ∷ []
unfolding create_plan deleted_device_groups new_device_groups modified_device_groups deleted_streams
    new_streams only_in as_set set_difference insert_all set_insert contains keys is_empty push_if
server_plan = refl

sync-Membership_example : Membership server (3 ∷ 1 ∷ []) 3
sync-Membership_example = sync-Membership server (3 ∷ 1 ∷ []) 3 server-IsSync

sync_reaches_desired_example :
    ((contains 4 server.streams && not (contains 4 (deleted_streams server (3 ∷ 1 ∷ [])))
        || contains 4 (new_streams server (3 ∷ 1 ∷ [])))
      ≡ contains 4 (3 ∷ 1 ∷ []))
    × ((contains 4 server.device_groups
            && not (contains 4 (deleted_device_groups server (3 ∷ 1 ∷ [])))
          || contains 4 (new_device_groups server (3 ∷ 1 ∷ [])))
        ≡ contains 4 (3 ∷ 1 ∷ []))
sync_reaches_desired_example = sync_reaches_desired server (3 ∷ 1 ∷ []) 4 server-IsSync

mark_sync_complete-IsSettled_example :
    let streams : List (ℕ × Bool) = (1, true) ∷ [] in
    let groups : List (ℕ × Bool) = (5, true) ∷ [] in
    let t = mark_sync_complete (keys streams) (keys groups) server in
    IsSettled t (keys streams) (keys groups)
    × (create_plan streams groups t
        ≡ (if is_empty streams then [] else modify_streams ∷ []) ++ resolve_neighbors ∷ build ∷ [])
mark_sync_complete-IsSettled_example =
    mark_sync_complete-IsSettled server ((1, true) ∷ []) ((5, true) ∷ [])

modified_survives_example :
    contains 6 (modified_device_groups (retried_sync 6 [] (2 ∷ []) (6 ∷ []) server) (2 ∷ 6 ∷ []))
    ≡ true
unfolding contains
modified_survives_example =
    modified_survives 6 [] (2 ∷ []) (6 ∷ []) (2 ∷ 6 ∷ []) server server-IsSync refl

edits-IsPort_example : IsPort pairs (
    edits pairs
      (new_port pairs 0)
      (adds_stream (3, 1) ∷ adds_group (2, 0) ∷ completes ∷ deletes_stream 3 ∷ []))
edits-IsPort_example =
    edits-IsPort pairs 0
      (adds_stream (3, 1) ∷ adds_group (2, 0) ∷ completes ∷ deletes_stream 3 ∷ [])

abbrev one_stream : PortState pairs
one_stream = edits pairs (new_port pairs 0) (adds_stream (3, 1) ∷ [])

stream_requests_example :
    let p = one_stream in
    StreamEdited pairs p
      (add_stream pairs (3, 2) p)
      (not (has_key 3 p.streams))
      (λ k. if k == 3 then some (3, 2) else lookup k p.streams)
    × StreamEdited pairs p
        (update_stream pairs (3, 2) p)
        (has_key 3 p.streams)
        (λ k. if k == 3 then some (3, 2) else lookup k p.streams)
    × StreamEdited pairs p
        (delete_stream pairs 7 p)
        (has_key 7 p.streams)
        (λ k. if k == 7 then none else lookup k p.streams)
stream_requests_example =
    stream_requests pairs one_stream (3, 2) 7 (edits-IsPort pairs 0 (adds_stream (3, 1) ∷ []))

device_group_requests_example :
    let p = one_stream in
    let read = λ (k : ℕ). if k == 2 then some (2, 2) else lookup k p.groups in
    GroupEdited pairs p
      (add_device_group pairs (2, 2) p)
      (not (has_key 2 p.groups))
      read
      (λ k. k == 2)
    × GroupEdited pairs p
        (update_device_group pairs (2, 2) p)
        (has_key 2 p.groups)
        read
        (λ k. k == 2)
    × GroupEdited pairs p
        (delete_device_group pairs 7 p)
        (has_key 7 p.groups)
        (λ k. if k == 7 then none else lookup k p.groups)
        (λ k. false)
device_group_requests_example =
    device_group_requests pairs one_stream (2, 2) 7 (edits-IsPort pairs 0 (adds_stream (3, 1) ∷ []))

delete-add_example :
    let p = new_port pairs 0 in
    let r = delete_stream pairs 3 (add_stream pairs (3, 1) p).0 in
    let t = delete_device_group pairs 2 (add_device_group pairs (2, 1) p).0 in
    (r.1 ≡ true)
    × (r.0.streams ≡ p.streams)
    × (r.0.groups ≡ p.groups)
    × (t.1 ≡ true)
    × (t.0.streams ≡ p.streams)
    × (t.0.groups ≡ p.groups)
unfolding new_port has_key keys contains
delete-add_example = delete-add pairs (new_port pairs 0) (3, 1) (2, 1) refl refl

-- An agent that does what it is asked for, for port 0.
abbrev Held : Type 0
Held = List (ℕ × (ℕ × ℕ)) × List (ℕ × (ℕ × ℕ))

abbrev erase_all : List ℕ → List (ℕ × (ℕ × ℕ)) → List (ℕ × (ℕ × ℕ))
erase_all [] m = m
erase_all (id ∷ ids) m = erase_all ids (erase id m)

abbrev add_all : List ℕ → List (ℕ × (ℕ × ℕ)) → List (ℕ × (ℕ × ℕ))
add_all [] m = m
add_all (id ∷ ids) m = add_all ids (assign id (id, 0) m)

abbrev put_all : List (ℕ × ℕ) → List (ℕ × (ℕ × ℕ)) → List (ℕ × (ℕ × ℕ))
put_all [] m = m
put_all (v ∷ vs) m = put_all vs (assign v.0 v m)

abbrev ok : Ack
ok = record { success = true; notes = "" }

abbrev willing : Agent pairs Held
willing = record {
  get_port_id_list = λ r. (r, answers (0 ∷ []));
  get_port_config = λ r ids. (r, answers ids);
  port_config_id = λ port. port;
  get_stream_id_list = λ r id. (r, answers (record { port_id = some 0; items = keys r.0 }));
  get_device_group_id_list = λ r id. (r, answers (record { port_id = some 0; items = keys r.1 }));
  get_stream_config = λ r l. (r, answers (record { port_id = some 0; items = values r.0 }));
  get_device_group_config = λ r l. (r, answers (record { port_id = some 0; items = values r.1 }));
  get_device_list = λ r id. (r, answers 0);
  device_list_port = λ d. some 0;
  delete_device_group = λ r id ids. ((r.0, erase_all ids r.1), answers ok);
  add_device_group = λ r id ids. ((r.0, add_all ids r.1), answers ok);
  modify_device_group = λ r id vs. ((r.0, put_all vs r.1), answers ok);
  delete_stream = λ r id ids. ((erase_all ids r.0, r.1), answers ok);
  add_stream = λ r id ids. ((add_all ids r.0, r.1), answers ok);
  modify_stream = λ r id vs. ((put_all vs r.0, r.1), answers ok);
  resolve_device_neighbors = λ r id. (r, answers ok);
  build = λ r id. (r, answers ok);
  equivalent = λ v w. v.1 == w.1;
}

abbrev before : Held
before = ((1, (1, 5)) ∷ (2, (2, 6)) ∷ [], (4, (4, 7)) ∷ [])

abbrev edited : PortState pairs
edited =
    edits pairs (new_port pairs 0)
      (adds_stream (3, 1) ∷ adds_stream (1, 9) ∷ adds_group (2, 8) ∷ [])

apply_run : (apply willing 0 before edited).0 ≡ ((1, (1, 9)) ∷ (3, (3, 1)) ∷ [], (2, (2, 8)) ∷ [])
unfolding apply acknowledged ack_fault refreshed operate followed run_plan asked emplace_all
    all_equivalent confirm read_back synchronise sort_insert sort same_ids no_adjacent exact_ids
    is_port values values_at keys lookup has_key assign erase create_plan deleted_device_groups
    new_device_groups modified_device_groups deleted_streams new_streams only_in as_set
    set_difference insert_all set_insert contains is_empty push_if edits edit apply_plan add_stream
    add_device_group mark_dirty mark_device_group_modified refresh_remote_baseline new_port
    hydrate_devices
apply_run = refl

apply_succeeds : (apply willing 0 before edited).2 ≡ none
unfolding apply acknowledged ack_fault refreshed operate followed run_plan asked emplace_all
    all_equivalent confirm read_back synchronise sort_insert sort same_ids no_adjacent exact_ids
    is_port values values_at keys lookup has_key assign erase create_plan deleted_device_groups
    new_device_groups modified_device_groups deleted_streams new_streams only_in as_set
    set_difference insert_all set_insert contains is_empty push_if edits edit apply_plan add_stream
    add_device_group mark_dirty mark_device_group_modified refresh_remote_baseline new_port
    hydrate_devices
apply_succeeds = refl

apply-Ends_example : Ends willing 0 edited (apply willing 0 before edited)
apply-Ends_example = apply-Ends willing 0 before edited

hydrate-PortsOf_example : Answered willing (PortsOf willing (0 ∷ [])) (hydrate willing before)
hydrate-PortsOf_example = hydrate-PortsOf willing before before (0 ∷ []) refl
