-- ===== src/Client/Session/Tests.antt =====
-- An agent for `ClientSession::apply`, client/core/client_session.cpp, that keeps all it is given.
use ostinato.Base.{
  ℕ, ◌≡◌, refl, Bool, true, false, none, some, List, [], ◌∷◌, ◌++◌, ◌==◌, if◌then◌else◌,
}
use ostinato.Base.OrderedSet.{contains, insert_all, set_insert}
use ostinato.Base.OrderedMap.{keys, has_key, assign}
use ostinato.Client.PortState.{Messages, assign_streams, assign_groups}
use ostinato.Client.Session.{
  Agent, answers, Ack, values, exact_ids, same_ids, no_adjacent, sort, sort_insert, is_port,
}
use ostinato.Client.Session.Serves.{Serves}
use ostinato.Client.Session.Operations.{
  Link, Session, new_session, connect, connect_opened, connect_checked, connect_hydrated, absorb,
  notified_all, notified, noted, answer_all, connects, controls, applies, start_transmit,
}
use ostinato.Client.Session.Hydrate.{
  hydrate, hydrate_ids, hydrate_configs, hydrate_ports, hydrate_port, hydrate_group_ids,
  hydrate_group_config, hydrate_device_list, hydrate_stream_ids, hydrate_stream_config, ask,
}
use ostinato.Client.Session.Standing.{Stands}
use ostinato.Client.Session.Requests.{Placed, requests-Stands}

-- Messages with an id and a name.
abbrev pairs : Messages
pairs = record {
  Stream = ℕ × ℕ;
  DeviceGroup = ℕ × ℕ;
  Port = ℕ;
  PortDeviceList = ℕ;
  PortStats = Bool;
  stream_id = λ s. s.0;
  device_group_id = λ g. g.0;
  port_of = λ id. id;
  devices_of = λ id. id;
  stats_of = λ id. false;
  has_state = λ s. s;
  is_transmit_on = λ s. s;
  is_capture_on = λ s. false;
}

abbrev first : ℕ × ℕ → ℕ
first v = v.0

-- What the agent was given, the latest last.
abbrev Given : Type 0
Given = List (ℕ × ℕ) × List (ℕ × ℕ)

unfoldable without : List ℕ → List (ℕ × ℕ) → List (ℕ × ℕ)
without ids [] = []
without ids (v ∷ vs) = if contains v.0 ids then without ids vs else v ∷ without ids vs

unfoldable fresh : List ℕ → List (ℕ × ℕ)
fresh [] = []
fresh (id ∷ ids) = (id, 0) ∷ fresh ids

abbrev held : List (ℕ × ℕ) → List (ℕ × (ℕ × ℕ))
held vs = assign_streams pairs vs []

abbrev held_groups : List (ℕ × ℕ) → List (ℕ × (ℕ × ℕ))
held_groups vs = assign_groups pairs vs []

abbrev ok : Ack
ok = record { success = true; notes = "" }

abbrev keeper : Agent pairs Given
keeper = record {
  get_port_id_list = λ r. (r, answers (0 ∷ []));
  get_port_config = λ r ids. (r, answers ids);
  port_config_id = λ port. port;
  get_stream_id_list = λ r id. (r, answers (record { port_id = some id; items = keys (held r.0) }));
  get_device_group_id_list =
      λ r id. (r, answers (record { port_id = some id; items = keys (held_groups r.1) }));
  get_stream_config =
      λ r l. (r, answers (record { port_id = l.port_id; items = values (held r.0) }));
  get_device_group_config =
      λ r l. (r, answers (record { port_id = l.port_id; items = values (held_groups r.1) }));
  get_device_list = λ r id. (r, answers id);
  device_list_port = λ d. some d;
  delete_device_group = λ r id ids. ((r.0, without ids r.1), answers ok);
  add_device_group = λ r id ids. ((r.0, r.1 ++ fresh ids), answers ok);
  modify_device_group = λ r id vs. ((r.0, r.1 ++ vs), answers ok);
  delete_stream = λ r id ids. ((without ids r.0, r.1), answers ok);
  add_stream = λ r id ids. ((r.0 ++ fresh ids, r.1), answers ok);
  modify_stream = λ r id vs. ((r.0 ++ vs, r.1), answers ok);
  resolve_device_neighbors = λ r id. (r, answers ok);
  build = λ r id. (r, answers ok);
  equivalent = λ v w. v.1 == w.1;
}

-- A link to the keeper: its notifications say that these ports have changed.
abbrev keeper_link : Link pairs Given
keeper_link = record {
  agent = keeper;
  connected = λ r. true;
  connect = λ host endpoint_port r. (r, none);
  disconnect = λ r. r;
  cancel = λ r. r;
  received = λ r. (r, (1, 0 ∷ []) ∷ (2, 5 ∷ []) ∷ []);
  parse = λ bytes. some (record { notif_type = 1; port_id_list = bytes });
  check_version = λ r version. (r, answers (record { compatible = true; notes = "" }));
  control = λ c r id. (r, answers ok);
  get_stats = λ r ids. (r, answers []);
  stats_port = λ v. 0;
  get_capture_buffer = λ r id. (r, none);
}

abbrev connected_session : Session pairs
connected_session =
    (connect keeper_link "127.0.0.1" 7878 "1.3.0" ((1, 5) ∷ [], []) (new_session pairs)).1

connected_pending : connected_session.pending ≡ 0 ∷ []
unfolding connect connect_opened connect_checked connect_hydrated absorb notified_all notified noted
    insert_all set_insert hydrate hydrate_ids hydrate_configs hydrate_ports hydrate_port
    hydrate_group_ids hydrate_group_config hydrate_device_list hydrate_stream_ids
    hydrate_stream_config ask exact_ids same_ids no_adjacent sort sort_insert is_port keys has_key
    contains assign values assign_streams assign_groups
connected_pending = refl

requests-Stands_example :
    Stands
      (Placed pairs)
      (answer_all keeper_link
        (connects "127.0.0.1" 7878 "1.3.0" ∷ controls start_transmit 0 ∷ applies 0 ∷ [])
        ((1, 5) ∷ [], [])
        (new_session pairs)).1
requests-Stands_example =
    requests-Stands keeper_link
      (connects "127.0.0.1" 7878 "1.3.0" ∷ controls start_transmit 0 ∷ applies 0 ∷ [])
      ((1, 5) ∷ [], [])
