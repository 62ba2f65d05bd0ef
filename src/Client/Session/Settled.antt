-- ===== src/Client/Session/Settled.antt =====
-- The ports that `ClientSession::hydrate` of client/core/client_session.cpp gives.
use Prim.Native.String.{String}
use ostinato.Base.{
  ℕ, ◌≡◌, refl, true, not, ◌&&◌, ◌||◌, List, [], ◌∷◌, map, arith, ◌==◌, ap, ◌∙◌, if◌then◌else◌,
  if_cases,
}
use ostinato.Base.OrderedMap.{keys, has_key, assign, keys-assign}
use ostinato.Base.MapEntries.{AllEntries, assign-AllEntries}
use ostinato.Base.OrderedSet.{contains, contains-set_insert}
use ostinato.Client.PortState.{
  Messages, PortState, new_port, hydrate_config, hydrate_streams, hydrate_device_groups,
  hydrate_devices, port_sync_complete,
}
use ostinato.Client.PortState.Sync.{IsSettled, mark_sync_complete-IsSettled}
use ostinato.Client.PortState.Edits.{
  IsPort, hydrates_config, hydrates_groups, hydrates_devices, hydrates_streams, completes, edit,
  edits, edits-IsPort,
}
use ostinato.Client.Session.{Agent, Answer, fails, answers, Listed, exact_ids, is_port}
use ostinato.Client.Session.ExactIds.{exact_ids-contains}
use ostinato.Client.Session.Hydrate.{
  ask, refuse, hydrate_stream_config, hydrate_stream_ids, hydrate_device_list, hydrate_group_config,
  hydrate_group_ids, hydrate_port, hydrate_ports, hydrate_configs, hydrate_ids, hydrate,
}

module _ {M : Messages} {R : Type 0} (agent : Agent M R) where
  open M use {Stream, DeviceGroup, Port, PortDeviceList}

  -- A port as it was read: in order, under its id, with nothing left to synchronise.
  pub record Hydrated (id : ℕ) (q : PortState M) : Type 0 where
    pub own : q.id ≡ id
    pub port : IsPort M q
    pub settled : IsSettled q.sync (keys q.streams) (keys q.groups)

  -- What holds of an answer, if there is one.
  pub record Answered {ℓ} {A : Type ℓ} (P : A → Type 0) (t : R × Answer A) : Type 0 where
    pub holds : elim t.1 as (λ x. Type 0) [ fails f ↦ Unit | answers a ↦ P a ]

  Answered-refuse :
      {A : Type 0} (P : A → Type 0) (r : R) (text : String) → Answered P (refuse r text)
  Answered-refuse P r text = record { holds = tt }

  Answered-ask :
      {A B : Type 0} (P : B → Type 0) (t : R × Answer A) (next : R → A → R × Answer B)
      → ((r : R) (a : A) → Answered P (next r a))
      → Answered P (ask t next)
  unfolding ask
  Answered-ask P (r, fails f) next h = record { holds = tt }
  Answered-ask P (r, answers a) next h = h r a

  -- A port with this id, that was configured and whose groups and devices were read.
  abbrev read_so_far : ℕ → Port → List DeviceGroup → PortDeviceList → PortState M
  read_so_far id config groups devices =
      hydrate_devices M devices
        (hydrate_device_groups M groups (hydrate_config M config (new_port M id)))

  read-Hydrated :
      (id : ℕ) (config : Port) (groups : List DeviceGroup) (devices : PortDeviceList)
      (streams : List Stream)
      → Hydrated id
          (port_sync_complete M (hydrate_streams M streams (read_so_far id config groups devices)))
  unfolding edits edit port_sync_complete hydrate_streams hydrate_devices hydrate_device_groups
      hydrate_config new_port
  read-Hydrated id config groups devices streams =
      let q = hydrate_streams M streams (read_so_far id config groups devices) in
      record {
        own = refl;
        port = edits-IsPort M id (
            hydrates_config config
            ∷ hydrates_groups groups
            ∷ hydrates_devices devices
            ∷ hydrates_streams streams
            ∷ completes
            ∷ []);
        settled = (mark_sync_complete-IsSettled q.sync q.streams q.groups).0;
      }

  stream_config-Hydrated :
      (id : ℕ) (config : Port) (groups : List DeviceGroup) (devices : PortDeviceList)
      (ids : Listed ℕ) (r : R) (streams : Listed Stream)
      → Answered
          (Hydrated id)
          (hydrate_stream_config agent id (read_so_far id config groups devices) ids r streams)
  unfolding hydrate_stream_config
  stream_config-Hydrated id config groups devices ids r streams =
      if_cases (Answered (Hydrated id))
        (not (is_port id streams.port_id && exact_ids (map M.stream_id streams.items) ids.items)) _
        _ (λ e. Answered-refuse (Hydrated id) r _)
        (λ e. record { holds = read-Hydrated id config groups devices streams.items })

  stream_ids-Hydrated :
      (id : ℕ) (config : Port) (groups : List DeviceGroup) (devices : PortDeviceList) (r : R)
      (ids : Listed ℕ)
      → Answered
          (Hydrated id)
          (hydrate_stream_ids agent id (read_so_far id config groups devices) r ids)
  unfolding hydrate_stream_ids
  stream_ids-Hydrated id config groups devices r ids =
      let refused = λ (text : String). Answered-refuse (Hydrated id) r text in
      if_cases (Answered (Hydrated id)) (not (is_port id ids.port_id)) _ _ (λ e. refused _)
        λ e.
          if_cases (Answered (Hydrated id)) (not (exact_ids ids.items ids.items)) _ _
            (λ e. refused _)
            λ e.
              Answered-ask (Hydrated id) _ _ (stream_config-Hydrated id config groups devices ids)

  device_list-Hydrated :
      (id : ℕ) (config : Port) (groups : List DeviceGroup) (r : R) (devices : PortDeviceList)
      → Answered (Hydrated id) (
          hydrate_device_list agent id
            (hydrate_device_groups M groups (hydrate_config M config (new_port M id)))
            r
            devices)
  unfolding hydrate_device_list
  device_list-Hydrated id config groups r devices =
      if_cases (Answered (Hydrated id)) (not (is_port id (agent.device_list_port devices))) _ _
        (λ e. Answered-refuse (Hydrated id) r _)
        λ e. Answered-ask (Hydrated id) _ _ (stream_ids-Hydrated id config groups devices)

  group_config-Hydrated :
      (id : ℕ) (config : Port) (ids : Listed ℕ) (r : R) (groups : Listed DeviceGroup)
      → Answered
          (Hydrated id)
          (hydrate_group_config agent id (hydrate_config M config (new_port M id)) ids r groups)
  unfolding hydrate_group_config
  group_config-Hydrated id config ids r groups =
      if_cases (Answered (Hydrated id))
        (not
          (is_port id groups.port_id && exact_ids (map M.device_group_id groups.items) ids.items))
        _ _ (λ e. Answered-refuse (Hydrated id) r _)
        λ e. Answered-ask (Hydrated id) _ _ (device_list-Hydrated id config groups.items)

  group_ids-Hydrated :
      (id : ℕ) (config : Port) (r : R) (ids : Listed ℕ)
      → Answered
          (Hydrated id)
          (hydrate_group_ids agent id (hydrate_config M config (new_port M id)) r ids)
  unfolding hydrate_group_ids
  group_ids-Hydrated id config r ids =
      let refused = λ (text : String). Answered-refuse (Hydrated id) r text in
      if_cases (Answered (Hydrated id)) (not (is_port id ids.port_id)) _ _ (λ e. refused _)
        λ e.
          if_cases (Answered (Hydrated id)) (not (exact_ids ids.items ids.items)) _ _
            (λ e. refused _)
            λ e. Answered-ask (Hydrated id) _ _ (group_config-Hydrated id config ids)

  hydrate_port-Hydrated :
      (id : ℕ) (config : Port) (r : R) → Answered (Hydrated id) (hydrate_port agent id config r)
  unfolding hydrate_port
  hydrate_port-Hydrated id config r = Answered-ask (Hydrated id) _ _ (group_ids-Hydrated id config)

  -- Every port is hydrated under its key.
  abbrev pub AllHydrated : List (ℕ × PortState M) → Type 0
  AllHydrated = AllEntries Hydrated

  -- The staged ports, with those of the configurations that follow.
  record Staged (staged : List (ℕ × PortState M)) (configs : List Port)
      (ports : List (ℕ × PortState M)) : Type 0 where
    all : AllHydrated ports
    ids :
        (z : ℕ)
        → contains z (keys ports)
          ≡ (contains z (map agent.port_config_id configs) || contains z (keys staged))

  emplaced :
      (id z : ℕ) (q : PortState M) (m : List (ℕ × PortState M))
      → contains z (keys (if has_key id m then m else assign id q m))
        ≡ (z == id || contains z (keys m))
  unfolding has_key
  emplaced id z q m =
      if_cases (λ t. contains z (keys t) ≡ (z == id || contains z (keys m))) (has_key id m) m
        (assign id q m) (λ h. present h)
        (λ h. ap (contains z) (keys-assign id q m) ∙ contains-set_insert z id (keys m))
    where
      present : contains id (keys m) ≡ true → contains z (keys m) ≡ (z == id || contains z (keys m))
      present h = ground arith

  Answered-ask_of :
      {A B : Type 0} (Q : A → Type 0) (P : B → Type 0) (t : R × Answer A)
      (next : R → A → R × Answer B)
      → Answered Q t
      → ((r : R) (a : A) → Q a → Answered P (next r a))
      → Answered P (ask t next)
  unfolding ask
  Answered-ask_of Q P (r, fails f) next h k = record { holds = tt }
  Answered-ask_of Q P (r, answers a) next h k = k r a h.holds

  Answered-weaker :
      {A : Type 0} (P Q : A → Type 0) (t : R × Answer A)
      → ((a : A) → P a → Q a)
      → Answered P t
      → Answered Q t
  Answered-weaker P Q (r, fails f) k h = record { holds = tt }
  Answered-weaker P Q (r, answers a) k h = record { holds = k a h.holds }

  hydrate_ports-Staged :
      (configs : List Port) (staged : List (ℕ × PortState M)) (r : R)
      → AllHydrated staged
      → Answered (Staged staged configs) (hydrate_ports agent configs staged r)
  unfolding hydrate_ports contains
  hydrate_ports-Staged [] staged r all = record { holds = record { all = all; ids = λ z. refl } }
  hydrate_ports-Staged (config ∷ configs) staged r all =
      let id = agent.port_config_id config in
      let add = λ (q : PortState M). if has_key id staged then staged else assign id q staged in
      Answered-ask_of (Hydrated id) (Staged staged (config ∷ configs))
        (hydrate_port agent id config r) (λ r' q. hydrate_ports agent configs (add q) r')
        (hydrate_port-Hydrated id config r)
        (λ r' q h.
          Answered-weaker (Staged (add q) configs) (Staged staged (config ∷ configs))
            (hydrate_ports agent configs (add q) r')
            (λ ports t. record {
              all = t.all;
              ids = λ z. t.ids z ∙ ground (arith, emplaced id z q staged);
            })
            (hydrate_ports-Staged configs (add q) r' (
              if_cases AllHydrated (has_key id staged) staged (assign id q staged) (λ e. all)
                (λ e. assign-AllEntries Hydrated id q staged h all))))

  -- The ports of an agent that lists these ids.
  pub record PortsOf (ids : List ℕ) (ports : List (ℕ × PortState M)) : Type 0 where
    pub all : AllHydrated ports
    pub same_ids : (z : ℕ) → has_key z ports ≡ contains z ids

  closed-PortsOf :
      (ids : List ℕ) (r : R) (configs : List Port)
      → exact_ids (map agent.port_config_id configs) ids ≡ true
      → Answered (PortsOf ids) (hydrate_ports agent configs [] r)
  unfolding has_key contains keys
  closed-PortsOf ids r configs e =
      Answered-weaker (Staged [] configs) (PortsOf ids) (hydrate_ports agent configs [] r)
        (λ ports t. record {
          all = t.all;
          same_ids = λ z.
              t.ids z
              ∙ ground (arith, exact_ids-contains z (map agent.port_config_id configs) ids e);
        })
        (hydrate_ports-Staged configs [] r tt)

  hydrate_ids-PortsOf : (r : R) (ids : List ℕ) → Answered (PortsOf ids) (hydrate_ids agent r ids)
  unfolding hydrate_ids hydrate_configs
  hydrate_ids-PortsOf r ids =
      if_cases (Answered (PortsOf ids)) (not (exact_ids ids ids)) _ _
        (λ e. Answered-refuse (PortsOf ids) r _)
        λ e. Answered-ask (PortsOf ids) _ _ (λ r' configs.
          if_cases (Answered (PortsOf ids)) (not (exact_ids (map agent.port_config_id configs) ids))
            _ _ (λ e. Answered-refuse (PortsOf ids) r' _)
            (λ e. closed-PortsOf ids r' configs (ground arith)))

  -- Whatever the agent does: if it lists these ids and `hydrate` gives ports, then the ports have these
  -- ids, and each is keyed by its own id, has its maps keyed and in order, and nothing to synchronise.
  pub hydrate-PortsOf :
      (r r' : R) (ids : List ℕ)
      → agent.get_port_id_list r ≡ (r', answers ids)
      → Answered (PortsOf ids) (hydrate agent r)
  unfolding hydrate ask
  hydrate-PortsOf r r' ids e = rw e (hydrate_ids-PortsOf r' ids)

  pub hydrate-Hydrated : (r : R) → Answered AllHydrated (hydrate agent r)
  unfolding hydrate
  hydrate-Hydrated r = Answered-ask AllHydrated _ _ (λ r' ids.
      Answered-weaker (PortsOf ids) AllHydrated (hydrate_ids agent r' ids) (λ ports t. t.all)
        (hydrate_ids-PortsOf r' ids))
