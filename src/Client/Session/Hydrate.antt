-- ===== src/Client/Session/Hydrate.antt =====
-- `ClientSession::hydrate` and `hydratePort` of client/core/client_session.cpp: the ports of an agent
-- that was just connected to. The caller has cleared the session's ports.
use Prim.Native.String.{String}
use ostinato.Base.{ℕ, not, ◌&&◌, List, [], ◌∷◌, map, if◌then◌else◌}
use ostinato.Base.OrderedMap.{has_key, assign}
use ostinato.Client.PortState.{
  Messages, PortState, new_port, hydrate_config, hydrate_streams, hydrate_device_groups,
  hydrate_devices, port_sync_complete,
}
use ostinato.Client.Session.{Agent, Answer, fails, answers, protocol, Listed, exact_ids, is_port}

-- A call whose answer the rest needs.
unfoldable pub ask {ℓ κ} :
    {R : Type 0} {A : Type ℓ} {B : Type κ} → R × Answer A → (R → A → R × Answer B) → R × Answer B
ask (r, fails f) next = (r, fails f)
ask (r, answers a) next = next r a

abbrev pub refuse {ℓ} : {R : Type 0} {B : Type ℓ} → R → String → R × Answer B
refuse r text = (r, fails (record { error = protocol; message = text }))

module _ {M : Messages} {R : Type 0} (agent : Agent M R) where
  open M use {Stream, DeviceGroup, Port, PortDeviceList, stream_id, device_group_id}

  -- The steps of `hydratePort`, from the last to the first.
  unfoldable pub hydrate_stream_config :
      ℕ → PortState M → Listed ℕ → R → Listed Stream → R × Answer (PortState M)
  hydrate_stream_config id state ids r streams =
      if not (is_port id streams.port_id && exact_ids (map stream_id streams.items) ids.items)
      then refuse r "stream configuration closure differs"
      else (r, answers (port_sync_complete M (hydrate_streams M streams.items state)))

  unfoldable pub hydrate_stream_ids : ℕ → PortState M → R → Listed ℕ → R × Answer (PortState M)
  hydrate_stream_ids id state r ids =
      if not (is_port id ids.port_id)
      then refuse r "stream ID response port differs"
      else if not (exact_ids ids.items ids.items)
      then refuse r "duplicate stream ID"
      else ask (agent.get_stream_config r ids) (hydrate_stream_config id state ids)

  unfoldable pub hydrate_device_list :
      ℕ → PortState M → R → PortDeviceList → R × Answer (PortState M)
  hydrate_device_list id state r devices =
      if not (is_port id (agent.device_list_port devices))
      then refuse r "device response port differs"
      else ask (agent.get_stream_id_list r id)
          (hydrate_stream_ids id (hydrate_devices M devices state))

  unfoldable pub hydrate_group_config :
      ℕ → PortState M → Listed ℕ → R → Listed DeviceGroup → R × Answer (PortState M)
  hydrate_group_config id state ids r groups =
      if not (is_port id groups.port_id && exact_ids (map device_group_id groups.items) ids.items)
      then refuse r "device-group configuration closure differs"
      else ask (agent.get_device_list r id)
          (hydrate_device_list id (hydrate_device_groups M groups.items state))

  unfoldable pub hydrate_group_ids : ℕ → PortState M → R → Listed ℕ → R × Answer (PortState M)
  hydrate_group_ids id state r ids =
      if not (is_port id ids.port_id)
      then refuse r "device-group ID response port differs"
      else if not (exact_ids ids.items ids.items)
      then refuse r "duplicate device-group ID"
      else ask (agent.get_device_group_config r ids) (hydrate_group_config id state ids)

  unfoldable pub hydrate_port : ℕ → Port → R → R × Answer (PortState M)
  hydrate_port id config r =
      ask (agent.get_device_group_id_list r id)
        (hydrate_group_ids id (hydrate_config M config (new_port M id)))

  -- The loop of `hydrate`: `staged.emplace` keeps the first port of an id.
  unfoldable pub hydrate_ports :
      List Port → List (ℕ × PortState M) → R → R × Answer (List (ℕ × PortState M))
  hydrate_ports [] staged r = (r, answers staged)
  hydrate_ports (config ∷ configs) staged r =
      let id = agent.port_config_id config in
      ask (hydrate_port id config r) (λ r' state.
        hydrate_ports configs (if has_key id staged then staged else assign id state staged) r')

  unfoldable pub hydrate_configs : List ℕ → R → List Port → R × Answer (List (ℕ × PortState M))
  hydrate_configs ids r configs =
      if not (exact_ids (map agent.port_config_id configs) ids)
      then refuse r "port configuration ID closure differs"
      else hydrate_ports configs [] r

  unfoldable pub hydrate_ids : R → List ℕ → R × Answer (List (ℕ × PortState M))
  hydrate_ids r ids =
      if not (exact_ids ids ids)
      then refuse r "duplicate port ID"
      else ask (agent.get_port_config r ids) (hydrate_configs ids)

  unfoldable pub hydrate : R → R × Answer (List (ℕ × PortState M))
  hydrate r = ask (agent.get_port_id_list r) hydrate_ids
