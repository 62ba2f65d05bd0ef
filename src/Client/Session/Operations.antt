-- ===== src/Client/Session/Operations.antt =====
-- The calls of `ClientSession`, client/core/client_session.cpp, on a session: connecting,
-- notifications, control, statistics and capture. The RPC client and what it reaches are a parameter.
use Prim.Native.String.{String}
use ostinato.Base.{
  ℕ, Bool, true, false, not, ◌||◌, Option, none, some, List, [], ◌∷◌, map, ◌==◌, ◌%◌, ◌^◌,
  if◌then◌else◌,
}
use ostinato.Base.OrderedSet.{insert_all}
use ostinato.Base.OrderedMap.{keys, lookup, has_key, assign}
use ostinato.Client.PortState.{
  Messages, PortState, is_empty, hydrate_config, hydrate_stats, set_transmitting, set_capturing,
}
use ostinato.Client.Session.{
  Agent, Answer, fails, answers, Fault, remote, Ack, exact_ids, apply, protocol_fault, ack_fault,
}
use ostinato.Client.Session.Hydrate.{hydrate}

-- `OstProto::Notification`.
pub record Notification : Type 0 where
  pub notif_type : ℕ
  pub port_id_list : List ℕ

-- `OstProto::VersionCompatibility`.
pub record VersionCompatibility : Type 0 where
  pub compatible : Bool
  pub notes : String

-- The calls that `control` makes.
pub data Control : Type 0 where
  start_transmit stop_transmit start_capture stop_capture : Control

-- The RPC client, the agent behind it, and the parser of notifications. `received` takes what the
-- notification callback has been called with.
pub record Link (M : Messages) (R : Type 0) : Type 0 where
  pub agent : Agent M R
  pub connected : R → Bool
  pub connect : String → ℕ → R → R × Option Fault
  pub disconnect : R → R
  pub cancel : R → R
  pub received : R → R × List (ℕ × List ℕ)
  pub parse : List ℕ → Option Notification
  pub check_version : R → String → R × Answer VersionCompatibility
  pub control : Control → R → ℕ → R × Answer Ack
  pub get_stats : R → List ℕ → R × Answer (List M.PortStats)
  pub stats_port : M.PortStats → ℕ
  -- The data of the capture goes to the caller's buffer or sink, which belong to the other side.
  pub get_capture_buffer : R → ℕ → R × Option Fault

-- `OstProto::portConfigChanged`.
abbrev pub port_config_changed : ℕ
port_config_changed = 1

-- The name of the call.
unfoldable pub control_name : Control → String
control_name start_transmit = "startTransmit"
control_name stop_transmit = "stopTransmit"
control_name start_capture = "startCapture"
control_name stop_capture = "stopCapture"

-- What was found under a key is changed.
unfoldable pub update {ℓ} : {W : Type ℓ} → ℕ → (W → W) → List (ℕ × W) → List (ℕ × W)
update k f m = elim (lookup k m) [ none ↦ m | some w ↦ assign k (f w) m ]

-- The notification callback, once the notification is parsed.
unfoldable pub noted : ℕ → Option Notification → List ℕ → List ℕ
noted method none pending = pending
noted method (some notice) pending =
    if not (notice.notif_type == port_config_changed) || not (method == notice.notif_type % 2 ^ 16)
    then pending
    else insert_all notice.port_id_list pending

module _ (M : Messages) where
  -- `ports_`, `pendingNotifications_`, `host_`, `endpointPort_` and `version_`.
  pub record Session : Type 0 where
    pub ports : List (ℕ × PortState M)
    pub pending : List ℕ
    pub host : String
    pub endpoint_port : ℕ
    pub version : String

  unfoldable pub set_flag : Control → PortState M → PortState M
  set_flag start_transmit p = set_transmitting M true p
  set_flag stop_transmit p = set_transmitting M false p
  set_flag start_capture p = set_capturing M true p
  set_flag stop_capture p = set_capturing M false p

module _ {M : Messages} {R : Type 0} (link : Link M R) where
  open M use {Port, PortStats}

  -- The state of the other side, the session and, on failure, the fault.
  abbrev pub Result : Type 0
  Result = R × Session M × Option Fault

  unfoldable pub notified : List ℕ → ℕ × List ℕ → List ℕ
  notified pending (method, bytes) = noted method (link.parse bytes) pending

  unfoldable pub notified_all : List (ℕ × List ℕ) → List ℕ → List ℕ
  notified_all [] pending = pending
  notified_all (n ∷ ns) pending = notified_all ns (notified pending n)

  -- The callback's calls during a call.
  unfoldable pub absorb : R → Session M → R × Session M
  absorb r s = let t = link.received r in (t.0, record s { pending = notified_all t.1 s.pending })

  unfoldable pub clear_if_disconnected : R → Session M → Session M
  clear_if_disconnected r s = if link.connected r then s else record s { ports = []; pending = [] }

  -- What `ScopeExit` does at the end.
  unfoldable pub cleaned : Result → Result
  cleaned (r, s, f) = (r, clear_if_disconnected r s, f)

  unfoldable pub proceed : Result → (R → Session M → Result) → Result
  proceed (r, s, none) next = next r s
  proceed (r, s, some f) next = (r, s, some f)

  -- The last loop of `processNotifications`.
  unfoldable pub hydrate_known : List Port → List (ℕ × PortState M) → List (ℕ × PortState M)
  hydrate_known [] ports = ports
  hydrate_known (config ∷ configs) ports =
      hydrate_known configs
        (update (link.agent.port_config_id config) (hydrate_config M config) ports)

  -- The notifications are kept for the next time.
  unfoldable pub postponed : List ℕ → Option Fault → R × Session M → Result
  postponed ids f (r, s) = (r, record s { pending = insert_all ids s.pending }, f)

  unfoldable pub process_answer : List ℕ → Answer (List Port) → R × Session M → Result
  process_answer ids (fails f) t = postponed ids (some f) t
  process_answer ids (answers configs) (r, s) =
      if not (exact_ids (map link.agent.port_config_id configs) ids)
      then postponed ids (protocol_fault link.agent "notification configuration closure differs")
          (r, s)
      else (r, record s { ports = hydrate_known configs s.ports }, none)

  unfoldable pub process_notifications : R → Session M → Result
  process_notifications r s =
      let ids = s.pending in
      let t = link.agent.get_port_config r ids in
      if is_empty ids
      then (r, s, none)
      else process_answer ids t.1 (absorb t.0 (record s { pending = [] }))

  -- How the calls begin and end.
  unfoldable pub perform : (R → Session M → Result) → R → Session M → Result
  perform body r s = cleaned (proceed (process_notifications r s) body)

  unfoldable pub unknown_port : R → Session M → Result
  unknown_port r s = (r, s, protocol_fault link.agent "unknown port")

  unfoldable pub apply_found : ℕ → Option (PortState M) → R → Session M → Result
  apply_found id none r s = unknown_port r s
  apply_found id (some p) r s =
      let t = apply link.agent id r p in
      let u = absorb t.0 s in (u.0, record u.1 { ports = assign id t.1 u.1.ports }, t.2)

  unfoldable pub apply_port : ℕ → R → Session M → Result
  apply_port id = perform (λ r s. apply_found id (lookup id s.ports) r s)

  unfoldable pub control_known : Control → ℕ → Option Fault → R × Session M → Result
  control_known c id (some f) (r, s) = (r, s, some f)
  control_known c id none (r, s) = (r, record s { ports = update id (set_flag M c) s.ports }, none)

  unfoldable pub control : Control → ℕ → R → Session M → Result
  control c id = perform (λ r s.
      let t = link.control c r id in
      if not (has_key id s.ports)
      then unknown_port r s
      else control_known c id (ack_fault (control_name c) t.1) (absorb t.0 s))

  unfoldable pub hydrate_all_stats :
      List PortStats → List (ℕ × PortState M) → List (ℕ × PortState M)
  hydrate_all_stats [] ports = ports
  hydrate_all_stats (v ∷ vs) ports =
      hydrate_all_stats vs (update (link.stats_port v) (hydrate_stats M v) ports)

  unfoldable pub stats_answer : Answer (List PortStats) → R × Session M → Result
  stats_answer (fails f) (r, s) = (r, s, some f)
  stats_answer (answers vs) (r, s) =
      if not (exact_ids (map link.stats_port vs) (keys s.ports))
      then (r, s, protocol_fault link.agent "statistics ID closure differs")
      else (r, record s { ports = hydrate_all_stats vs s.ports }, none)

  unfoldable pub query_stats : R → Session M → Result
  query_stats =
      perform (λ r s. let t = link.get_stats r (keys s.ports) in stats_answer t.1 (absorb t.0 s))

  unfoldable pub capture_known : ℕ → Option Fault → R × Session M → Result
  capture_known id (some f) (r, s) = (r, s, some f)
  capture_known id none (r, s) =
      (r, record s { ports = update id (set_capturing M false) s.ports }, none)

  unfoldable pub get_capture : ℕ → R → Session M → Result
  get_capture id = perform (λ r s.
      let t = link.get_capture_buffer r id in
      if not (has_key id s.ports) then unknown_port r s else capture_known id t.1 (absorb t.0 s))

  -- Where `connectUnlocked` gives up a connection.
  unfoldable pub given_up : Fault → R × Session M → Result
  given_up f (r, s) = let r' = link.disconnect r in (r', clear_if_disconnected r' s, some f)

  unfoldable pub connect_hydrated : Answer (List (ℕ × PortState M)) → R × Session M → Result
  connect_hydrated (fails f) t = given_up f t
  connect_hydrated (answers ports) (r, s) = (r, record s { ports = ports }, none)

  unfoldable pub connect_checked : Answer VersionCompatibility → R × Session M → Result
  connect_checked (fails f) t = given_up f t
  connect_checked (answers a) (r, s) =
      let h = hydrate link.agent r in
      if not a.compatible
      then given_up (record { error = remote; message = a.notes }) (r, s)
      else connect_hydrated h.1 (absorb h.0 s)

  unfoldable pub connect_opened : R × Option Fault → Session M → Result
  connect_opened (r, some f) s = (r, s, some f)
  connect_opened (r, none) s =
      let c = link.check_version r s.version in connect_checked c.1 (absorb c.0 s)

  unfoldable pub connect : String → ℕ → String → R → Session M → Result
  connect host endpoint_port version r s =
      connect_opened (link.connect host endpoint_port (link.disconnect r))
        (record s { ports = []; host = host; endpoint_port = endpoint_port; version = version })

  unfoldable pub reconnect : R → Session M → Result
  reconnect r s = connect s.host s.endpoint_port s.version r s

  unfoldable pub disconnect : R → Session M → Result
  disconnect r s = let r' = link.disconnect r in (r', clear_if_disconnected r' s, none)

  unfoldable pub cancel : R → Session M → Result
  cancel r s = let r' = link.cancel r in (r', clear_if_disconnected r' s, none)

-- The calls of a session.
pub data Request : Type 0 where
  connects : String → ℕ → String → Request
  reconnects disconnects cancels queries_stats : Request
  applies captures : ℕ → Request
  controls : Control → ℕ → Request

module _ {M : Messages} {R : Type 0} (link : Link M R) where
  unfoldable pub answer : Request → R → Session M → Result link
  answer (connects host endpoint_port version) r s = connect link host endpoint_port version r s
  answer reconnects r s = reconnect link r s
  answer disconnects r s = disconnect link r s
  answer cancels r s = cancel link r s
  answer queries_stats r s = query_stats link r s
  answer (applies id) r s = apply_port link id r s
  answer (captures id) r s = get_capture link id r s
  answer (controls c id) r s = control link c id r s

  unfoldable pub answer_all : List Request → R → Session M → R × Session M
  answer_all [] r s = (r, s)
  answer_all (q ∷ qs) r s = let t = answer q r s in answer_all qs t.0 t.1

-- `ClientSession()`.
abbrev pub new_session : (M : Messages) → Session M
new_session M = record { ports = []; pending = []; host = ""; endpoint_port = 0; version = "" }
