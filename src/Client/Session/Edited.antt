-- ===== src/Client/Session/Edited.antt =====
-- What `ClientSession::apply` of client/core/client_session.cpp does to a port are edits of
-- client/core/port_state.cpp, so that it keeps what they all keep.
use Prim.Native.String.{String}
use ostinato.Base.{ℕ, not, ◌&&◌, none, some, List, [], ◌∷◌, map, if_cases}
use ostinato.Base.OrderedMap.{keys}
use ostinato.Client.PortState.{
  Messages, PortState, ApplyOperation, delete_device_groups, add_device_groups,
  modify_device_groups, refresh_devices, delete_streams, add_streams, modify_streams,
  resolve_neighbors, build,
}
use ostinato.Client.PortState.Edits.{
  Edit, edit, hydrates_streams, hydrates_groups, hydrates_devices, completes, reads_baseline,
}
use ostinato.Client.Session.{
  Agent, Answer, fails, answers, Listed, Ack, exact_ids, is_port, Outcome, acknowledged, refreshed,
  operate, followed, run_plan, asked, emplace_all, all_equivalent, confirm, read_back, synchronise,
  apply,
}

module _ {M : Messages} {R : Type 0} (agent : Agent M R) (P : PortState M → Type 0)
    (closed : (q : PortState M) (e : Edit M) → P q → P (edit M q e)) where
  open M use {Stream, DeviceGroup, stream_id, device_group_id}

  -- An outcome with such a port.
  record Keeps (t : Outcome agent) : Type 0 where
    pub keeps : P t.1

  kept : (r : R) (q : PortState M) (f : _) → P q → Keeps (r, q, f)
  kept r q f h = record { keeps = h }

  acknowledged-Keeps :
      (name : String) (q : PortState M) (a : R × Answer Ack)
      → P q
      → Keeps (acknowledged agent name q a)
  unfolding acknowledged
  acknowledged-Keeps name q (r, a) h = kept r q _ h

  refreshed-Keeps :
      (id : ℕ) (q : PortState M) (a : R × Answer M.PortDeviceList)
      → P q
      → Keeps (refreshed agent id q a)
  unfolding refreshed edit
  refreshed-Keeps id q (r, fails f) h = kept r q _ h
  refreshed-Keeps id q (r, answers devices) h =
      if_cases Keeps (is_port id (agent.device_list_port devices)) _ _
        (λ e. kept r _ _ (closed q (hydrates_devices devices) h)) (λ e. kept r q _ h)

  operate-Keeps :
      (id : ℕ) (op : ApplyOperation) (r : R) (q : PortState M)
      → P q
      → Keeps (operate agent id op r q)
  unfolding operate
  operate-Keeps id delete_device_groups r q h = acknowledged-Keeps _ q _ h
  operate-Keeps id add_device_groups r q h = acknowledged-Keeps _ q _ h
  operate-Keeps id modify_device_groups r q h = acknowledged-Keeps _ q _ h
  operate-Keeps id refresh_devices r q h = refreshed-Keeps id q _ h
  operate-Keeps id delete_streams r q h = acknowledged-Keeps _ q _ h
  operate-Keeps id add_streams r q h = acknowledged-Keeps _ q _ h
  operate-Keeps id modify_streams r q h = acknowledged-Keeps _ q _ h
  operate-Keeps id resolve_neighbors r q h = acknowledged-Keeps _ q _ h
  operate-Keeps id build r q h = acknowledged-Keeps _ q _ h

  followed-Keeps :
      (t : Outcome agent) (next : R → PortState M → Outcome agent)
      → Keeps t
      → ((r : R) (q : PortState M) → P q → Keeps (next r q))
      → Keeps (followed agent t next)
  unfolding followed
  followed-Keeps (r, q, none) next h k = k r q h.keeps
  followed-Keeps (r, q, some f) next h k = h

  run_plan-Keeps :
      (id : ℕ) (ops : List ApplyOperation) (r : R) (q : PortState M)
      → P q
      → Keeps (run_plan agent id ops r q)
  unfolding run_plan
  run_plan-Keeps id [] r q h = kept r q _ h
  run_plan-Keeps id (op ∷ ops) r q h =
      followed-Keeps _ _ (operate-Keeps id op r q h) (run_plan-Keeps id ops)

  asked-Keeps :
      {A : Type 0} (q : PortState M) (a : R × Answer A) (next : R → A → Outcome agent)
      → P q
      → ((r : R) (x : A) → Keeps (next r x))
      → Keeps (asked agent q a next)
  unfolding asked
  asked-Keeps q (r, fails f) next h k = kept r q _ h
  asked-Keeps q (r, answers x) next h k = k r x

  confirm-Keeps :
      (id : ℕ) (stream_ids : Listed ℕ) (streams : Listed Stream) (group_ids : Listed ℕ)
      (groups : Listed DeviceGroup) (r : R) (q : PortState M)
      → P q
      → Keeps (confirm agent id stream_ids streams group_ids groups r q)
  unfolding confirm edit
  confirm-Keeps id stream_ids streams group_ids groups r q h =
      let read =
        closed _ (hydrates_groups groups.items) (closed q (hydrates_streams streams.items) h) in
      let ports =
        is_port id stream_ids.port_id
        && is_port id streams.port_id
        && is_port id group_ids.port_id
        && is_port id groups.port_id in
      let ids =
        exact_ids stream_ids.items (keys q.streams)
        && exact_ids (map stream_id streams.items) (keys q.streams)
        && exact_ids group_ids.items (keys q.groups)
        && exact_ids (map device_group_id groups.items) (keys q.groups) in
      if_cases Keeps (not (ports && ids)) _ _ (λ e. kept r q _ h)
        λ e.
          if_cases Keeps (all_equivalent agent q.streams (emplace_all agent streams.items [])) _ _
            (λ k. kept r _ _ (closed _ completes read)) (λ k. kept r q _ h)

  read_back-Keeps : (id : ℕ) (r : R) (q : PortState M) → P q → Keeps (read_back agent id r q)
  unfolding read_back
  read_back-Keeps id r q h = asked-Keeps q _ _ h (λ r1 stream_ids.
      asked-Keeps q _ _ h (λ r2 streams. asked-Keeps q _ _ h (λ r3 group_ids.
        asked-Keeps q _ _ h
          (λ r4 groups. confirm-Keeps id stream_ids streams group_ids groups r4 q h))))

  synchronise-Keeps :
      (id : ℕ) (streams groups : Listed ℕ) (r : R) (p : PortState M)
      → P p
      → Keeps (synchronise agent id streams groups r p)
  unfolding synchronise edit
  synchronise-Keeps id streams groups r p h =
      if_cases Keeps (not (is_port id streams.port_id && is_port id groups.port_id)) _ _
        (λ e. kept r p _ h)
        λ e.
          if_cases Keeps
            (not (exact_ids streams.items streams.items && exact_ids groups.items groups.items)) _ _
            (λ e. kept r p _ h)
            λ e.
              followed-Keeps _ _
                (run_plan-Keeps id _ r _ (closed p (reads_baseline streams.items groups.items) h))
                (read_back-Keeps id)

  pub apply-Keeps : (id : ℕ) (r : R) (p : PortState M) → P p → P (apply agent id r p).1
  unfolding apply
  apply-Keeps id r p h =
      (asked-Keeps p _ _ h (λ r1 streams.
        asked-Keeps p _ _ h (λ r2 groups. synchronise-Keeps id streams groups r2 p h))).keeps
