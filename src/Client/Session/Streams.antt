-- ===== src/Client/Session/Streams.antt =====
-- What the operations of the plan of `ClientSession::apply`, client/core/client_session.cpp, on streams,
-- and its refresh of the devices, make of what a serving agent holds.
use ostinato.Base.{
  ℕ, ◌≡◌, refl, ap, ap₂, subst, sym, ◌∙◌, Bool, true, not, ◌&&◌, ◌||◌, Option, List, arith,
  if_cases, ==_iff,
}
use ostinato.Base.OrderedSet.{contains}
use ostinato.Base.OrderedMap.{keys, lookup, has_key}
use ostinato.Client.PortState.{
  Messages, PortState, PortSyncState, refresh_devices, delete_streams, add_streams, deleted_streams,
  new_streams, hydrate_devices,
}
use ostinato.Client.Session.{Agent, Answer, operate, refreshed, is_port}
use ostinato.Client.PortState.Sync.{IsSync}
use ostinato.Client.Session.Serves.{Serves}
use ostinato.Client.Session.Reached.{Reached, Reached-acknowledged}
use ostinato.Client.Session.Progress.{
  Holds, unedited, edited_groups, dropped_streams, fresh_streams,
}

module _ {M : Messages} {R : Type 0} (agent : Agent M R) (id : ℕ) (serves : Serves agent id)
    (p : PortState M) where
  open M use {Stream, DeviceGroup, stream_id, device_group_id}

  -- Where a call leaves the groups as they are.
  same_before :
      (before : ℕ → Option DeviceGroup) (groups streams : ℕ → Bool) (sent : Bool) (r r' : R)
      (q : PortState M)
      → Holds agent id serves p before groups streams sent r q
      → serves.groups_of r' ≡ serves.groups_of r
      → (k : ℕ) → unedited agent id serves p k ≡ true
      → lookup k (serves.groups_of r') ≡ before k
  same_before before groups streams sent r r' q h e k u = ap (lookup k) e ∙ h.group_before k u

  same_sent :
      (before : ℕ → Option DeviceGroup) (groups streams : ℕ → Bool) (sent : Bool) (r r' : R)
      (q : PortState M)
      → Holds agent id serves p before groups streams sent r q
      → serves.groups_of r' ≡ serves.groups_of r
      → sent ≡ true
      → (k : ℕ) → contains k (edited_groups agent id serves p) ≡ true
      → lookup k (serves.groups_of r') ≡ lookup k p.groups
  same_sent before groups streams sent r r' q h e s k c = ap (lookup k) e ∙ h.group_sent s k c

  module _ (before : ℕ → Option DeviceGroup) (groups streams : ℕ → Bool) (sent : Bool) (r : R)
      (q : PortState M) (h : Holds agent id serves p before groups streams sent r q)
      (ok : IsSync p.sync) where
    pub after_delete_streams :
        Reached agent
          (Holds agent id serves p before groups
            (λ k. streams k && not (contains k (dropped_streams agent id serves p)))
            sent)
          (operate agent id delete_streams r q)
    unfolding operate
    after_delete_streams =
        let ids = deleted_streams q.sync (keys q.streams) in
        let same : ids ≡ (dropped_streams agent id serves p) =
          ap₂ (λ (s : PortSyncState) (m : List (ℕ × Stream)). deleted_streams s (keys m))
            h.same_sync h.same_streams in
        Reached-acknowledged agent _ _ q _ (serves.deletes_streams r ids) (record {
          same_streams = h.same_streams;
          same_groups = h.same_groups;
          same_sync = h.same_sync;
          group_ids = λ k. ap (has_key k) (serves.groups_kept_deleting r ids) ∙ h.group_ids k;
          group_before =
              same_before before groups streams sent r _ q h (serves.groups_kept_deleting r ids);
          group_sent =
              same_sent before groups streams sent r _ q h (serves.groups_kept_deleting r ids);
          stream_ids = λ k.
              ground (arith, serves.stream_deleted r ids k, h.stream_ids k, ap (contains k) same);
        })

    pub after_add_streams :
        Reached agent
          (Holds agent id serves p before groups
            (λ k. streams k || contains k (fresh_streams agent id serves p))
            sent)
          (operate agent id add_streams r q)
    unfolding operate
    after_add_streams =
        let ids = new_streams q.sync (keys q.streams) in
        let same : ids ≡ (fresh_streams agent id serves p) =
          ap₂ (λ (s : PortSyncState) (m : List (ℕ × Stream)). new_streams s (keys m)) h.same_sync
            h.same_streams in
        Reached-acknowledged agent _ _ q _ (serves.adds_streams r ids) (record {
          same_streams = h.same_streams;
          same_groups = h.same_groups;
          same_sync = h.same_sync;
          group_ids = λ k. ap (has_key k) (serves.groups_kept_adding r ids) ∙ h.group_ids k;
          group_before =
              same_before before groups streams sent r _ q h (serves.groups_kept_adding r ids);
          group_sent =
              same_sent before groups streams sent r _ q h (serves.groups_kept_adding r ids);
          stream_ids = λ k.
              ground (arith, serves.stream_added r ids k, h.stream_ids k, ap (contains k) same);
        })

    pub after_refresh :
        Reached agent
          (Holds agent id serves p before groups streams sent)
          (operate agent id refresh_devices r q)
    unfolding operate refreshed hydrate_devices is_port
    after_refresh =
        let ok : is_port id (agent.device_list_port (serves.devices r)) ≡ true =
          ap (is_port id) (serves.device_port r) ∙ (==_iff id id).1 refl in
        subst
          (λ (a : R × Answer M.PortDeviceList).
            Reached agent (Holds agent id serves p before groups streams sent)
              (refreshed agent id q a))
          (sym (serves.device_list r))
          (if_cases (Reached agent (Holds agent id serves p before groups streams sent))
            (is_port id (agent.device_list_port (serves.devices r))) _ _
            (λ e. record {
              quiet = refl;
              holds = record {
                same_streams = h.same_streams;
                same_groups = h.same_groups;
                same_sync = h.same_sync;
                group_ids = h.group_ids;
                stream_ids = h.stream_ids;
                group_before = h.group_before;
                group_sent = h.group_sent;
              };
            })
            (λ e. absurd cc))
