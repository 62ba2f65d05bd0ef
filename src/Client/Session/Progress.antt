-- ===== src/Client/Session/Progress.antt =====
-- What the plan of `ClientSession::apply`, client/core/client_session.cpp, makes of what a serving
-- agent holds.
use ostinato.Base.{
  ℕ, ◌≡◌, refl, ap, ap₂, ◌∙◌, Bool, true, false, not, ◌&&◌, ◌||◌, Option, none, some, List, [], ◌∷◌,
  map, arith,
}
use ostinato.Base.OrderedSet.{contains}
use ostinato.Base.OrderedMap.{keys, lookup, has_key, has_key-lookup}
use ostinato.Client.PortState.{
  Messages, PortState, PortSyncState, delete_device_groups, add_device_groups, modify_device_groups,
  is_empty, deleted_device_groups, new_device_groups, modified_device_groups, deleted_streams,
  new_streams, assign_groups,
}
use ostinato.Client.Session.{Agent, operate, values_at}
use ostinato.Client.PortState.Sync.{IsSync, sync-Membership}
use ostinato.Client.Session.ExactIds.{contains-assign_groups}
use ostinato.Client.Session.Values.{lookup-assign_values_at}
use ostinato.Client.PortState.Edits.{IsKeyed}
use ostinato.Client.Session.Serves.{Serves}
use ostinato.Client.Session.Reached.{Reached, Reached-acknowledged}

pub empty-contains : (k : ℕ) (xs : List ℕ) → not (is_empty xs) ≡ false → contains k xs ≡ false
unfolding is_empty contains
empty-contains k [] h = refl
empty-contains k (x ∷ xs) h = cc

-- What is looked up under some ids has ids that are keys.
values_at-known :
    {Value : Type 0} (M : Messages) (id_of : Value → ℕ) (k : ℕ) (ids : List ℕ)
    (m : List (ℕ × Value))
    → IsKeyed M id_of m
    → contains k (map id_of (values_at ids m)) ≡ true
    → has_key k m ≡ true
unfolding contains values_at
values_at-known M id_of k [] m keyed h = absurd cc
values_at-known {Value = Value} M id_of k (i ∷ ids) m keyed h =
    first (lookup i m) refl h (λ later. values_at-known M id_of k ids m keyed later)
  where
    found : (v : Value) → lookup i m ≡ some v → k ≡ i → has_key k m ≡ true
    found v e same = rw same (has_key-lookup i m ∙ rw e refl)

    first :
        (o : Option Value)
        → lookup i m ≡ o
        → contains k (map id_of (elim o [ none ↦ values_at ids m | some v ↦ v ∷ values_at ids m ]))
          ≡ true
        → (contains k (map id_of (values_at ids m)) ≡ true → has_key k m ≡ true)
        → has_key k m ≡ true
    first none e h later = later h
    first (some v) e h later = ground (arith, keyed.own_id i v e, found v e)

module _ {M : Messages} {R : Type 0} (agent : Agent M R) where
  open M use {Stream, DeviceGroup, stream_id, device_group_id}

  module _ (id : ℕ) (serves : Serves agent id) (p : PortState M) where
    -- A group that is wanted, that the agent had, and that was not edited.
    abbrev pub unedited : ℕ → Bool
    unedited k =
        has_key k p.groups
        && contains k p.sync.device_groups
        && not (contains k p.sync.modified_device_groups)

    abbrev pub dropped_groups : List ℕ
    dropped_groups = deleted_device_groups p.sync (keys p.groups)

    abbrev pub fresh_groups : List ℕ
    fresh_groups = new_device_groups p.sync (keys p.groups)

    abbrev pub edited_groups : List ℕ
    edited_groups = modified_device_groups p.sync (keys p.groups)

    abbrev pub dropped_streams : List ℕ
    dropped_streams = deleted_streams p.sync (keys p.streams)

    abbrev pub fresh_streams : List ℕ
    fresh_streams = new_streams p.sync (keys p.streams)

    -- Between the operations: the port as `apply` found it, from the baseline that was read, and
    -- what the agent holds, as against what it held before; `sent` once the groups are sent.
    pub record Holds (before : ℕ → Option DeviceGroup) (groups streams : ℕ → Bool) (sent : Bool)
        (r : R) (q : PortState M) : Type 0 where
      pub same_streams : q.streams ≡ p.streams
      pub same_groups : q.groups ≡ p.groups
      pub same_sync : q.sync ≡ p.sync
      pub group_ids : (k : ℕ) → has_key k (serves.groups_of r) ≡ groups k
      pub stream_ids : (k : ℕ) → has_key k (serves.streams_of r) ≡ streams k
      pub group_before : (k : ℕ) → unedited k ≡ true → lookup k (serves.groups_of r) ≡ before k
      pub group_sent :
          sent ≡ true
          → (k : ℕ) → contains k edited_groups ≡ true
          → lookup k (serves.groups_of r) ≡ lookup k p.groups

    -- The ids that the plan is about, from the ids of the port and those that the agent had.
    not_dropped : IsSync p.sync → (k : ℕ) → unedited k ≡ true → contains k dropped_groups ≡ false
    unfolding has_key
    not_dropped ok k u = ground (arith, sync-Membership p.sync (keys p.groups) k ok)

    not_fresh : IsSync p.sync → (k : ℕ) → unedited k ≡ true → contains k fresh_groups ≡ false
    unfolding has_key
    not_fresh ok k u = ground (arith, sync-Membership p.sync (keys p.groups) k ok)

    not_edited : IsSync p.sync → (k : ℕ) → unedited k ≡ true → contains k edited_groups ≡ false
    unfolding has_key
    not_edited ok k u = ground (arith, sync-Membership p.sync (keys p.groups) k ok)

    pub edited_or_not :
        IsSync p.sync → (k : ℕ) → has_key k p.groups ≡ (unedited k || contains k edited_groups)
    unfolding has_key
    edited_or_not ok k = ground (arith, sync-Membership p.sync (keys p.groups) k ok)

    module _ (before : ℕ → Option DeviceGroup) (groups streams : ℕ → Bool) (sent : Bool) (r : R)
        (q : PortState M) (h : Holds before groups streams sent r q) (ok : IsSync p.sync) where
      pub after_delete_groups :
          Reached agent
            (Holds before (λ k. groups k && not (contains k dropped_groups)) streams false)
            (operate agent id delete_device_groups r q)
      unfolding operate
      after_delete_groups =
          let ids = deleted_device_groups q.sync (keys q.groups) in
          let same : ids ≡ dropped_groups =
            ap₂
              (λ (s : PortSyncState) (m : List (ℕ × DeviceGroup)). deleted_device_groups s (keys m))
              h.same_sync h.same_groups in
          Reached-acknowledged agent _ _ q _ (serves.deletes_groups r ids) (record {
            same_streams = h.same_streams;
            same_groups = h.same_groups;
            same_sync = h.same_sync;
            group_ids = λ k. ground (
              arith,
              serves.group_deleted r ids k,
              h.group_ids k,
              ap (contains k) same,
              has_key-lookup k (serves.groups_of r),
              has_key-lookup k (serves.groups_of (agent.delete_device_group r id ids).0),
            );
            stream_ids = λ k. ap (has_key k) (serves.streams_kept_deleting r ids) ∙ h.stream_ids k;
            group_before = λ k u.
                serves.group_deleted r ids k
                ∙ ground (arith, not_dropped ok k u, ap (contains k) same, h.group_before k u);
            group_sent = λ e. absurd cc;
          })

      pub after_add_groups :
          Reached agent
            (Holds before (λ k. groups k || contains k fresh_groups) streams false)
            (operate agent id add_device_groups r q)
      unfolding operate
      after_add_groups =
          let ids = new_device_groups q.sync (keys q.groups) in
          let same : ids ≡ fresh_groups =
            ap₂ (λ (s : PortSyncState) (m : List (ℕ × DeviceGroup)). new_device_groups s (keys m))
              h.same_sync h.same_groups in
          Reached-acknowledged agent _ _ q _ (serves.adds_groups r ids) (record {
            same_streams = h.same_streams;
            same_groups = h.same_groups;
            same_sync = h.same_sync;
            group_ids = λ k.
                ground (arith, serves.group_added r ids k, h.group_ids k, ap (contains k) same);
            stream_ids = λ k. ap (has_key k) (serves.streams_kept_adding r ids) ∙ h.stream_ids k;
            group_before = λ k u.
                serves.group_kept_adding r ids k (ap (contains k) same ∙ not_fresh ok k u)
                ∙ h.group_before k u;
            group_sent = λ e. absurd cc;
          })

      -- The groups that are sent are among those that the agent holds.
      pub after_modify_groups :
          IsKeyed M device_group_id p.groups
          → ((k : ℕ) → groups k ≡ has_key k p.groups)
          → Reached agent
              (Holds before groups streams true)
              (operate agent id modify_device_groups r q)
      unfolding operate has_key
      after_modify_groups keyed wanted =
          let vs = values_at (modified_device_groups q.sync (keys q.groups)) q.groups in
          let same : vs ≡ values_at edited_groups p.groups =
            ap₂
              (λ (s : PortSyncState) (m : List (ℕ × DeviceGroup)).
                values_at (modified_device_groups s (keys m)) m)
              h.same_sync h.same_groups in
          let held = serves.groups_of r in
          let modified = λ (k : ℕ).
            ap (lookup k) (
              serves.group_modified r vs
              ∙ ap (λ (l : List DeviceGroup). assign_groups M l held) same)
            ∙ lookup-assign_values_at agent k edited_groups p.groups held keyed in
          Reached-acknowledged agent _ _ q _ (serves.modifies_groups r vs) (record {
            same_streams = h.same_streams;
            same_groups = h.same_groups;
            same_sync = h.same_sync;
            group_ids = λ k. ground (
              arith,
              ap (has_key k) (serves.group_modified r vs),
              contains-assign_groups M k vs (serves.groups_of r),
              h.group_ids k,
              wanted k,
              ap (λ (l : List DeviceGroup). contains k (map device_group_id l)) same,
              values_at-known M device_group_id k edited_groups p.groups keyed,
            );
            stream_ids = λ k. ap (has_key k) (serves.streams_kept_modifying r vs) ∙ h.stream_ids k;
            group_before =
                λ k u. modified k ∙ ground (arith, not_edited ok k u, h.group_before k u);
            group_sent = λ e k c.
                modified k ∙ ground (arith, c, edited_or_not ok k, has_key-lookup k p.groups);
          })
