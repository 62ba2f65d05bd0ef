-- ===== src/Client/Session/Success.antt =====
-- `ClientSession::apply` of client/core/client_session.cpp against an agent that does what it is asked
-- for: it ends without a fault.
use ostinato.Base.{
  ℕ, ◌≡◌, ap, sym, ◌∙◌, true, not, ◌&&◌, Option, if◌then◌else◌, none, some, List, [], arith,
}
use ostinato.Base.OrderedSet.{contains, contains-ext}
use ostinato.Base.OrderedMap.{keys, lookup, has_key, has_key-lookup}
use ostinato.Client.PortState.{Messages, PortState, refresh_remote_baseline}
use ostinato.Client.PortState.Edits.{IsPort}
use ostinato.Client.Session.{Agent, Listed, Outcome, values, emplace_all, all_equivalent}
use ostinato.Client.Session.Apply.{Ends}
use ostinato.Client.Session.Confirmed.{Applied}
use ostinato.Client.Session.Serves.{Serves}
use ostinato.Client.Session.Values.{lookup-emplace_values, all_equivalent-same}
use ostinato.Client.Session.Reached.{Reached}
use ostinato.Client.Session.Carried.{Complete, Carried}

module _ {M : Messages} {R : Type 0} (agent : Agent M R) where
  open M use {Stream, DeviceGroup, stream_id, device_group_id}

  module _ (id : ℕ) (serves : Serves agent id) where
    -- The list of what the agent holds, for this port.
    abbrev listed : {A : Type 0} → List A → Listed A
    listed items = record { port_id = some id; items = items }

    -- The group that is wanted of the agent, if it held this one before: the desired one, but that
    -- a group is not sent again that the agent held and that was not edited.
    abbrev pub wanted_group : PortState M → ℕ → Option DeviceGroup → Option DeviceGroup
    wanted_group p k none = lookup k p.groups
    wanted_group p k (some held) =
        if has_key k p.groups && not (contains k p.sync.modified_device_groups)
        then some held
        else lookup k p.groups

    -- From `r` on, the agent holds the streams and the device groups that were wanted in `r'`.
    pub record Satisfied (p : PortState M) (r r' : R) : Type 0 where
      pub streams : (k : ℕ) → lookup k (serves.streams_of r') ≡ lookup k p.streams
      pub groups :
          (k : ℕ)
          → lookup k (serves.groups_of r') ≡ wanted_group p k (lookup k (serves.groups_of r))
      pub group_ids : (k : ℕ) → has_key k (serves.groups_of r') ≡ has_key k p.groups

    pub record Succeeds (p : PortState M) (r : R) (t : Outcome agent) : Type 0 where
      pub quiet : t.2 ≡ none
      pub satisfied : Satisfied p r t.0
      pub applied : Applied agent id p t.1 t.0

    module _ (p : PortState M) (is : IsPort M p) where
      stream_keys :
          (r : R) (q : PortState M)
          → Complete agent id serves p r q
          → keys (serves.streams_of r) ≡ keys q.streams
      unfolding has_key
      stream_keys r q h =
          let held = serves.streams_of r in
          contains-ext (keys held) (keys p.streams) (serves.stream_keys r).ordered
            is.streams.ordered
            (λ k. ground (arith, has_key-lookup k held, has_key-lookup k p.streams, h.streams k))
          ∙ sym (ap (λ (m : List (ℕ × Stream)). keys m) h.same_streams)

      same_streams :
          (r : R) (q : PortState M)
          → Complete agent id serves p r q
          → all_equivalent agent q.streams (emplace_all agent (values (serves.streams_of r)) [])
            ≡ true
      unfolding lookup
      same_streams r q h =
          let held = serves.streams_of r in
          ap
            (λ (m : List (ℕ × Stream)). all_equivalent agent m (emplace_all agent (values held) []))
            h.same_streams
          ∙ all_equivalent-same agent p.streams (emplace_all agent (values held) [])
              is.streams.ordered serves.reflexive
              (λ k v e.
                lookup-emplace_values agent k held [] (serves.stream_keys r) ∙ h.streams k ∙ e)

      module _ (r : R) where
        abbrev held_streams : List (ℕ × Stream)
        held_streams = serves.streams_of r

        abbrev held_groups : List (ℕ × DeviceGroup)
        held_groups = serves.groups_of r

        abbrev before : ℕ → Option DeviceGroup
        before k = lookup k held_groups

        -- The port, from the baseline that the agent gave.
        abbrev from_baseline : PortState M
        from_baseline = record p {
          sync = refresh_remote_baseline (keys held_streams) (keys held_groups) p.sync;
        }

        applied : (t : Outcome agent) → Ends agent id p t → t.2 ≡ none → Applied agent id p t.1 t.0
        applied (r', q, none) e h = e.verdict
        applied (r', q, some f) e h = absurd cc
