-- ===== src/Client/Session/Confirmed.antt =====
-- What `ClientSession::apply` of client/core/client_session.cpp takes over, in the end, from what it reads
-- back of the agent.
use ostinato.Base.{
  ℕ, ◌≡◌, refl, ap, ◌∙◌, true, Option, none, some, List, [], map, arith, ==_iff, subst,
}
use ostinato.Base.OrderedSet.{contains}
use ostinato.Base.OrderedMap.{keys, lookup, has_key}
use ostinato.Client.PortState.{
  Messages, PortState, hydrate_streams, hydrate_device_groups, port_sync_complete, assign_streams,
  assign_groups,
}
use ostinato.Client.PortState.Sync.{IsSettled, mark_sync_complete-IsSettled}
use ostinato.Client.Session.{
  Agent, answers, Listed, exact_ids, is_port, emplace_all, all_equivalent,
}
use ostinato.Client.Session.Kept.{Kept}
use ostinato.Client.Session.Distinct.{
  exact_ids-Distinct, emplace_all-Distinct, all_equivalent_found,
}
use ostinato.Client.Session.ExactIds.{
  exact_ids-contains, contains-assign_streams, contains-assign_groups,
}

module _ {M : Messages} {R : Type 0} (agent : Agent M R) where
  open M use {Stream, DeviceGroup, stream_id, device_group_id}

  -- The last four calls gave these lists, all of this port, and the state `r'` of the agent. The ids
  -- listed are those of `p`. The port `q` holds the listed values, each under its id, and for each stream of `p` one that is equivalent to it.
  pub record ReadBack (id : ℕ) (p q : PortState M) (r' : R) : Type 0 where
    pub r : R
    pub r1 : R
    pub r2 : R
    pub r3 : R
    pub stream_ids : Listed ℕ
    pub confirmed_streams : Listed Stream
    pub group_ids : Listed ℕ
    pub confirmed_groups : Listed DeviceGroup
    pub asked_stream_ids : agent.get_stream_id_list r id ≡ (r1, answers stream_ids)
    pub asked_streams : agent.get_stream_config r1 stream_ids ≡ (r2, answers confirmed_streams)
    pub asked_group_ids : agent.get_device_group_id_list r2 id ≡ (r3, answers group_ids)
    pub asked_groups : agent.get_device_group_config r3 group_ids ≡ (r', answers confirmed_groups)
    pub of_port :
        (stream_ids.port_id ≡ some id)
        × (confirmed_streams.port_id ≡ some id)
        × (group_ids.port_id ≡ some id)
        × (confirmed_groups.port_id ≡ some id)
    pub known_streams : (z : ℕ) → contains z stream_ids.items ≡ has_key z p.streams
    pub known_groups : (z : ℕ) → contains z group_ids.items ≡ has_key z p.groups
    pub streams : q.streams ≡ assign_streams M confirmed_streams.items []
    pub groups : q.groups ≡ assign_groups M confirmed_groups.items []
    pub equivalent :
        (k : ℕ) (v : Stream)
        → lookup k p.streams ≡ some v
        → (w : Stream) × (lookup k q.streams ≡ some w) × (agent.equivalent v w ≡ true)

  -- The port holds what the agent confirmed under the ids that were wanted, and nothing is left to do.
  pub record Applied (id : ℕ) (p q : PortState M) (r' : R) : Type 0 where
    pub read_back : ReadBack id p q r'
    pub streams : (z : ℕ) → has_key z q.streams ≡ has_key z p.streams
    pub groups : (z : ℕ) → has_key z q.groups ≡ has_key z p.groups
    pub settled : IsSettled q.sync (keys q.streams) (keys q.groups)

  ReadBack-Kept :
      (id : ℕ) (p q t : PortState M) (r : R)
      → Kept agent p q
      → ReadBack id q t r
      → ReadBack id p t r
  ReadBack-Kept id p q t r h k = record {
    r = k.r;
    r1 = k.r1;
    r2 = k.r2;
    r3 = k.r3;
    stream_ids = k.stream_ids;
    confirmed_streams = k.confirmed_streams;
    group_ids = k.group_ids;
    confirmed_groups = k.confirmed_groups;
    asked_stream_ids = k.asked_stream_ids;
    asked_streams = k.asked_streams;
    asked_group_ids = k.asked_group_ids;
    asked_groups = k.asked_groups;
    of_port = k.of_port;
    known_streams = λ z. k.known_streams z ∙ ap (has_key z) h.streams;
    known_groups = λ z. k.known_groups z ∙ ap (has_key z) h.groups;
    streams = k.streams;
    groups = k.groups;
    equivalent = λ z v e. k.equivalent z v (ap (lookup z) h.streams ∙ e);
  }

  pub Applied-Kept :
      (id : ℕ) (p q t : PortState M) (r : R) → Kept agent p q → Applied id q t r → Applied id p t r
  Applied-Kept id p q t r h k = record {
    read_back = ReadBack-Kept id p q t r h k.read_back;
    streams = λ z. k.streams z ∙ ap (has_key z) h.streams;
    groups = λ z. k.groups z ∙ ap (has_key z) h.groups;
    settled = k.settled;
  }

  own_port : (id : ℕ) (port : Option ℕ) → is_port id port ≡ true → port ≡ some id
  unfolding is_port
  own_port id none e = absurd cc
  own_port id (some k) e = ap some ((==_iff k id).0 e)

  taken_over-streams :
      (p : PortState M) (streams : List Stream)
      → exact_ids (map stream_id streams) (keys p.streams) ≡ true
      → emplace_all agent streams [] ≡ assign_streams M streams []
  unfolding has_key keys contains
  taken_over-streams p streams h =
      emplace_all-Distinct agent streams [] (exact_ids-Distinct _ _ h) (λ z e. refl)

  module _ (id : ℕ) (p : PortState M) (r r1 r2 r3 r4 : R) (stream_ids : Listed ℕ)
      (streams : Listed Stream) (group_ids : Listed ℕ) (groups : Listed DeviceGroup)
      (asked_stream_ids : agent.get_stream_id_list r id ≡ (r1, answers stream_ids))
      (asked_streams : agent.get_stream_config r1 stream_ids ≡ (r2, answers streams))
      (asked_group_ids : agent.get_device_group_id_list r2 id ≡ (r3, answers group_ids))
      (asked_groups : agent.get_device_group_config r3 group_ids ≡ (r4, answers groups)) where
    abbrev pub taken_over : PortState M
    taken_over =
        port_sync_complete M
          (hydrate_device_groups M groups.items (hydrate_streams M streams.items p))

    -- The tests of the answers.
    abbrev pub Closed : Type 0
    Closed =
        ((is_port id stream_ids.port_id ≡ true)
          × (is_port id streams.port_id ≡ true)
          × (is_port id group_ids.port_id ≡ true)
          × (is_port id groups.port_id ≡ true))
        × (exact_ids stream_ids.items (keys p.streams) ≡ true)
        × (exact_ids (map stream_id streams.items) (keys p.streams) ≡ true)
        × (exact_ids group_ids.items (keys p.groups) ≡ true)
        × (exact_ids (map device_group_id groups.items) (keys p.groups) ≡ true)

    pub taken_over-Applied :
        Closed
        → all_equivalent agent p.streams (emplace_all agent streams.items []) ≡ true
        → Applied id p taken_over r4
    unfolding port_sync_complete hydrate_device_groups hydrate_streams has_key keys contains
    taken_over-Applied ((own, own_streams, own_group_ids, own_groups), i, h, j, k) same =
        let ss = assign_streams M streams.items [] in
        let gs = assign_groups M groups.items [] in
        let one = taken_over-streams p streams.items h in
        record {
          read_back = record {
            r = r;
            r1 = r1;
            r2 = r2;
            r3 = r3;
            stream_ids = stream_ids;
            confirmed_streams = streams;
            group_ids = group_ids;
            confirmed_groups = groups;
            asked_stream_ids = asked_stream_ids;
            asked_streams = asked_streams;
            asked_group_ids = asked_group_ids;
            asked_groups = asked_groups;
            of_port = (
              own_port id stream_ids.port_id own,
              own_port id streams.port_id own_streams,
              own_port id group_ids.port_id own_group_ids,
              own_port id groups.port_id own_groups,
            );
            known_streams = λ z. exact_ids-contains z stream_ids.items (keys p.streams) i;
            known_groups = λ z. exact_ids-contains z group_ids.items (keys p.groups) j;
            streams = refl;
            groups = refl;
            equivalent = λ z v. all_equivalent_found agent p.streams ss z v (
                subst (λ (m : List (ℕ × Stream)). all_equivalent agent p.streams m ≡ true) one
                  same);
          };
          streams = λ z. ground (
            arith,
            contains-assign_streams M z streams.items [],
            exact_ids-contains z (map stream_id streams.items) (keys p.streams) h,
          );
          groups = λ z. ground (
            arith,
            contains-assign_groups M z groups.items [],
            exact_ids-contains z (map device_group_id groups.items) (keys p.groups) k,
          );
          settled = (mark_sync_complete-IsSettled p.sync ss gs).0;
        }
