-- ===== src/Client/Session/Apply.antt =====
-- What `ClientSession::apply` of client/core/client_session.cpp leaves of the port, when it succeeds
-- and when it fails.

use ostinato.Base.{
  ℕ, ◌≡◌, refl, Bool, true, false, not, ◌&&◌, Option, none, some, [], map, arith, if_cases,
}
use ostinato.Base.OrderedMap.{keys}
use ostinato.Client.PortState.{Messages, PortState, refresh_remote_baseline, apply_plan}
use ostinato.Client.Session.{
  Agent, Answer, fails, answers, Fault, Listed, exact_ids, is_port, Outcome, followed, run_plan,
  asked, emplace_all, all_equivalent, confirm, read_back, synchronise, apply,
}
use ostinato.Client.Session.Kept.{Kept, Kept-refl, Kept-trans, run_plan-Kept}
use ostinato.Client.Session.Confirmed.{Applied, Applied-Kept, taken_over, taken_over-Applied}

module _ {M : Messages} {R : Type 0} (agent : Agent M R) where
  open M use {Stream, DeviceGroup, stream_id, device_group_id}

  abbrev pub Verdict : ℕ → PortState M → R → PortState M → Option Fault → Type 0
  Verdict id p r q none = Applied agent id p q r
  Verdict id p r q (some fault) = Kept agent p q

  pub record Ends (id : ℕ) (p : PortState M) (t : Outcome agent) : Type 0 where
    pub verdict : Verdict id p t.0 t.1 t.2

  Verdict-Kept :
      (id : ℕ) (p q t : PortState M) (r : R) (f : Option Fault)
      → Kept agent p q
      → Verdict id q r t f
      → Verdict id p r t f
  Verdict-Kept id p q t r none h k = Applied-Kept agent id p q t r h k
  Verdict-Kept id p q t r (some f) h k = Kept-trans agent p q t h k

  followed-Ends :
      (id : ℕ) (p : PortState M) (t : Outcome agent) (next : R → PortState M → Outcome agent)
      → Kept agent p t.1
      → ((r : R) (q : PortState M) → Ends id q (next r q))
      → Ends id p (followed agent t next)
  unfolding followed
  followed-Ends id p (r, q, none) next h k = record {
    verdict = Verdict-Kept id p q (next r q).1 (next r q).0 (next r q).2 h (k r q).verdict;
  }
  followed-Ends id p (r, q, some f) next h k = record { verdict = h }

  asked-Ends :
      {A : Type 0} (id : ℕ) (p : PortState M) (a : R × Answer A) (next : R → A → Outcome agent)
      → ((r : R) (x : A) → a ≡ (r, answers x) → Ends id p (next r x))
      → Ends id p (asked agent p a next)
  unfolding asked
  asked-Ends id p (r, fails f) next k = record { verdict = Kept-refl agent p }
  asked-Ends id p (r, answers x) next k = k r x refl

  both_tests : (a b : Bool) → not (a && b) ≡ false → (a ≡ true) × (b ≡ true)
  both_tests a b e = ground arith

  four_tests :
      (a b c d : Bool)
      → (a && b && c && d) ≡ true
      → (a ≡ true) × (b ≡ true) × (c ≡ true) × (d ≡ true)
  four_tests a b c d e = ground arith

  module _ (id : ℕ) (p : PortState M) (r r1 r2 r3 r4 : R) (stream_ids : Listed ℕ)
      (streams : Listed Stream) (group_ids : Listed ℕ) (groups : Listed DeviceGroup)
      (asked_stream_ids : agent.get_stream_id_list r id ≡ (r1, answers stream_ids))
      (asked_streams : agent.get_stream_config r1 stream_ids ≡ (r2, answers streams))
      (asked_group_ids : agent.get_device_group_id_list r2 id ≡ (r3, answers group_ids))
      (asked_groups : agent.get_device_group_config r3 group_ids ≡ (r4, answers groups)) where
    confirm-Ends : Ends id p (confirm agent id stream_ids streams group_ids groups r4 p)
    unfolding confirm
    confirm-Ends =
        let ports =
          is_port id stream_ids.port_id
          && is_port id streams.port_id
          && is_port id group_ids.port_id
          && is_port id groups.port_id in
        let ids =
          exact_ids stream_ids.items (keys p.streams)
          && exact_ids (map stream_id streams.items) (keys p.streams)
          && exact_ids group_ids.items (keys p.groups)
          && exact_ids (map device_group_id groups.items) (keys p.groups) in
        if_cases (Ends id p) (not (ports && ids)) _ _ (λ e. record { verdict = Kept-refl agent p })
          λ e.
            if_cases (Ends id p)
              (all_equivalent agent p.streams (emplace_all agent streams.items []))
              (
                r4,
                (taken_over agent id p r r1 r2 r3 r4 stream_ids streams group_ids groups
                    asked_stream_ids asked_streams asked_group_ids asked_groups),
                none,
              )
              _
              (λ k.
                let (own, exact) = both_tests ports ids e in
                let (i, h, j, l) = four_tests _ _ _ _ exact in
                record {
                  verdict =
                      taken_over-Applied agent id p r r1 r2 r3 r4 stream_ids streams group_ids
                        groups asked_stream_ids asked_streams asked_group_ids asked_groups
                        (four_tests _ _ _ _ own, i, h, j, l) k;
                })
              (λ k. record { verdict = Kept-refl agent p })

  read_back-Ends : (id : ℕ) (r : R) (p : PortState M) → Ends id p (read_back agent id r p)
  unfolding read_back
  read_back-Ends id r p = asked-Ends id p _ _ (λ r1 stream_ids e1.
      asked-Ends id p _ _ (λ r2 streams e2. asked-Ends id p _ _ (λ r3 group_ids e3.
        asked-Ends id p _ _ (λ r4 groups e4.
          confirm-Ends id p r r1 r2 r3 r4 stream_ids streams group_ids groups e1 e2 e3 e4))))

  synchronise-Ends :
      (id : ℕ) (streams groups : Listed ℕ) (r : R) (p : PortState M)
      → Ends id p (synchronise agent id streams groups r p)
  unfolding synchronise refresh_remote_baseline
  synchronise-Ends id streams groups r p =
      let q : PortState M = record p {
        sync = refresh_remote_baseline streams.items groups.items p.sync;
      } in
      let same : Kept agent p q = record {
        streams = refl;
        groups = refl;
        config = refl;
        modified = refl;
        dirty = refl;
      } in
      if_cases (Ends id p) (not (is_port id streams.port_id && is_port id groups.port_id)) _ _
        (λ e. record { verdict = Kept-refl agent p })
        λ e.
          if_cases (Ends id p)
            (not (exact_ids streams.items streams.items && exact_ids groups.items groups.items)) _ _
            (λ e. record { verdict = Kept-refl agent p })
            λ e.
              followed-Ends id p (run_plan agent id (apply_plan M q) r q)
                (λ r' t. read_back agent id r' t)
                (Kept-trans agent p q _ same (run_plan-Kept agent id (apply_plan M q) r q))
                (λ r' t. read_back-Ends id r' t)

  -- Whatever the agent does: if `apply` succeeds, the agent was asked last for the streams and the
  -- device groups of the port, its answers were for this port, and the port holds exactly the
  -- values that it answered, each under its id. These ids, and the ids that it listed, are the ones
  -- that the port had before, each stream of before is equivalent to the one that was answered for
  -- its id, and nothing is left to synchronise, to configure or dirty. If it fails, the streams, the groups, the configuration, the record of modified groups
  -- and the dirty flag are as they were, so that a retry starts from the same edits.
  pub apply-Ends : (id : ℕ) (r : R) (p : PortState M) → Ends id p (apply agent id r p)
  unfolding apply
  apply-Ends id r p =
      asked-Ends id p _ _ (λ r1 streams e.
        asked-Ends id p _ _ (λ r2 groups f. synchronise-Ends id streams groups r2 p))
