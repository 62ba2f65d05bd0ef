-- ===== src/Client/Session/Carried.antt =====
-- The end of the plan of `ClientSession::apply`, client/core/client_session.cpp, against a serving agent,
-- from the streams that are sent on, and what the agent then holds.
use ostinato.Base.{
  ℕ, true, Option, if◌then◌else◌, ◌≡◌, refl, ap, ◌∙◌, Bool, false, not, none, List, [], ◌∷◌, arith,
}
use ostinato.Base.OrderedSet.{contains}
use ostinato.Base.OrderedMap.{lookup, has_key, has_key-lookup}
use ostinato.Client.PortState.{
  Messages, PortState, modify_streams, resolve_neighbors, build, is_empty, assign_streams,
}
use ostinato.Client.PortState.Edits.{IsPort}
use ostinato.Client.Session.{Agent, Outcome, operate, run_plan, values}
use ostinato.Client.Session.Serves.{Serves}
use ostinato.Client.Session.Values.{lookup-assign_values}
use ostinato.Client.Session.Reached.{Reached, Reached-followed, Reached-acknowledged}
use ostinato.Client.Session.Progress.{Holds, unedited, edited_or_not}

no_streams : {W : Type 0} (k : ℕ) (m : List (ℕ × W)) → not (is_empty m) ≡ false → lookup k m ≡ none
unfolding is_empty lookup
no_streams k [] h = refl
no_streams k ((j, w) ∷ m) h = cc

-- The ids that the agent had, and those that are wanted.
module _ {M : Messages} (p : PortState M) where
  abbrev pub found_groups : ℕ → Bool
  found_groups k = contains k p.sync.device_groups

  abbrev pub found_streams : ℕ → Bool
  found_streams k = contains k p.sync.streams

  unfoldable pub wanted_groups : ℕ → Bool
  wanted_groups k = has_key k p.groups

  unfoldable pub wanted_streams : ℕ → Bool
  wanted_streams k = has_key k p.streams

module _ {M : Messages} {R : Type 0} (agent : Agent M R) (id : ℕ) (serves : Serves agent id)
    (p : PortState M) where
  open M use {Stream, DeviceGroup, stream_id, device_group_id}

  -- The agent holds the streams that are wanted, and groups under the ids that are.
  pub record Complete (r : R) (q : PortState M) : Type 0 where
    pub same_streams : q.streams ≡ p.streams
    pub same_groups : q.groups ≡ p.groups
    pub streams : (k : ℕ) → lookup k (serves.streams_of r) ≡ lookup k p.streams
    pub groups : (k : ℕ) → has_key k (serves.groups_of r) ≡ has_key k p.groups

module _ {M : Messages} {R : Type 0} (agent : Agent M R) (id : ℕ) (serves : Serves agent id)
    (p : PortState M) (before : ℕ → Option M.DeviceGroup) where
  open M use {Stream, DeviceGroup, stream_id, device_group_id}

  -- The group that the agent holds in the end: as it was where it is wanted, was there before and was
  -- not edited, else the wanted one, or none.
  unfoldable pub carried_group : ℕ → Option DeviceGroup
  carried_group k = if unedited agent id serves p k then before k else lookup k p.groups

  pub record Carried (r : R) (q : PortState M) : Type 0 where
    pub complete : Complete agent id serves p r q
    pub values : (k : ℕ) → lookup k (serves.groups_of r) ≡ carried_group k

  pub weaken :
      (G G' S S' : ℕ → Bool) (sent : Bool) {r : R} {q : PortState M}
      → ((k : ℕ) → G k ≡ G' k)
      → ((k : ℕ) → S k ≡ S' k)
      → Holds agent id serves p before G S sent r q
      → Holds agent id serves p before G' S' sent r q
  weaken G G' S S' sent g s h = record {
    same_streams = h.same_streams;
    same_groups = h.same_groups;
    same_sync = h.same_sync;
    group_ids = λ k. h.group_ids k ∙ g k;
    stream_ids = λ k. h.stream_ids k ∙ s k;
    group_before = h.group_before;
    group_sent = h.group_sent;
  }

  pub Reached-weaken :
      (G G' S S' : ℕ → Bool) (sent : Bool) (t : Outcome agent)
      → ((k : ℕ) → G k ≡ G' k)
      → ((k : ℕ) → S k ≡ S' k)
      → Reached agent (Holds agent id serves p before G S sent) t
      → Reached agent (Holds agent id serves p before G' S' sent) t
  Reached-weaken G G' S S' sent t g s h = record {
    quiet = h.quiet;
    holds = weaken G G' S S' sent g s h.holds;
  }

  module _ (is : IsPort M p) where
    -- Each wanted group was sent, or is as it was before.
    carried_values :
        (r : R) (q : PortState M)
        → Holds agent id serves p before (wanted_groups p) (wanted_streams p) true r q
        → (k : ℕ) → lookup k (serves.groups_of r) ≡ carried_group k
    unfolding wanted_groups carried_group
    carried_values r q h k = ground (
      arith,
      h.group_before k,
      h.group_sent refl k,
      h.group_ids k,
      has_key-lookup k p.groups,
      has_key-lookup k (serves.groups_of r),
      edited_or_not agent id serves p is.sync k,
    )

    pub after_modify_streams :
        (r : R) (q : PortState M)
        → Holds agent id serves p before (wanted_groups p) (wanted_streams p) true r q
        → Reached agent Carried (operate agent id modify_streams r q)
    unfolding operate wanted_groups wanted_streams
    after_modify_streams r q h =
        let vs = values q.streams in
        let held = serves.streams_of r in
        Reached-acknowledged agent _ Carried q _ (serves.modifies_streams r vs) (record {
          complete = record {
            same_streams = h.same_streams;
            same_groups = h.same_groups;
            streams = λ k.
                ap (lookup k) (
                  serves.stream_modified r vs
                  ∙ ap (λ (m : List (ℕ × Stream)). assign_streams M (values m) held) h.same_streams)
                ∙ lookup-assign_values agent k p.streams held is.streams
                ∙ ground (arith, h.stream_ids k, has_key-lookup k p.streams, has_key-lookup k held);
            groups = λ k. ap (has_key k) (serves.groups_kept_modifying r vs) ∙ h.group_ids k;
          };
          values = λ k. ap (lookup k) (serves.groups_kept_modifying r vs) ∙ carried_values r q h k;
        })

    pub without_streams :
        (r : R) (q : PortState M)
        → not (is_empty p.streams) ≡ false
        → Holds agent id serves p before (wanted_groups p) (wanted_streams p) true r q
        → Carried r q
    unfolding wanted_groups wanted_streams
    without_streams r q test h = record {
      complete = record {
        same_streams = h.same_streams;
        same_groups = h.same_groups;
        streams = λ k. ground (
          arith,
          h.stream_ids k,
          has_key-lookup k p.streams,
          has_key-lookup k (serves.streams_of r),
          no_streams k p.streams test,
        );
        groups = λ k. h.group_ids k;
      };
      values = λ k. carried_values r q h k;
    }

    after_resolve :
        (r : R) (q : PortState M)
        → Carried r q
        → Reached agent Carried (operate agent id resolve_neighbors r q)
    unfolding operate
    after_resolve r q h = Reached-acknowledged agent _ Carried q _ (serves.resolves r) (record {
      complete = record {
        same_streams = h.complete.same_streams;
        same_groups = h.complete.same_groups;
        streams = λ k. ap (lookup k) (serves.streams_kept_resolving r) ∙ h.complete.streams k;
        groups = λ k. ap (has_key k) (serves.groups_kept_resolving r) ∙ h.complete.groups k;
      };
      values = λ k. ap (lookup k) (serves.groups_kept_resolving r) ∙ h.values k;
    })

    after_build :
        (r : R) (q : PortState M) → Carried r q → Reached agent Carried (operate agent id build r q)
    unfolding operate
    after_build r q h = Reached-acknowledged agent _ Carried q _ (serves.builds r) (record {
      complete = record {
        same_streams = h.complete.same_streams;
        same_groups = h.complete.same_groups;
        streams = λ k. ap (lookup k) (serves.streams_kept_building r) ∙ h.complete.streams k;
        groups = λ k. ap (has_key k) (serves.groups_kept_building r) ∙ h.complete.groups k;
      };
      values = λ k. ap (lookup k) (serves.groups_kept_building r) ∙ h.values k;
    })

    pub last :
        (r : R) (q : PortState M)
        → Carried r q
        → Reached agent Carried (run_plan agent id (resolve_neighbors ∷ build ∷ []) r q)
    unfolding run_plan
    last r q h = Reached-followed agent Carried Carried _ _ (after_resolve r q h) (λ r' q' k.
        Reached-followed agent Carried Carried _ _ (after_build r' q' k)
          (λ r'' q'' j. record { quiet = refl; holds = j }))
