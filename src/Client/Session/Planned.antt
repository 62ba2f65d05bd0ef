-- ===== src/Client/Session/Planned.antt =====
-- The whole plan of `ClientSession::apply`, client/core/client_session.cpp, against a serving agent: the
-- agent then holds what is wanted.
use ostinato.Base.{
  ℕ, true, Option, ◌≡◌, refl, subst, sym, Bool, false, not, ◌&&◌, ◌||◌, List, [], ◌∷◌, arith,
}
use ostinato.Base.OrderedSet.{contains}
use ostinato.Base.OrderedMap.{keys, has_key}
use ostinato.Client.PortState.{
  Messages, PortState, ApplyOperation, delete_device_groups, add_device_groups,
  modify_device_groups, refresh_devices, delete_streams, add_streams, modify_streams,
  resolve_neighbors, build, push_if, is_empty, create_plan, apply_plan,
}
use ostinato.Client.PortState.Sync.{sync_reaches_desired}
use ostinato.Client.PortState.Edits.{IsPort}
use ostinato.Client.Session.{Agent, run_plan}
use ostinato.Client.Session.Serves.{Serves}
use ostinato.Client.Session.Reached.{Reached, Reached-followed, Reached-push_if, run_plan-append}
use ostinato.Client.Session.Progress.{
  empty-contains, Holds, dropped_groups, fresh_groups, edited_groups, dropped_streams,
  fresh_streams, after_delete_groups, after_add_groups, after_modify_groups,
}
use ostinato.Client.Session.Streams.{after_delete_streams, after_add_streams, after_refresh}
use ostinato.Client.Session.Carried.{
  Carried, weaken, Reached-weaken, found_groups, found_streams, wanted_groups, wanted_streams,
  after_modify_streams, without_streams, last,
}

module _ {M : Messages} {R : Type 0} (agent : Agent M R) (id : ℕ) (serves : Serves agent id)
    (p : PortState M) (before : ℕ → Option M.DeviceGroup) (is : IsPort M p) (r : R)
    (start : Holds agent id serves p before (found_groups p) (found_streams p) false r p) where
  abbrev kept_groups : ℕ → Bool
  kept_groups k = found_groups p k && not (contains k (dropped_groups agent id serves p))

  abbrev kept_streams : ℕ → Bool
  kept_streams k = found_streams p k && not (contains k (dropped_streams agent id serves p))

  reaches_groups :
      (k : ℕ) → (kept_groups k || contains k (fresh_groups agent id serves p)) ≡ wanted_groups p k
  unfolding wanted_groups has_key
  reaches_groups k = (sync_reaches_desired p.sync (keys p.groups) k is.sync).1

  reaches_streams :
      (k : ℕ)
      → (kept_streams k || contains k (fresh_streams agent id serves p)) ≡ wanted_streams p k
  unfolding wanted_streams has_key
  reaches_streams k = (sync_reaches_desired p.sync (keys p.streams) k is.sync).0

  first :
      Reached agent
        (Holds agent id serves p before (found_groups p) (found_streams p) false)
        (run_plan agent id [] r p)
  unfolding run_plan
  first = record { quiet = refl; holds = start }

  -- The tests by which the plan takes an operation.
  deleting : Bool
  deleting = not (is_empty (dropped_groups agent id serves p))

  adding : Bool
  adding = not (is_empty (fresh_groups agent id serves p))

  modifying : Bool
  modifying = not (is_empty (edited_groups agent id serves p))

  groups_deleted :
      Reached agent
        (Holds agent id serves p before kept_groups (found_streams p) false)
        (run_plan agent id (push_if deleting delete_device_groups []) r p)
  unfolding deleting
  groups_deleted =
      Reached-push_if agent _ _ id deleting delete_device_groups [] r p first
        (λ r' q test h.
          after_delete_groups agent id serves p before (found_groups p) (found_streams p) false r' q
            h is.sync)
        (λ r' q test h.
          weaken agent id serves p before (found_groups p) kept_groups (found_streams p)
            (found_streams p) false
            (λ k. ground (arith, empty-contains k (dropped_groups agent id serves p) test))
            (λ k. refl) h)

  abbrev plan1 : List ApplyOperation
  plan1 = push_if deleting delete_device_groups []

  abbrev plan2 : List ApplyOperation
  plan2 = push_if adding add_device_groups plan1

  groups_added :
      Reached agent
        (Holds agent id serves p before (wanted_groups p) (found_streams p) false)
        (run_plan agent id plan2 r p)
  unfolding adding
  groups_added =
      Reached-push_if agent _ _ id adding add_device_groups plan1 r p groups_deleted
        (λ r' q test h.
          Reached-weaken agent id serves p before _ (wanted_groups p) (found_streams p)
            (found_streams p) false _ reaches_groups (λ k. refl)
            (after_add_groups agent id serves p before kept_groups (found_streams p) false r' q h
              is.sync))
        (λ r' q test h.
          weaken agent id serves p before kept_groups (wanted_groups p) (found_streams p)
            (found_streams p) false
            (λ k.
              ground
                (arith, empty-contains k (fresh_groups agent id serves p) test, reaches_groups k))
            (λ k. refl) h)

  abbrev plan3 : List ApplyOperation
  plan3 = push_if modifying modify_device_groups plan2

  none_to_send :
      (r : R) (q : PortState M)
      → modifying ≡ false
      → Holds agent id serves p before (wanted_groups p) (found_streams p) false r q
      → Holds agent id serves p before (wanted_groups p) (found_streams p) true r q
  unfolding modifying
  none_to_send r q test h = record {
    same_streams = h.same_streams;
    same_groups = h.same_groups;
    same_sync = h.same_sync;
    group_ids = h.group_ids;
    stream_ids = h.stream_ids;
    group_before = h.group_before;
    group_sent = λ e k c.
        absurd (ground (arith, c, empty-contains k (edited_groups agent id serves p) test));
  }

  groups_modified :
      Reached agent
        (Holds agent id serves p before (wanted_groups p) (found_streams p) true)
        (run_plan agent id plan3 r p)
  unfolding wanted_groups
  groups_modified =
      Reached-push_if agent _ _ id modifying modify_device_groups plan2 r p groups_added
        (λ r' q test h.
          after_modify_groups agent id serves p before (wanted_groups p) (found_streams p) false r'
            q h is.sync is.groups (λ k. refl))
        (λ r' q test h. none_to_send r' q test h)

  abbrev plan4 : List ApplyOperation
  plan4 = push_if (deleting || adding || modifying) refresh_devices plan3

  devices_refreshed :
      Reached agent
        (Holds agent id serves p before (wanted_groups p) (found_streams p) true)
        (run_plan agent id plan4 r p)
  devices_refreshed =
      Reached-push_if agent _ _ id (deleting || adding || modifying) refresh_devices plan3 r p
        groups_modified
        (λ r' q test h.
          after_refresh agent id serves p before (wanted_groups p) (found_streams p) true r' q h
            is.sync)
        (λ r' q test h. h)

  abbrev plan5 : List ApplyOperation
  plan5 = push_if (not (is_empty (dropped_streams agent id serves p))) delete_streams plan4

  streams_deleted :
      Reached agent
        (Holds agent id serves p before (wanted_groups p) kept_streams true)
        (run_plan agent id plan5 r p)
  streams_deleted =
      Reached-push_if agent _ _ id _ delete_streams plan4 r p devices_refreshed
        (λ r' q test h.
          after_delete_streams agent id serves p before (wanted_groups p) (found_streams p) true r'
            q h is.sync)
        (λ r' q test h.
          weaken agent id serves p before (wanted_groups p) (wanted_groups p) (found_streams p)
            kept_streams true (λ k. refl)
            (λ k. ground (arith, empty-contains k (dropped_streams agent id serves p) test)) h)

  abbrev plan6 : List ApplyOperation
  plan6 = push_if (not (is_empty (fresh_streams agent id serves p))) add_streams plan5

  streams_added :
      Reached agent
        (Holds agent id serves p before (wanted_groups p) (wanted_streams p) true)
        (run_plan agent id plan6 r p)
  streams_added =
      Reached-push_if agent _ _ id _ add_streams plan5 r p streams_deleted
        (λ r' q test h.
          Reached-weaken agent id serves p before (wanted_groups p) (wanted_groups p) _
            (wanted_streams p) true _ (λ k. refl) reaches_streams
            (after_add_streams agent id serves p before (wanted_groups p) kept_streams true r' q h
              is.sync))
        (λ r' q test h.
          weaken agent id serves p before (wanted_groups p) (wanted_groups p) kept_streams
            (wanted_streams p) true (λ k. refl)
            (λ k.
              ground
                (arith, empty-contains k (fresh_streams agent id serves p) test, reaches_streams k))
            h)

  abbrev plan7 : List ApplyOperation
  plan7 = push_if (not (is_empty p.streams)) modify_streams plan6

  streams_modified : Reached agent (Carried agent id serves p before) (run_plan agent id plan7 r p)
  streams_modified =
      Reached-push_if agent _ _ id (not (is_empty p.streams)) modify_streams plan6 r p streams_added
        (λ r' q test h. after_modify_streams agent id serves p before is r' q h)
        (λ r' q test h. without_streams agent id serves p before is r' q test h)

  pub planned :
      Reached agent (Carried agent id serves p before) (run_plan agent id (apply_plan M p) r p)
  unfolding apply_plan create_plan deleting adding modifying
  planned =
      subst (Reached agent (Carried agent id serves p before))
        (sym (run_plan-append agent id plan7 (resolve_neighbors ∷ build ∷ []) r p))
        (Reached-followed agent (Carried agent id serves p before)
          (Carried agent id serves p before) _ _ streams_modified
          (last agent id serves p before is))
