-- ===== src/Client/Session/Requests.antt =====
-- The session that any calls of `ClientSession`, client/core/client_session.cpp, leave.
use ostinato.Base.{ℕ, ◌≡◌, refl, ◌∙◌, if◌then◌else◌, Bool, true, false, not, List}
use ostinato.Base.OrderedMap.{has_key}
use ostinato.Client.PortState.{
  Messages, PortState, hydrate_config, hydrate_streams, hydrate_device_groups, hydrate_devices,
  hydrate_stats, add_stream, update_stream, delete_stream, add_device_group, update_device_group,
  delete_device_group, set_transmitting, set_capturing, port_sync_complete,
}
use ostinato.Client.PortState.Edits.{
  Edit, edit, hydrates_config, hydrates_streams, hydrates_groups, hydrates_devices, hydrates_stats,
  adds_stream, updates_stream, deletes_stream, adds_group, updates_group, deletes_group,
  sets_transmitting, sets_capturing, completes, marks_dirty, clears_dirty, marks_group,
  reads_baseline, adds_remote, IsPort, edit-IsPort,
}
use ostinato.Client.Session.Operations.{Link, Request, answer_all, new_session}
use ostinato.Client.Session.Standing.{Stands, answer_all-Stands}

module _ (M : Messages) where
  open M use {stream_id, device_group_id}

  -- Either result of a guarded edit.
  guarded-id :
      (b : Bool) (p q : PortState M)
      → q.id ≡ p.id
      → (if◌then◌else◌ {A = PortState M × Bool} b (p, false) (q, true)).0.id ≡ p.id
  guarded-id true p q e = refl
  guarded-id false p q e = e

  edit-id : (p : PortState M) (e : Edit M) → (edit M p e).id ≡ p.id
  unfolding edit hydrate_config hydrate_streams hydrate_device_groups hydrate_devices hydrate_stats
      add_stream update_stream delete_stream add_device_group update_device_group
      delete_device_group set_transmitting set_capturing port_sync_complete
  edit-id p (hydrates_config v) = refl
  edit-id p (hydrates_streams vs) = refl
  edit-id p (hydrates_groups vs) = refl
  edit-id p (hydrates_devices v) = refl
  edit-id p (hydrates_stats v) = refl
  edit-id p (adds_stream v) = guarded-id (has_key (stream_id v) p.streams) p _ refl
  edit-id p (updates_stream v) = guarded-id (not (has_key (stream_id v) p.streams)) p _ refl
  edit-id p (deletes_stream id) = guarded-id (not (has_key id p.streams)) p _ refl
  edit-id p (adds_group v) = guarded-id (has_key (device_group_id v) p.groups) p _ refl
  edit-id p (updates_group v) = guarded-id (not (has_key (device_group_id v) p.groups)) p _ refl
  edit-id p (deletes_group id) = guarded-id (not (has_key id p.groups)) p _ refl
  edit-id p (sets_transmitting b) = refl
  edit-id p (sets_capturing b) = refl
  edit-id p completes = refl
  edit-id p marks_dirty = refl
  edit-id p clears_dirty = refl
  edit-id p (marks_group id) = refl
  edit-id p (reads_baseline ss gs) = refl
  edit-id p (adds_remote ids) = refl

  -- A port under its id, in order.
  pub record Placed (k : ℕ) (q : PortState M) : Type 0 where
    pub own : q.id ≡ k
    pub port : IsPort M q

  edit-Placed : (k : ℕ) (q : PortState M) (e : Edit M) → Placed k q → Placed k (edit M q e)
  edit-Placed k q e h = record { own = edit-id q e ∙ h.own; port = edit-IsPort M q e h.port }

-- Whatever the other side answers, and in whatever order a new session is called: each port that it
-- holds stands under its own id, with its streams and device groups in order under their ids and its
-- sets of ids in order; and the pending ids are in order.
pub requests-Stands :
    {M : Messages} {R : Type 0} (link : Link M R) (qs : List Request) (r : R)
    → Stands (Placed M) (answer_all link qs r (new_session M)).1
requests-Stands {M = M} link qs r =
    answer_all-Stands link (Placed M) (edit-Placed M)
      (λ k q h. record { own = h.own; port = h.port }) qs r (new_session M)
      (record { entries = tt; pending = tt })
