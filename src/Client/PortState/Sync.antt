-- ===== src/Client/PortState/Sync.antt =====
-- What the synchronisation of client/core/port_state.cpp computes, and that the plan brings the
-- server's ids to the desired ones.
use ostinato.Base.{
  ℕ, ◌≡◌, refl, ap, ◌∙◌, true, false, not, ◌&&◌, ◌||◌, List, [], ◌∷◌, ◌++◌, arith, if◌then◌else◌,
}
use ostinato.Base.OrderedSet.{
  contains, insert_all, set_difference, AscendsFrom-Ascends, Ascends, set_insert-Ascends,
  insert_all-Ascends, contains-set_insert, contains-insert_all, contains-set_difference,
}
use ostinato.Base.OrderedMap.{keys}
use ostinato.Client.PortState.{
  as_set, PortSyncState, mark_dirty, clear_dirty, mark_device_group_modified, new_streams,
  deleted_streams, new_device_groups, deleted_device_groups, only_in, modified_device_groups,
  refresh_remote_baseline, mark_device_groups_added_remote, mark_sync_complete, modify_streams,
  resolve_neighbors, build, is_empty, push_if, create_plan,
}

-- The three sets are in order, as `std::set` keeps them.
pub record IsSync (s : PortSyncState) : Type 0 where
  pub streams : Ascends s.streams
  pub device_groups : Ascends s.device_groups
  pub modified : Ascends s.modified_device_groups

as_set-Ascends : (v : List ℕ) → Ascends (as_set v)
unfolding as_set
as_set-Ascends v = insert_all-Ascends v [] tt

pub contains-as_set : (z : ℕ) (v : List ℕ) → contains z (as_set v) ≡ contains z v
unfolding as_set contains
contains-as_set z v = contains-insert_all z v [] ∙ ground arith

contains-only_in :
    (z : ℕ) (current ids : List ℕ)
    → contains z (only_in current ids) ≡ (contains z ids && contains z current)
unfolding only_in contains
contains-only_in z current [] = refl
contains-only_in z current (id ∷ ids) = ground (arith, contains-only_in z current ids)

abbrev pub Membership : PortSyncState → List ℕ → ℕ → Type 0
Membership s current z =
    (contains z (new_streams s current) ≡ (contains z current && not (contains z s.streams)))
    × (contains z (deleted_streams s current) ≡ (contains z s.streams && not (contains z current)))
    × (contains z (new_device_groups s current)
        ≡ (contains z current && not (contains z s.device_groups)))
    × (contains z (deleted_device_groups s current)
        ≡ (contains z s.device_groups && not (contains z current)))
    × (contains z (modified_device_groups s current) ≡ (
        contains z current
        && (contains z s.modified_device_groups || not (contains z s.device_groups))))

-- Each list holds the ids that its name promises: new ones are desired and not on the server,
-- deleted ones on the server and not desired, and the groups to configure are the desired ones
-- that were edited or are new.
pub sync-Membership :
    (s : PortSyncState) (current : List ℕ) (z : ℕ) → IsSync s → Membership s current z
unfolding new_streams deleted_streams new_device_groups deleted_device_groups modified_device_groups
sync-Membership s current z ok =
    let fresh = as_set-Ascends current in
    let here = contains-as_set z current in
    let added = contains-set_difference z (as_set current) s.device_groups fresh ok.device_groups in
    (
      contains-set_difference z (as_set current) s.streams fresh ok.streams ∙ rw here refl,
      contains-set_difference z s.streams (as_set current) ok.streams fresh ∙ rw here refl,
      added ∙ rw here refl,
      contains-set_difference z s.device_groups (as_set current) ok.device_groups fresh
          ∙ rw here refl,
      ground (
        arith,
        contains-only_in z (as_set current)
            (insert_all (new_device_groups s current) s.modified_device_groups),
        contains-insert_all z (new_device_groups s current) s.modified_device_groups,
        added,
        here,
      ),
    )

-- Deleting the ids to delete and then adding the new ones takes the server's set of streams, and
-- its set of device groups, to the desired one, from whatever baseline was read.
pub sync_reaches_desired :
    (s : PortSyncState) (current : List ℕ) (z : ℕ)
    → IsSync s
    → ((contains z s.streams && not (contains z (deleted_streams s current))
          || contains z (new_streams s current))
        ≡ contains z current)
      × ((contains z s.device_groups && not (contains z (deleted_device_groups s current))
            || contains z (new_device_groups s current))
          ≡ contains z current)
sync_reaches_desired s current z ok = ground (arith, sync-Membership s current z ok)

set_difference_self : (xs : List ℕ) → Ascends xs → set_difference xs xs ≡ []
unfolding set_difference
set_difference_self [] h = refl
set_difference_self (x ∷ xs) h = ground (arith, set_difference_self xs (AscendsFrom-Ascends x xs h))

only_in-nil : (current : List ℕ) → only_in current (insert_all [] []) ≡ []
unfolding only_in insert_all
only_in-nil current = refl

-- What is left to do for a port that was just synchronised with these ids: no id is new or to be
-- deleted, no group is to be configured, nothing is dirty.
abbrev pub IsSettled : PortSyncState → List ℕ → List ℕ → Type 0
IsSettled s stream_ids group_ids =
    (new_streams s stream_ids ≡ [])
    × (deleted_streams s stream_ids ≡ [])
    × (new_device_groups s group_ids ≡ [])
    × (deleted_device_groups s group_ids ≡ [])
    × (modified_device_groups s group_ids ≡ [])
    × (s.dirty ≡ false)

settled_ids : (v : List ℕ) → set_difference (as_set v) (as_set v) ≡ []
settled_ids v = set_difference_self (as_set v) (as_set-Ascends v)

completed : (s : PortSyncState) (ss gs : List ℕ) → IsSettled (mark_sync_complete ss gs s) ss gs
unfolding new_streams deleted_streams new_device_groups deleted_device_groups modified_device_groups
    mark_sync_complete refresh_remote_baseline
completed s ss gs = (
  settled_ids ss,
  settled_ids ss,
  settled_ids gs,
  settled_ids gs,
  ap (λ t. only_in (as_set gs) (insert_all t [])) (settled_ids gs) ∙ only_in-nil (as_set gs),
  refl,
)

settled_plan :
    {S G : Type 0} (t : PortSyncState) (streams : List (ℕ × S)) (groups : List (ℕ × G))
    → IsSettled t (keys streams) (keys groups)
    → create_plan streams groups t
      ≡ (if is_empty streams then [] else modify_streams ∷ []) ++ resolve_neighbors ∷ build ∷ []
unfolding create_plan is_empty push_if
settled_plan t streams groups (a, b, c, d, e, f) = rw (a, b, c, d, e) (ground arith)

-- After `markSyncComplete` with the desired ids nothing is left to synchronise, and a plan for the
-- same streams and groups sends the streams again, resolves neighbors and builds, and no more.
pub mark_sync_complete-IsSettled :
    {S G : Type 0} (s : PortSyncState) (streams : List (ℕ × S)) (groups : List (ℕ × G))
    → let t = mark_sync_complete (keys streams) (keys groups) s in
      IsSettled t (keys streams) (keys groups)
      × (create_plan streams groups t
          ≡ (if is_empty streams then [] else modify_streams ∷ [])
            ++ resolve_neighbors ∷ build ∷ [])
mark_sync_complete-IsSettled s streams groups =
    let done = completed s (keys streams) (keys groups) in
    (done, settled_plan (mark_sync_complete (keys streams) (keys groups) s) streams groups done)

pub mark_dirty-IsSync : (s : PortSyncState) → IsSync s → IsSync (mark_dirty s)
unfolding mark_dirty
mark_dirty-IsSync s h = record {
  streams = h.streams;
  device_groups = h.device_groups;
  modified = h.modified;
}

pub clear_dirty-IsSync : (s : PortSyncState) → IsSync s → IsSync (clear_dirty s)
unfolding clear_dirty
clear_dirty-IsSync s h = record {
  streams = h.streams;
  device_groups = h.device_groups;
  modified = h.modified;
}

pub modified-IsSync :
    (id : ℕ) (s : PortSyncState) → IsSync s → IsSync (mark_device_group_modified id s)
unfolding mark_device_group_modified
modified-IsSync id s h = record {
  streams = h.streams;
  device_groups = h.device_groups;
  modified = set_insert-Ascends id s.modified_device_groups h.modified;
}

pub baseline-IsSync :
    (ss gs : List ℕ) (s : PortSyncState) → IsSync s → IsSync (refresh_remote_baseline ss gs s)
unfolding refresh_remote_baseline
baseline-IsSync ss gs s h = record {
  streams = as_set-Ascends ss;
  device_groups = as_set-Ascends gs;
  modified = h.modified;
}

pub added_remote-IsSync :
    (ids : List ℕ) (s : PortSyncState) → IsSync s → IsSync (mark_device_groups_added_remote ids s)
unfolding mark_device_groups_added_remote
added_remote-IsSync ids s h = record {
  streams = h.streams;
  device_groups = insert_all-Ascends ids s.device_groups h.device_groups;
  modified = h.modified;
}

pub complete-IsSync :
    (ss gs : List ℕ) (s : PortSyncState) → IsSync s → IsSync (mark_sync_complete ss gs s)
unfolding mark_sync_complete refresh_remote_baseline
complete-IsSync ss gs s h = record {
  streams = as_set-Ascends ss;
  device_groups = as_set-Ascends gs;
  modified = tt;
}

-- What the server reports, or was just told, between an edit and the end of an apply.
abbrev pub retried_sync : ℕ → List ℕ → List ℕ → List ℕ → PortSyncState → PortSyncState
retried_sync id ss gs ids s =
    mark_device_groups_added_remote ids
      (refresh_remote_baseline ss gs (mark_device_group_modified id s))

retried-contains :
    (id : ℕ) (ss gs ids : List ℕ) (s : PortSyncState)
    → contains id (retried_sync id ss gs ids s).modified_device_groups ≡ true
unfolding mark_device_groups_added_remote refresh_remote_baseline mark_device_group_modified
retried-contains id ss gs ids s = ground (arith, contains-set_insert id id s.modified_device_groups)

-- A device group that was edited stays among those to configure whatever baseline is read
-- afterwards, also if the group was already added to the server: a retry sends it again as long as
-- it is desired.
pub modified_survives :
    (id : ℕ) (ss gs ids current : List ℕ) (s : PortSyncState)
    → IsSync s
    → contains id current ≡ true
    → contains id (modified_device_groups (retried_sync id ss gs ids s) current) ≡ true
modified_survives id ss gs ids current s ok desired =
    let t = retried_sync id ss gs ids s in
    let good = added_remote-IsSync ids _ (baseline-IsSync ss gs _ (modified-IsSync id s ok)) in
    (sync-Membership t current id good).4 ∙ ground (arith, desired, retried-contains id ss gs ids s)
