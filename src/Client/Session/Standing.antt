-- ===== src/Client/Session/Standing.antt =====
-- What every call of `ClientSession`, client/core/client_session.cpp, keeps of a session.
use ostinato.Base.{
  ℕ, ◌≡◌, refl, subst, true, false, not, ◌||◌, Option, none, some, List, [], ◌∷◌, map, if_cases,
  ◌==◌, ◌%◌, ◌^◌,
}
use Prim.Native.String.{String}
use ostinato.Base.OrderedSet.{Ascends, insert_all-Ascends}
use ostinato.Base.OrderedMap.{keys, lookup, has_key, assign}
use ostinato.Base.MapEntries.{AllEntries, Found, assign-AllEntries, lookup-AllEntries}
use ostinato.Client.PortState.{Messages, PortState, is_empty}
use ostinato.Client.PortState.Edits.{
  Edit, edit, hydrates_config, hydrates_stats, sets_transmitting, sets_capturing,
}
use ostinato.Client.Session.{Answer, fails, answers, Fault, exact_ids, apply}
use ostinato.Client.Session.Settled.{Hydrated, Answered, hydrate-Hydrated}
use ostinato.Client.Session.Edited.{apply-Keeps}
use ostinato.Client.Session.Operations.{
  Link, Session, Notification, noted, Request, connects, reconnects, disconnects, cancels,
  queries_stats, applies, captures, controls, answer, answer_all, Control, start_transmit,
  stop_transmit, start_capture, stop_capture, VersionCompatibility, set_flag, update, Result,
  notified, notified_all, absorb, port_config_changed, clear_if_disconnected, cleaned, proceed,
  hydrate_known, postponed, process_answer, process_notifications, perform, unknown_port,
  apply_found, apply_port, control_known, control, hydrate_all_stats, stats_answer, query_stats,
  capture_known, get_capture, given_up, connect_hydrated, connect_checked, connect_opened, connect,
  reconnect, disconnect, cancel,
}

update-AllEntries :
    {W : Type 0} (Q : ℕ → W → Type 0) (k : ℕ) (f : W → W) (m : List (ℕ × W))
    → ((w : W) → Q k w → Q k (f w))
    → AllEntries Q m
    → AllEntries Q (update k f m)
unfolding update
update-AllEntries {W = W} Q k f m step all = updated (lookup k m) (lookup-AllEntries Q k m all)
  where
    updated :
        (o : Option W)
        → Found Q k o
        → AllEntries Q (elim o [ none ↦ m | some w ↦ assign k (f w) m ])
    updated none h = all
    updated (some w) h = assign-AllEntries Q k (f w) m (step w h) all

noted-Ascends :
    (method : ℕ) (n : Option Notification) (pending : List ℕ)
    → Ascends pending
    → Ascends (noted method n pending)
unfolding noted
noted-Ascends method none pending h = h
noted-Ascends method (some notice) pending h =
    if_cases Ascends
      (not (notice.notif_type == port_config_changed) || not (method == notice.notif_type % 2 ^ 16))
      _ _ (λ e. h) (λ e. insert_all-Ascends notice.port_id_list pending h)

-- Each port is so, and the pending ids are in order.
pub record Stands {M : Messages} (Q : ℕ → PortState M → Type 0) (s : Session M) : Type 0 where
  pub entries : AllEntries Q s.ports
  pub pending : Ascends s.pending

module _ {M : Messages} {R : Type 0} (link : Link M R) (Q : ℕ → PortState M → Type 0)
    (closed : (k : ℕ) (q : PortState M) (e : Edit M) → Q k q → Q k (edit M q e))
    (fresh : (k : ℕ) (q : PortState M) → Hydrated link.agent k q → Q k q) where
  open M use {Port, PortStats}

  record Standing (t : Result link) : Type 0 where
    pub stands : Stands Q t.1

  with_ports :
      (s : Session M) (ports : List (ℕ × PortState M))
      → Stands Q s
      → AllEntries Q ports
      → Stands Q (record s { ports = ports })
  with_ports s ports h all = record { entries = all; pending = h.pending }

  notified-Ascends :
      (pending : List ℕ) (n : ℕ × List ℕ) → Ascends pending → Ascends (notified link pending n)
  unfolding notified
  notified-Ascends pending (method, bytes) h = noted-Ascends method (link.parse bytes) pending h

  notified_all-Ascends :
      (ns : List (ℕ × List ℕ)) (pending : List ℕ)
      → Ascends pending
      → Ascends (notified_all link ns pending)
  unfolding notified_all
  notified_all-Ascends [] pending h = h
  notified_all-Ascends (n ∷ ns) pending h = notified_all-Ascends ns _ (notified-Ascends pending n h)

  absorb-Stands : (r : R) (s : Session M) → Stands Q s → Stands Q (absorb link r s).1
  unfolding absorb
  absorb-Stands r s h = record { entries = h.entries; pending = notified_all-Ascends _ _ h.pending }

  clear-Stands : (r : R) (s : Session M) → Stands Q s → Stands Q (clear_if_disconnected link r s)
  unfolding clear_if_disconnected
  clear-Stands r s h =
      if_cases (Stands Q) (link.connected r) s _ (λ e. h)
        (λ e. record { entries = tt; pending = tt })

  stand : (r : R) (s : Session M) (f : Option Fault) → Stands Q s → Standing (r, s, f)
  stand r s f h = record { stands = h }

  proceed-Standing :
      (t : Result link) (next : R → Session M → Result link)
      → Standing t
      → ((r : R) (s : Session M) → Stands Q s → Standing (next r s))
      → Standing (proceed link t next)
  unfolding proceed
  proceed-Standing (r, s, none) next h k = k r s h.stands
  proceed-Standing (r, s, some f) next h k = h

  hydrate_known-AllEntries :
      (configs : List Port) (ports : List (ℕ × PortState M))
      → AllEntries Q ports
      → AllEntries Q (hydrate_known link configs ports)
  unfolding hydrate_known edit
  hydrate_known-AllEntries [] ports h = h
  hydrate_known-AllEntries (config ∷ configs) ports h =
      let id = link.agent.port_config_id config in
      hydrate_known-AllEntries configs _
        (update-AllEntries Q id _ ports (λ q k. closed id q (hydrates_config config) k) h)

  postponed-Standing :
      (ids : List ℕ) (f : Option Fault) (t : R × Session M)
      → Stands Q t.1
      → Standing (postponed link ids f t)
  unfolding postponed
  postponed-Standing ids f (r, s) h =
      stand r _ f
        (record { entries = h.entries; pending = insert_all-Ascends ids s.pending h.pending })

  process_answer-Standing :
      (ids : List ℕ) (a : Answer (List Port)) (t : R × Session M)
      → Stands Q t.1
      → Standing (process_answer link ids a t)
  unfolding process_answer
  process_answer-Standing ids (fails f) t h = postponed-Standing ids (some f) t h
  process_answer-Standing ids (answers configs) (r, s) h =
      if_cases Standing (not (exact_ids (map link.agent.port_config_id configs) ids)) _ _
        (λ e. postponed-Standing ids _ (r, s) h)
        (λ e.
          stand r _ none (with_ports s _ h (hydrate_known-AllEntries configs s.ports h.entries)))

  process-Standing :
      (r : R) (s : Session M) → Stands Q s → Standing (process_notifications link r s)
  unfolding process_notifications
  process-Standing r s h =
      if_cases Standing (is_empty s.pending) _ _ (λ e. stand r s none h)
        λ e.
          process_answer-Standing s.pending _ _
            (absorb-Stands _ _ (record { entries = h.entries; pending = tt }))

  perform-Standing :
      (body : R → Session M → Result link) (r : R) (s : Session M)
      → ((r : R) (s : Session M) → Stands Q s → Standing (body r s))
      → Stands Q s
      → Standing (perform link body r s)
  unfolding perform cleaned
  perform-Standing body r s k h =
      let t = proceed link (process_notifications link r s) body in
      stand t.0 _ t.2
        (clear-Stands t.0 t.1 (proceed-Standing _ body (process-Standing r s h) k).stands)

  unknown-Standing : (r : R) (s : Session M) → Stands Q s → Standing (unknown_port link r s)
  unfolding unknown_port
  unknown-Standing r s h = stand r s _ h

  Found-Standing :
      (id : ℕ) (o : Option (PortState M)) (r : R) (s : Session M)
      → Found Q id o
      → Stands Q s
      → Standing (apply_found link id o r s)
  unfolding apply_found
  Found-Standing id none r s found h = unknown-Standing r s h
  Found-Standing id (some p) r s found h =
      let t = apply link.agent id r p in
      let kept = absorb-Stands t.0 s h in
      let edited = apply-Keeps link.agent (Q id) (closed id) id r p found in
      stand _ _ t.2 (with_ports _ _ kept (assign-AllEntries Q id t.1 _ edited kept.entries))

  -- A call that changes one port by an edit, where it succeeds.
  edited-Stands :
      (id : ℕ) (e : Edit M) (f : PortState M → PortState M) (s : Session M)
      → ((q : PortState M) → edit M q e ≡ f q)
      → Stands Q s
      → Stands Q (record s { ports = update id f s.ports })
  edited-Stands id e f s same h =
      with_ports s _ h (
        update-AllEntries Q id f s.ports (λ q k. subst (Q id) (same q) (closed id q e k)) h.entries)

  flagged :
      (c : Control) (id : ℕ) (s : Session M)
      → Stands Q s
      → Stands Q (record s { ports = update id (set_flag M c) s.ports })
  unfolding edit set_flag
  flagged start_transmit id s h = edited-Stands id (sets_transmitting true) _ s (λ q. refl) h
  flagged stop_transmit id s h = edited-Stands id (sets_transmitting false) _ s (λ q. refl) h
  flagged start_capture id s h = edited-Stands id (sets_capturing true) _ s (λ q. refl) h
  flagged stop_capture id s h = edited-Stands id (sets_capturing false) _ s (λ q. refl) h

  control_known-Standing :
      (c : Control) (id : ℕ) (f : Option Fault) (t : R × Session M)
      → Stands Q t.1
      → Standing (control_known link c id f t)
  unfolding control_known
  control_known-Standing c id (some f) (r, s) h = stand r s _ h
  control_known-Standing c id none (r, s) h = stand r _ none (flagged c id s h)

  capture_known-Standing :
      (id : ℕ) (f : Option Fault) (t : R × Session M)
      → Stands Q t.1
      → Standing (capture_known link id f t)
  unfolding capture_known edit
  capture_known-Standing id (some f) (r, s) h = stand r s _ h
  capture_known-Standing id none (r, s) h =
      stand r _ none (edited-Stands id (sets_capturing false) _ s (λ q. refl) h)

  hydrate_all_stats-AllEntries :
      (vs : List PortStats) (ports : List (ℕ × PortState M))
      → AllEntries Q ports
      → AllEntries Q (hydrate_all_stats link vs ports)
  unfolding hydrate_all_stats edit
  hydrate_all_stats-AllEntries [] ports h = h
  hydrate_all_stats-AllEntries (v ∷ vs) ports h =
      let id = link.stats_port v in
      hydrate_all_stats-AllEntries vs _
        (update-AllEntries Q id _ ports (λ q k. closed id q (hydrates_stats v) k) h)

  stats_answer-Standing :
      (a : Answer (List PortStats)) (t : R × Session M)
      → Stands Q t.1
      → Standing (stats_answer link a t)
  unfolding stats_answer
  stats_answer-Standing (fails f) (r, s) h = stand r s _ h
  stats_answer-Standing (answers vs) (r, s) h =
      if_cases Standing (not (exact_ids (map link.stats_port vs) (keys s.ports))) _ _
        (λ e. stand r s _ h)
        (λ e. stand r _ none (with_ports s _ h (hydrate_all_stats-AllEntries vs s.ports h.entries)))

  given_up-Standing : (f : Fault) (t : R × Session M) → Stands Q t.1 → Standing (given_up link f t)
  unfolding given_up
  given_up-Standing f (r, s) h = stand _ _ _ (clear-Stands _ s h)

  Hydrated-Standing :
      (t : R × Answer (List (ℕ × PortState M))) (u : R × Session M)
      → Answered link.agent (AllEntries (Hydrated link.agent)) t
      → Stands Q u.1
      → Standing (connect_hydrated link t.1 u)
  unfolding connect_hydrated
  Hydrated-Standing (r', fails f) u all h = given_up-Standing f u h
  Hydrated-Standing (r', answers ports) (r, s) all h =
      stand r _ none (with_ports s ports h (hydrated-entries ports all.holds))
    where
      hydrated-entries :
          (m : List (ℕ × PortState M)) → AllEntries (Hydrated link.agent) m → AllEntries Q m
      hydrated-entries [] k = tt
      hydrated-entries ((j, q) ∷ m) k = (fresh j q k.0, hydrated-entries m k.1)

  checked-Standing :
      (a : Answer VersionCompatibility) (t : R × Session M)
      → Stands Q t.1
      → Standing (connect_checked link a t)
  unfolding connect_checked
  checked-Standing (fails f) t h = given_up-Standing f t h
  checked-Standing (answers a) (r, s) h =
      if_cases Standing (not a.compatible) _ _ (λ e. given_up-Standing _ (r, s) h)
        λ e. Hydrated-Standing _ _ (hydrate-Hydrated link.agent r) (absorb-Stands _ s h)

  opened-Standing :
      (t : R × Option Fault) (s : Session M) → Stands Q s → Standing (connect_opened link t s)
  unfolding connect_opened
  opened-Standing (r, some f) s h = stand r s _ h
  opened-Standing (r, none) s h = checked-Standing _ _ (absorb-Stands _ s h)

  connect-Standing :
      (host : String) (endpoint_port : ℕ) (version : String) (r : R) (s : Session M)
      → Stands Q s
      → Standing (connect link host endpoint_port version r s)
  unfolding connect
  connect-Standing host endpoint_port version r s h =
      opened-Standing _ _ (record { entries = tt; pending = h.pending })

  answer-Standing :
      (q : Request) (r : R) (s : Session M) → Stands Q s → Standing (answer link q r s)
  unfolding answer reconnect disconnect cancel query_stats apply_port get_capture control
  answer-Standing (connects host endpoint_port version) r s h =
      connect-Standing host endpoint_port version r s h
  answer-Standing reconnects r s h = connect-Standing _ _ _ r s h
  answer-Standing disconnects r s h = stand _ _ _ (clear-Stands _ s h)
  answer-Standing cancels r s h = stand _ _ _ (clear-Stands _ s h)
  answer-Standing queries_stats r s h =
      perform-Standing _ r s (λ r' s' k. stats_answer-Standing _ _ (absorb-Stands _ s' k)) h
  answer-Standing (applies id) r s h =
      perform-Standing _ r s
        (λ r' s' k. Found-Standing id _ r' s' (lookup-AllEntries Q id s'.ports k.entries) k) h
  answer-Standing (captures id) r s h =
      perform-Standing _ r s
        (λ r' s' k.
          if_cases Standing (not (has_key id s'.ports)) _ _ (λ e. unknown-Standing r' s' k)
            (λ e. capture_known-Standing id _ _ (absorb-Stands _ s' k)))
        h
  answer-Standing (controls c id) r s h =
      perform-Standing _ r s
        (λ r' s' k.
          if_cases Standing (not (has_key id s'.ports)) _ _ (λ e. unknown-Standing r' s' k)
            (λ e. control_known-Standing c id _ _ (absorb-Stands _ s' k)))
        h

  pub answer_all-Stands :
      (qs : List Request) (r : R) (s : Session M) → Stands Q s → Stands Q (answer_all link qs r s).1
  unfolding answer_all
  answer_all-Stands [] r s h = h
  answer_all-Stands (q ∷ qs) r s h = answer_all-Stands qs _ _ (answer-Standing q r s h).stands
