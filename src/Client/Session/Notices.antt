-- ===== src/Client/Session/Notices.antt =====
-- `ClientSession::processNotifications` of client/core/client_session.cpp: what it does with the
-- pending ids, when it succeeds and when it fails.
use ostinato.Base.{
  ℕ, get_elem?, ◌≡◌, ◌⊎◌, true, false, Option, none, some, List, [], map, ◌==◌, if◌then◌else◌,
}
use ostinato.Base.OrderedSet.{contains}
use ostinato.Base.OrderedMap.{lookup}
use ostinato.Client.PortState.{Messages, PortState, is_empty, hydrate_config}
use ostinato.Client.Session.{Answer, fails, answers, exact_ids, protocol_fault}
use ostinato.Client.Session.Operations.{Link, Session, Result, notified_all}

module _ {M : Messages} {R : Type 0} (link : Link M R) where
  open M use {Port}

  -- What is found under an id has a configuration of the answer with this id, or is as before
  -- where the answer has none.
  pub data Renewed (k : ℕ) (configs : List Port) (before after : Option (PortState M))
      : Type 0 where
    as_before :
        contains k (map link.agent.port_config_id configs) ≡ false
        → after ≡ before
        → Renewed k configs before after
    unknown : before ≡ none → after ≡ none → Renewed k configs before after
    renewed :
        (p : PortState M) (config : Port) (i : ℕ)
        → get_elem? configs i ≡ some config
        → link.agent.port_config_id config ≡ k
        → before ≡ some p
        → after ≡ some (hydrate_config M config p)
        → Renewed k configs before after

  -- What the first configuration makes of it.
  hydrated : ℕ → Port → Option (PortState M) → Option (PortState M)
  hydrated k config none = none
  hydrated k config (some p) =
      if k == link.agent.port_config_id config then some (hydrate_config M config p) else some p

  -- The ports as before, and no pending id lost.
  pub record Waits (s s' : Session M) : Type 0 where
    pub ports : s'.ports ≡ s.ports
    pub pending : (k : ℕ) → contains k s.pending ≡ true → contains k s'.pending ≡ true

  -- These configurations, which have the pending ids, are taken over, and nothing is pending but
  -- what came in during the call.
  pub record Takes (configs : List Port) (news : List (ℕ × List ℕ)) (s s' : Session M)
      : Type 0 where
    pub ids : (k : ℕ) → contains k (map link.agent.port_config_id configs) ≡ contains k s.pending
    pub ports : (k : ℕ) → Renewed k configs (lookup k s.ports) (lookup k s'.ports)
    pub pending : s'.pending ≡ notified_all link news []

  -- What becomes of the session by the answer: a fault is given back, configurations that have not
  -- exactly the pending ids are one, and others are taken over.
  abbrev pub Decided : List (ℕ × List ℕ) → Session M → Result link → Answer (List Port) → Type 0
  Decided news s t (fails f) = (t.2 ≡ some f) × Waits s t.1
  Decided news s t (answers configs) =
      let same = exact_ids (map link.agent.port_config_id configs) s.pending in
      ((same ≡ true) × (t.2 ≡ none) × Takes configs news s t.1)
      ⊎ ((same ≡ false)
          × (t.2 ≡ protocol_fault link.agent "notification configuration closure differs")
          × Waits s t.1)

  -- What `processNotifications` makes of a session: nothing where no id is pending, else what the
  -- answer to the request for the pending ids decides.
  pub record Processed (r : R) (s : Session M) (t : Result link) : Type 0 where
    pub idle : is_empty s.pending ≡ true → t ≡ (r, s, none)
    pub decided :
        is_empty s.pending ≡ false
        → let (r', answer) = link.agent.get_port_config r s.pending in
          Decided (link.received r').1 s t answer
