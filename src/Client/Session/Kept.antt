-- ===== src/Client/Session/Kept.antt =====
-- What the calls of the plan of `ClientSession::apply`, client/core/client_session.cpp, leave as it was.
use Prim.Native.String.{String}
use ostinato.Base.{ℕ, ◌≡◌, refl, ◌∙◌, none, some, List, [], ◌∷◌, if_cases}
use ostinato.Client.PortState.{
  Messages, PortState, ApplyOperation, delete_device_groups, add_device_groups,
  modify_device_groups, refresh_devices, delete_streams, add_streams, modify_streams,
  resolve_neighbors, build, hydrate_devices,
}
use ostinato.Client.Session.{
  Agent, Answer, fails, answers, Ack, is_port, Outcome, acknowledged, refreshed, operate, followed,
  run_plan,
}

module _ {M : Messages} {R : Type 0} (agent : Agent M R) where
  -- What the user wants, and what is known to be left to do, is as it was.
  pub record Kept (p q : PortState M) : Type 0 where
    pub streams : q.streams ≡ p.streams
    pub groups : q.groups ≡ p.groups
    pub config : q.config ≡ p.config
    pub modified : q.sync.modified_device_groups ≡ p.sync.modified_device_groups
    pub dirty : q.sync.dirty ≡ p.sync.dirty

  pub Kept-refl : (p : PortState M) → Kept p p
  Kept-refl p = record {
    streams = refl;
    groups = refl;
    config = refl;
    modified = refl;
    dirty = refl;
  }

  pub Kept-trans : (p q t : PortState M) → Kept p q → Kept q t → Kept p t
  Kept-trans p q t h k = record {
    streams = k.streams ∙ h.streams;
    groups = k.groups ∙ h.groups;
    config = k.config ∙ h.config;
    modified = k.modified ∙ h.modified;
    dirty = k.dirty ∙ h.dirty;
  }

  acknowledged-Kept :
      (name : String) (p : PortState M) (a : R × Answer Ack)
      → Kept p (acknowledged agent name p a).1
  unfolding acknowledged
  acknowledged-Kept name p (r, a) = Kept-refl p

  refreshed-Kept :
      (id : ℕ) (p : PortState M) (a : R × Answer M.PortDeviceList)
      → Kept p (refreshed agent id p a).1
  unfolding refreshed hydrate_devices
  refreshed-Kept id p (r, fails f) = Kept-refl p
  refreshed-Kept id p (r, answers devices) =
      if_cases (λ (t : Outcome agent). Kept p t.1) (is_port id (agent.device_list_port devices))
        (r, record p { devices = devices }, none) _
        (λ e. record {
          streams = refl;
          groups = refl;
          config = refl;
          modified = refl;
          dirty = refl;
        })
        (λ e. Kept-refl p)

  operate-Kept :
      (id : ℕ) (op : ApplyOperation) (r : R) (p : PortState M) → Kept p (operate agent id op r p).1
  unfolding operate
  operate-Kept id delete_device_groups r p = acknowledged-Kept _ p _
  operate-Kept id add_device_groups r p = acknowledged-Kept _ p _
  operate-Kept id modify_device_groups r p = acknowledged-Kept _ p _
  operate-Kept id refresh_devices r p = refreshed-Kept id p _
  operate-Kept id delete_streams r p = acknowledged-Kept _ p _
  operate-Kept id add_streams r p = acknowledged-Kept _ p _
  operate-Kept id modify_streams r p = acknowledged-Kept _ p _
  operate-Kept id resolve_neighbors r p = acknowledged-Kept _ p _
  operate-Kept id build r p = acknowledged-Kept _ p _

  followed-Kept :
      (p : PortState M) (t : Outcome agent) (next : R → PortState M → Outcome agent)
      → Kept p t.1
      → ((r : R) (q : PortState M) → Kept q (next r q).1)
      → Kept p (followed agent t next).1
  unfolding followed
  followed-Kept p (r, q, none) next h k = Kept-trans p q (next r q).1 h (k r q)
  followed-Kept p (r, q, some f) next h k = h

  pub run_plan-Kept :
      (id : ℕ) (ops : List ApplyOperation) (r : R) (p : PortState M)
      → Kept p (run_plan agent id ops r p).1
  unfolding run_plan
  run_plan-Kept id [] r p = Kept-refl p
  run_plan-Kept id (op ∷ ops) r p =
      followed-Kept p (operate agent id op r p) (λ r' q. run_plan agent id ops r' q)
        (operate-Kept id op r p) (λ r' q. run_plan-Kept id ops r' q)
