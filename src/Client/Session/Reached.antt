-- ===== src/Client/Session/Reached.antt =====
-- Outcomes without a fault, for `ClientSession::apply` of client/core/client_session.cpp.
use Prim.Native.String.{String}
use ostinato.Base.{
  ℕ, ◌≡◌, refl, ap, subst, sym, ◌∙◌, Bool, true, false, none, some, List, [], ◌∷◌, ◌++◌,
}
use ostinato.Client.PortState.{Messages, PortState, ApplyOperation, push_if}
use ostinato.Client.Session.{
  Agent, Answer, answers, Ack, Outcome, acknowledged, ack_fault, operate, followed, run_plan,
}
use ostinato.Client.Session.Serves.{Done}

no_fault : (name : String) (a : Ack) → a.success ≡ true → ack_fault name (answers a) ≡ none
unfolding ack_fault
no_fault name a h = rw h refl

module _ {M : Messages} {R : Type 0} (agent : Agent M R) where
  open M use {Stream, DeviceGroup, stream_id, device_group_id}

  -- An outcome without a fault, of which this holds.
  pub record Reached (P : R → PortState M → Type 0) (t : Outcome agent) : Type 0 where
    pub quiet : t.2 ≡ none
    pub holds : P t.0 t.1

  pub Reached-followed :
      (P Q : R → PortState M → Type 0) (t : Outcome agent) (next : R → PortState M → Outcome agent)
      → Reached P t
      → ((r : R) (q : PortState M) → P r q → Reached Q (next r q))
      → Reached Q (followed agent t next)
  unfolding followed
  Reached-followed P Q (r, q, none) next h k = k r q h.holds
  Reached-followed P Q (r, q, some f) next h k = absurd cc

  pub Reached-acknowledged :
      (name : String) (P : R → PortState M → Type 0) (q : PortState M) (t : R × Answer Ack)
      → Done agent t
      → P t.0 q
      → Reached P (acknowledged agent name q t)
  unfolding acknowledged
  Reached-acknowledged name P q (r, a) done h = record {
    quiet = ap (ack_fault name) done.answer ∙ no_fault name done.ack done.success;
    holds = h;
  }

  followed-followed :
      (t : Outcome agent) (f g h : R → PortState M → Outcome agent)
      → ((r : R) (q : PortState M) → f r q ≡ followed agent (g r q) h)
      → followed agent t f ≡ followed agent (followed agent t g) h
  unfolding followed
  followed-followed (r, q, none) f g h e = e r q
  followed-followed (r, q, some fault) f g h e = refl

  pub run_plan-append :
      (id : ℕ) (xs ys : List ApplyOperation) (r : R) (q : PortState M)
      → run_plan agent id (xs ++ ys) r q
        ≡ followed agent (run_plan agent id xs r q) (λ r' q'. run_plan agent id ys r' q')
  unfolding run_plan followed
  run_plan-append id [] ys r q = refl
  run_plan-append id (x ∷ xs) ys r q =
      followed-followed (operate agent id x r q) _ _ _ (λ r' q'. run_plan-append id xs ys r' q')

  -- An operation that the plan may end with.
  pub Reached-push_if :
      (P Q : R → PortState M → Type 0) (id : ℕ) (test : Bool) (op : ApplyOperation)
      (plan : List ApplyOperation) (r : R) (q : PortState M)
      → Reached P (run_plan agent id plan r q)
      → ((r : R) (q : PortState M) → test ≡ true → P r q → Reached Q (operate agent id op r q))
      → ((r : R) (q : PortState M) → test ≡ false → P r q → Q r q)
      → Reached Q (run_plan agent id (push_if test op plan) r q)
  unfolding push_if run_plan
  Reached-push_if P Q id true op plan r q h with_op without =
      subst (Reached Q) (sym (run_plan-append id plan (op ∷ []) r q)) (
        Reached-followed P Q _ _ h (λ r' q' k.
          Reached-followed Q Q _ _ (with_op r' q' refl k)
            (λ r'' q'' j. record { quiet = refl; holds = j })))
  Reached-push_if P Q id false op plan r q h with_op without = record {
    quiet = h.quiet;
    holds = without _ _ refl h.holds;
  }
