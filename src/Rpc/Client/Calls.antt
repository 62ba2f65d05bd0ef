-- ===== src/Rpc/Client/Calls.antt =====
-- `TcpRpcClient::call` of rpc/pbrpc_client_core.cpp from its request to its response.
use ostinato.Base.{
  ℕ, zero, suc, ◌+◌, ◌≤◌, ◌≡◌, refl, ap, ap₂, sym, subst, ◌∙◌, Bool, true, not, List, [], ◌∷◌, ◌++◌,
  All, if_cases, length, take, drop, arith, append_assoc, append-nil, length-append, map,
  take-append-drop, length-drop,
}
use ostinato.Rpc.Wire.{Frame, Encoded, bytes, wire, encode_frame, request, encode_header}
use ostinato.Rpc.Wire.Codec.{length-encode_header}
use ostinato.Rpc.Wire.Frames.{Sends, nothing, send}
use ostinato.Client.Session.{Answer, fails, answers}
use ostinato.Rpc.Client.{
  Event, arrives, accepts, again, breaks, hangs_up, times_out, canceled_by, disconnected_by,
  RpcConnection, Method, coming, write_all, Called, replied, call_loop, written, encoded, call,
}
use ostinato.Rpc.Client.Reads.{is_quiet, stream}
use ostinato.Rpc.Client.Replies.{
  Responds, Notifies, note_of, wire_of, wire-IsFrame, call_loop-Finished,
}

-- How much the sends take, where nothing else happens.
unfoldable pub room : List Event → ℕ
room [] = 0
room (accepts zero ∷ es) = 0
room (accepts (suc n) ∷ es) = suc n + room es
room (again ∷ es) = room es
room (e ∷ es) = 0

-- The bytes are sent, and nothing else is changed but the events.
record Sent (data' : List ℕ) (c : RpcConnection) (t : RpcConnection × Answer {0} Unit)
    : Type 0 where
  answer : t.1 ≡ answers tt
  sent : t.0.sent ≡ c.sent ++ data'
  pending : t.0.pending ≡ c.pending
  events : t.0.events ≡ c.events
  attached : t.0.attached ≡ c.attached

write_all-Sent :
    (es : List Event) (data' : List ℕ) (c : RpcConnection)
    → length data' ≤ room es
    → Sent data' c (write_all es data' c)
unfolding write_all room
write_all-Sent es [] c h = record {
  answer = refl;
  sent = sym (append-nil c.sent);
  pending = refl;
  events = refl;
  attached = refl;
}
write_all-Sent [] (b ∷ bs) c h = absurd (omega arith)
write_all-Sent (accepts zero ∷ es) (b ∷ bs) c h = absurd (omega arith)
write_all-Sent (accepts (suc n) ∷ es) (b ∷ bs) c h =
    let d : RpcConnection = record c { sent = c.sent ++ b ∷ take n bs } in
    let rest = write_all-Sent es (drop n bs) d (ground (arith, length-drop n bs)) in
    record {
      answer = rest.answer;
      sent =
          rest.sent
          ∙ append_assoc c.sent (b ∷ take n bs) (drop n bs)
          ∙ ap (λ (xs : List ℕ). c.sent ++ b ∷ xs) (take-append-drop n bs);
      pending = rest.pending;
      events = rest.events;
      attached = rest.attached;
    }
write_all-Sent (again ∷ es) (b ∷ bs) c h = write_all-Sent es (b ∷ bs) c h
write_all-Sent (arrives xs ∷ es) (b ∷ bs) c h = absurd (omega arith)
write_all-Sent (breaks text ∷ es) (b ∷ bs) c h = absurd (omega arith)
write_all-Sent (hangs_up ∷ es) (b ∷ bs) c h = absurd (omega arith)
write_all-Sent (times_out ∷ es) (b ∷ bs) c h = absurd (omega arith)
write_all-Sent (canceled_by ∷ es) (b ∷ bs) c h = absurd (omega arith)
write_all-Sent (disconnected_by ∷ es) (b ∷ bs) c h = absurd (omega arith)

module _ {A : Type 0} (max : ℕ) (method : Method A) where
  frames_within :
      {fs : List Frame} {ws : List ℕ}
      → Sends fs ws
      → All (Notifies max method) fs
      → length fs ≤ length ws
  unfolding wire_of
  frames_within nothing all = omega arith
  frames_within (send g v {fs = gs} {ws = vs} ge sends) all = ground (
    arith,
    frames_within sends all.1,
    ap (λ (xs : List ℕ). length xs) (wire-IsFrame max g v all.0.0 ge),
    length-append v vs,
    length-append (encode_header g.header.type g.header.method g.header.length) g.payload,
    length-encode_header g.header.type g.header.method g.header.length,
  )

  -- What the server has for the call: notifications, the response, and what follows it.
  pub record Served (fs : List Frame) (f : Frame) (xs : List ℕ) (a : A) (c : RpcConnection)
      : Type 0 where
    pub ws : List ℕ
    pub w : List ℕ
    pub sends : Sends fs ws
    pub notifies : All (Notifies max method) fs
    pub responds : Responds max method f a
    pub encodes : encode_frame f.header.type f.header.method (bytes f.payload) ≡ wire w
    pub quiet : is_quiet c.events ≡ true
    pub comes : stream c ≡ ws ++ (w ++ xs)

  -- How a call ends that is answered.
  pub record Calls (r : List ℕ) (fs : List Frame) (a : A) (xs : List ℕ) (c : RpcConnection)
      (t : Called max method) : Type 0 where
    pub notices : t.1 ≡ map (note_of max method) fs
    pub answer : t.2 ≡ answers (replied a)
    pub rest : stream t.0 ≡ xs
    pub attached : t.0.attached ≡ true
    pub sent : t.0.sent ≡ c.sent ++ r

  written_answers :
      (t : RpcConnection × Answer {0} Unit)
      → t.1 ≡ answers tt
      → written max method t
        ≡ call_loop max method (suc (length t.0.pending + length (coming t.0.events))) [] t.0
  unfolding written
  written_answers (d, fails f) s = absurd cc
  written_answers (d, answers tt) s = refl

  call_up :
      (payload r : List ℕ) (c : RpcConnection)
      → c.attached ≡ true
      → encode_frame request method.index (bytes payload) ≡ wire r
      → call max method (bytes payload) c ≡ written max method (write_all c.send_events r c)
  unfolding call encoded
  call_up payload r c up e =
      if_cases (λ (t : Called max method). t ≡ written max method (write_all c.send_events r c))
        (not c.attached) _
        (encoded max method (encode_frame request method.index (bytes payload)) c)
        (λ down. absurd (ground arith)) (λ k. ap (λ (x : Encoded). encoded max method x c) e)

  -- A connection that is up, a request that fits a frame, sends that take it in whatever pieces, and a
  -- server that sends notifications and the response of the method: however the bytes are cut,
  -- the call gives the parsed response and the notifications in order, has sent the frame of the
  -- request and nothing else, keeps the connection and leaves what follows the response.
  pub call-Calls :
      (payload r : List ℕ) (fs : List Frame) (f : Frame) (xs : List ℕ) (a : A) (c : RpcConnection)
      → c.attached ≡ true
      → encode_frame request method.index (bytes payload) ≡ wire r
      → length r ≤ room c.send_events
      → Served fs f xs a c
      → Calls r fs a xs c (call max method (bytes payload) c)
  call-Calls payload r fs f xs a c up e enough h =
      let t = write_all c.send_events r c in
      let s = write_all-Sent c.send_events r c enough in
      let d = t.0 in
      let same : stream d ≡ stream c =
        ap₂ (λ (ps : List ℕ) (es : List Event). ps ++ coming es) s.pending s.events in
      let done =
        call_loop-Finished max method (suc (length d.pending + length (coming d.events))) [] f h.w
          xs a d
          (ground (
            arith,
            frames_within h.sends h.notifies,
            length-append d.pending (coming d.events),
            ap (λ (ys : List ℕ). length ys) (same ∙ h.comes),
            length-append h.ws (h.w ++ xs),
          ))
          h.sends h.notifies h.responds h.encodes (ap is_quiet s.events ∙ h.quiet)
          (same ∙ h.comes) in
      subst (Calls r fs a xs c) (sym (call_up payload r c up e ∙ written_answers t s.answer))
        (record {
          notices = done.notices;
          answer = done.answer;
          rest = done.rest;
          attached = ap (λ (u : Bool × List ℕ). u.0) done.same_side ∙ s.attached ∙ up;
          sent = ap (λ (u : Bool × List ℕ). u.1) done.same_side ∙ s.sent;
        })
