-- ===== src/Rpc/Server/Connection/Gate.antt =====
-- The version gate: no method but number 15 is called on a connection that is not compatible.
use mathlib.Core.Bool.{false≢true}
use ostinato.Base.{
  ℕ, zero, suc, ◌-◌, ◌*◌, ◌^◌, min, u32, ◌≡◌, refl, sym, ◌∙◌, ◌⊎◌, inl, inr, Bool, true, false, not,
  ◌&&◌, ◌||◌, List, [], ◌∷◌, arith, length, leb, ltb, ◌==◌, if_cases, Option-cases,
}
use ostinato.Rpc.Wire.{
  Frame, bytes, encode_header, encode_frame, push, pop_frame, request, response, error, binary_blob,
}
use ostinato.Rpc.Server.Controller.{
  Controller, controller_run, new_controller, binary_blob_size, read_binary_blob,
}
use ostinato.Rpc.Server.Connection.{
  Connection, Response, Service, Received, retried, hung_up, got, close_socket, send_on,
  write_frame, report, send_source, send_blob, write_blob, reply, conclude, dispatch, process,
  process_frames, receive, finish, run,
}

module _ {S : Type 0} where
  -- A write changes what the peer can read, and no flag and no state of the service.
  abbrev Same : Connection S → Connection S → Type 0
  Same c c' =
      (c'.compatible ≡ c.compatible)
      × (c'.notifications ≡ c.notifications)
      × (c'.service_state ≡ c.service_state)

  Same-refl : (c : Connection S) → Same c c
  Same-refl c = (refl, refl, refl)

  Same-trans : (c d e : Connection S) → Same c d → Same d e → Same c e
  Same-trans c d e h k = (k.0 ∙ h.0, k.1 ∙ h.1, k.2 ∙ h.2)

  send_on-Same : (w : List ℕ) (c : Connection S) → Same c (send_on c w).1
  unfolding send_on
  send_on-Same w c = Same-refl c

  write_frame-Same :
      (type id : ℕ) (payload : List ℕ) (c : Connection S) → Same c (write_frame type id payload c).1
  unfolding write_frame encode_frame send_on
  write_frame-Same type id payload c = ground arith

  report-Same : (id : ℕ) (text : List ℕ) (d : Bool) (c : Connection S) → Same c (report id text d c)
  unfolding report close_socket
  report-Same id text true c = write_frame-Same 4 id text c
  report-Same id text false c = write_frame-Same 4 id text c

  send_source-Same :
      (fuel remaining : ℕ) (ctl : Controller) (c : Connection S)
      → Same c (send_source fuel remaining ctl c).2
  unfolding send_source
  send_source-Same zero remaining ctl c = Same-refl c
  send_source-Same (suc fuel) remaining ctl c =
      let r = read_binary_blob ctl (min remaining (64 * 1024)) in
      let w = r.copied in
      let Goal = λ (t : Bool × Controller × Connection S). Same c t.2 in
      let rest = send_source fuel (remaining - length w) r.controller (send_on c w).1 in
      if_cases Goal (remaining == 0) (true, ctl, c) _ (λ h. Same-refl c)
        λ h.
          if_cases Goal (not r.result || length w == 0 || ltb remaining (length w))
            (false, r.controller, c) _ (λ h. Same-refl c)
            λ h.
              if_cases Goal (send_on c w).0 rest (false, r.controller, (send_on c w).1)
                (λ h.
                  Same-trans c (send_on c w).1 rest.2 (send_on-Same w c)
                    (send_source-Same fuel (remaining - length w) r.controller (send_on c w).1))
                (λ h. send_on-Same w c)

  send_blob-Same :
      (data' : List ℕ) (size : ℕ) (ctl : Controller) (c : Connection S)
      → Same c (send_blob data' size ctl c).2
  unfolding send_blob
  send_blob-Same [] size ctl c = send_source-Same size size ctl c
  send_blob-Same (b ∷ bs) size ctl c = send_on-Same (b ∷ bs) c

  write_blob-Same : (id : ℕ) (ctl : Controller) (c : Connection S) → Same c (write_blob id ctl c).2
  unfolding write_blob
  write_blob-Same id ctl c =
      let size = binary_blob_size ctl in
      let h = encode_header binary_blob id (u32 size) in
      let Goal = λ (t : Bool × Controller × Connection S). Same c t.2 in
      let rest = send_blob ctl.blob size ctl (send_on c h).1 in
      if_cases Goal (ltb c.parser.max_payload size || ltb (2 ^ 32 - 1) size) (false, ctl, c) _
        (λ k. Same-refl c)
        λ k.
          if_cases Goal (not c.open') (false, ctl, c) _ (λ k. Same-refl c)
            λ k.
              if_cases Goal (send_on c h).0 rest (false, ctl, (send_on c h).1)
                (λ k.
                  Same-trans c (send_on c h).1 rest.2 (send_on-Same h c)
                    (send_blob-Same ctl.blob size ctl (send_on c h).1))
                (λ k. send_on-Same h c)

  reply-Same :
      (id : ℕ) (ctl : Controller) (resp : Response) (c : Connection S)
      → Same c (reply id ctl resp c).1
  unfolding reply close_socket
  reply-Same id ctl resp c =
      let Goal = λ (t : Bool × Connection S). Same c t.1 in
      let wrote = write_blob id ctl c in
      if_cases Goal ctl.failed _ _ (λ h. write_frame-Same error id ctl.error_text c)
        λ h.
          if_cases Goal ctl.has_blob _ _
            (λ h.
              if_cases Goal (ltb c.parser.max_payload (binary_blob_size ctl)) _ _
                (λ h. report-Same id _ false c)
                λ h.
                  if_cases Goal wrote.0 (true, wrote.2) (false, close_socket wrote.2)
                    (λ h. write_blob-Same id ctl c) (λ h. write_blob-Same id ctl c))
            λ h.
              if_cases Goal (not resp.initialized) _ _ (λ h. report-Same id _ false c)
                λ h. write_frame-Same response id resp.payload c

  conclude-state :
      (id : ℕ) (ctl : Controller) (c : Connection S)
      → ((conclude id ctl c).1.service_state ≡ c.service_state)
        × (c.compatible ≡ true → (conclude id ctl c).1.compatible ≡ true)
  unfolding conclude close_socket
  conclude-state id ctl c = ground arith

module _ {S : Type 0} (svc : Service S) where
  -- The states that calls of method 15 alone lead to.
  pub data OnlyFifteen (s : S) : S → Type 0 where
    here : OnlyFifteen s s
    call :
        {t : S} (id : ℕ) (payload : List ℕ)
        → OnlyFifteen s t
        → id ≡ 15
        → OnlyFifteen s (svc.call_method t id payload).0

  Only_trans : {s t u : S} → OnlyFifteen s t → OnlyFifteen t u → OnlyFifteen s u
  Only_trans h here = h
  Only_trans h (call id payload k e) = call id payload (Only_trans h k) e

  -- From `c` to `c'` the connection stayed or became compatible, or only method 15 was called.
  record Gated (c c' : Connection S) : Type 0 where
    passed : (c'.compatible ≡ true) ⊎ OnlyFifteen c.service_state c'.service_state
    kept : c.compatible ≡ true → c'.compatible ≡ true

  Gated-Same : (c c' : Connection S) → Same c c' → Gated c c'
  Gated-Same c c' (e, n, s) = record { passed = inr (rw s here); kept = λ h. e ∙ h }

  Gated-trans : (c d e : Connection S) → Gated c d → Gated d e → Gated c e
  Gated-trans c d e h k = record {
    passed = joined h.passed k.passed;
    kept = λ t. k.kept (h.kept t);
  }
    where
      joined :
          (d.compatible ≡ true) ⊎ OnlyFifteen c.service_state d.service_state
          → (e.compatible ≡ true) ⊎ OnlyFifteen d.service_state e.service_state
          → (e.compatible ≡ true) ⊎ OnlyFifteen c.service_state e.service_state
      joined (inl t) b = inl (k.kept t)
      joined (inr o) (inl t) = inl t
      joined (inr o) (inr q) = inr (Only_trans o q)

  Gated-call :
      (id : ℕ) (payload : List ℕ) (c : Connection S)
      → (c.compatible ≡ true) ⊎ (id ≡ 15)
      → Gated c (record c { service_state = (svc.call_method c.service_state id payload).0 })
  Gated-call id payload c (inl e) = record { passed = inl e; kept = λ h. h }
  Gated-call id payload c (inr e) = record { passed = inr (call id payload here e); kept = λ h. h }

  conclude-Gated : (id : ℕ) (ctl : Controller) (c : Connection S) → Gated c (conclude id ctl c).1
  conclude-Gated id ctl c =
      let (s, kept) = conclude-state id ctl c in record { passed = inr (rw s here); kept = kept }

  dispatch-Gated :
      (id : ℕ) (payload : List ℕ) (c : Connection S)
      → (c.compatible ≡ true) ⊎ (id ≡ 15)
      → Gated c (dispatch svc id payload c).1
  unfolding dispatch
  dispatch-Gated id payload c may =
      let (s, calls, resp) = svc.call_method c.service_state id payload in
      let ctl = controller_run new_controller calls in
      let c' : Connection S = record c { service_state = s } in
      let r = reply id ctl resp c' in
      let called = Gated-call id payload c may in
      let replied = Gated-trans c c' r.1 called (Gated-Same c' r.1 (reply-Same id ctl resp c')) in
      if_cases (λ (t : Bool × Connection S). Gated c t.1) r.0 (conclude id ctl r.1) (false, r.1)
        (λ h. Gated-trans c r.1 (conclude id ctl r.1).1 replied (conclude-Gated id ctl r.1))
        (λ h. replied)

  process-Gated : (f : Frame) (c : Connection S) → Gated c (process svc f c).1
  unfolding process
  process-Gated f c =
      let id = f.header.method in
      let Goal = λ (t : Bool × Connection S). Gated c t.1 in
      let told =
        λ (text : List ℕ) (d : Bool). Gated-Same c (report id text d c) (report-Same id text d c) in
      if_cases Goal (not (f.header.type == request)) _ _ (λ h. told _ false)
        λ h.
          if_cases Goal (not c.compatible && not (id == 15)) _ _ (λ h. told _ true)
            λ may.
              if_cases Goal (not svc.has_descriptor || leb svc.method_count id) _ _
                (λ h. told _ false)
                λ h. elim (Option-cases (svc.check_request id f.payload)) [
                  | inl e ↦ rw e (dispatch-Gated id f.payload c (ground arith))
                  | inr (text, e) ↦ rw e (told _ false)
                ]

  process_frames-Gated : (fuel : ℕ) (c : Connection S) → Gated c (process_frames svc fuel c).1
  unfolding process_frames
  process_frames-Gated zero c = Gated-Same c c (Same-refl c)
  process_frames-Gated (suc fuel) c = elim (Option-cases (pop_frame c.parser)) [
    | inl e ↦ rw (e, process_frames) (Gated-Same c c (Same-refl c))
    | inr ((f, parser), e) ↦
        let c' : Connection S = record c { parser = parser } in
        let r = process svc f c' in
        let first =
          Gated-trans c c' r.1 (Gated-Same c c' (refl, refl, refl)) (process-Gated f c') in
        rw (e, process_frames)
          (if_cases (λ (t : Bool × Connection S). Gated c t.1) r.0 (process_frames svc fuel r.1)
            (false, r.1)
            (λ h.
              Gated-trans c r.1 (process_frames svc fuel r.1).1 first
                (process_frames-Gated fuel r.1))
            (λ h. first))
  ]

  receive-Gated : (event : Received) (c : Connection S) → Gated c (receive svc event c).1
  unfolding receive
  receive-Gated retried c = Gated-Same c c (Same-refl c)
  receive-Gated hung_up c = Gated-Same c c (Same-refl c)
  receive-Gated (got data') c =
      let p = push c.parser (bytes data') in
      let c' : Connection S = record c { parser = p } in
      let same = Gated-Same c c' (refl, refl, refl) in
      if_cases (λ (t : Bool × Connection S). Gated c t.1) p.failed (false, c') _ (λ h. same)
        (λ h.
          Gated-trans c c' (process_frames svc (length p.frames) c').1 same
            (process_frames-Gated (length p.frames) c'))

  finish-Gated : (c d : Connection S) → Gated c d → Gated c (finish svc d)
  unfolding finish close_socket
  finish-Gated c d h = Gated-trans c d _ h (Gated-Same d (finish svc d) (refl, refl, refl))

  run-Gated : (events : List Received) (c : Connection S) → Gated c (run svc events c)
  unfolding run
  run-Gated [] c =
      let same = Gated-Same c c (Same-refl c) in
      if_cases (λ t. Gated c t) c.open' c (finish svc c) (λ h. same) (λ h. finish-Gated c c same)
  run-Gated (event ∷ later) c =
      let r = receive svc event c in
      let first = receive-Gated event c in
      if_cases (λ t. Gated c t) (not c.open') (finish svc c) _
        (λ h. finish-Gated c c (Gated-Same c c (Same-refl c)))
        λ h.
          if_cases (λ t. Gated c t) r.0 (run svc later r.1) (finish svc r.1)
            (λ h. Gated-trans c r.1 (run svc later r.1) first (run-Gated later r.1))
            (λ h. finish-Gated c r.1 first)

  -- Whatever the peer sends and however it arrives: as long as the connection has not become
  -- compatible, the service's state is one that calls of method 15 alone lead to.
  pub run-OnlyFifteen :
      (events : List Received) (c : Connection S)
      → (run svc events c).compatible ≡ false
      → OnlyFifteen c.service_state (run svc events c).service_state
  run-OnlyFifteen events c pending = decided (run-Gated events c).passed
    where
      decided :
          ((run svc events c).compatible ≡ true)
            ⊎ OnlyFifteen c.service_state (run svc events c).service_state
          → OnlyFifteen c.service_state (run svc events c).service_state
      decided (inl e) = absurd (false≢true (sym pending ∙ e))
      decided (inr o) = o
