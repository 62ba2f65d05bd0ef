-- ===== src/Rpc/Server/Connection/Writes.antt =====
-- What reaches the peer when the connection writes.
use ostinato.Base.{
  ℕ, zero, suc, ◌-◌, ◌*◌, ◌^◌, ◌≤◌, ◌<◌, min, ◌≡◌, refl, sym, ap, subst, ◌∙◌, ◌⊎◌, inl, inr, Bool,
  true, false, not, ◌||◌, List, [], ◌∷◌, ◌++◌, append-nil, append_assoc, arith, u32, length, take,
  drop, replicate, length-append, length-replicate, take-append-drop, ltb, ◌==◌, if_cases, dec_lt,
}
use ostinato.Rpc.Wire.{encode_header, binary_blob, error}
use ostinato.Rpc.Wire.Frames.{encode_frame-wire, encode_frame_large}
use ostinato.Rpc.Server.Controller.{Controller, binary_blob_size, read_binary_blob}
use ostinato.Rpc.Server.Connection.{
  Sent, interrupted, broken, accepted, send_all, Connection, close_socket, send_on, write_frame,
  report, send_source, send_blob, write_blob,
}

-- `p` is what `w` begins with.
abbrev pub Prefix : List ℕ → List ℕ → Type 0
Prefix p w = (r : List ℕ) × (w ≡ p ++ r)

-- `sendAll` sends the first part of its data, and all of it if it returns true, however often it
-- is interrupted and however `send` cuts the data.
pub send_all-Prefix :
    (net : List Sent) (data' : List ℕ)
    → Prefix (send_all net data').sent data'
      × ((send_all net data').result ≡ true → (send_all net data').sent ≡ data')
unfolding send_all
send_all-Prefix net [] = (([], refl), λ h. refl)
send_all-Prefix [] (b ∷ bs) = ((b ∷ bs, refl), λ h. cc)
send_all-Prefix (interrupted ∷ net) (b ∷ bs) = send_all-Prefix net (b ∷ bs)
send_all-Prefix (broken ∷ net) (b ∷ bs) = ((b ∷ bs, refl), λ h. cc)
send_all-Prefix (accepted zero ∷ net) (b ∷ bs) = ((b ∷ bs, refl), λ h. cc)
send_all-Prefix (accepted (suc n) ∷ net) (b ∷ bs) =
    let ((r, e), full) = send_all-Prefix net (drop n bs) in
    (
      (
        r,
        ap (◌∷◌ b) (
            sym (take-append-drop n bs)
            ∙ ap (◌++◌ (take n bs)) e
            ∙ sym (append_assoc (take n bs) _ r)),
      ),
      λ h. ap (◌∷◌ b) (ap (◌++◌ (take n bs)) (full h) ∙ take-append-drop n bs),
    )

Prefix-length : (p w : List ℕ) → Prefix p w → length p ≤ length w
Prefix-length p w (r, e) = omega (arith, ap length e, length-append p r)

module _ {S : Type 0} where
  -- The peer can read a first part of `w` more than before.
  abbrev pub Appends : List ℕ → Connection S → Connection S → Type 0
  Appends w c c' = (p : List ℕ) × Prefix p w × (c'.out ≡ c.out ++ p)

  pub Appends-nothing : (w : List ℕ) (c c' : Connection S) → c'.out ≡ c.out → Appends w c c'
  Appends-nothing w c c' e = ([], (w, refl), e ∙ sym (append-nil c.out))

  pub send_on-Appends : (w : List ℕ) (c : Connection S) → Appends w c (send_on c w).1
  unfolding send_on
  send_on-Appends w c = ((send_all c.net w).sent, (send_all-Prefix c.net w).0, refl)

  send_on-all :
      (w : List ℕ) (c : Connection S) → (send_on c w).0 ≡ true → (send_on c w).1.out ≡ c.out ++ w
  unfolding send_on
  send_on-all w c h = ap (◌++◌ c.out) ((send_all-Prefix c.net w).1 h)

  -- The peer can read a first part, or all, of one frame more than before: its header gives the
  -- length of what follows it.
  pub record AppendsFrame (type id : ℕ) (c c' : Connection S) : Type 0 where
    pub payload : List ℕ
    pub fits : length payload < 2 ^ 32
    pub sent : Appends (encode_header type id (length payload) ++ payload) c c'

  AppendsFrame-nothing :
      (type id : ℕ) (c c' : Connection S) → c'.out ≡ c.out → AppendsFrame type id c c'
  AppendsFrame-nothing type id c c' e = record {
    payload = [];
    fits = omega arith;
    sent = Appends-nothing _ c c' e;
  }

  -- A frame, or the first part of one, or nothing where the socket is closed.
  pub write_frame-AppendsFrame :
      (type id : ℕ) (payload : List ℕ) (c : Connection S)
      → AppendsFrame type id c (write_frame type id payload c).1
  unfolding write_frame
  write_frame-AppendsFrame type id payload c = elim (dec_lt (length payload) (2 ^ 32)) [
    | no large ↦
        rw (encode_frame_large type id payload (omega arith), write_frame)
          (AppendsFrame-nothing type id c (record c { terminated = true }) refl)
    | yes fits ↦
        let w = encode_header type id (length payload) ++ payload in
        rw (encode_frame-wire type id payload fits, write_frame)
          (if_cases (λ t. AppendsFrame type id c t.1) c.open' (send_on c w) (false, c)
            (λ h. record { payload = payload; fits = fits; sent = send_on-Appends w c })
            (λ h. AppendsFrame-nothing type id c c refl))
  ]

  pub report-AppendsFrame :
      (id : ℕ) (text : List ℕ) (d : Bool) (c : Connection S)
      → AppendsFrame error id c (report id text d c)
  unfolding report close_socket
  report-AppendsFrame id text true c =
      let w = write_frame-AppendsFrame error id text c in
      record { payload = w.payload; fits = w.fits; sent = w.sent }
  report-AppendsFrame id text false c = write_frame-AppendsFrame error id text c

  -- A source sends at most what it announced.
  abbrev Grows : ℕ → Connection S → Connection S → Type 0
  Grows n c c' = (q : List ℕ) × (c'.out ≡ c.out ++ q) × (length q ≤ n)

  Grows-nothing : (n : ℕ) (c : Connection S) → Grows n c c
  Grows-nothing n c = ([], sym (append-nil c.out), omega arith)

  Grows-stop : (n : ℕ) (w : List ℕ) (c : Connection S) → length w ≤ n → Grows n c (send_on c w).1
  Grows-stop n w c h =
      let (p, prefix, e) = send_on-Appends w c in (p, e, omega (arith, Prefix-length p w prefix))

  Grows-more :
      (n : ℕ) (w : List ℕ) (c c' : Connection S)
      → length w ≤ n
      → (send_on c w).0 ≡ true
      → Grows (n - length w) (send_on c w).1 c'
      → Grows n c c'
  Grows-more n w c c' h full (q, e, small) = (
    w ++ q,
    e ∙ ap (λ (t : List ℕ). t ++ q) (send_on-all w c full) ∙ append_assoc c.out w q,
    omega (arith, length-append w q),
  )

  send_source-Grows :
      (fuel remaining : ℕ) (ctl : Controller) (c : Connection S)
      → Grows remaining c (send_source fuel remaining ctl c).2
  unfolding send_source
  send_source-Grows zero remaining ctl c = Grows-nothing remaining c
  send_source-Grows (suc fuel) remaining ctl c =
      let r = read_binary_blob ctl (min remaining (64 * 1024)) in
      let w = r.copied in
      let rest = send_source fuel (remaining - length w) r.controller (send_on c w).1 in
      if_cases (λ (t : Bool × Controller × Connection S). Grows remaining c t.2) (remaining == 0)
        (true, ctl, c) _ (λ h. Grows-nothing remaining c)
        λ h.
          if_cases (λ (t : Bool × Controller × Connection S). Grows remaining c t.2)
            (not r.result || length w == 0 || ltb remaining (length w)) (false, r.controller, c) _
            (λ k. Grows-nothing remaining c)
            λ k.
              if_cases (λ (t : Bool × Controller × Connection S). Grows remaining c t.2)
                (send_on c w).0 rest _
                (λ full.
                  Grows-more remaining w c rest.2 (ground arith) full
                    (send_source-Grows fuel (remaining - length w) r.controller (send_on c w).1))
                (λ part. Grows-stop remaining w c (ground arith))

  send_blob-Grows :
      (data' : List ℕ) (size : ℕ) (ctl : Controller) (c : Connection S)
      → (data' ≡ []) ⊎ (length data' ≡ size)
      → Grows size c (send_blob data' size ctl c).2
  unfolding send_blob
  send_blob-Grows [] size ctl c own = send_source-Grows size size ctl c
  send_blob-Grows (b ∷ bs) size ctl c (inl e) = absurd (omega (arith, ap length e))
  send_blob-Grows (b ∷ bs) size ctl c (inr e) = Grows-stop size (b ∷ bs) c (omega arith)

  -- The header announces `size` bytes; those that were sent can be filled up to `size`.
  Grows-Appends :
      (h : List ℕ) (size : ℕ) (c c' : Connection S)
      → (send_on c h).0 ≡ true
      → Grows size (send_on c h).1 c'
      → (payload : List ℕ) × (length payload ≡ size) × Appends (h ++ payload) c c'
  Grows-Appends h size c c' full (q, e, small) =
      let zeros = replicate (size - length q) zero in
      (
        q ++ zeros,
        omega (arith, length-append q zeros, length-replicate (size - length q) zero),
        (
          h ++ q,
          (zeros, sym (append_assoc h q zeros)),
          e ∙ ap (λ (t : List ℕ). t ++ q) (send_on-all h c full) ∙ append_assoc c.out h q,
        ),
      )

  announced :
      (id size : ℕ) (payload : List ℕ) (c c' : Connection S)
      → size < 2 ^ 32
      → length payload ≡ size
      → Appends (encode_header binary_blob id (u32 size) ++ payload) c c'
      → AppendsFrame binary_blob id c c'
  announced id size payload c c' small e sent =
      let same : u32 size ≡ length payload = omega arith in
      record {
        payload = payload;
        fits = omega arith;
        sent = subst (λ n. Appends (encode_header binary_blob id n ++ payload) c c') same sent;
      }

  Appends-more : (w z : List ℕ) (c c' : Connection S) → Appends w c c' → Appends (w ++ z) c c'
  Appends-more w z c c' (p, (r, e), sent) =
      (p, (r ++ z, ap (λ (t : List ℕ). t ++ z) e ∙ append_assoc p r z), sent)

  -- The announced header, then at most as many bytes as it announces.
  pub write_blob-AppendsFrame :
      (id : ℕ) (ctl : Controller) (c : Connection S)
      → (ctl.blob ≡ []) ⊎ (length ctl.blob ≡ binary_blob_size ctl)
      → AppendsFrame binary_blob id c (write_blob id ctl c).2
  unfolding write_blob
  write_blob-AppendsFrame id ctl c own =
      let size = binary_blob_size ctl in
      let h = encode_header binary_blob id (u32 size) in
      let Goal = λ (t : Bool × Controller × Connection S). AppendsFrame binary_blob id c t.2 in
      if_cases Goal (ltb c.parser.max_payload size || ltb (2 ^ 32 - 1) size) (false, ctl, c) _
        (λ big. AppendsFrame-nothing binary_blob id c c refl)
        λ within.
          if_cases Goal (not c.open') (false, ctl, c) _
            (λ shut. AppendsFrame-nothing binary_blob id c c refl)
            λ opened.
              if_cases Goal (send_on c h).0 _ (false, ctl, (send_on c h).1)
                (λ full.
                  let done = (send_blob ctl.blob size ctl (send_on c h).1).2 in
                  let rest = send_blob-Grows ctl.blob size ctl (send_on c h).1 own in
                  let (payload, e, sent) = Grows-Appends h size c done full rest in
                  announced id size payload c done (ground arith) e sent)
                λ part.
                  announced id size (replicate size 0) c (send_on c h).1 (ground arith)
                    (length-replicate size zero)
                    (Appends-more h (replicate size 0) c (send_on c h).1 (send_on-Appends h c))
