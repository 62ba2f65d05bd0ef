-- ===== src/Rpc/Wire/Frames.antt =====
-- The frames that `encodeFrame` writes and those that `FrameParser` takes out of the stream.
use Prim.Native.String.{String}
use ostinato.Base.{
  ℕ, ◌+◌, ◌^◌, ◌≤◌, ◌<◌, ◌≡◌, refl, sym, ap, subst, ◌∙◌, true, false, Option, none, List, [], ◌∷◌,
  ◌++◌, append_assoc, arith, All, All-drop, length, take, drop, length-append, length-take,
  length-drop, take-append-drop, take-append-take-drop, take-append_self, drop-append_self,
}
use ostinato.Rpc.Wire.{
  Frame, FrameParser, bytes, wire, throws, length_error, encode_header, read_header, encode_frame,
  is_valid_message_type, push,
}
use ostinato.Rpc.Wire.Codec.{
  IsByte, IsHeader, read_header-encode_header, length-encode_header, encode_header-read_header,
}
use ostinato.Rpc.Wire.Scan.{Scan, short, bad_type, too_long, partial, frame, first_frame}
use ostinato.Rpc.Wire.Stream.{push-Pushed, push_of_Scan, taken, taken_rest, taken_frames}

-- A frame whose header names a message type, fits its widths, and gives the payload's length,
-- which is within the maximum.
pub record IsFrame (max : ℕ) (f : Frame) : Type 0 where
  pub valid : is_valid_message_type f.header.type ≡ true
  pub fits : IsHeader f.header
  pub sized : f.header.length ≡ length f.payload
  pub within : f.header.length ≤ max

-- What one call of `encodeFrame` for each frame puts on the wire.
pub data Sends : List Frame → List ℕ → Type 0 where
  nothing : Sends [] []
  send :
      (f : Frame) (w : List ℕ) {fs : List Frame} {ws : List ℕ}
      → encode_frame f.header.type f.header.method (bytes f.payload) ≡ wire w
      → Sends fs ws
      → Sends (f ∷ fs) (w ++ ws)

pub encode_frame-wire :
    (t m : ℕ) (payload : List ℕ)
    → length payload < 2 ^ 32
    → encode_frame t m (bytes payload) ≡ wire (encode_header t m (length payload) ++ payload)
unfolding encode_frame
encode_frame-wire t m payload h = ground arith

pub encode_frame_large :
    (t m : ℕ) (payload : List ℕ)
    → 2 ^ 32 ≤ length payload
    → encode_frame t m (bytes payload) ≡ throws length_error
unfolding encode_frame
encode_frame_large t m payload h = ground arith

wire_injective : {v w : List ℕ} → wire v ≡ wire w → v ≡ w
wire_injective e = cc

sent_bytes :
    (max : ℕ) (f : Frame) (w : List ℕ)
    → IsFrame max f
    → encode_frame f.header.type f.header.method (bytes f.payload) ≡ wire w
    → encode_header f.header.type f.header.method f.header.length ++ f.payload ≡ w
sent_bytes max f w ok e = wire_injective (
    rw ok.sized (sym (encode_frame-wire f.header.type f.header.method f.payload (omega arith))) ∙ e)

-- The bytes of one frame, whatever follows them, begin with this frame.
module _ (f : Frame) (ws : List ℕ) (max : ℕ) (ok : IsFrame max f) where
  abbrev head : List ℕ
  head = encode_header f.header.type f.header.method f.header.length

  abbrev stream : List ℕ
  stream = (head ++ f.payload) ++ ws

  length-head : length head ≡ 8
  length-head = length-encode_header f.header.type f.header.method f.header.length

  length-stream : length stream ≡ 8 + f.header.length + length ws
  length-stream = omega (
    arith,
    length-append (head ++ f.payload) ws,
    length-append head f.payload,
    length-head,
    ok.sized,
  )

  read_header-stream : read_header stream ≡ f.header
  read_header-stream =
      rw append_assoc (read_header-encode_header f.header (f.payload ++ ws) ok.fits)

  first_frame-stream : first_frame stream ≡ f
  first_frame-stream = rw read_header-stream (
      rw append_assoc (
        rw (drop-append_self 8 head (f.payload ++ ws) length-head)
          (rw (take-append_self f.header.length f.payload ws (sym ok.sized)) refl)))

  drop-stream : drop (8 + f.header.length) stream ≡ ws
  drop-stream =
      drop-append_self (8 + f.header.length) (head ++ f.payload) ws
        (omega (arith, length-append head f.payload, length-head, ok.sized))

  Scan-stream :
      (fs : List Frame) (r : List ℕ) (v : Option String)
      → Scan max ws fs r v
      → Scan max stream (f ∷ fs) r v
  Scan-stream fs r v rest =
      subst (λ t. Scan max stream (t ∷ fs) r v) first_frame-stream
        (frame stream (rw read_header-stream ok.valid) (rw read_header-stream ok.within)
          (rw read_header-stream (omega (arith, length-stream)))
          (rw read_header-stream (rw drop-stream rest)))

Sends-Scan :
    {fs : List Frame} {ws : List ℕ} (max : ℕ)
    → Sends fs ws
    → All (IsFrame max) fs
    → Scan max ws fs [] none
Sends-Scan max nothing ok = short [] (omega arith)
Sends-Scan max (send f w {fs} {ws} e rest) ok =
    subst (λ t. Scan max (t ++ ws) (f ∷ fs) [] none) (sent_bytes max f w ok.0 e)
      (Scan-stream f ws max ok.0 fs [] none (Sends-Scan max rest ok.1))

-- What `encodeFrame` writes for a list of frames arrives as these frames, in this order, behind
-- those that wait already, and leaves no bytes over: for every parser that has not failed and has
-- an empty buffer, and frames that it accepts.
pub push-Sends :
    (p : FrameParser) {fs : List Frame} {ws : List ℕ}
    → p.failed ≡ false
    → p.buffer ≡ []
    → All (IsFrame p.max_payload) fs
    → Sends fs ws
    → push p (bytes ws) ≡ record p { frames = p.frames ++ fs }
unfolding taken
push-Sends p {fs} {ws} fresh empty ok sends =
    push_of_Scan p ws fs [] none fresh (
      subst (λ t. Scan p.max_payload (t ++ ws) fs [] none) (sym empty)
        (Sends-Scan p.max_payload sends ok))
    ∙ ap (λ (b : List ℕ). record p { buffer = b; frames = p.frames ++ fs }) (sym empty)

module _ (max : ℕ) (b : List ℕ) (whole : 8 + (read_header b).length ≤ length b) where
  length-payload : length (first_frame b).payload ≡ (read_header b).length
  length-payload = omega (arith, length-take (read_header b).length (drop 8 b), length-drop 8 b)

  first_frame-IsFrame :
      is_valid_message_type (read_header b).type ≡ true
      → (read_header b).length ≤ max
      → All IsByte b
      → IsFrame max (first_frame b)
  first_frame-IsFrame valid fits all = record {
    valid = valid;
    fits = (encode_header-read_header b (omega arith) all).0;
    sized = sym length-payload;
    within = fits;
  }

  encode_frame-first_frame :
      All IsByte b
      → encode_frame (read_header b).type (read_header b).method (bytes (first_frame b).payload)
        ≡ wire (take (8 + (read_header b).length) b)
  encode_frame-first_frame all =
      let (fits, same) = encode_header-read_header b (omega arith) all in
      encode_frame-wire (read_header b).type (read_header b).method (first_frame b).payload
        (omega (arith, length-payload, fits.2))
      ∙ ap wire (
          rw length-payload (
            ap (λ t. t ++ (first_frame b).payload) same
            ∙ take-append-take-drop 8 (read_header b).length b))

-- Conversely, the bytes that stand in front of the rest are those of the frames.
Scan-Sends :
    {max : ℕ} {b : List ℕ} {fs : List Frame} {r : List ℕ} {v : Option String}
    → Scan max b fs r v
    → All IsByte b
    → (ws : List ℕ) × Sends fs ws × (b ≡ ws ++ r) × All (IsFrame max) fs
Scan-Sends (short b few) all = ([], nothing, refl, tt)
Scan-Sends (bad_type b eight bad) all = ([], nothing, refl, tt)
Scan-Sends (too_long b eight valid large) all = ([], nothing, refl, tt)
Scan-Sends (partial b eight valid fits part) all = ([], nothing, refl, tt)
Scan-Sends {max} {r} (frame b valid fits whole rest) all =
    let size = 8 + (read_header b).length in
    let (ws, sends, e, ok) = Scan-Sends rest (All-drop IsByte size b all) in
    (
      take size b ++ ws,
      send (first_frame b) (take size b) (encode_frame-first_frame max b whole all) sends,
      sym (take-append-drop size b)
          ∙ ap (◌++◌ (take size b)) e
          ∙ sym (append_assoc (take size b) ws r),
      (first_frame-IsFrame max b whole valid fits all, ok),
    )

-- No call loses or invents a byte: on a parser that has not failed, the buffer and the new bytes
-- together are the bytes that `encodeFrame` writes for the frames taken out, followed by the new
-- buffer. The frames go behind those that wait, and each is one that the parser accepts.
pub push-conserves :
    (p : FrameParser) (data' : List ℕ)
    → p.failed ≡ false
    → All IsByte (p.buffer ++ data')
    → (fs : List Frame) × (ws : List ℕ) × Sends fs ws
      × (p.buffer ++ data' ≡ ws ++ (push p (bytes data')).buffer)
      × ((push p (bytes data')).frames ≡ p.frames ++ fs)
      × All (IsFrame p.max_payload) fs
push-conserves p data' fresh all =
    let s = push-Pushed p data' fresh in
    let (ws, sends, e, ok) = Scan-Sends s.scan all in
    (
      s.fs,
      ws,
      sends,
      e ∙ ap (◌++◌ ws) (sym (ap (λ q. q.buffer) s.result ∙ taken_rest p s.fs s.rest s.verdict)),
      ap (λ q. q.frames) s.result ∙ taken_frames p s.fs s.rest s.verdict,
      ok,
    )
