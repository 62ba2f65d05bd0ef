-- ===== src/Rpc/Server/Connection.antt =====
-- `TcpRpcServer::Connection` of rpc/pbrpc_server_core.cpp. The protobuf service, and what the
-- kernel's `send` and `recv` return, are parameters. A connection's methods are steps: its locks
-- make each write one step, and its thread runs `process` for one frame after the other.
pub mod Writes
pub mod Replies
pub mod Gate
use Prim.Native.Char.{code}
use Prim.Native.String.{String}
use ostinato.Base.{
  ℕ, zero, suc, ◌+◌, ◌-◌, ◌*◌, ◌/◌, ◌%◌, ◌^◌, min, ◌≡◌, Bool, true, false, not, ◌&&◌, ◌||◌, Option,
  none, some, List, [], ◌∷◌, ◌++◌, ltb, leb, ◌==◌, if◌then◌else◌, u32, length, take, drop,
}
use ostinato.Rpc.Wire.{
  Frame, FrameParser, ByteView, bytes, wire, throws, encode_frame, encode_header, new_parser, push,
  pop_frame, request, response, binary_blob, error, notification,
}
use ostinato.Rpc.Server.Controller.{
  Controller, ControllerCall, controller_run, new_controller, BlobRead, binary_blob_size,
  read_binary_blob, finish_binary_blob,
}

-- What one call of `send` returns. A count is at most the size that was asked for.
pub data Sent : Type 0 where
  interrupted broken : Sent
  accepted : ℕ → Sent

pub record SendAll : Type 0 where
  pub result : Bool
  pub sent : List ℕ
  pub later : List Sent

-- The results that are still to come; where none is left the peer is gone for good.
unfoldable pub send_all : List Sent → List ℕ → SendAll
send_all net [] = record { result = true; sent = []; later = net }
send_all [] (b ∷ bs) = record { result = false; sent = []; later = [] }
send_all (interrupted ∷ net) (b ∷ bs) = send_all net (b ∷ bs)
send_all (broken ∷ net) (b ∷ bs) = record { result = false; sent = []; later = net }
send_all (accepted zero ∷ net) (b ∷ bs) = record { result = false; sent = []; later = net }
send_all (accepted (suc n) ∷ net) (b ∷ bs) =
    let rest = send_all net (drop n bs) in
    record { result = rest.result; sent = b ∷ take n bs ++ rest.sent; later = rest.later }

-- The texts of the errors, as bytes.
abbrev pub codes : String → List ℕ
codes String.[] = []
codes (String.◌∷◌ c s) = code c ∷ codes s

-- `std::to_string`, with one round for each digit.
unfoldable pub to_string : ℕ → ℕ → List ℕ
to_string zero n = []
to_string (suc fuel) n =
    let rest = to_string fuel (n / 10) in
    if ltb n 10 then (48 + n) ∷ [] else rest ++ (48 + n % 10) ∷ []

-- What one call of `recv` returns: EINTR, zero or another error, or bytes.
pub data Received : Type 0 where
  retried hung_up : Received
  got : List ℕ → Received

-- The message that a method leaves in `response`.
pub record Response : Type 0 where
  pub initialized : Bool
  pub payload : List ℕ

-- The protobuf service, with a state of its own. `check_request` is `none` where the payload
-- parses and has all required fields, else the text of `InitializationErrorString`. A method
-- uses its controller by the public methods only: `call_method` gives the calls that it makes.
pub record Service (S : Type 0) : Type 0 where
  pub has_descriptor : Bool
  pub method_count : ℕ
  pub method_name : ℕ → List ℕ
  pub check_request : ℕ → List ℕ → Option (List ℕ)
  pub call_method : S → ℕ → List ℕ → S × List ControllerCall × Response

-- `open'` is `fd_ >= 0`. `out` is what the peer can read, `net` what `send` will return. An
-- exception that leaves the thread ends the program: `terminated`.
pub record Connection (S : Type 0) : Type 0 where
  pub open' : Bool
  pub parser : FrameParser
  pub compatible : Bool
  pub notifications : Bool
  pub closed : Bool
  pub terminated : Bool
  pub out : List ℕ
  pub net : List Sent
  pub service_state : S

module _ {S : Type 0} where
  unfoldable pub close_socket : Connection S → Connection S
  close_socket c = record c { open' = false }

  -- `sendAll` on the connection's socket.
  unfoldable pub send_on : Connection S → List ℕ → Bool × Connection S
  send_on c data' =
      let s = send_all c.net data' in (s.result, record c { out = c.out ++ s.sent; net = s.later })

  unfoldable pub write_frame : ℕ → ℕ → List ℕ → Connection S → Bool × Connection S
  write_frame type method payload c = elim (encode_frame type method (bytes payload)) [
    | throws e ↦ (false, record c { terminated = true })
    | wire frame ↦ if c.open' then send_on c frame else (false, c)
  ]

  unfoldable pub report : ℕ → List ℕ → Bool → Connection S → Connection S
  report method text disconnect c =
      let written = (write_frame error method text c).1 in
      if disconnect then close_socket written else written

  -- The loop of `writeBlob` over a source, with `remaining` for fuel: a round takes one or more.
  unfoldable pub send_source : ℕ → ℕ → Controller → Connection S → Bool × Controller × Connection S
  send_source zero remaining ctl c = (remaining == 0, ctl, c)
  send_source (suc fuel) remaining ctl c =
      let r = read_binary_blob ctl (min remaining (64 * 1024)) in
      let count = length r.copied in
      let (ok, c') = send_on c r.copied in
      let rest = send_source fuel (remaining - count) r.controller c' in
      if remaining == 0
      then (true, ctl, c)
      else if not r.result || count == 0 || ltb remaining count
      then (false, r.controller, c)
      else if ok
      then rest
      else (false, r.controller, c')

  -- The rest of `writeBlob` behind the header: a blob that is at hand, else the source.
  unfoldable pub send_blob :
      List ℕ → ℕ → Controller → Connection S → Bool × Controller × Connection S
  send_blob [] size ctl c = send_source size size ctl c
  send_blob (b ∷ bs) size ctl c = let (ok, c') = send_on c (b ∷ bs) in (ok, ctl, c')

  unfoldable pub write_blob : ℕ → Controller → Connection S → Bool × Controller × Connection S
  write_blob method ctl c =
      let size = binary_blob_size ctl in
      let (ok, c') = send_on c (encode_header binary_blob method (u32 size)) in
      let rest = send_blob ctl.blob size ctl c' in
      if ltb c.parser.max_payload size || ltb (2 ^ 32 - 1) size
      then (false, ctl, c)
      else if not c.open'
      then (false, ctl, c)
      else if ok
      then rest
      else (false, ctl, c')

  -- `message` is what it serializes to, or `none` where it lacks required fields or cannot be
  -- serialized.
  unfoldable pub notify : ℕ → Option (List ℕ) → Connection S → Connection S
  notify type none c = c
  notify type (some payload) c =
      if not c.compatible || not c.notifications
      then c
      else (write_frame notification type payload c).1

  -- What `process` sends for the controller and the response that a method left. False where the
  -- blob could not be written, which ends the connection.
  unfoldable pub reply : ℕ → Controller → Response → Connection S → Bool × Connection S
  reply id ctl resp c =
      let (ok, ctl', c') = write_blob id ctl c in
      if ctl.failed
      then (true, (write_frame error id ctl.error_text c).1)
      else if ctl.has_blob
      then if ltb c.parser.max_payload (binary_blob_size ctl)
        then (true, report id (codes "RPC binary blob exceeds configured maximum") false c)
        else if ok
        then (true, c')
        else (false, close_socket c')
      else if not resp.initialized
      then (true, report id (codes "RPC response missing required fields") false c)
      else (true, (write_frame response id resp.payload c).1)

  -- What `process` does after the reply.
  unfoldable pub conclude : ℕ → Controller → Connection S → Bool × Connection S
  conclude id ctl c =
      let c' =
        if id == 15 && not ctl.failed
        then record c { compatible = true; notifications = ctl.notifications }
        else c in
      if ctl.disconnect then (false, close_socket c') else (true, c')

  module _ (svc : Service S) where
    unfoldable pub dispatch : ℕ → List ℕ → Connection S → Bool × Connection S
    dispatch id payload c =
        let (s, calls, resp) = svc.call_method c.service_state id payload in
        let ctl = controller_run new_controller calls in
        let (more, c') = reply id ctl resp (record c { service_state = s }) in
        if more then conclude id ctl c' else (false, c')

    unfoldable pub process : Frame → Connection S → Bool × Connection S
    process f c =
        let id = f.header.method in
        let call : Bool × Connection S = elim (svc.check_request id f.payload) [
          | none ↦ dispatch id f.payload c
          | some text ↦ (
            true,
            report id
                (codes "RPC "
                  ++ svc.method_name id
                  ++ codes "() missing required fields in request - "
                  ++ text)
                false c,
          )
        ] in
        if not (f.header.type == request)
        then (true, report id (codes "unexpected msg type; expected 1") false c)
        else if not c.compatible && not (id == 15)
        then (false, report id (codes "version compatibility check pending") true c)
        else if not svc.has_descriptor || leb svc.method_count id
        then (true, report id (codes "invalid RPC method " ++ to_string 5 id) false c)
        else call

    -- The inner loop of `run`; `fuel` is the number of frames that wait.
    unfoldable pub process_frames : ℕ → Connection S → Bool × Connection S
    process_frames zero c = (true, c)
    process_frames (suc fuel) c = elim (pop_frame c.parser) [
      | none ↦ (true, c)
      | some (f, parser) ↦
          let (more, c') = process f (record c { parser = parser }) in
          let rest = process_frames fuel c' in if more then rest else (false, c')
    ]

    unfoldable pub finish : Connection S → Connection S
    finish c = record (close_socket c) { closed = true }

    -- One round of `run`; false where it leaves the loop.
    unfoldable pub receive : Received → Connection S → Bool × Connection S
    receive retried c = (true, c)
    receive hung_up c = (false, c)
    receive (got data') c =
        let p = push c.parser (bytes data') in
        let next = process_frames (length p.frames) (record c { parser = p }) in
        if p.failed then (false, record c { parser = p }) else next

    -- The loop of `run` over what `recv` returns; while no more has come it waits.
    unfoldable pub run : List Received → Connection S → Connection S
    run [] c = if c.open' then c else finish c
    run (event ∷ later) c =
        let next = receive event c in
        let rest = run later next.1 in
        if not c.open' then finish c else if next.0 then rest else finish next.1
