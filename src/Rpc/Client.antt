-- ===== src/Rpc/Client.antt =====
-- `TcpRpcClient` of rpc/pbrpc_client_core.cpp: how a call writes its request and reads up to its
-- response. What `poll`, `send` and `recv` give, and when the deadline or an interrupt comes, is a
-- list of events.
pub mod Reads
pub mod Headers
pub mod Replies
pub mod Calls
mod Tests
use Prim.Native.String.{String}
use ostinato.Base.{
  ℕ, zero, suc, ◌+◌, ◌-◌, ◌*◌, ◌≡◌, Bool, true, false, not, ◌||◌, Option, none, some, List, [], ◌∷◌,
  ◌++◌, ltb, leb, ◌==◌, if◌then◌else◌, length, take, drop, min,
}
use ostinato.Rpc.Wire.{
  Header, ByteView, bytes, header_size, read_header, is_valid_message_type, request, response,
  binary_blob, error, notification, Encoded, wire, throws, encode_frame, EncodeError, length_error,
  invalid_argument,
}
use ostinato.Client.Session.{
  RpcError, timeout, canceled, disconnected, transport, remote, protocol, invalid_protobuf, Fault,
  Answer, fails, answers,
}

-- What the next wait for the socket ends with, and the `send` or `recv` that follows it.
pub data Event : Type 0 where
  -- `recv` has these bytes; none is the end of the stream.
  arrives : List ℕ → Event
  -- `send` takes this many bytes.
  accepts : ℕ → Event
  -- EINTR, EAGAIN or EWOULDBLOCK.
  again : Event
  -- `poll`, `send` or `recv` has failed, with this text.
  breaks : String → Event
  hangs_up times_out canceled_by disconnected_by : Event

-- A connection: `pending`, the events to come when it is read and when it is written, what was sent,
-- and whether it is still `connection_`.
pub record RpcConnection : Type 0 where
  pub pending : List ℕ
  pub events : List Event
  pub send_events : List Event
  pub sent : List ℕ
  pub attached : Bool

-- `fail` with detach.
unfoldable pub detach {ℓ} :
    {A : Type ℓ} → RpcError → String → RpcConnection → RpcConnection × Answer A
detach code text c =
    (record c { attached = false }, fails (record { error = code; message = text }))

-- The rest of a wait that does not end with the events waited for. An interrupt has taken the
-- connection away from the client.
unfoldable pub unready {ℓ} : {A : Type ℓ} → Event → RpcConnection → RpcConnection × Answer A
unready canceled_by c = detach canceled "RPC operation canceled" c
unready disconnected_by c = detach disconnected "RPC connection closed" c
unready hangs_up c = detach disconnected "RPC peer disconnected" c
unready (breaks text) c = detach transport text c
unready _ c = detach timeout "RPC operation timed out" c

-- One `wait` for POLLIN and one `recv`; no bytes are a `continue`.
unfoldable pub receive_some : ℕ → List Event → RpcConnection → RpcConnection × Answer (List ℕ)
receive_some wanted [] c = unready times_out c
receive_some wanted (arrives [] ∷ es) c =
    detach disconnected "RPC peer disconnected" (record c { events = es })
receive_some wanted (arrives (b ∷ bs) ∷ es) c =
    if leb (length (b ∷ bs)) wanted
    then (record c { events = es }, answers (b ∷ bs))
    else (record c { events = arrives (drop wanted (b ∷ bs)) ∷ es }, answers (take wanted (b ∷ bs)))
receive_some wanted (again ∷ es) c = (record c { events = es }, answers [])
receive_some wanted (e ∷ es) c = unready e (record c { events = es })

-- What follows a step that has not failed.
unfoldable pub following {ℓ κ} :
    {A : Type ℓ} {B : Type κ}
    → RpcConnection × Answer A
    → (RpcConnection → A → RpcConnection × Answer B)
    → RpcConnection × Answer B
following (c, fails f) next = (c, fails f)
following (c, answers a) next = next c a

-- Where `nextHeader` has eight bytes.
unfoldable pub taken_header : ℕ → RpcConnection → RpcConnection × Answer Header
taken_header max c =
    let header = read_header c.pending in
    let rest = record c { pending = drop header_size c.pending } in
    if not (is_valid_message_type header.type)
    then detach protocol "invalid RPC message type" rest
    else if ltb max header.length
    then detach protocol "RPC payload exceeds configured maximum" rest
    else (rest, answers header)

unfoldable pub next_header : ℕ → ℕ → RpcConnection → RpcConnection × Answer Header
next_header zero max c = unready times_out c
next_header (suc fuel) max c =
    let more =
      following (receive_some 8192 c.events c)
        (λ d input. next_header fuel max (record d { pending = d.pending ++ input })) in
    if ltb (length c.pending) header_size then more else taken_header max c

-- The bytes of `pending` that a payload still wants.
unfoldable pub consume : ℕ → RpcConnection → RpcConnection
consume remaining c = record c { pending = drop remaining c.pending }

unfoldable pub read_payload : ℕ → ℕ → List ℕ → RpcConnection → RpcConnection × Answer (List ℕ)
read_payload zero remaining payload c =
    if remaining == 0 then (c, answers payload) else unready times_out c
read_payload (suc fuel) remaining payload c =
    let more =
      following (receive_some (min remaining 65536) c.events c)
        (λ d input. read_payload fuel remaining payload (record d { pending = input })) in
    let rest =
      read_payload fuel (remaining - length c.pending) (payload ++ take remaining c.pending)
        (consume remaining c) in
    if remaining == 0 then (c, answers payload) else if length c.pending == 0 then more else rest

-- What is left of the bytes to write.
unfoldable pub write_all : List Event → List ℕ → RpcConnection → RpcConnection × Answer {0} Unit
write_all es [] c = (record c { send_events = es }, answers tt)
write_all [] (b ∷ bs) c = unready times_out c
write_all (accepts zero ∷ es) (b ∷ bs) c =
    detach transport "short socket write" (record c { send_events = es })
write_all (accepts (suc n) ∷ es) (b ∷ bs) c =
    write_all es (drop n bs) (record c { sent = c.sent ++ b ∷ take n bs })
write_all (again ∷ es) (b ∷ bs) c = write_all es (b ∷ bs) c
write_all (e ∷ es) (b ∷ bs) c = unready e (record c { send_events = es })

-- A message's bytes and its text, as far as the client reads them.
pub record Method {ℓ} (A : Type ℓ) : Type ℓ where
  pub index : ℕ
  pub parse : List ℕ → Option A
  pub text : List ℕ → String

-- A response or a blob.
pub data Reply {ℓ} (A : Type ℓ) : Type ℓ where
  replied : A → Reply A
  blob : List ℕ → Reply A

-- How a round of the loop of `call` ends: with a notification it goes on.
pub data Turn {ℓ} (A : Type ℓ) : Type ℓ where
  ends : Answer (Reply A) → Turn A
  notes : ℕ × List ℕ → Turn A

-- The bytes that are still to come.
unfoldable pub coming : List Event → List ℕ
coming [] = []
coming (arrives bs ∷ es) = bs ++ coming es
coming (e ∷ es) = coming es

-- `what()` of the exception.
unfoldable pub encode_text : EncodeError → String
encode_text length_error = "RPC payload is too large"
encode_text invalid_argument = "null RPC payload"

module _ {ℓ} {A : Type ℓ} (max : ℕ) (method : Method A) where
  unfoldable pub ended : RpcConnection × Answer (Reply A) → RpcConnection × Turn A
  ended (c, a) = (c, ends a)

  unfoldable pub parsed : Option A → RpcConnection → RpcConnection × Turn A
  parsed none c = ended (detach invalid_protobuf "invalid or incomplete protobuf response" c)
  parsed (some a) c = (c, ends (answers (replied a)))

  -- A frame that is no blob.
  unfoldable pub body_read : Header → RpcConnection × Answer (List ℕ) → RpcConnection × Turn A
  body_read header (c, fails f) = (c, ends (fails f))
  body_read header (c, answers body) =
      if header.type == notification
      then (c, notes (header.method, body))
      else if not (header.method == method.index)
      then ended (detach protocol "RPC response method id mismatch" c)
      else if header.type == error
      then (c, ends (fails (record { error = remote; message = method.text body })))
      else if not (header.type == response)
      then ended (detach protocol "unexpected RPC response type" c)
      else parsed (method.parse body) c

  unfoldable pub blob_read : RpcConnection × Answer (List ℕ) → RpcConnection × Turn A
  blob_read (c, fails f) = (c, ends (fails f))
  blob_read (c, answers body) = (c, ends (answers (blob body)))

  unfoldable pub header_read : RpcConnection × Answer Header → RpcConnection × Turn A
  header_read (c, fails f) = (c, ends (fails f))
  header_read (c, answers header) =
      let payload = read_payload (2 * header.length + length c.events) header.length [] c in
      if header.type == binary_blob
      then (if not (header.method == method.index)
          then ended (detach protocol "RPC response method id mismatch" c)
          else blob_read payload)
      else body_read header payload

  unfoldable pub turn : RpcConnection → RpcConnection × Turn A
  turn c = header_read (next_header (suc (suc (length c.events))) max c)

  -- The connection, the notifications and the result.
  abbrev pub Called : Type ℓ
  Called = RpcConnection × List (ℕ × List ℕ) × Answer (Reply A)

  unfoldable pub after_turn :
      RpcConnection × Turn A
      → List (ℕ × List ℕ)
      → (RpcConnection → List (ℕ × List ℕ) → Called)
      → Called
  after_turn (c, ends a) notices next = (c, notices, a)
  after_turn (c, notes n) notices next = next c (notices ++ n ∷ [])

  unfoldable pub call_loop : ℕ → List (ℕ × List ℕ) → RpcConnection → Called
  call_loop zero notices c = (c, notices, (unready {A = Reply A} times_out c).1)
  call_loop (suc fuel) notices c = after_turn (turn c) notices (λ d more. call_loop fuel more d)

  -- After the request is written. A round takes a header of eight bytes.
  unfoldable pub written : RpcConnection × Answer {0} Unit → Called
  written (c, fails f) = (c, [], fails f)
  written (c, answers done) = call_loop (suc (length c.pending + length (coming c.events))) [] c

  unfoldable pub encoded : Encoded → RpcConnection → Called
  encoded (throws e) c =
      (c, [], fails (record { error = invalid_protobuf; message = encode_text e }))
  encoded (wire w) c = written (write_all c.send_events w c)

  -- `call`, of a request that is complete and of the method's type.
  unfoldable pub call : ByteView → RpcConnection → Called
  call payload c =
      if not c.attached
      then (c, [], fails (record { error = disconnected; message = "RPC client is not connected" }))
      else encoded (encode_frame request method.index payload) c
