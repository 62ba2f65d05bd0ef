-- ===== src/Rpc/Client/Tests.antt =====
-- A call of `TcpRpcClient`, rpc/pbrpc_client_core.cpp, whose bytes come in pieces.
use ostinato.Base.{ℕ, ◌≤◌, ◌≡◌, refl, true, some, List, [], ◌∷◌, arith}
use ostinato.Rpc.Wire.{
  Frame, bytes, wire, encode_frame, encode_header, request, response, notification,
  is_valid_message_type,
}
use ostinato.Rpc.Wire.Frames.{nothing, send}
use ostinato.Rpc.Client.{RpcConnection, Method, arrives, accepts, again, coming, call}
use ostinato.Rpc.Client.Reads.{is_quiet}
use ostinato.Rpc.Client.Calls.{room, Served, Calls, call-Calls}

abbrev echo : Method (List ℕ)
echo = record { index = 7; parse = λ data'. some data'; text = λ data'. "" }

abbrev asked_for : List ℕ
asked_for = 0 ∷ 1 ∷ 0 ∷ 7 ∷ 0 ∷ 0 ∷ 0 ∷ 2 ∷ 5 ∷ 6 ∷ []

abbrev notice : Frame
notice = record {
  header = record { type = notification; method = 1; length = 1 };
  payload = 9 ∷ [];
}

abbrev answer_frame : Frame
answer_frame = record {
  header = record { type = response; method = 7; length = 3 };
  payload = 1 ∷ 2 ∷ 3 ∷ [];
}

abbrev up_connection : RpcConnection
up_connection = record {
  pending = 0 ∷ 5 ∷ [];
  events =
      arrives (0 ∷ 1 ∷ 0 ∷ 0 ∷ [])
      ∷ again
      ∷ arrives (0 ∷ 1 ∷ 9 ∷ 0 ∷ 2 ∷ 0 ∷ 7 ∷ 0 ∷ 0 ∷ 0 ∷ 3 ∷ 1 ∷ [])
      ∷ arrives (2 ∷ 3 ∷ 0 ∷ [])
      ∷ [];
  send_events = accepts 4 ∷ again ∷ accepts 9 ∷ [];
  sent = [];
  attached = true;
}

encoded_request : encode_frame request 7 (bytes (5 ∷ 6 ∷ [])) ≡ wire asked_for
unfolding encode_frame encode_header
encoded_request = refl

enough_room : 10 ≤ room up_connection.send_events
unfolding room
enough_room = omega arith

served : Served 100 echo (notice ∷ []) answer_frame (0 ∷ []) (1 ∷ 2 ∷ 3 ∷ []) up_connection
unfolding encode_frame encode_header is_quiet coming is_valid_message_type
served = record {
  ws = 0 ∷ 5 ∷ 0 ∷ 1 ∷ 0 ∷ 0 ∷ 0 ∷ 1 ∷ 9 ∷ [];
  w = 0 ∷ 2 ∷ 0 ∷ 7 ∷ 0 ∷ 0 ∷ 0 ∷ 3 ∷ 1 ∷ 2 ∷ 3 ∷ [];
  sends = send notice (0 ∷ 5 ∷ 0 ∷ 1 ∷ 0 ∷ 0 ∷ 0 ∷ 1 ∷ 9 ∷ []) refl nothing;
  notifies =
      ((record { valid = refl; fits = omega arith; sized = refl; within = omega arith }, refl), tt);
  responds = record {
    frame = record { valid = refl; fits = omega arith; sized = refl; within = omega arith };
    type = refl;
    method_index = refl;
    parses = refl;
  };
  encodes = refl;
  quiet = refl;
  comes = refl;
}

call-Calls_example :
    Calls 100 echo asked_for
      (notice ∷ [])
      (1 ∷ 2 ∷ 3 ∷ [])
      (0 ∷ [])
      up_connection
      (call 100 echo (bytes (5 ∷ 6 ∷ [])) up_connection)
call-Calls_example =
    call-Calls 100 echo (5 ∷ 6 ∷ []) asked_for (notice ∷ []) answer_frame (0 ∷ []) (1 ∷ 2 ∷ 3 ∷ [])
      up_connection refl encoded_request enough_room served
