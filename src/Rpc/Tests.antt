-- ===== src/Rpc/Tests.antt =====
-- Runs of the RPC transport on small inputs, and its theorems at inputs that meet their hypotheses.
use ostinato.Base.{
  ℕ, suc, ◌<◌, ◌≡◌, ◌⊎◌, refl, true, false, none, some, List, [], ◌∷◌, ◌++◌, arith, All, length,
  take,
}
use ostinato.Rpc.Wire.{
  Header, Frame, FrameParser, bytes, wire, encode_header, decode_header, encode_frame, new_parser,
  push, pop_frame, request, is_valid_message_type, read_header, fail, push_back, frame_at, parse,
  parse_loop,
}
use ostinato.Rpc.Wire.Codec.{
  IsByte, IsHeader, decode_header-encode_header, encode_header-decode_header,
}
use ostinato.Rpc.Wire.Stream.{Pushed, push-Pushed}
use ostinato.Rpc.Wire.Chunks.{Chunked, push-push}
use ostinato.Rpc.Wire.Frames.{IsFrame, Sends, nothing, send, push-Sends, push-conserves}
use ostinato.Rpc.Server.Controller.{
  controller_run, new_controller, finish_binary_blob, sets_source, sets_blob,
}
use ostinato.Rpc.Server.Controller.Finish.{destroy-installed}
use ostinato.Rpc.Server.Connection.{
  Connection, Service, accepted, interrupted, send_all, got, run, receive, process_frames, process,
  report, write_frame, send_on, close_socket, finish,
}
use ostinato.Rpc.Server.Connection.Writes.{Prefix, send_all-Prefix}
use ostinato.Rpc.Server.Connection.Gate.{OnlyFifteen, run-OnlyFifteen}

abbrev ping : Header
ping = record { type = request; method = 15; length = 2 }

abbrev ping_frame : Frame
ping_frame = record { header = ping; payload = 7 ∷ 9 ∷ [] }

abbrev ping_bytes : List ℕ
ping_bytes = 0 ∷ 1 ∷ 0 ∷ 15 ∷ 0 ∷ 0 ∷ 0 ∷ 2 ∷ 7 ∷ 9 ∷ []

abbrev fresh : FrameParser
fresh = record { max_payload = 100; buffer = []; frames = []; failed = false; error_text = "" }

new_parser-fresh : new_parser 100 ≡ fresh
unfolding new_parser
new_parser-fresh = refl

ping_encoded : encode_frame request 15 (bytes (7 ∷ 9 ∷ [])) ≡ wire ping_bytes
unfolding encode_frame encode_header
ping_encoded = refl

ping_arrives :
    push fresh (bytes (ping_bytes ++ 0 ∷ []))
    ≡ record fresh { buffer = 0 ∷ []; frames = ping_frame ∷ [] }
unfolding push parse parse_loop is_valid_message_type read_header fail push_back frame_at
ping_arrives = refl

ping_fits : IsHeader ping
ping_fits = (omega arith, omega arith, omega arith)

ping_frame-IsFrame : IsFrame 100 ping_frame
unfolding is_valid_message_type
ping_frame-IsFrame = record { valid = refl; fits = ping_fits; sized = refl; within = omega arith }

ping-Sends : Sends (ping_frame ∷ []) (ping_bytes ++ [])
ping-Sends = send ping_frame ping_bytes ping_encoded nothing

ping_bytes-IsByte : All IsByte ping_bytes
ping_bytes-IsByte = ground arith

decode_header-encode_header_example :
    decode_header (bytes (encode_header request 15 2 ++ 7 ∷ [])) ≡ some ping
decode_header-encode_header_example = decode_header-encode_header ping (7 ∷ []) ping_fits

encode_header-decode_header_example :
    ((length ping_bytes < 8) × (decode_header (bytes ping_bytes) ≡ none))
    ⊎ ((h : Header) × (decode_header (bytes ping_bytes) ≡ some h)
        × IsHeader h
        × (encode_header h.type h.method h.length ≡ take 8 ping_bytes))
encode_header-decode_header_example = encode_header-decode_header ping_bytes ping_bytes-IsByte

push-Pushed_example : Pushed fresh (ping_bytes ++ 0 ∷ [])
push-Pushed_example = push-Pushed fresh (ping_bytes ++ 0 ∷ []) refl

push-push_example : Chunked fresh (take 3 ping_bytes) (0 ∷ 2 ∷ 1 ∷ [])
push-push_example = push-push fresh (take 3 ping_bytes) (0 ∷ 2 ∷ 1 ∷ []) refl

push-Sends_example :
    push fresh (bytes (ping_bytes ++ [])) ≡ record fresh { frames = ping_frame ∷ [] }
push-Sends_example = push-Sends fresh refl refl (ping_frame-IsFrame, tt) ping-Sends

push-conserves_example :
    (fs : List Frame) × (ws : List ℕ) × Sends fs ws
    × (ping_bytes ≡ ws ++ (push fresh (bytes ping_bytes)).buffer)
    × ((push fresh (bytes ping_bytes)).frames ≡ fs)
    × All (IsFrame 100) fs
push-conserves_example = push-conserves fresh ping_bytes refl ping_bytes-IsByte

-- A service with one method, which counts its calls and answers with the request.
abbrev counter : Service ℕ
counter = record {
  has_descriptor = true;
  method_count = 16;
  method_name = λ id. [];
  check_request = λ id payload. none;
  call_method = λ n id payload. (suc n, [], record { initialized = true; payload = payload });
}

abbrev accepts : Connection ℕ
accepts = record {
  open' = true;
  parser = fresh;
  compatible = false;
  notifications = true;
  closed = false;
  terminated = false;
  out = [];
  net = accepted 3 ∷ interrupted ∷ accepted 100 ∷ [];
  service_state = 0;
}

send_all-Prefix_example :
    Prefix (send_all (accepted 1 ∷ interrupted ∷ accepted 1 ∷ []) (4 ∷ 5 ∷ [])).sent (4 ∷ 5 ∷ [])
    × ((send_all (accepted 1 ∷ interrupted ∷ accepted 1 ∷ []) (4 ∷ 5 ∷ [])).result ≡ true
        → (send_all (accepted 1 ∷ interrupted ∷ accepted 1 ∷ []) (4 ∷ 5 ∷ [])).sent ≡ 4 ∷ 5 ∷ [])
send_all-Prefix_example = send_all-Prefix (accepted 1 ∷ interrupted ∷ accepted 1 ∷ []) (4 ∷ 5 ∷ [])

-- A request for another method than 15, before method 15 was called.
abbrev early_bytes : List ℕ
early_bytes = 0 ∷ 1 ∷ 0 ∷ 3 ∷ 0 ∷ 0 ∷ 0 ∷ 0 ∷ []

run-OnlyFifteen_example :
    OnlyFifteen counter 0 (run counter (got early_bytes ∷ []) accepts).service_state
unfolding run receive push parse parse_loop is_valid_message_type read_header fail push_back
    frame_at process_frames pop_frame process report write_frame encode_frame encode_header send_on
    send_all close_socket finish
run-OnlyFifteen_example = run-OnlyFifteen counter (got early_bytes ∷ []) accepts refl

destroy-installed_example :
    (finish_binary_blob (
      controller_run new_controller (sets_source 4 none (some 8) ∷ sets_blob [] ∷ []))).finished_log
    ≡ 8 ∷ []
destroy-installed_example = destroy-installed (sets_source 4 none (some 8) ∷ sets_blob [] ∷ [])
