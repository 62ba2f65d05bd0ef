-- ===== src/Rpc/Server/Controller.antt =====
-- `ServerController` of rpc/pbrpc_server_core.cpp. A callback is a number, and the callbacks that
-- were run stand in a log; an empty `std::function` is `none`. A `BlobReader` is the list of the
-- results that it will return: `none` where it throws, else the bytes that it copied.
pub mod Finish
use ostinato.Base.{
  ℕ, ◌≡◌, Bool, true, false, Option, none, some, List, [], ◌∷◌, ◌++◌, leb, if◌then◌else◌, length,
}

pub record Controller : Type 0 where
  pub failed : Bool
  pub disconnect : Bool
  pub notifications : Bool
  pub has_blob : Bool
  pub error_text : List ℕ
  pub blob : List ℕ
  pub blob_size : ℕ
  pub blob_reader : Option (List (Option (List ℕ)))
  pub blob_finished : Option ℕ
  pub finished_log : List ℕ

unfoldable pub new_controller : Controller
new_controller = record {
  failed = false;
  disconnect = false;
  notifications = true;
  has_blob = false;
  error_text = [];
  blob = [];
  blob_size = 0;
  blob_reader = none;
  blob_finished = none;
  finished_log = [];
}

-- The callback is moved out before it is called, so that it runs once.
unfoldable pub finish_binary_blob : Controller → Controller
finish_binary_blob c = elim c.blob_finished [
  | none ↦ c
  | some k ↦ record c { blob_finished = none; finished_log = c.finished_log ++ k ∷ [] }
]

unfoldable pub reset_controller : Controller → Controller
reset_controller c = record (finish_binary_blob c) {
  failed = false;
  disconnect = false;
  has_blob = false;
  notifications = true;
  error_text = [];
  blob = [];
  blob_size = 0;
  blob_reader = none;
}

unfoldable pub set_failed : List ℕ → Controller → Controller
set_failed reason c = record c { failed = true; error_text = reason }

unfoldable pub trigger_disconnect : Controller → Controller
trigger_disconnect c = record c { disconnect = true }

unfoldable pub enable_notifications : Bool → Controller → Controller
enable_notifications enabled c = record c { notifications = enabled }

unfoldable pub set_binary_blob : List ℕ → Controller → Controller
set_binary_blob data' c = record (finish_binary_blob c) {
  has_blob = true;
  blob_size = 0;
  blob_reader = none;
  blob = data';
}

unfoldable pub set_binary_blob_source :
    ℕ → Option (List (Option (List ℕ))) → Option ℕ → Controller → Controller
set_binary_blob_source size reader finished c = record (finish_binary_blob c) {
  has_blob = true;
  blob = [];
  blob_size = size;
  blob_reader = reader;
  blob_finished = finished;
}

unfoldable pub binary_blob_size : Controller → ℕ
binary_blob_size c = elim c.blob_reader [ none ↦ length c.blob | some r ↦ c.blob_size ]

-- The result, the bytes that the reader copied (their number is `count`), and the new state.
pub record BlobRead : Type 0 where
  pub result : Bool
  pub copied : List ℕ
  pub controller : Controller

-- A reader that has no results left is one that throws.
read_with : Controller → ℕ → List (Option (List ℕ)) → BlobRead
read_with c capacity [] = record { result = false; copied = []; controller = c }
read_with c capacity (none ∷ rest) = record {
  result = false;
  copied = [];
  controller = record c { blob_reader = some rest };
}
read_with c capacity (some data' ∷ rest) = record {
  result = leb (length data') capacity;
  copied = data';
  controller = record c { blob_reader = some rest };
}

unfoldable pub read_binary_blob : Controller → ℕ → BlobRead
unfolding read_with
read_binary_blob c capacity = elim c.blob_reader [
  | none ↦ record { result = false; copied = []; controller = c }
  | some results ↦ read_with c capacity results
]

-- What a service may do with its controller.
pub data ControllerCall : Type 0 where
  resets : ControllerCall
  fails : List ℕ → ControllerCall
  disconnects : ControllerCall
  notifies : Bool → ControllerCall
  sets_blob : List ℕ → ControllerCall
  sets_source : ℕ → Option (List (Option (List ℕ))) → Option ℕ → ControllerCall
  reads : ℕ → ControllerCall
  finishes : ControllerCall

unfoldable pub controller_step : Controller → ControllerCall → Controller
controller_step c resets = reset_controller c
controller_step c (fails reason) = set_failed reason c
controller_step c disconnects = trigger_disconnect c
controller_step c (notifies enabled) = enable_notifications enabled c
controller_step c (sets_blob data') = set_binary_blob data' c
controller_step c (sets_source size reader finished) = set_binary_blob_source size reader finished c
controller_step c (reads capacity) = (read_binary_blob c capacity).controller
controller_step c finishes = finish_binary_blob c

unfoldable pub controller_run : Controller → List ControllerCall → Controller
controller_run c [] = c
controller_run c (k ∷ ks) = controller_run (controller_step c k) ks
