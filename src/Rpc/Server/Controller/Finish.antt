-- ===== src/Rpc/Server/Controller/Finish.antt =====
-- The callback that belongs to a blob source is run once, however the source is given up.
use ostinato.Base.{
  ℕ, ◌≡◌, refl, sym, ap, ◌∙◌, Option, none, some, List, [], ◌∷◌, ◌++◌, append-nil, append_assoc,
  arith,
}
use ostinato.Rpc.Server.Controller.{
  Controller, ControllerCall, resets, fails, disconnects, notifies, sets_blob, sets_source, reads,
  finishes, controller_step, controller_run, new_controller, finish_binary_blob, reset_controller,
  set_failed, trigger_disconnect, enable_notifications, set_binary_blob, set_binary_blob_source,
  read_binary_blob,
}

abbrev pub callback : Option ℕ → List ℕ
callback none = []
callback (some k) = k ∷ []

-- The callbacks that the calls hand over, in this order.
abbrev pub installed : List ControllerCall → List ℕ
installed [] = []
installed (sets_source size reader finished ∷ ks) = callback finished ++ installed ks
installed (resets ∷ ks) = installed ks
installed (fails reason ∷ ks) = installed ks
installed (disconnects ∷ ks) = installed ks
installed (notifies enabled ∷ ks) = installed ks
installed (sets_blob data' ∷ ks) = installed ks
installed (reads capacity ∷ ks) = installed ks
installed (finishes ∷ ks) = installed ks

-- Those that were run, and the one that waits.
abbrev pub accounted : Controller → List ℕ
accounted c = c.finished_log ++ callback c.blob_finished

pub finish-accounted : (c : Controller) → (finish_binary_blob c).finished_log ≡ accounted c
unfolding finish_binary_blob
finish-accounted c = ground (arith, append-nil c.finished_log)

finish-waits : (c : Controller) → (finish_binary_blob c).blob_finished ≡ none
unfolding finish_binary_blob
finish-waits c = ground arith

finish_twice-accounted : (c : Controller) → accounted (finish_binary_blob c) ≡ accounted c
finish_twice-accounted c =
    rw finish-waits (append-nil (finish_binary_blob c).finished_log ∙ finish-accounted c)

read-accounted :
    (c : Controller) (capacity : ℕ)
    → accounted (read_binary_blob c capacity).controller ≡ accounted c
unfolding read_binary_blob
read-accounted c capacity = ground arith

step-accounted :
    (c : Controller) (k : ControllerCall)
    → accounted (controller_step c k) ≡ accounted c ++ installed (k ∷ [])
unfolding controller_step reset_controller set_failed trigger_disconnect enable_notifications
    set_binary_blob set_binary_blob_source
step-accounted c resets = finish_twice-accounted c ∙ sym (append-nil _)
step-accounted c (fails reason) = sym (append-nil _)
step-accounted c disconnects = sym (append-nil _)
step-accounted c (notifies enabled) = sym (append-nil _)
step-accounted c (sets_blob data') = finish_twice-accounted c ∙ sym (append-nil _)
step-accounted c (sets_source size reader finished) =
    ap (λ (t : List ℕ). t ++ callback finished) (finish-accounted c)
    ∙ sym (ap (◌++◌ (accounted c)) (append-nil (callback finished)))
step-accounted c (reads capacity) = read-accounted c capacity ∙ sym (append-nil _)
step-accounted c finishes = finish_twice-accounted c ∙ sym (append-nil _)

installed-cons :
    (k : ControllerCall) (ks : List ControllerCall)
    → installed (k ∷ ks) ≡ installed (k ∷ []) ++ installed ks
installed-cons (sets_source size reader finished) ks =
    ap (λ (t : List ℕ). t ++ installed ks) (sym (append-nil (callback finished)))
installed-cons resets ks = refl
installed-cons _ ks = refl

run-accounted :
    (c : Controller) (ks : List ControllerCall)
    → accounted (controller_run c ks) ≡ accounted c ++ installed ks
unfolding controller_run
run-accounted c [] = sym (append-nil _)
run-accounted c (k ∷ ks) =
    run-accounted (controller_step c k) ks
    ∙ ap (λ (t : List ℕ). t ++ installed ks) (step-accounted c k)
    ∙ append_assoc (accounted c) (installed (k ∷ [])) (installed ks)
    ∙ ap (◌++◌ (accounted c)) (sym (installed-cons k ks))

-- Whatever a service does with a new controller, by the time it is destroyed every callback that
-- came with a blob source has been run exactly once, in the order in which they came.
pub destroy-installed :
    (ks : List ControllerCall)
    → (finish_binary_blob (controller_run new_controller ks)).finished_log ≡ installed ks
unfolding new_controller
destroy-installed ks =
    finish-accounted (controller_run new_controller ks) ∙ run-accounted new_controller ks
