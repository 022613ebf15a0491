-- ===== src/Rpc/Controller.antt =====
-- rocket/rocket/net/rpc/rpc_controller.h and rpc_controller.cpp. An address is its text.
use rpc4grad.Prelude.{
  ℕ, ◌≡◌, refl, ◌⊎◌, inl, inr, Bool, true, false, Option, none, some, List, [], ◌∷◌,
}

pub record RpcController : Type 0 where
  pub error_code : ℕ
  pub error_info : List ℕ
  pub msg_id : List ℕ
  pub is_failed : Bool
  pub is_canceled : Bool
  pub is_finished : Bool
  pub local_addr : Option (List ℕ)
  pub remote_addr : Option (List ℕ)
  pub timeout : ℕ

abbrev pub new_controller : RpcController
new_controller = record {
  error_code = 0;
  error_info = [];
  msg_id = [];
  is_failed = false;
  is_canceled = false;
  is_finished = false;
  local_addr = none;
  remote_addr = none;
  timeout = 1000;
}

-- Reset
unfoldable reset : RpcController → RpcController
reset c = record c {
  error_code = 0;
  error_info = [];
  msg_id = [];
  local_addr = none;
  remote_addr = none;
  is_failed = false;
  is_canceled = false;
  is_finished = false;
  timeout = 1000;
}

unfoldable set_failed : List ℕ → RpcController → RpcController
set_failed reason c = record c { is_failed = true; error_info = reason; is_finished = true }

unfoldable pub start_cancel : RpcController → RpcController
start_cancel c = record c { is_canceled = true; is_finished = true }

unfoldable pub set_error : ℕ → List ℕ → RpcController → RpcController
set_error code info c = record c {
  error_code = code;
  error_info = info;
  is_failed = true;
  is_finished = true;
}

unfoldable pub set_finished : Bool → RpcController → RpcController
set_finished finished c = record c { is_finished = finished }

unfoldable set_msg_id : List ℕ → RpcController → RpcController
set_msg_id id c = record c { msg_id = id }

unfoldable set_local_addr : Option (List ℕ) → RpcController → RpcController
set_local_addr addr c = record c { local_addr = addr }

unfoldable set_remote_addr : Option (List ℕ) → RpcController → RpcController
set_remote_addr addr c = record c { remote_addr = addr }

unfoldable set_timeout : ℕ → RpcController → RpcController
set_timeout ms c = record c { timeout = ms }

-- NotifyOnCancel: the callbacks that it runs, at once.
unfoldable notify_on_cancel : {A : Type 0} → Option A → RpcController → List A
notify_on_cancel none c = []
notify_on_cancel (some f) c = f ∷ []

-- Something that is done to a controller, but for SetFinished(false) and Reset.
data ControllerStep (c : RpcController) : RpcController → Type 0 where
  fails : (reason : List ℕ) → ControllerStep c (set_failed reason c)
  errs : (code : ℕ) (info : List ℕ) → ControllerStep c (set_error code info c)
  cancels : ControllerStep c (start_cancel c)
  finishes : ControllerStep c (set_finished true c)
  gets_id : (id : List ℕ) → ControllerStep c (set_msg_id id c)
  gets_local : (addr : Option (List ℕ)) → ControllerStep c (set_local_addr addr c)
  gets_remote : (addr : Option (List ℕ)) → ControllerStep c (set_remote_addr addr c)
  gets_timeout : (ms : ℕ) → ControllerStep c (set_timeout ms c)

-- A call that has failed or been canceled is over, and one that is over stays so.
record IsSettled (c : RpcController) : Type 0 where
  failed_over : (c.is_failed ≡ false) ⊎ (c.is_finished ≡ true)
  canceled_over : (c.is_canceled ≡ false) ⊎ (c.is_finished ≡ true)

new_controller-IsSettled : IsSettled new_controller
new_controller-IsSettled = record { failed_over = inl refl; canceled_over = inl refl }

-- The settled state is kept by each of these calls, and a Reset leads back to a new controller.
ControllerStep-IsSettled :
    {c d : RpcController}
    → ControllerStep c d
    → IsSettled c
    → IsSettled d × (reset d ≡ new_controller)
unfolding reset set_failed set_error start_cancel set_finished set_msg_id set_local_addr
    set_remote_addr set_timeout
ControllerStep-IsSettled (fails reason) s =
    (record { failed_over = inr refl; canceled_over = inr refl }, refl)
ControllerStep-IsSettled (errs code info) s =
    (record { failed_over = inr refl; canceled_over = inr refl }, refl)
ControllerStep-IsSettled cancels s =
    (record { failed_over = inr refl; canceled_over = inr refl }, refl)
ControllerStep-IsSettled finishes s =
    (record { failed_over = inr refl; canceled_over = inr refl }, refl)
ControllerStep-IsSettled (gets_id id) s =
    (record { failed_over = s.failed_over; canceled_over = s.canceled_over }, refl)
ControllerStep-IsSettled (gets_local addr) s =
    (record { failed_over = s.failed_over; canceled_over = s.canceled_over }, refl)
ControllerStep-IsSettled (gets_remote addr) s =
    (record { failed_over = s.failed_over; canceled_over = s.canceled_over }, refl)
ControllerStep-IsSettled (gets_timeout ms) s =
    (record { failed_over = s.failed_over; canceled_over = s.canceled_over }, refl)
