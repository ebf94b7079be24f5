-- ===== src/Action.antt =====
-- The action types of an operation (dingdongditch/contract/operation.py).
use dingdongditch.Prelude.Equality.{Eq}

pub data ActionType : Type 0 where
  navigate click fill press_key select_option set_checked hover scroll_to_target : ActionType
  pointer_move wait_for switch_to_page close_page switch_to_opener download : ActionType
  upload_file select_combobox_option : ActionType

unfoldable pub ActionType-discrete : Discrete ActionType
ActionType-discrete = hlevel

instance unfoldable pub action_eq : Eq ActionType
action_eq = record { dec = ActionType-discrete }
