-- ===== src/Fapi.antt =====
-- include/nr_bb/fapi.hpp and the session of src/fapi.cpp: messages and the state machine.
-- A method that changes the session returns the new one beside its result.
mod Session
mod Runs
mod Recovery
mod Json
mod Examples
use gunnchos_gpu_nr_baseband.Base.{
  ℕ, ◌+◌, ◌%◌, ◌^◌, Bool, true, false, not, ◌&&◌, ◌||◌, List, [], ◌∷◌, if◌then◌else◌, ◌==◌, u32,
}
use gunnchos_gpu_nr_baseband.Base.Text.{Bytes, codes}

pub data FapiState : Type 0 where
  idle configured running error : FapiState

pub data FapiMsgType : Type 0 where
  config_req config_resp start_req stop_req slot_ind ul_tti_req dl_tti_req : FapiMsgType
  tx_data_req rx_data_ind crc_ind error_ind : FapiMsgType

pub record FapiMessage : Type 0 where
  pub version : ℕ
  pub type : FapiMsgType
  pub sfn : ℕ
  pub slot : ℕ
  pub handle : ℕ
  pub payload : List ℕ
  pub json_meta : Bytes
  pub crc_ok : Bool
  pub error : Bytes

pub record FapiSession : Type 0 where
  pub state : FapiState
  pub slot_count : ℕ
  pub sfn : ℕ
  pub slot : ℕ

abbrev pub fapi_msg_version : ℕ
fapi_msg_version = 1

-- `reset()`, and the default member initialisers.
unfoldable pub reset : FapiSession
reset = record { state = idle; slot_count = 0; sfn = 0; slot = 0 }

-- The lambda `err`.
abbrev refuse : FapiSession → FapiMessage → Bytes → FapiMessage × FapiSession
refuse s m e = (
  record m { type = error_ind; error = e; version = fapi_msg_version },
  record s { state = error },
)

abbrev pub may_configure : FapiState → Bool
may_configure running = false
may_configure _ = true

abbrev pub is_configured : FapiState → Bool
is_configured configured = true
is_configured _ = false

abbrev pub is_running : FapiState → Bool
is_running running = true
is_running _ = false

abbrev pub may_stop : FapiState → Bool
may_stop running = true
may_stop error = true
may_stop _ = false

abbrev on_config : FapiSession → FapiMessage → FapiMessage × FapiSession
on_config s m =
    if may_configure s.state
    then (
      record m {
        type = config_resp;
        version = fapi_msg_version;
        json_meta = codes "{\"status\":\"ok\",\"version\":1}";
      },
      record s { state = configured },
    )
    else refuse s m (codes "CONFIG_REQ invalid in current state")

abbrev on_start : FapiSession → FapiMessage → FapiMessage × FapiSession
on_start s m =
    if is_configured s.state
    then (
      record m { type = slot_ind; version = fapi_msg_version; sfn = s.sfn; slot = s.slot },
      record s { state = running },
    )
    else refuse s m (codes "START_REQ requires Configured")

abbrev on_stop : FapiSession → FapiMessage → FapiMessage × FapiSession
on_stop s m =
    if may_stop s.state
    then (
      record m { type = config_resp; version = fapi_msg_version },
      record s { state = configured },
    )
    else refuse s m (codes "STOP_REQ invalid state")

-- `++slot_count_`, the slot and the frame that follow.
abbrev advance : FapiSession → FapiSession
advance s =
    let next_slot = (s.slot + 1) % 20 in
    record s {
      slot_count = u32 (s.slot_count + 1);
      slot = next_slot;
      sfn = if next_slot == 0 then (s.sfn + 1) % 1024 else s.sfn;
    }

-- UL_TTI_REQ, DL_TTI_REQ and TX_DATA_REQ; `reply` is the type of the answer. The payload of the
-- answer is the request's on both sides of the source's last test, as `out` starts as a copy.
abbrev on_data : FapiMsgType → FapiSession → FapiMessage → FapiMessage × FapiSession
on_data reply s m =
    let t = advance s in
    if is_running s.state
    then (
      record m {
        type = reply;
        version = fapi_msg_version;
        sfn = t.sfn;
        slot = t.slot;
        crc_ok = true;
      },
      t,
    )
    else refuse s m (codes "data/tti requires Running")

-- The `switch` on the message's type.
unfoldable dispatch : FapiMsgType → FapiSession → FapiMessage → FapiMessage × FapiSession
dispatch config_req s m = on_config s m
dispatch start_req s m = on_start s m
dispatch stop_req s m = on_stop s m
dispatch ul_tti_req s m = on_data slot_ind s m
dispatch dl_tti_req s m = on_data slot_ind s m
dispatch tx_data_req s m = on_data crc_ind s m
dispatch slot_ind s m = refuse s m (codes "unexpected message direction for session.handle")
dispatch rx_data_ind s m = refuse s m (codes "unexpected message direction for session.handle")
dispatch crc_ind s m = refuse s m (codes "unexpected message direction for session.handle")
dispatch config_resp s m = refuse s m (codes "unexpected message direction for session.handle")
dispatch error_ind s m = refuse s m (codes "unexpected message direction for session.handle")

unfoldable pub handle : FapiSession → FapiMessage → FapiMessage × FapiSession
unfolding dispatch
handle s m =
    if not (m.version == 0) && not (m.version == fapi_msg_version)
    then refuse s m (codes "unsupported FAPI message version")
    else dispatch m.type s m
