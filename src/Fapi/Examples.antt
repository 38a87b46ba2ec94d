-- ===== src/Fapi/Examples.antt =====
-- The session and its lines at concrete inputs.
use gunnchos_gpu_nr_baseband.Base.{◌≡◌, refl, ◌≢◌, ◌↔◌, inr, arith, false, List, [], ◌∷◌, ok}
use gunnchos_gpu_nr_baseband.Base.Text.{Bytes, codes, stoul}
use gunnchos_gpu_nr_baseband.Fapi.{
  FapiState, FapiMessage, FapiSession, idle, running, error, config_req, start_req, stop_req,
  tx_data_req, error_ind, handle, reset,
}
use gunnchos_gpu_nr_baseband.Fapi.Session.{
  IsValid, Accepts, handle-IsValid, handle_refines_diagram, handle_rejects,
}
use gunnchos_gpu_nr_baseband.Fapi.Runs.{after, served_of}
use gunnchos_gpu_nr_baseband.Fapi.Recovery.{recovers}
use gunnchos_gpu_nr_baseband.Fapi.Json.{
  json_get, parse_type, from_json_line, to_json_line, run_fixture_lines,
}
use gunnchos_gpu_nr_baseband.Fapi.Json.RoundTrip.{from_json_line-to_json_line}

abbrev request : FapiMessage
request = record {
  version = 1;
  type = config_req;
  sfn = 0;
  slot = 0;
  handle = 7;
  payload = 1 ∷ 0 ∷ [];
  json_meta = [];
  crc_ok = false;
  error = [];
}

abbrev start : FapiMessage
start = record request { type = start_req }

abbrev transmit : FapiMessage
transmit = record request { type = tx_data_req }

-- In slot 19 of frame 1023, so that the next slot is the first of frame 0.
abbrev last_slot : FapiSession
last_slot = record { state = running; slot_count = 20479; sfn = 1023; slot = 19 }

last_slot-IsValid : IsValid last_slot
last_slot-IsValid = omega arith

wraps :
    (handle last_slot transmit).1
    ≡ record { state = running; slot_count = 20480; sfn = 0; slot = 0 }
unfolding handle
wraps = refl

abbrev lines : List Bytes
lines =
    codes "{\"version\":1,\"type\":\"CONFIG_REQ\"}"
    ∷ codes "not json"
    ∷ codes "{\"type\": \"TX_DATA_REQ\", \"handle\": 3}"
    ∷ []

-- The second line cannot be read and the third comes before any START_REQ.
two_errors : (run_fixture_lines lines reset).0 ≡ 2
unfolding run_fixture_lines from_json_line json_get parse_type stoul handle reset
two_errors = refl

handle-IsValid_example : IsValid (handle last_slot transmit).1
handle-IsValid_example = handle-IsValid last_slot transmit last_slot-IsValid

handle_refines_diagram_example :
    (((handle last_slot transmit).0.type ≢ error_ind)
      × ((handle last_slot transmit).1.state ≡ running))
    ↔ Accepts running tx_data_req running
handle_refines_diagram_example = handle_refines_diagram last_slot transmit running (inr refl)

abbrev new_session : FapiSession
new_session = record { state = idle; slot_count = 0; sfn = 0; slot = 0 }

not-Accepts : (b : FapiState) → ¬ Accepts idle start_req b
not-Accepts b e = elim e [ ]

-- A START_REQ before any CONFIG_REQ.
handle_rejects_example :
    ((handle new_session start).0.type ≡ error_ind)
    × ((handle new_session start).1 ≡ record new_session { state = error })
handle_rejects_example = handle_rejects new_session start (inr not-Accepts)

abbrev session : List FapiMessage
session = transmit ∷ transmit ∷ request ∷ transmit ∷ []

from_json_line-to_json_line_example :
    from_json_line (to_json_line request)
    ≡ ok (record request {
      payload = [];
      json_meta = to_json_line request;
      crc_ok = false;
      error = [];
    })
from_json_line-to_json_line_example =
    from_json_line-to_json_line request (omega arith) (omega arith) (omega arith) (omega arith)

-- A session in the state Error.
abbrev broken : FapiSession
broken = record { state = error; slot_count = 3; sfn = 0; slot = 3 }

abbrev stop : FapiMessage
stop = record request { type = stop_req }

recovers_example :
    ((after broken (stop ∷ request ∷ start ∷ transmit ∷ transmit ∷ [])).state ≡ running)
    × (served_of (after broken (stop ∷ request ∷ start ∷ [])) (transmit ∷ transmit ∷ []) ≡ 2)
recovers_example =
    recovers broken stop request start (transmit ∷ transmit ∷ []) (inr refl) (inr refl) (inr refl)
      refl refl refl ((inr refl, refl), ((inr refl, refl), tt))
