-- ===== src/Fapi/Json.antt =====
-- The line format of src/fapi.cpp: `type_name`, `parse_type`, `fapi_from_json_line`,
-- `fapi_to_json_line` and `fapi_run_fixture_lines`. A position in the line is kept as what stands
-- from there on.
pub mod RoundTrip
pub mod Fixtures
use gunnchos_gpu_nr_baseband.Base.{
  ℕ, ◌+◌, ◌≡◌, refl, Bool, true, false, ◌||◌, List, [], ◌∷◌, ◌++◌, Option, none, some,
  if◌then◌else◌, ◌==◌, Result, ok, throw, ◌>>=◌, u16, u32,
}
use gunnchos_gpu_nr_baseband.Base.Text.{
  Bytes, codes, is_digit, bytes_eq, find_text, find_byte, decimal, stoul,
}
use gunnchos_gpu_nr_baseband.Fapi.{
  FapiMsgType, FapiMessage, FapiSession, config_req, config_resp, start_req, stop_req, slot_ind,
  ul_tti_req, dl_tti_req, tx_data_req, rx_data_ind, crc_ind, error_ind, fapi_msg_version, handle,
}

abbrev pub type_name : FapiMsgType → Bytes
type_name config_req = codes "CONFIG_REQ"
type_name config_resp = codes "CONFIG_RESP"
type_name start_req = codes "START_REQ"
type_name stop_req = codes "STOP_REQ"
type_name slot_ind = codes "SLOT_IND"
type_name ul_tti_req = codes "UL_TTI_REQ"
type_name dl_tti_req = codes "DL_TTI_REQ"
type_name tx_data_req = codes "TX_DATA_REQ"
type_name rx_data_ind = codes "RX_DATA_IND"
type_name crc_ind = codes "CRC_IND"
type_name error_ind = codes "ERROR_IND"

unfoldable pub parse_type : Bytes → Option FapiMsgType
parse_type s =
    if bytes_eq s (codes "CONFIG_REQ")
    then some config_req
    else if bytes_eq s (codes "CONFIG_RESP")
    then some config_resp
    else if bytes_eq s (codes "START_REQ")
    then some start_req
    else if bytes_eq s (codes "STOP_REQ")
    then some stop_req
    else if bytes_eq s (codes "SLOT_IND")
    then some slot_ind
    else if bytes_eq s (codes "UL_TTI_REQ")
    then some ul_tti_req
    else if bytes_eq s (codes "DL_TTI_REQ")
    then some dl_tti_req
    else if bytes_eq s (codes "TX_DATA_REQ")
    then some tx_data_req
    else if bytes_eq s (codes "RX_DATA_IND")
    then some rx_data_ind
    else if bytes_eq s (codes "CRC_IND")
    then some crc_ind
    else if bytes_eq s (codes "ERROR_IND")
    then some error_ind
    else none

-- Up to the next quote, or all that is left: `substr` clamps the count when `find` fails.
abbrev pub until_quote : Bytes → Bytes
until_quote [] = []
until_quote (c ∷ cs) = if c == b'"' then [] else c ∷ until_quote cs

abbrev pub digits_and_dashes : Bytes → Bytes
digits_and_dashes [] = []
digits_and_dashes (c ∷ cs) = if is_digit c || c == b'-' then c ∷ digits_and_dashes cs else []

-- What stands behind the colon: blanks, then a quoted text or digits.
abbrev pub json_value : Bytes → Bytes
json_value [] = []
json_value (c ∷ cs) =
    if c == b'"'
    then until_quote cs
    else if c == b' '
    then json_value cs
    else digits_and_dashes (c ∷ cs)

abbrev after_key : Option Bytes → Bytes
after_key none = []
after_key (some r) = elim (find_byte b':' r) [ none ↦ [] | some v ↦ json_value v ]

-- The lambda `get`.
unfoldable pub json_get : Bytes → Bytes → Bytes
json_get key line = after_key (find_text (b'"' ∷ (key ++ (b'"' ∷ []))) line)

-- `if (auto s = get(key); !s.empty()) field = static_cast<...>(std::stoul(s))`
abbrev number_or : ℕ → (ℕ → ℕ) → Bytes → Result ℕ
number_or default cast [] = ok default
number_or default cast (c ∷ cs) = stoul (c ∷ cs) >>= λ n. ok (cast n)

abbrev required_type : Option FapiMsgType → Result FapiMsgType
required_type none = throw "invalid FAPI type in JSON"
required_type (some t) = ok t

unfoldable pub from_json_line : Bytes → Result FapiMessage
from_json_line line = do
  t ← required_type (parse_type (json_get (codes "type") line))
  v ← number_or fapi_msg_version u16 (json_get (codes "version") line)
  f ← number_or 0 u32 (json_get (codes "sfn") line)
  s ← number_or 0 u32 (json_get (codes "slot") line)
  h ← number_or 0 u32 (json_get (codes "handle") line)
  ok (record {
    version = v;
    type = t;
    sfn = f;
    slot = s;
    handle = h;
    payload = [];
    json_meta = line;
    crc_ok = false;
    error = [];
  })

-- `if (!m.error.empty()) oss << ...`
abbrev error_part : Bytes → Bytes
error_part [] = []
error_part (c ∷ cs) = codes ",\"error\":\"" ++ (c ∷ cs) ++ codes "\""

unfoldable pub to_json_line : FapiMessage → Bytes
to_json_line m =
    codes "{\"version\":"
    ++ (decimal m.version
        ++ (codes ",\"type\":\""
            ++ (type_name m.type
                ++ (codes "\",\"sfn\":"
                    ++ (decimal m.sfn
                        ++ (codes ",\"slot\":"
                            ++ (decimal m.slot
                                ++ (codes ",\"handle\":"
                                    ++ (decimal m.handle
                                        ++ (codes ",\"crc_ok\":"
                                            ++ ((if m.crc_ok then codes "true" else codes "false")
                                                ++ (error_part m.error ++ codes "}"))))))))))))

abbrev is_error_ind : FapiMsgType → Bool
is_error_ind error_ind = true
is_error_ind _ = false

-- The body of the loop: what one line adds to `errors`, and the session after it.
abbrev pub fixture_line : FapiSession → Result FapiMessage → ℕ × FapiSession
fixture_line s (throw e) = (1, s)
fixture_line s (ok m) = let (out, t) = handle s m in (if is_error_ind out.type then 1 else 0, t)

unfoldable pub run_fixture_lines : List Bytes → FapiSession → ℕ × FapiSession
run_fixture_lines [] s = (0, s)
run_fixture_lines (line ∷ lines) s =
    let (n, t) = fixture_line s (from_json_line line) in
    let (errors, u) = run_fixture_lines lines t in (n + errors, u)

-- A test: the fields are read back, blanks and defaults included.
reads_back :
    json_get (codes "slot") (codes "{\"type\": \"START_REQ\", \"slot\" :  17}") ≡ codes "17"
unfolding json_get
reads_back = refl
