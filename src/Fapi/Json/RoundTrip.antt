-- ===== src/Fapi/Json/RoundTrip.antt =====
-- `fapi_from_json_line` after `fapi_to_json_line`.
use gunnchos_gpu_nr_baseband.Base.{
  ℕ, ◌^◌, ◌<◌, ◌≡◌, refl, ◌≢◌, ◌∙◌, ap, arith, false, [], ◌∷◌, ◌++◌, some, ok, ◌>>=◌, u16, u32, All,
}
use gunnchos_gpu_nr_baseband.Base.Text.{Bytes, codes, find_text, decimal, stoul}
use gunnchos_gpu_nr_baseband.Base.Text.Decimal.{
  IsDigit, decimal-IsDigit, decimal-ne-nil, stoul-decimal, find_text-decimal,
}
use gunnchos_gpu_nr_baseband.Fapi.{FapiMsgType, FapiMessage, config_req}
use gunnchos_gpu_nr_baseband.Fapi.Json.{
  type_name, parse_type, until_quote, digits_and_dashes, json_value, json_get, after_key, number_or,
  from_json_line, to_json_line,
}

digits_and_dashes_digits :
    (xs ys : Bytes) → All IsDigit xs → digits_and_dashes (xs ++ (b',' ∷ ys)) ≡ xs
digits_and_dashes_digits [] ys h = refl
digits_and_dashes_digits (x ∷ xs) ys h = ground (arith, digits_and_dashes_digits xs ys h.1)

json_value_digits : (xs ys : Bytes) → All IsDigit xs → xs ≢ [] → json_value (xs ++ (b',' ∷ ys)) ≡ xs
json_value_digits [] ys h e = absurd (e refl)
json_value_digits (x ∷ xs) ys h e = ground (arith, digits_and_dashes_digits (x ∷ xs) ys h)

json_value-decimal : (n : ℕ) (ys : Bytes) → json_value (decimal n ++ (b',' ∷ ys)) ≡ decimal n
json_value-decimal n ys = json_value_digits (decimal n) ys (decimal-IsDigit n) (decimal-ne-nil n)

number_or_digits :
    (default : ℕ) (cast : ℕ → ℕ) (xs : Bytes)
    → xs ≢ []
    → number_or default cast xs ≡ (stoul xs >>= λ n. ok (cast n))
number_or_digits default cast [] e = absurd (e refl)
number_or_digits default cast (x ∷ xs) e = refl

number_or-decimal :
    (default : ℕ) (cast : ℕ → ℕ) (n : ℕ)
    → n < 2 ^ 64
    → cast n ≡ n
    → number_or default cast (decimal n) ≡ ok n
number_or-decimal default cast n h e =
    number_or_digits default cast (decimal n) (decimal-ne-nil n) ∙ rw (stoul-decimal n h) (ap ok e)

-- The type's field holds no key that is looked up after it.
abbrev SkipsType : Bytes → Type 0
SkipsType key =
    (t : FapiMsgType) (ys : Bytes)
    → find_text key (codes ",\"type\":\"" ++ (type_name t ++ ys)) ≡ find_text key ys

sfn-SkipsType : SkipsType (codes "\"sfn\"")
sfn-SkipsType config_req ys = refl
sfn-SkipsType _ ys = refl

slot-SkipsType : SkipsType (codes "\"slot\"")
slot-SkipsType config_req ys = refl
slot-SkipsType _ ys = refl

handle-SkipsType : SkipsType (codes "\"handle\"")
handle-SkipsType config_req ys = refl
handle-SkipsType _ ys = refl

until_quote-type_name :
    (t : FapiMsgType) (ys : Bytes) → until_quote (type_name t ++ (b'"' ∷ ys)) ≡ type_name t
until_quote-type_name config_req ys = refl
until_quote-type_name _ ys = refl

parse_type-type_name : (t : FapiMsgType) → parse_type (type_name t) ≡ some t
unfolding parse_type
parse_type-type_name config_req = refl
parse_type-type_name _ = refl

-- A line, and what stands in it behind the type's name.
module _ (v f s h : ℕ) (t : FapiMsgType) (end : Bytes) where
  abbrev after_handle : Bytes
  after_handle = b',' ∷ end

  abbrev after_slot : Bytes
  after_slot = codes ",\"handle\":" ++ (decimal h ++ after_handle)

  abbrev after_sfn : Bytes
  after_sfn = codes ",\"slot\":" ++ (decimal s ++ after_slot)

  abbrev after_type : Bytes
  after_type = codes "\",\"sfn\":" ++ (decimal f ++ after_sfn)

  abbrev after_version : Bytes
  after_version = codes ",\"type\":\"" ++ (type_name t ++ after_type)

  abbrev line_of : Bytes
  line_of = codes "{\"version\":" ++ (decimal v ++ after_version)

  get_version : json_get (codes "version") line_of ≡ decimal v
  unfolding json_get
  get_version = json_value-decimal v _

  get_type : json_get (codes "type") line_of ≡ type_name t
  unfolding json_get
  get_type = rw find_text-decimal (until_quote-type_name t _)

  get_sfn : json_get (codes "sfn") line_of ≡ decimal f
  unfolding json_get
  get_sfn =
      let key = codes "sfn\"" in
      ap after_key (find_text-decimal key v after_version ∙ sfn-SkipsType t after_type)
      ∙ json_value-decimal f (codes "\"slot\":" ++ (decimal s ++ after_slot))

  get_slot : json_get (codes "slot") line_of ≡ decimal s
  unfolding json_get
  get_slot =
      let key = codes "slot\"" in
      ap after_key (
        find_text-decimal key v after_version
        ∙ slot-SkipsType t after_type
        ∙ find_text-decimal key f after_sfn)
      ∙ json_value-decimal s (codes "\"handle\":" ++ (decimal h ++ after_handle))

  get_handle : json_get (codes "handle") line_of ≡ decimal h
  unfolding json_get
  get_handle =
      let key = codes "handle\"" in
      ap after_key (
        find_text-decimal key v after_version
        ∙ handle-SkipsType t after_type
        ∙ find_text-decimal key f after_sfn
        ∙ find_text-decimal key s after_slot)
      ∙ json_value-decimal h end

  from_json_line-line_of :
      v < 2 ^ 16
      → f < 2 ^ 32
      → s < 2 ^ 32
      → h < 2 ^ 32
      → from_json_line line_of
        ≡ ok (record {
          version = v;
          type = t;
          sfn = f;
          slot = s;
          handle = h;
          payload = [];
          json_meta = line_of;
          crc_ok = false;
          error = [];
        })
  unfolding from_json_line
  from_json_line-line_of hv hf hs hh = rw (
    get_type,
    get_version,
    get_sfn,
    get_slot,
    get_handle,
    parse_type-type_name t,
    number_or-decimal 1 u16 v (omega arith) (omega arith),
    number_or-decimal 0 u32 f (omega arith) (omega arith),
    number_or-decimal 0 u32 s (omega arith) (omega arith),
    number_or-decimal 0 u32 h (omega arith) (omega arith),
  )

-- Reading a line that was written gives back the version, the type, the frame, the slot and the
-- handle, if they fit their widths; `json_meta` is the line itself, and the rest has its defaults.
pub from_json_line-to_json_line :
    (m : FapiMessage)
    → m.version < 2 ^ 16
    → m.sfn < 2 ^ 32
    → m.slot < 2 ^ 32
    → m.handle < 2 ^ 32
    → from_json_line (to_json_line m)
      ≡ ok (record m { payload = []; json_meta = to_json_line m; crc_ok = false; error = [] })
unfolding to_json_line
from_json_line-to_json_line m hv hf hs hh =
    from_json_line-line_of m.version m.sfn m.slot m.handle m.type _ hv hf hs hh
