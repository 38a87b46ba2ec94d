-- ===== src/Fapi/Runs.antt =====
-- What a sequence of messages does to a session's clock.
use gunnchos_gpu_nr_baseband.Base.{ℕ, ◌+◌, ◌*◌, ◌%◌, ◌≡◌, arith, List, [], ◌∷◌, u32}
use gunnchos_gpu_nr_baseband.Fapi.{
  FapiMessage, FapiSession, FapiMsgType, ul_tti_req, dl_tti_req, tx_data_req, error_ind, handle,
}
use gunnchos_gpu_nr_baseband.Fapi.Session.{IsValid, handle-IsValid}

-- A request for a slot of data.
abbrev pub is_data : FapiMsgType → ℕ
is_data ul_tti_req = 1
is_data dl_tti_req = 1
is_data tx_data_req = 1
is_data _ = 0

-- 1 for an answer that refuses nothing.
abbrev pub unless_error : FapiMsgType → ℕ → ℕ
unless_error error_ind n = 0
unless_error _ n = n

-- 1 if the session serves the message as a slot of data.
abbrev pub served : FapiSession → FapiMessage → ℕ
served s m = unless_error (handle s m).0.type (is_data m.type)

-- Slots since frame 0, in the cycle of 1024 frames of 20 slots.
abbrev pub clock : FapiSession → ℕ
clock s = s.sfn * 20 + s.slot

clock-handle :
    (s : FapiSession) (m : FapiMessage)
    → IsValid s
    → (clock (handle s m).1 ≡ (clock s + served s m) % 20480)
      × ((handle s m).1.slot_count ≡ u32 (s.slot_count + served s m))
unfolding handle
clock-handle s m v = ground arith

-- The messages one after another.
abbrev pub after : FapiSession → List FapiMessage → FapiSession
after s [] = s
after s (m ∷ ms) = after (handle s m).1 ms

abbrev pub served_of : FapiSession → List FapiMessage → ℕ
served_of s [] = 0
served_of s (m ∷ ms) = served s m + served_of (handle s m).1 ms

pub after-IsValid : (s : FapiSession) (ms : List FapiMessage) → IsValid s → IsValid (after s ms)
after-IsValid s [] v = v
after-IsValid s (m ∷ ms) v = after-IsValid (handle s m).1 ms (handle-IsValid s m v)

-- From a valid session, any sequence of messages moves the clock, modulo 1024 frames of 20 slots,
-- and the slot count, modulo 2^32, by the number of data requests that were served, and keeps the
-- session valid.
clock-after :
    (s : FapiSession) (ms : List FapiMessage)
    → IsValid s
    → IsValid (after s ms)
      × (clock (after s ms) ≡ (clock s + served_of s ms) % 20480)
      × ((after s ms).slot_count ≡ u32 (s.slot_count + served_of s ms))
clock-after s [] v = (v, omega arith, omega arith)
clock-after s (m ∷ ms) v =
    let (valid, time, count) = clock-after (handle s m).1 ms (handle-IsValid s m v) in
    let (step, one) = clock-handle s m v in (valid, omega arith, omega arith)
