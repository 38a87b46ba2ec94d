-- ===== src/Fapi/Session.antt =====
-- `FapiSession::handle` (src/fapi.cpp) on every branch, and the diagram of its states.
use gunnchos_gpu_nr_baseband.Base.{
  ◌^◌, ◌<◌, ◌≡◌, refl, ◌≢◌, ◌↔◌, ◌⊎◌, arith, Option, none, some, Option-cases, inl, inr,
}
use mathlib.Core.Option.{some-injective}
use gunnchos_gpu_nr_baseband.Fapi.{
  FapiState, FapiMsgType, FapiMessage, FapiSession, idle, configured, running, error, config_req,
  start_req, stop_req, ul_tti_req, dl_tti_req, tx_data_req, error_ind, handle, reset,
}

-- What the session keeps between two messages.
pub record IsValid (s : FapiSession) : Type 0 where
  pub slot_below : s.slot < 20
  pub sfn_below : s.sfn < 1024
  pub count_below : s.slot_count < 2 ^ 32

pub reset-IsValid : IsValid reset
unfolding reset
reset-IsValid = omega arith

-- `handle` keeps the slot below 20, the frame number below 1024 and the slot count in 32 bits,
-- whatever the message is.
pub handle-IsValid : (s : FapiSession) (m : FapiMessage) → IsValid s → IsValid (handle s m).1
unfolding handle
handle-IsValid s m v = ground arith

-- The versions that `handle` accepts.
abbrev pub IsSupported : FapiMessage → Type 0
IsSupported m = (m.version ≡ 0) ⊎ (m.version ≡ 1)

-- The diagram: which message is accepted in which state, and the state it leads to.
pub data Accepts : FapiState → FapiMsgType → FapiState → Type 0 where
  first_config : Accepts idle config_req configured
  reconfig : Accepts configured config_req configured
  recover : Accepts error config_req configured
  start : Accepts configured start_req running
  stop : Accepts running stop_req configured
  stop_error : Accepts error stop_req configured
  uplink : Accepts running ul_tti_req running
  downlink : Accepts running dl_tti_req running
  tx_data : Accepts running tx_data_req running

-- The diagram as a table.
abbrev target : FapiState → FapiMsgType → Option FapiState
target idle config_req = some configured
target configured config_req = some configured
target error config_req = some configured
target configured start_req = some running
target running stop_req = some configured
target error stop_req = some configured
target running ul_tti_req = some running
target running dl_tti_req = some running
target running tx_data_req = some running
target _ _ = none

target-Accepts :
    (a : FapiState) (t : FapiMsgType) (b : FapiState) → target a t ≡ some b → Accepts a t b
target-Accepts idle config_req b e = rw (← some-injective _ _ e) first_config
target-Accepts configured config_req b e = rw (← some-injective _ _ e) reconfig
target-Accepts error config_req b e = rw (← some-injective _ _ e) recover
target-Accepts configured start_req b e = rw (← some-injective _ _ e) start
target-Accepts running stop_req b e = rw (← some-injective _ _ e) stop
target-Accepts error stop_req b e = rw (← some-injective _ _ e) stop_error
target-Accepts running ul_tti_req b e = rw (← some-injective _ _ e) uplink
target-Accepts running dl_tti_req b e = rw (← some-injective _ _ e) downlink
target-Accepts running tx_data_req b e = rw (← some-injective _ _ e) tx_data
target-Accepts _ _ b e = cc

-- An answer that is no ERROR_IND follows an edge of the diagram.
target-handle :
    (s : FapiSession) (m : FapiMessage)
    → (handle s m).0.type ≢ error_ind
    → target s.state m.type ≡ some (handle s m).1.state
unfolding handle
target-handle s m h = ground arith

Accepts-handle :
    {a b : FapiState} {t : FapiMsgType}
    → Accepts a t b
    → (s : FapiSession) (m : FapiMessage) → s.state ≡ a
    → m.type ≡ t
    → IsSupported m
    → ((handle s m).0.type ≢ error_ind) × ((handle s m).1.state ≡ b)
unfolding handle
Accepts-handle first_config s m p q v = ground arith
Accepts-handle reconfig s m p q v = ground arith
Accepts-handle recover s m p q v = ground arith
Accepts-handle start s m p q v = ground arith
Accepts-handle stop s m p q v = ground arith
Accepts-handle stop_error s m p q v = ground arith
Accepts-handle uplink s m p q v = ground arith
Accepts-handle downlink s m p q v = ground arith
Accepts-handle tx_data s m p q v = ground arith

-- `handle` implements the diagram. On a message of a supported version the answer is no ERROR_IND
-- and the new state is `b` exactly when the diagram has an edge to `b` from the session's state by
-- the message's type.
pub handle_refines_diagram :
    (s : FapiSession) (m : FapiMessage) (b : FapiState)
    → IsSupported m
    → (((handle s m).0.type ≢ error_ind) × ((handle s m).1.state ≡ b)) ↔ Accepts s.state m.type b
handle_refines_diagram s m b v = (
  (λ h. rw (h.1) at (target-Accepts s.state m.type _ (target-handle s m h.0))),
  λ e. Accepts-handle e s m refl refl v,
)

-- Every answer carries version 1 and the request's handle and payload. It is an ERROR_IND exactly
-- when the session is in state Error afterwards, and then the slot counters are as before.
handle_answer :
    (s : FapiSession) (m : FapiMessage)
    → let (out, t) = handle s m in
      (out.version ≡ 1)
      × (out.handle ≡ m.handle)
      × (out.payload ≡ m.payload)
      × ((out.type ≡ error_ind) ↔ (t.state ≡ error))
      × (out.type ≡ error_ind → (t.slot_count ≡ s.slot_count) × (t.sfn ≡ s.sfn) × (t.slot ≡ s.slot))
unfolding handle
handle_answer s m = ground arith

-- A message that the diagram has no edge for.
refused_without_edge :
    (s : FapiSession) (m : FapiMessage)
    → target s.state m.type ≡ none
    → ((handle s m).0.type ≡ error_ind) × ((handle s m).1 ≡ record s { state = error })
unfolding handle
refused_without_edge s m e = ground arith

unsupported :
    (s : FapiSession) (m : FapiMessage)
    → ¬ IsSupported m
    → ((handle s m).0.type ≡ error_ind) × ((handle s m).1 ≡ record s { state = error })
unfolding handle
unsupported s m h = ground arith

-- A message of an unsupported version, and one that the diagram has no edge for in the session's state,
-- whether it comes in the wrong state or only the session sends its type, is answered by an ERROR_IND, and
-- puts the session into the state Error with its counters as before.
pub handle_rejects :
    (s : FapiSession) (m : FapiMessage)
    → (¬ IsSupported m) ⊎ ((b : FapiState) → ¬ Accepts s.state m.type b)
    → ((handle s m).0.type ≡ error_ind) × ((handle s m).1 ≡ record s { state = error })
handle_rejects s m h = elim h [
  | inl old ↦ unsupported s m old
  | inr no_edge ↦ elim (Option-cases (target s.state m.type)) [
    | inl e ↦ refused_without_edge s m e
    | inr (b, e) ↦ absurd (no_edge b (target-Accepts s.state m.type b e))
  ]
]
