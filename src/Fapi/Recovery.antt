-- ===== src/Fapi/Recovery.antt =====
-- A session can be brought back to service from every state.
use gunnchos_gpu_nr_baseband.Base.{
  ◌≡◌, ◌⊎◌, inl, inr, ◌≢◌, refl, sym, ap, ◌∙◌, arith, List, [], ◌∷◌, length, All,
}
use gunnchos_gpu_nr_baseband.Fapi.{
  FapiState, idle, configured, running, error, FapiMsgType, config_req, start_req, stop_req,
  ul_tti_req, dl_tti_req, tx_data_req, config_resp, slot_ind, rx_data_ind, crc_ind, error_ind,
  FapiMessage, FapiSession, fapi_msg_version, dispatch, handle,
}
use gunnchos_gpu_nr_baseband.Fapi.Runs.{is_data, unless_error, served, served_of, after}

-- A message of a version that the session reads.
abbrev pub IsReadable : FapiMessage → Type 0
IsReadable m = (m.version ≡ 0) ⊎ (m.version ≡ fapi_msg_version)

abbrev pub IsRequest : FapiMessage → Type 0
IsRequest m = IsReadable m × (is_data m.type ≡ 1)

handle-dispatch :
    (s : FapiSession) (m : FapiMessage) → IsReadable m → handle s m ≡ dispatch m.type s m
unfolding handle
handle-dispatch s m v = elim v [ inl e ↦ rw e refl | inr e ↦ rw e refl ]

-- The type of a message that a session reads decides.
typed :
    (s : FapiSession) (m : FapiMessage) (t : FapiMsgType)
    → IsReadable m
    → m.type ≡ t
    → handle s m ≡ dispatch t s m
typed s m t v e = handle-dispatch s m v ∙ ap (λ (u : FapiMsgType). dispatch u s m) e

configured_by :
    (s : FapiSession) (m : FapiMessage)
    → s.state ≢ running
    → (dispatch config_req s m).1.state ≡ configured
unfolding dispatch
configured_by s m d = go s.state d
  where
    go :
        (st : FapiState)
        → st ≢ running
        → (dispatch config_req (record s { state = st }) m).1.state ≡ configured
    go idle n = refl
    go configured n = refl
    go running n = absurd (n refl)
    go error n = refl

stopped_by : (s : FapiSession) (m : FapiMessage) → (dispatch stop_req s m).1.state ≢ running
unfolding dispatch
stopped_by s m = go s.state
  where
    go : (st : FapiState) → (dispatch stop_req (record s { state = st }) m).1.state ≢ running
    go idle e = cc
    go configured e = cc
    go running e = cc
    go error e = cc

started_by :
    (s : FapiSession) (m : FapiMessage)
    → s.state ≡ configured
    → (dispatch start_req s m).1.state ≡ running
unfolding dispatch
started_by s m e = rw e refl

data_step :
    (s : FapiSession) (m : FapiMessage) (t : FapiMsgType)
    → s.state ≡ running
    → is_data t ≡ 1
    → ((dispatch t s m).1.state ≡ running) × (unless_error (dispatch t s m).0.type (is_data t) ≡ 1)
unfolding dispatch
data_step s m ul_tti_req e h = rw e (refl, refl)
data_step s m dl_tti_req e h = rw e (refl, refl)
data_step s m tx_data_req e h = rw e (refl, refl)
data_step s m config_req e h = cc
data_step s m config_resp e h = cc
data_step s m start_req e h = cc
data_step s m stop_req e h = cc
data_step s m slot_ind e h = cc
data_step s m rx_data_ind e h = cc
data_step s m crc_ind e h = cc
data_step s m error_ind e h = cc

-- A running session serves every request for data, and goes on running.
runs_on :
    (s : FapiSession) (ms : List FapiMessage)
    → s.state ≡ running
    → All IsRequest ms
    → ((after s ms).state ≡ running) × (served_of s ms ≡ length ms)
runs_on s [] e h = (e, refl)
runs_on s (m ∷ ms) e h =
    let (readable, request) = h.0 in
    let does = handle-dispatch s m readable in
    let (next, one) = data_step s m m.type e request in
    let (last, rest) =
      runs_on (handle s m).1 ms (ap (λ (r : FapiMessage × FapiSession). r.1.state) does ∙ next)
        h.1 in
    let here : served s m ≡ 1 =
      ap (λ (r : FapiMessage × FapiSession). unless_error r.0.type (is_data m.type)) does ∙ one in
    (last, omega arith)

-- From every state, also from Error, a request to stop, one to configure and one to start bring the session
-- to Running, whatever the first of them is answered; from then on every request for data that follows is
-- served.
pub recovers :
    (s : FapiSession) (stop config start : FapiMessage) (ms : List FapiMessage)
    → IsReadable stop
    → IsReadable config
    → IsReadable start
    → stop.type ≡ stop_req
    → config.type ≡ config_req
    → start.type ≡ start_req
    → All IsRequest ms
    → ((after s (stop ∷ config ∷ start ∷ ms)).state ≡ running)
      × (served_of (after s (stop ∷ config ∷ start ∷ [])) ms ≡ length ms)
recovers s stop config start ms v1 v2 v3 t1 t2 t3 h =
    let s1 : FapiSession = (handle s stop).1 in
    let s2 : FapiSession = (handle s1 config).1 in
    let idle_now : s1.state ≢ running = λ e.
      stopped_by s stop (
        ap (λ (r : FapiMessage × FapiSession). r.1.state) (sym (typed s stop stop_req v1 t1))
        ∙ e) in
    let ready : s2.state ≡ configured =
      ap (λ (r : FapiMessage × FapiSession). r.1.state) (typed s1 config config_req v2 t2)
      ∙ configured_by s1 config idle_now in
    let on : (handle s2 start).1.state ≡ running =
      ap (λ (r : FapiMessage × FapiSession). r.1.state) (typed s2 start start_req v3 t3)
      ∙ started_by s2 start ready in
    runs_on (handle s2 start).1 ms on h
