-- ===== src/Fapi/Json/Fixtures.antt =====
-- `fapi_run_fixture_lines` against the session's own sequence of messages.
use gunnchos_gpu_nr_baseband.Base.{
  ℕ, suc, ◌+◌, ◌≤◌, ◌≡◌, refl, arith, List, [], ◌∷◌, length, if◌then◌else◌, Result, ok, throw,
}
use gunnchos_gpu_nr_baseband.Base.Text.{Bytes}
use gunnchos_gpu_nr_baseband.Fapi.{FapiMessage, FapiSession, handle}
use gunnchos_gpu_nr_baseband.Fapi.Json.{
  from_json_line, is_error_ind, fixture_line, run_fixture_lines,
}
use gunnchos_gpu_nr_baseband.Fapi.Session.{IsValid}
use gunnchos_gpu_nr_baseband.Fapi.Runs.{after, after-IsValid}

abbrev pub message_of : Result FapiMessage → List FapiMessage → List FapiMessage
message_of (throw e) ms = ms
message_of (ok m) ms = m ∷ ms

-- The messages of the lines that can be read.
abbrev pub messages : List Bytes → List FapiMessage
messages [] = []
messages (line ∷ lines) = message_of (from_json_line line) (messages lines)

abbrev pub refused : FapiSession → List FapiMessage → ℕ
refused s [] = 0
refused s (m ∷ ms) = (if is_error_ind (handle s m).0.type then 1 else 0) + refused (handle s m).1 ms

abbrev pub failed : Result FapiMessage → ℕ
failed (ok m) = 0
failed (throw e) = 1

-- Lines that cannot be read.
abbrev pub unreadable : List Bytes → ℕ
unreadable [] = 0
unreadable (line ∷ lines) = failed (from_json_line line) + unreadable lines

pub run_fixture_lines_lem :
    (lines : List Bytes) (s : FapiSession)
    → run_fixture_lines lines s
      ≡ (unreadable lines + refused s (messages lines), after s (messages lines))
unfolding run_fixture_lines
run_fixture_lines_lem [] s = refl
run_fixture_lines_lem (line ∷ lines) s = step (run_fixture_lines_lem lines) (from_json_line line)
  where
    step :
        ((t : FapiSession)
          → run_fixture_lines lines t
            ≡ (unreadable lines + refused t (messages lines), after t (messages lines)))
        → (r : Result FapiMessage)
        → (let (n, t) = fixture_line s r in
            let (errors, u) = run_fixture_lines lines t in
            let both : ℕ × FapiSession = (n + errors, u) in both)
          ≡ (
            failed r + unreadable lines + refused s (message_of r (messages lines)),
            after s (message_of r (messages lines)),
          )
    step ih (ok m) = ground (arith, ih (handle s m).1)
    step ih (throw e) = ground (arith, ih s)

refused-le : (s : FapiSession) (ms : List FapiMessage) → refused s ms ≤ length ms
refused-le s [] = omega arith
refused-le s (m ∷ ms) = ground (arith, refused-le (handle s m).1 ms)

message_or_failure :
    (r : Result FapiMessage) (ms : List FapiMessage)
    → failed r + length (message_of r ms) ≡ suc (length ms)
message_or_failure (ok m) ms = omega arith
message_or_failure (throw e) ms = omega arith

readable_count : (lines : List Bytes) → unreadable lines + length (messages lines) ≡ length lines
readable_count [] = omega arith
readable_count (line ∷ lines) =
    omega (arith, message_or_failure (from_json_line line) (messages lines), readable_count lines)

-- A fixture of any bytes reports at most one error for each line, and leaves a valid session valid.
run_fixture_lines_bound :
    (lines : List Bytes) (s : FapiSession)
    → IsValid s
    → let (errors, t) = run_fixture_lines lines s in (errors ≤ length lines) × IsValid t
run_fixture_lines_bound lines s v = rw (run_fixture_lines_lem lines s) (
  omega (arith, refused-le s (messages lines), readable_count lines),
  after-IsValid s (messages lines) v,
)
