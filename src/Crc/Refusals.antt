-- ===== src/Crc/Refusals.antt =====
-- The exceptions of `crc_attach` and `crc_check`.
use gunnchos_gpu_nr_baseband.Base.{
  ℕ, ◌≤◌, ◌≡◌, arith, if◌then◌else◌, leb, List, [], ◌∷◌, ◌++◌, length, All, throw,
}
use gunnchos_gpu_nr_baseband.Crc.{
  CrcType, CrcSpec, spec, crc_loop, compute_crc, crc_attach, crc_check, crc_length_bits,
}
use gunnchos_gpu_nr_baseband.Crc.Codeword.{IsBit, round}

crc_loop_throws :
    (s : CrcSpec) (crc : ℕ) (pre post : List ℕ) (x : ℕ)
    → All IsBit pre
    → 2 ≤ x
    → crc_loop s crc (pre ++ (x ∷ post)) ≡ throw "CRC input must be 0/1 bits"
unfolding crc_loop
crc_loop_throws s crc [] post x h big = ground arith
crc_loop_throws s crc (y ∷ pre) post x h big =
    ground (arith, crc_loop_throws s (round s crc y) pre post x h.1 big)

-- What `crc_check` refuses with an exception: a block that is shorter than the CRC, and one that
-- holds a value other than 0 and 1. `crc_attach` refuses the latter as a payload.
crc_refuses :
    (t : CrcType) (pre post : List ℕ) (x : ℕ)
    → All IsBit pre
    → 2 ≤ x
    → (crc_attach (pre ++ (x ∷ post)) t ≡ throw "CRC input must be 0/1 bits")
      × (crc_check (pre ++ (x ∷ post)) t ≡ (
          if leb (crc_length_bits t) (length (pre ++ (x ∷ post)))
          then throw "CRC input must be 0/1 bits"
          else throw "coded block shorter than CRC"))
unfolding crc_attach crc_check compute_crc crc_length_bits
crc_refuses t pre post x h big =
    let stops = crc_loop_throws (spec t) 0 pre post x h big in (rw stops, rw stops (ground arith))
