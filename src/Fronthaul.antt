-- ===== src/Fronthaul.antt =====
-- src/fronthaul.cpp: packets of the user plane with their header bytes, the impairments of the emulator,
-- and the dump of packets in the pcap format. The numbers that the random source draws are a parameter.
mod Headers
mod Impairments
mod Dump
mod Examples
use gunnchos_gpu_nr_baseband.Base.{
  ℕ, zero, suc, ◌+◌, ◌*◌, ◌/◌, ◌%◌, bit_xor, Bool, true, false, ◌&&◌, List, [], ◌∷◌, ◌++◌,
  if◌then◌else◌, ltb, leb, length, get_or, set, take, drop, replicate, Result, ok, throw, ◌>>=◌,
  ◌>>◌, require,
}
use gunnchos_gpu_nr_baseband.Base.Int.{ℤ, pos, negsuc}
use gunnchos_gpu_nr_baseband.Base.Double.{Double}
use gunnchos_gpu_nr_baseband.Base.Signed.{Signed}
use gunnchos_gpu_nr_baseband.Modulation.{Complex}

pub data Plane : Type 0 where
  plane_c plane_u plane_s : Plane

-- `static_cast<uint8_t>(plane)`
abbrev pub plane_byte : Plane → ℕ
plane_byte plane_c = 0
plane_byte plane_u = 1
plane_byte plane_s = 2

pub record EcpriMeta : Type 0 where
  pub pc_id : ℕ
  pub seq_id : ℕ
  pub msg_type : ℕ
  pub timestamp_ns : ℕ
  pub plane : Plane

pub record FhPacket {ℓ} (W : Type ℓ) : Type ℓ where
  pub meta : EcpriMeta
  pub iq : List (Complex W)
  pub raw : List ℕ

pub record FhImpairments {ℓ} (W : Type ℓ) : Type ℓ where
  pub loss_prob : W
  pub reorder_prob : W
  pub delay_packets : ℤ
  pub corrupt_prob : W
  pub seed : ℕ

-- `v & 0xff` and `(v >> 8) & 0xff`
abbrev pub low_byte : ℕ → ℕ
low_byte v = v % 256

abbrev pub high_byte : ℕ → ℕ
high_byte v = v / 256 % 256

-- `p.raw`: the header is written at the front of a vector of zeros.
unfoldable pub raw_of : EcpriMeta → ℕ → List ℕ
raw_of meta size =
    let blank = replicate (16 + size * 16) 0 in
    let typed = set (set blank 0 meta.msg_type) 1 (plane_byte meta.plane) in
    let with_id = set (set typed 2 (low_byte meta.pc_id)) 3 (high_byte meta.pc_id) in
    set (set with_id 4 (low_byte meta.seq_id)) 5 (high_byte meta.seq_id)

unfoldable pub make_u_plane {ℓ} : {W : Type ℓ} → List (Complex W) → ℕ → ℕ → ℕ → FhPacket W
unfolding raw_of
make_u_plane iq pc_id seq t_ns =
    let meta : EcpriMeta = record {
      pc_id = pc_id;
      seq_id = seq;
      msg_type = 0;
      timestamp_ns = t_ns;
      plane = plane_u;
    } in
    record { meta = meta; iq = iq; raw = raw_of meta (length iq) }

module _ {ℓ} {P : Type ℓ} where
  abbrev pub is_empty : List P → Bool
  is_empty [] = true
  is_empty (x ∷ xs) = false

  -- The last of a list that starts with `x`, and what stands before it.
  abbrev pub last_of : P → List P → P
  last_of x [] = x
  last_of x (y ∷ ys) = last_of y ys

  abbrev pub before_last : P → List P → List P
  before_last x [] = []
  before_last x (y ∷ ys) = x ∷ before_last y ys

  -- `std::swap(out[0], out[out.size() - 1])` for two packets or more.
  abbrev pub swap_ends : List P → List P
  swap_ends [] = []
  swap_ends (x ∷ []) = x ∷ []
  swap_ends (x ∷ y ∷ ys) = last_of y ys ∷ (before_last y ys ++ (x ∷ []))

  -- `std::rotate` by the delay, cut to the number of packets.
  abbrev pub rotate_by : ℤ → List P → List P
  rotate_by (pos zero) out = out
  rotate_by (pos (suc n)) [] = []
  rotate_by (pos (suc n)) (x ∷ out) =
      let d = suc n % length (x ∷ out) in drop d (x ∷ out) ++ take d (x ∷ out)
  rotate_by (negsuc n) out = out

-- `p.raw[0] ^= 0xFF`
abbrev pub turn_first : List ℕ → List ℕ
turn_first [] = []
turn_first (b ∷ raw) = bit_xor b 255 ∷ raw

module _ {ℓ} {W : Type ℓ} ⦃d : Double W⦄ ⦃sg : Signed W⦄ where
  -- `p.iq[0] += Complex{10.0, -10.0}`
  abbrev pub shift_first : List (Complex W) → List (Complex W)
  shift_first [] = []
  shift_first (z ∷ iq) =
      record { re = d.add z.re (d.lit 10 1); im = d.add z.im (sg.neg (d.lit 10 1)) } ∷ iq

  abbrev pub corrupted : FhPacket W → FhPacket W
  corrupted p = record p { iq = shift_first p.iq; raw = turn_first p.raw }

  -- The loop over the packets, from draw `k` on: what is passed on, and the next draw.
  abbrev pub pass_on : FhImpairments W → (ℕ → W) → ℕ → List (FhPacket W) → List (FhPacket W) × ℕ
  pass_on imp draws k [] = ([], k)
  pass_on imp draws k (p ∷ pkts) =
      let lost = pass_on imp draws (suc k) pkts in
      let rest = pass_on imp draws (suc (suc k)) pkts in
      let hit = d.lt (draws (suc k)) imp.corrupt_prob in
      let kept = if hit then if is_empty p.iq then p else corrupted p else p in
      if d.lt (draws k) imp.loss_prob then lost else (kept ∷ rest.0, rest.1)

  -- The exchange and the rotation behind the loop.
  abbrev pub reorder : FhImpairments W → W → List (FhPacket W) → List (FhPacket W)
  reorder imp draw out =
      let swaps =
        d.lt (d.lit 0 1) imp.reorder_prob && (leb 2 (length out) && d.lt draw imp.reorder_prob) in
      rotate_by imp.delay_packets (if swaps then swap_ends out else out)

  unfoldable pub apply_impairments :
      FhImpairments W → (ℕ → ℕ → W) → List (FhPacket W) → List (FhPacket W)
  apply_impairments imp random pkts =
      let passed = pass_on imp (random imp.seed) 0 pkts in
      reorder imp (random imp.seed passed.1) passed.0

  unfoldable pub loopback : FhImpairments W → (ℕ → ℕ → W) → List (FhPacket W) → List (FhPacket W)
  unfolding apply_impairments
  loopback imp random pkts = apply_impairments imp random pkts

-- `gh`
abbrev pub global_header : List ℕ
global_header =
    212 ∷ 195 ∷ 178 ∷ 161 ∷ 2 ∷ 0 ∷ 4 ∷ 0 ∷ 0 ∷ 0 ∷ 0 ∷ 0 ∷ 0 ∷ 0 ∷ 0 ∷ 0 ∷ 255 ∷ 255 ∷ 0 ∷ 0 ∷ 1
    ∷ 0 ∷ 0 ∷ 0 ∷ []

-- `ph`, for a length of 32 bits.
abbrev pub packet_header : ℕ → List ℕ
packet_header len =
    let b0 = len % 256 in
    let b1 = len / 256 % 256 in
    let b2 = len / 65536 % 256 in
    let b3 = len / 16777216 % 256 in
    0 ∷ 0 ∷ 0 ∷ 0 ∷ 0 ∷ 0 ∷ 0 ∷ 0 ∷ b0 ∷ b1 ∷ b2 ∷ b3 ∷ b0 ∷ b1 ∷ b2 ∷ b3 ∷ []

abbrev pub packet_records {ℓ} : {W : Type ℓ} → List (FhPacket W) → List ℕ
packet_records [] = []
packet_records (p ∷ pkts) =
    packet_header (length p.raw % 4294967296) ++ p.raw ++ packet_records pkts

-- The bytes that the file gets, where it could be opened.
unfoldable pub write_pcap_dump {ℓ} : {W : Type ℓ} → Bool → List (FhPacket W) → Result (List ℕ)
write_pcap_dump good pkts = do
  require good "cannot open pcap dump path"
  ok (global_header ++ packet_records pkts)
