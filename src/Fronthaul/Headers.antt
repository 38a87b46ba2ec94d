-- ===== src/Fronthaul/Headers.antt =====
-- The header bytes of a packet of the user plane.
use gunnchos_gpu_nr_baseband.Base.{
  ℕ, suc, ◌+◌, ◌*◌, ◌<◌, ◌≡◌, refl, arith, List, ◌∷◌, length, get_or, replicate, length-replicate,
}
use gunnchos_gpu_nr_baseband.Modulation.{Complex}
use gunnchos_gpu_nr_baseband.Fronthaul.{
  EcpriMeta, plane_u, plane_byte, low_byte, high_byte, raw_of, make_u_plane,
}

-- What a receiver reads from the first bytes of a packet.
abbrev pub id_in : List ℕ → ℕ
id_in raw = get_or raw 2 0 + 256 * get_or raw 3 0

abbrev pub seq_in : List ℕ → ℕ
seq_in raw = get_or raw 4 0 + 256 * get_or raw 5 0

-- The front of the vector is there for any number of samples.
raw_of-front :
    (meta : EcpriMeta) (size : ℕ)
    → raw_of meta size
      ≡ meta.msg_type
        ∷ plane_byte meta.plane
        ∷ low_byte meta.pc_id
        ∷ high_byte meta.pc_id
        ∷ low_byte meta.seq_id
        ∷ high_byte meta.seq_id
        ∷ replicate (10 + size * 16) 0
unfolding raw_of
raw_of-front meta size =
    let long : 16 + size * 16 ≡ suc (suc (suc (suc (suc (suc (10 + size * 16)))))) = omega arith in
    rw long refl

-- A packet of the user plane has 16 bytes of header and 16 for each sample; its first bytes say that it is
-- an IQ message of the user plane, and carry the identifiers of the channel and of the sequence, which are
-- read back from them where they fit in 16 bits.
make_u_plane_header {ℓ} :
    {W : Type ℓ} (iq : List (Complex W)) (pc_id seq t_ns : ℕ)
    → pc_id < 65536
    → seq < 65536
    → (length (make_u_plane iq pc_id seq t_ns).raw ≡ 16 + 16 * length iq)
      × (get_or (make_u_plane iq pc_id seq t_ns).raw 0 0 ≡ 0)
      × (get_or (make_u_plane iq pc_id seq t_ns).raw 1 0 ≡ 1)
      × (id_in (make_u_plane iq pc_id seq t_ns).raw ≡ pc_id)
      × (seq_in (make_u_plane iq pc_id seq t_ns).raw ≡ seq)
unfolding make_u_plane
make_u_plane_header iq pc_id seq t_ns p q =
    let meta : EcpriMeta = record {
      pc_id = pc_id;
      seq_id = seq;
      msg_type = 0;
      timestamp_ns = t_ns;
      plane = plane_u;
    } in
    let front = raw_of-front meta (length iq) in
    let size = length-replicate {A = ℕ} (10 + length iq * 16) 0 in
    rw front (omega arith, refl, refl, omega arith, omega arith)
