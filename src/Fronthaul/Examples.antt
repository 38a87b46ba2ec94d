-- ===== src/Fronthaul/Examples.antt =====
-- Three packets through the emulator, and the bytes of a packet.
use mathlib.Core.List.{Perm, Sublistᴰ}
use gunnchos_gpu_nr_baseband.Base.{
  ℕ, zero, suc, ◌≡◌, refl, arith, true, List, [], ◌∷◌, ◌++◌, map, take, drop, ok,
}
use gunnchos_gpu_nr_baseband.Base.Int.{ℤ, pos}
use gunnchos_gpu_nr_baseband.Base.Signed.{milli_int, milli_signed}
use gunnchos_gpu_nr_baseband.Modulation.{Complex}
use gunnchos_gpu_nr_baseband.Fronthaul.{
  FhPacket, FhImpairments, plane_u, apply_impairments, global_header, packet_records,
  write_pcap_dump,
}
use gunnchos_gpu_nr_baseband.Fronthaul.Impairments.{apply_impairments-Sublist}
use gunnchos_gpu_nr_baseband.Fronthaul.Dump.{read_records, write_pcap_dump_reads}

abbrev sample : List (Complex ℤ)
sample = record { re = pos 500; im = pos 250 } ∷ []

abbrev packet : ℕ → FhPacket ℤ
packet n = record {
  meta = record { pc_id = 1; seq_id = n; msg_type = 0; timestamp_ns = n; plane = plane_u };
  iq = sample;
  raw = n ∷ 7 ∷ [];
}

abbrev packets : List (FhPacket ℤ)
packets = packet 1 ∷ packet 2 ∷ packet 3 ∷ []

-- Half of the packets are lost, one in ten is corrupted.
abbrev lossy : FhImpairments ℤ
lossy = record {
  loss_prob = pos 500;
  reorder_prob = pos 500;
  delay_packets = pos 1;
  corrupt_prob = pos 100;
  seed = 1;
}

-- The first draw is below every probability.
abbrev draws : ℕ → ℕ → ℤ
draws seed zero = pos 50
draws seed (suc i) = pos 900

lossy_run : apply_impairments lossy draws packets ≡ packet 3 ∷ packet 2 ∷ []
unfolding apply_impairments
lossy_run = refl

apply_impairments-Sublist_example :
    (passed : List (FhPacket ℤ)) × Perm (apply_impairments lossy draws packets) passed
    × Sublistᴰ (map (λ (p : FhPacket ℤ). p.meta) passed) (map (λ (p : FhPacket ℤ). p.meta) packets)
apply_impairments-Sublist_example = apply_impairments-Sublist lossy draws packets

abbrev late : ℕ → ℕ → ℤ
late seed i = pos 900

dump_run : write_pcap_dump true packets ≡ ok (global_header ++ packet_records packets)
unfolding write_pcap_dump
dump_run = refl

write_pcap_dump_reads_example :
    (take 24 (global_header ++ packet_records packets) ≡ global_header)
    × (read_records 3 (drop 24 (global_header ++ packet_records packets))
        ≡ (1 ∷ 7 ∷ []) ∷ (2 ∷ 7 ∷ []) ∷ (3 ∷ 7 ∷ []) ∷ [])
write_pcap_dump_reads_example =
    write_pcap_dump_reads true packets (global_header ++ packet_records packets)
      (omega arith, (omega arith, (omega arith, tt))) dump_run
