-- ===== src/Fronthaul/Dump.antt =====
-- A reader of the dump finds the bytes of every packet.
use gunnchos_gpu_nr_baseband.Base.{
  ℕ, zero, suc, ◌+◌, ◌*◌, ◌%◌, ◌<◌, ◌≡◌, refl, sym, ap, ap₂, ◌∙◌, arith, Bool, List, [], ◌∷◌, ◌++◌,
  map, length, get_or, take, drop, All, ok, require-eq-ok, take-append, append_assoc,
}
use gunnchos_gpu_nr_baseband.Fronthaul.{
  FhPacket, global_header, packet_header, packet_records, write_pcap_dump,
}

-- The `incl_len` of a record, the lowest byte first.
abbrev pub length_field : List ℕ → ℕ
length_field bytes =
    get_or bytes 8 0
    + 256 * get_or bytes 9 0
    + 65536 * get_or bytes 10 0
    + 16777216 * get_or bytes 11 0

-- A reader of `count` records of the pcap format: a header of 16 bytes, then as many bytes as it says.
abbrev pub read_records : ℕ → List ℕ → List (List ℕ)
read_records zero bytes = []
read_records (suc count) bytes =
    take (length_field bytes) (drop 16 bytes)
    ∷ read_records count (drop (length_field bytes) (drop 16 bytes))

length_field_lem :
    (len : ℕ) (rest : List ℕ) → len < 4294967296 → length_field (packet_header len ++ rest) ≡ len
length_field_lem len rest p = omega arith

drop-append : (n : ℕ) (xs ys : List ℕ) → n ≡ length xs → drop n (xs ++ ys) ≡ ys
drop-append zero [] ys e = refl
drop-append zero (x ∷ xs) ys e = absurd (omega arith)
drop-append (suc n) [] ys e = absurd (omega arith)
drop-append (suc n) (x ∷ xs) ys e = drop-append n xs ys (omega arith)

abbrev IsShort {ℓ} : {W : Type ℓ} → FhPacket W → Type 0
IsShort p = length p.raw < 4294967296

read_packet_records {ℓ} :
    {W : Type ℓ} (pkts : List (FhPacket W))
    → All IsShort pkts
    → read_records (length pkts) (packet_records pkts) ≡ map (λ (p : FhPacket W). p.raw) pkts
read_packet_records [] short = refl
read_packet_records (p ∷ pkts) short =
    let len : ℕ = length p.raw % 4294967296 in
    let whole : len ≡ length p.raw = omega (arith, short.0) in
    let rest : List ℕ = packet_records pkts in
    let assoc : packet_header len ++ p.raw ++ rest ≡ packet_header len ++ (p.raw ++ rest) =
      append_assoc (packet_header len) p.raw rest in
    let field : length_field (packet_header len ++ (p.raw ++ rest)) ≡ length p.raw =
      length_field_lem len (p.raw ++ rest) (omega arith) ∙ whole in
    ap (read_records (suc (length pkts))) assoc
    ∙ ap₂ ◌∷◌
        (ap (λ (n : ℕ). take n (p.raw ++ rest)) field ∙ take-append (length p.raw) p.raw rest refl)
        (ap (λ (n : ℕ). read_records (length pkts) (drop n (p.raw ++ rest))) field
          ∙ ap (read_records (length pkts)) (drop-append (length p.raw) p.raw rest refl)
          ∙ read_packet_records pkts short.1)

-- The bytes of a dump are those of a pcap file: behind the global header of 24 bytes a reader that follows
-- the length field of each record finds the serialized packets, in their order, each shorter than 2^32
-- bytes.
pub write_pcap_dump_reads {ℓ} :
    {W : Type ℓ} (good : Bool) (pkts : List (FhPacket W)) (bytes : List ℕ)
    → All (λ (p : FhPacket W). length p.raw < 4294967296) pkts
    → write_pcap_dump good pkts ≡ ok bytes
    → (take 24 bytes ≡ global_header)
      × (read_records (length pkts) (drop 24 bytes) ≡ map (λ (p : FhPacket W). p.raw) pkts)
unfolding write_pcap_dump
write_pcap_dump_reads good pkts bytes short e =
    let (opened, made) = require-eq-ok good "cannot open pcap dump path" _ e in
    let same : global_header ++ packet_records pkts ≡ bytes = cc in
    (
      ap (take 24) (sym same),
      ap (λ (b : List ℕ). read_records (length pkts) (drop 24 b)) (sym same)
          ∙ read_packet_records pkts short,
    )
