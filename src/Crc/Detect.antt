-- ===== src/Crc/Detect.antt =====
-- What `crc_attach` and `crc_check` promise each other, and the errors that a check finds.
use gunnchos_gpu_nr_baseband.Base.{
  ℕ, ◌^◌, ◌≤◌, ◌<◌, ◌≡◌, ◌≢◌, ◌↔◌, inl, inr, sym, ap, ◌∙◌, arith, true, false, ◌==◌, le→leb, ==_iff,
  Bool-cases, List, ◌++◌, length, length-append, All, All-append, ok,
}
use gunnchos_gpu_nr_baseband.Base.Powers.{pow-pos}
use gunnchos_gpu_nr_baseband.Crc.{
  CrcType, spec, compute_crc, bits_msb, crc_attach, crc_check, crc_length_bits,
}
use gunnchos_gpu_nr_baseband.Crc.Codeword.{
  IsBit, IsSpec, spec-IsSpec, register, crc_loop-register, register-append, register-lt,
  bits_msb-IsBit, length-bits_msb,
}
use gunnchos_gpu_nr_baseband.Crc.Distinct.{register-injective, word-injective}
use gunnchos_gpu_nr_baseband.Crc.Remainder.{register-own_bits}

check-register :
    (t : CrcType) (coded : List ℕ)
    → All IsBit coded
    → (spec t).len ≤ length coded
    → crc_check coded t ≡ ok (register (spec t) 0 coded == 0)
unfolding crc_check compute_crc
check-register t coded h l = rw (le→leb _ _ l, crc_loop-register (spec t) 0 coded h)

attach-register :
    (t : CrcType) (payload : List ℕ)
    → All IsBit payload
    → crc_attach payload t ≡ ok (payload ++ bits_msb (spec t).len (register (spec t) 0 payload))
unfolding crc_attach compute_crc
attach-register t payload h = rw (crc_loop-register (spec t) 0 payload h)

register-fits : (t : CrcType) (bits : List ℕ) → register (spec t) 0 bits < 2 ^ (spec t).len
register-fits t bits = register-lt (spec-IsSpec t) 0 bits (pow-pos (spec t).len)

-- `crc_attach` accepts any payload of bits. It appends `len` bits to it, and `crc_check` accepts the
-- result.
pub crc_attach-crc_check :
    (t : CrcType) (payload : List ℕ)
    → All IsBit payload
    → (tail : List ℕ) × (crc_attach payload t ≡ ok (payload ++ tail))
      × (length tail ≡ crc_length_bits t)
      × All IsBit tail
      × (crc_check (payload ++ tail) t ≡ ok true)
unfolding crc_length_bits
crc_attach-crc_check t payload h =
    let rem = register (spec t) 0 payload in
    let tail = bits_msb (spec t).len rem in
    let bits = bits_msb-IsBit (spec t).len rem in
    let zero_end : register (spec t) 0 (payload ++ tail) ≡ 0 =
      register-append (spec t) 0 payload tail
      ∙ register-own_bits (spec-IsSpec t) rem (register-fits t payload) in
    (
      tail,
      attach-register t payload h,
      length-bits_msb (spec t).len rem,
      bits,
      check-register t (payload ++ tail) (All-append IsBit payload tail h bits)
            (omega (arith, length-append payload tail, length-bits_msb (spec t).len rem))
          ∙ rw zero_end,
    )

accepted-zero :
    (t : CrcType) (coded : List ℕ)
    → All IsBit coded
    → (spec t).len ≤ length coded
    → crc_check coded t ≡ ok true
    → register (spec t) 0 coded ≡ 0
accepted-zero t coded h l e =
    let tested : ok (register (spec t) 0 coded == 0) ≡ ok true =
      sym (check-register t coded h l) ∙ e in
    ground arith

-- Among the blocks of bits `crc_check` accepts only what `crc_attach` makes: a block is accepted
-- exactly when its last `len` bits are those that `crc_attach` appends to the rest.
pub crc_check_iff :
    (t : CrcType) (payload tail : List ℕ)
    → All IsBit payload
    → All IsBit tail
    → length tail ≡ crc_length_bits t
    → (crc_check (payload ++ tail) t ≡ ok true) ↔ (crc_attach payload t ≡ ok (payload ++ tail))
unfolding crc_length_bits
crc_check_iff t payload tail hp ht l =
    let rem = register (spec t) 0 payload in
    let own = crc_attach-crc_check t payload hp in
    let enough : (spec t).len ≤ length (payload ++ tail) =
      omega (arith, length-append payload tail) in
    (
      (λ accepted.
          let ends : register (spec t) rem tail ≡ 0 =
            sym (register-append (spec t) 0 payload tail)
            ∙ accepted-zero t (payload ++ tail) (All-append IsBit payload tail hp ht) enough
                accepted in
          let same : tail ≡ bits_msb (spec t).len rem =
            word-injective (spec-IsSpec t) tail (bits_msb (spec t).len rem) rem
              (l ∙ sym (length-bits_msb (spec t).len rem)) (omega arith) ht
              (bits_msb-IsBit (spec t).len rem)
              (ends ∙ sym (register-own_bits (spec-IsSpec t) rem (register-fits t payload))) in
          attach-register t payload hp ∙ ap (λ w. ok (payload ++ w)) (sym same)),
      (λ made.
          let whole : ok (payload ++ tail) ≡ ok (payload ++ own.0) = sym made ∙ own.1 in
          let same : payload ++ tail ≡ payload ++ own.0 = cc in rw same (own.4)),
    )

-- A burst of at most `len` bits that are not the sent ones is found, wherever it stands in an
-- accepted block.
pub crc_check_burst :
    (t : CrcType) (pre xs ys post : List ℕ)
    → All IsBit pre
    → All IsBit xs
    → All IsBit ys
    → All IsBit post
    → length xs ≡ length ys
    → length xs ≤ crc_length_bits t
    → crc_length_bits t ≤ length (pre ++ (xs ++ post))
    → crc_check (pre ++ (xs ++ post)) t ≡ ok true
    → xs ≢ ys
    → crc_check (pre ++ (ys ++ post)) t ≡ ok false
unfolding crc_length_bits
crc_check_burst t pre xs ys post hpre hx hy hpost l short long accepted different =
    check-register t (pre ++ (ys ++ post)) all_y long_y ∙ ap ok unequal
  where
    v : IsSpec (spec t)
    v = spec-IsSpec t

    at : List ℕ → ℕ
    at w = register (spec t) (register (spec t) 0 pre) w

    all_x : All IsBit (pre ++ (xs ++ post))
    all_x = All-append IsBit pre (xs ++ post) hpre (All-append IsBit xs post hx hpost)

    all_y : All IsBit (pre ++ (ys ++ post))
    all_y = All-append IsBit pre (ys ++ post) hpre (All-append IsBit ys post hy hpost)

    long_y : (spec t).len ≤ length (pre ++ (ys ++ post))
    long_y = omega (
      arith,
      length-append pre (xs ++ post),
      length-append pre (ys ++ post),
      length-append xs post,
      length-append ys post,
    )

    ends : (w : List ℕ) → register (spec t) 0 (pre ++ (w ++ post)) ≡ register (spec t) (at w) post
    ends w =
        register-append (spec t) 0 pre (w ++ post)
        ∙ register-append (spec t) (register (spec t) 0 pre) w post

    below : (w : List ℕ) → at w < 2 ^ (spec t).len
    below w = register-lt v (register (spec t) 0 pre) w (register-fits t pre)

    both : register (spec t) 0 (pre ++ (ys ++ post)) ≡ 0 → xs ≡ ys
    both zero_y = word-injective v xs ys (register (spec t) 0 pre) l short hx hy (
        register-injective v post (at xs) (at ys) hpost (below xs) (below ys) (
          sym (ends xs)
          ∙ accepted-zero t (pre ++ (xs ++ post)) all_x long accepted
          ∙ sym zero_y
          ∙ ends ys))

    unequal : (register (spec t) 0 (pre ++ (ys ++ post)) == 0) ≡ false
    unequal = elim (Bool-cases (register (spec t) 0 (pre ++ (ys ++ post)) == 0)) [
      | inl e ↦ absurd (different (both ((==_iff _ 0).0 e)))
      | inr e ↦ e
    ]
