-- ===== src/Analyzer/Address.antt =====
-- An address is stored in four bytes and read back.
use linux_char_driver_frame.Base.{
  ℕ, ◌+◌, ◌*◌, ◌/◌, ◌%◌, ◌^◌, ◌<◌, ◌≡◌, ap, ◌∙◌, arith, bit_or, u32, ok, ◌>>>◌, ◌<<<◌,
}
use linux_char_driver_frame.Base.Bits.{bit_or_disjoint, bit_and_mask}
use linux_char_driver_frame.Analyzer.Setup.{addr_buffer, read_addr}

or_bytes :
    (a b c d : ℕ)
    → a < 256
    → b < 256
    → c < 256
    → d < 256
    → bit_or (bit_or (bit_or (u32 (a <<< 24)) (b <<< 16)) (c <<< 8)) d
      ≡ ((a * 256 + b) * 256 + c) * 256 + d
or_bytes a b c d p q r s =
    let one : u32 (a <<< 24) ≡ a * 2 ^ 24 = omega arith in
    let two : a * 2 ^ 24 + b * 2 ^ 16 ≡ (a * 256 + b) * 2 ^ 16 = omega arith in
    let three : (a * 256 + b) * 2 ^ 16 + c * 2 ^ 8 ≡ ((a * 256 + b) * 256 + c) * 2 ^ 8 =
      omega arith in
    ap (λ (x : ℕ). bit_or (bit_or (bit_or x (b <<< 16)) (c <<< 8)) d) one
    ∙ ap (λ (x : ℕ). bit_or (bit_or x (c <<< 8)) d)
        (bit_or_disjoint 24 a (b * 2 ^ 16) (omega arith) ∙ two)
    ∙ ap (λ (x : ℕ). bit_or x d)
        (bit_or_disjoint 16 (a * 256 + b) (c * 2 ^ 8) (omega arith) ∙ three)
    ∙ bit_or_disjoint 8 ((a * 256 + b) * 256 + c) d s

pub read_addr-addr_buffer : (addr : ℕ) → addr < 2 ^ 32 → read_addr (addr_buffer addr) ≡ ok addr
unfolding read_addr addr_buffer
read_addr-addr_buffer addr small =
    rw
      (
        bit_and_mask 8 (addr >>> 24),
        bit_and_mask 8 (addr >>> 16),
        bit_and_mask 8 (addr >>> 8),
        bit_and_mask 8 (addr >>> 0),
      )
      (ap ok (
        or_bytes (addr / 2 ^ 24 % 256) (addr / 2 ^ 16 % 256) (addr / 2 ^ 8 % 256)
          (addr / 2 ^ 0 % 256) (omega arith) (omega arith) (omega arith) (omega arith)
        ∙ (omega arith)))
