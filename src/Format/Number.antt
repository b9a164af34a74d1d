-- ===== src/Format/Number.antt =====
-- The strings of C and the number parser of driver/libproto_analyzer/protocol_format_set.c:
-- `hexstr2num`, `atoi` and `str2num`.
--
-- A string is the list of the bytes from its pointer on. `char` is unsigned, as on the ARM target,
-- and an `int` that overflows wraps, as the kernel's build options (-fno-strict-overflow) make it.
pub mod Decimal
pub mod Hex
use linux_char_driver_frame.Base.{
  ℕ, zero, suc, ◌+◌, ◌*◌, bit_or, Bool, true, false, ◌&&◌, ◌||◌, Option, none, some, List, [], ◌∷◌,
  Run, ok, fault, out_of_bounds, ◌>>=◌, u32, ◌<<<◌, sub32, minus_one, leb, ltb, ◌==◌, if◌then◌else◌,
  store,
}

unfoldable pub strlen : List ℕ → Run ℕ
strlen [] = fault out_of_bounds
strlen (b ∷ s) = let rest = strlen s in if b == 0 then ok 0 else rest >>= λ n. ok (suc n)

-- `!strcmp(s, t)`.
unfoldable pub streq : List ℕ → List ℕ → Run Bool
streq [] t = fault out_of_bounds
streq (a ∷ s) [] = fault out_of_bounds
streq (a ∷ s) (b ∷ t) =
    let rest = streq s t in if a == b then if a == 0 then ok true else rest else ok false

-- `strcpy(dst + at, src)`.
unfoldable pub strcpy : List ℕ → ℕ → List ℕ → Run (List ℕ)
strcpy dst at [] = fault out_of_bounds
strcpy dst at (b ∷ src) =
    store dst at b >>= λ dst'. elim (b == 0) [ true ↦ ok dst' | false ↦ strcpy dst' (at + 1) src ]

-- `!strncmp(str, "0x", 2) || !strncmp(str, "0X", 2)`.
unfoldable pub is_hex : List ℕ → Run Bool
is_hex [] = fault out_of_bounds
is_hex (a ∷ []) = if a == 48 then fault out_of_bounds else ok false
is_hex (a ∷ b ∷ str) = ok (a == 48 && (b == 120 || b == 88))

-- The number `t` of a character, which `uint32_t` makes of a negative one as well.
unfoldable pub hex_digit : ℕ → ℕ
hex_digit c = if leb 65 c && leb c 70 then sub32 c 55 else sub32 c 48

unfoldable pub hex_loop : ℕ → List ℕ → Run ℕ
hex_loop ret [] = fault out_of_bounds
hex_loop ret (c ∷ str) =
    let rest = hex_loop (bit_or (u32 (ret <<< 4)) (hex_digit c)) str in
    if c == 0 then ok ret else rest

unfoldable pub hexstr2num : List ℕ → Run ℕ
hexstr2num [] = fault out_of_bounds
hexstr2num (a ∷ []) = strlen (a ∷ []) >>= λ len. is_hex (a ∷ []) >>= λ hex. ok minus_one
hexstr2num (a ∷ b ∷ str) = strlen (a ∷ b ∷ str) >>= λ len. is_hex (a ∷ b ∷ str) >>= λ hex.
    if hex then if ltb 10 len then ok minus_one else hex_loop 0 str else ok minus_one

-- The loop of `atoi`: the digits up to the end, or none where another character stands.
unfoldable pub atoi_loop : ℕ → List ℕ → Run (Option ℕ)
atoi_loop result [] = fault out_of_bounds
atoi_loop result (c ∷ p) =
    let rest = atoi_loop (u32 (result * 10 + sub32 c 48)) p in
    if c == 0 then ok (some result) else if ltb c 48 || ltb 57 c then ok none else rest

unfoldable pub atoi_end : Bool → Option ℕ → ℕ
atoi_end minus_flag none = minus_one
atoi_end minus_flag (some result) = if minus_flag then sub32 0 result else result

unfoldable pub atoi : Option (List ℕ) → Run ℕ
atoi none = ok minus_one
atoi (some []) = fault out_of_bounds
atoi (some (c ∷ p)) = (if c == 43 || c == 45 then atoi_loop 0 p else atoi_loop 0 (c ∷ p)) >>= λ r.
    ok (atoi_end (c == 45) r)

unfoldable pub str2num : List ℕ → Run ℕ
str2num str = is_hex str >>= λ hex. if hex then hexstr2num str else atoi (some str)
