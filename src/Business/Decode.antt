-- ===== src/Business/Decode.antt =====
-- What a message of the driver means: its values, read from the layout of its fields.
use linux_char_driver_frame.Base.{
  ℕ, suc, ◌+◌, ◌*◌, ◌/◌, Option, some, none, List, [], ◌∷◌, ◌++◌, get_elem?, drop, Run, ok, fault,
  dangling, or_fault, ◌>>=◌, u8, u16, u32, leb, if◌then◌else◌,
}
use linux_char_driver_frame.Codec.{short_len, get_byte_loop}
use linux_char_driver_frame.HashMap.{read_bytes}
use linux_char_driver_frame.Format.Number.{streq}
use linux_char_driver_frame.PdtFormat.Layout.{Layout, fixed, sized, array}
use linux_char_driver_frame.PdtFormat.Named.{name_of}

-- The number of the first field with a name.
abbrev pub index_of : List ℕ → List Layout → Option ℕ
index_of key [] = none
index_of key (l ∷ layouts) = elim (streq (array (name_of l)) key) [
  | fault e ↦ none
  | ok same ↦
      if same then some 0 else elim (index_of key layouts) [ none ↦ none | some j ↦ some (suc j) ]
]

-- A field of up to four bytes is a number; a longer one is bytes, with the value 0.
abbrev pub read_number : List ℕ → ℕ → ℕ → Run ℕ
read_number dp len at =
    if leb len 4
    then get_byte_loop (short_len len) 0 at dp
    else (read_bytes len (drop at dp) >>= λ _. ok 0)

-- The values of the fields, those of fields that are already read before them. `s` is the number of
-- bytes in the fields of variable length so far. Places are counted modulo 256.
unfoldable pub decode : List ℕ → List Layout → List Layout → ℕ → List ℕ → Run (List ℕ)
decode dp all [] s values = ok values
decode dp all (fixed name byte_pos len ∷ layouts) s values =
    read_number dp len (u8 (byte_pos + s)) >>= λ v. decode dp all layouts s (values ++ v ∷ [])
decode dp all (sized name byte_pos index ∷ layouts) s values =
    or_fault dangling (index_of index all) >>= λ j. or_fault dangling (get_elem? values j) >>= λ n.
    read_number dp (u16 n) (u8 (byte_pos + s)) >>= λ v.
    decode dp all layouts (s + u32 (n * 8) / 8) (values ++ v ∷ [])
