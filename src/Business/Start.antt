-- ===== src/Business/Start.antt =====
-- The analysers of the driver that has started.
use linux_char_driver_frame.Base.{
  ℕ, ◌+◌, ◌<◌, ◌^◌, ◌≡◌, ◌≢◌, refl, ap, arith, true, some, List, length, fault, out_of_bounds,
  memcpy-overflow, ok, ◌>>=◌, Returns, replicate,
}
use linux_char_driver_frame.Format.{FormatSet}
use linux_char_driver_frame.Format.Number.{streq}
use linux_char_driver_frame.PdtFormat.Layout.{
  Layout, format_at, layout_3008, layout_3019, layout_3050, layout_3052, layout_3054,
}
use linux_char_driver_frame.PdtFormat.Named.{well_named}
use linux_char_driver_frame.PdtFormat.Table.{driver_format, IsDriverTable}
use linux_char_driver_frame.Analyzer.Setup.{pa_create_protocol_analyzer, blank_analyzer}
use linux_char_driver_frame.Business.{
  Driver, Supply, new_analyzer, do_command_0x3008, process_protocol,
}
use linux_char_driver_frame.Business.Init.{IsReady, init-IsReady}

-- The messages that the driver has a format for: the number behind 0x3000, the fields, and which
-- of the formats that are set at the start it is.
pub data Message : Type 0 where
  m3008 m3019 m3050 m3052 m3054 : Message

abbrev pub index : Message → ℕ
index Message.m3008 = 8
index Message.m3019 = 0x19
index Message.m3050 = 0x50
index Message.m3052 = 0x52
index Message.m3054 = 0x54

abbrev pub layout : Message → List Layout
layout Message.m3008 = layout_3008
layout Message.m3019 = layout_3019
layout Message.m3050 = layout_3050
layout Message.m3052 = layout_3052
layout Message.m3054 = layout_3054

abbrev order : Message → ℕ
order Message.m3008 = 0
order Message.m3019 = 1
order Message.m3050 = 2
order Message.m3052 = 3
order Message.m3054 = 4

module _ (alloc : ℕ → ℕ → ℕ) where
  driver_format-order :
      (msg : Message)
      → driver_format alloc (index msg) ≡ some (format_at (alloc (order msg)) (layout msg))
  driver_format-order Message.m3008 = refl
  driver_format-order Message.m3019 = refl
  driver_format-order Message.m3050 = refl
  driver_format-order Message.m3052 = refl
  driver_format-order Message.m3054 = refl

layout-well_named :
    (msg : Message)
    → (index msg < 100) × (length (layout msg) < 256) × (well_named (layout msg) ≡ true)
unfolding streq
layout-well_named Message.m3008 = (omega arith, omega arith, refl)
layout-well_named Message.m3019 = (omega arith, omega arith, refl)
layout-well_named Message.m3050 = (omega arith, omega arith, refl)
layout-well_named Message.m3052 = (omega arith, omega arith, refl)
layout-well_named Message.m3054 = (omega arith, omega arith, refl)

-- The allocator gives memory for the analyser, memory of 32 bits for the head of the list and the
-- fields, the first 256 of which stand at different addresses, and memory at different addresses for
-- the pair, the map, the table and the nodes.
pub record IsSupply (s : Supply) : Type 0 where
  pub analyzer_pos : (n : ℕ) → 0 < s.analyzer_alloc n
  pub info_pos : (n k : ℕ) → 0 < s.info_alloc n k
  pub info_word : (n k : ℕ) → s.info_alloc n k < 2 ^ 32
  pub info_apart : (n j k : ℕ) → j < k → k < 256 → s.info_alloc n j ≢ s.info_alloc n k
  pub node_pos : (n k : ℕ) → 0 < s.node_alloc n k
  pub node_apart : (n j k : ℕ) → j < k → s.node_alloc n j ≢ s.node_alloc n k

-- The table of formats is the one that is set up at the start.
pub record HasStarted (alloc : ℕ → ℕ → ℕ) (driver : Driver) : Type 0 where
  pub pfs : FormatSet
  pub has_formats : driver.pfs_p ≡ some pfs
  pub formats : IsDriverTable (driver_format alloc) pfs

create-blank : (addr : ℕ) → 0 < addr → pa_create_protocol_analyzer addr ≡ ok blank_analyzer
unfolding pa_create_protocol_analyzer
create-blank addr pos = ground (arith, pos)

-- After the driver's start, an analyser for each of its messages has the fields of the message's
-- layout, and finds a field by every name of less than ten characters as a search through them
-- does; its message is 100 zeros. Every allocation for the analyser succeeds, that is its record,
-- the head of its list, its fields, the pair, the map, the table and the nodes of the map; the
-- fields stand at different addresses below 2 ^ 32, and the allocations for the map at different
-- ones.
pub new_analyzer-IsReady :
    {alloc : ℕ → ℕ → ℕ} {driver : Driver} {s : Supply} (n : ℕ) (msg : Message)
    → IsSupply s
    → HasStarted alloc driver
    → Returns
        (new_analyzer s n (0x3000 + index msg) driver)
        λ pa. IsReady (s.info_alloc n) (layout msg) pa × (pa.protocol_data ≡ replicate 100 0)
unfolding new_analyzer
new_analyzer-IsReady {alloc} {driver} {s} n msg supply started =
    let (inside, few, named) = layout-well_named msg in
    let (pa, run, ready) =
      init-IsReady (s.info_alloc n) (s.node_alloc n) (supply.info_pos n) (supply.info_word n)
        (supply.node_pos n) (supply.node_apart n) (index msg) (alloc (order msg)) (layout msg)
        started.formats inside (driver_format-order alloc msg) few named in
    (
      pa,
      rw (started.has_formats, create-blank (s.analyzer_alloc n) (supply.analyzer_pos n), ◌>>=◌)
          run,
      ready,
    )

-- A message of the number 0x3008 that is longer than the 100 bytes of the analyser is written
-- behind their end.
pub process_protocol-overflow :
    {alloc : ℕ → ℕ → ℕ} {driver : Driver} {s : Supply} (data' : List ℕ) (len : ℕ)
    → IsSupply s
    → HasStarted alloc driver
    → 100 < len
    → process_protocol s 0x3008 data' len driver ≡ fault out_of_bounds
unfolding process_protocol do_command_0x3008
process_protocol-overflow {s} data' len supply started long =
    let (pa, run, (ready, blank)) = new_analyzer-IsReady 0 Message.m3008 supply started in
    let over =
      memcpy-overflow len pa.protocol_data 0 data' (omega (arith, ap length blank)) (omega arith) in
    ground (arith, run, over)
