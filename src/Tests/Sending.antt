-- ===== src/Tests/Sending.antt =====
-- A message of the number 0x3008 that makes a task.
use linux_char_driver_frame.Base.{
  ℕ, ◌+◌, ◌≡◌, ◌≢◌, refl, arith, true, some, List, [], ◌∷◌, ◌++◌, replicate, ok, fault, Returns,
  u16, bit_and,
}
use linux_char_driver_frame.Codec.{get_byte_loop}
use linux_char_driver_frame.Format.Number.{streq}
use linux_char_driver_frame.Analyzer.{pa_parse_protocol_data, pa_get_value}
use linux_char_driver_frame.Analyzer.Setup.{ProtocolAnalyzer}
use linux_char_driver_frame.PdtFormat.Layout.{layout_3008}
use linux_char_driver_frame.PdtFormat.Names.{tact_info_key}
use linux_char_driver_frame.TaskAdmin.Create.{new_admin}
use linux_char_driver_frame.Business.{Driver, Supply, process_protocol, new_analyzer}
use linux_char_driver_frame.Business.Init.{IsReady}
use linux_char_driver_frame.Business.Start.{Message, IsSupply, HasStarted, new_analyzer-IsReady}
use linux_char_driver_frame.Business.Decode.{decode}
use linux_char_driver_frame.Business.Meaning.{pa_parse_protocol_data-decode}
use linux_char_driver_frame.Business.MakeTask.{with_message}
use linux_char_driver_frame.Business.Send.{process_protocol_user}
use linux_char_driver_frame.Business.Bytes.{IsComplete}
use linux_char_driver_frame.HashMap.{bad_pointer}
use linux_char_driver_frame.Tests.Loading.{
  entries, supply, supply-IsSupply, driver, driver-HasStarted,
}

-- Two bytes of slc_data and one of dc_data.
abbrev pub written : List ℕ
written = 0x30 ∷ 8 ∷ 0 ∷ 1 ∷ 0x10 ∷ 2 ∷ 0 ∷ 0 ∷ 3 ∷ 2 ∷ 70 ∷ 71 ∷ 4 ∷ 5 ∷ 1 ∷ 80 ∷ []

abbrev message : List ℕ
message = written ++ replicate 84 0

abbrev pub values : List ℕ
values = 0x3008 ∷ 1 ∷ 0x1002 ∷ 0 ∷ 3 ∷ 2 ∷ 0x4647 ∷ 4 ∷ 5 ∷ 1 ∷ 80 ∷ []

pub decoded : decode message layout_3008 layout_3008 0 [] ≡ ok values
unfolding decode streq get_byte_loop
decoded = refl

-- Both administrations are new, and the nodes come behind them.
admin_at : ℕ → ℕ
admin_at k = 100 + k

node_at : ℕ → ℕ
node_at j = 200 + j

abbrev ready_driver : Driver
ready_driver = record driver {
  task_admin_slot1_gp = some (new_admin admin_at);
  task_admin_slot2_gp = some (new_admin admin_at);
}

ready_driver-HasStarted : HasStarted entries ready_driver
ready_driver-HasStarted = record {
  pfs = driver-HasStarted.pfs;
  has_formats = driver-HasStarted.has_formats;
  formats = driver-HasStarted.formats;
}

abbrev writer : Supply
writer = record supply { task_addr = 200 }

writer-IsSupply : IsSupply writer
writer-IsSupply = record {
  analyzer_pos = supply-IsSupply.analyzer_pos;
  info_pos = supply-IsSupply.info_pos;
  info_word = supply-IsSupply.info_word;
  info_apart = supply-IsSupply.info_apart;
  node_pos = supply-IsSupply.node_pos;
  node_apart = supply-IsSupply.node_apart;
}

pub designated : bit_and (u16 0x1002) 0x1000 ≢ 0
designated e = absurd (omega (arith, e))

pub written-IsComplete : IsComplete written 16 0x10 2 3 2 1
written-IsComplete = record {
  slot_high = refl;
  slot_low = refl;
  tact_info = refl;
  slc_info = refl;
  dc_info = refl;
  high_byte = omega arith;
  low_byte = omega arith;
  tact_byte = omega arith;
  slc_byte = omega arith;
  dc_byte = omega arith;
  whole = omega arith;
  fits = omega arith;
  there = omega arith;
}

-- The analyser of a message of the number 0x3008, with the message.
abbrev fresh :
    Returns
      (new_analyzer supply 1 0x3008 driver)
      λ pa. IsReady (supply.info_alloc 1) layout_3008 pa × (pa.protocol_data ≡ replicate 100 0)
fresh = new_analyzer-IsReady 1 Message.m3008 supply-IsSupply driver-HasStarted

abbrev analyzer : ProtocolAnalyzer
analyzer = record fresh.0 { protocol_data = message; protocol_data_len = 16 }

pa_parse_protocol_data-decode_example :
    Returns
      (pa_parse_protocol_data (λ _. true) analyzer)
      λ r. (r.1 ≡ 0) × (pa_get_value tact_info_key r.0 ≡ ok 3)
unfolding streq
pa_parse_protocol_data-decode_example =
    pa_parse_protocol_data-decode (supply.info_alloc 1) layout_3008 analyzer values
      (116 ∷ 97 ∷ 99 ∷ 116 ∷ 95 ∷ 105 ∷ 110 ∷ 102 ∷ 111 ∷ []) 4 3 (supply-IsSupply.info_pos 1)
      (λ j k h low. supply-IsSupply.info_apart 1 j k h (omega arith)) refl
      (with_message message 16 fresh.2.0) decoded (omega arith)
      (
        omega arith,
        (
          omega arith,
          (
            omega arith,
            (
              omega arith,
              (omega arith, (omega arith, (omega arith, (omega arith, (omega arith, tt))))),
            ),
          ),
        ),
      )
      (omega arith) refl refl

-- The same message for a slot that the user designates.
abbrev user_written : List ℕ
user_written = 0x30 ∷ 8 ∷ 0 ∷ 1 ∷ 0 ∷ 2 ∷ 0 ∷ 0 ∷ 3 ∷ 2 ∷ 70 ∷ 71 ∷ 4 ∷ 5 ∷ 1 ∷ 80 ∷ []

user_decoded :
    decode (user_written ++ replicate 84 0) layout_3008 layout_3008 0 []
    ≡ ok (0x3008 ∷ 1 ∷ 2 ∷ 0 ∷ 3 ∷ 2 ∷ 0x4647 ∷ 4 ∷ 5 ∷ 1 ∷ 80 ∷ [])
unfolding decode streq get_byte_loop
user_decoded = refl

process_protocol_user_example :
    process_protocol writer 0x3008 user_written 16 ready_driver ≡ fault (bad_pointer 2)
process_protocol_user_example =
    process_protocol_user user_written 16
      (0x3008 ∷ 1 ∷ 2 ∷ 0 ∷ 3 ∷ 2 ∷ 0x4647 ∷ 4 ∷ 5 ∷ 1 ∷ 80 ∷ []) 2 3 writer-IsSupply
      ready_driver-HasStarted refl (omega arith) (omega arith) (omega arith) user_decoded refl refl
      refl refl refl
