-- ===== src/Business/Bytes.antt =====
-- A complete message of the number 0x3008, from its bytes to the queue of its task.
use linux_char_driver_frame.Base.{
  ◌++◌, take, drop, ℕ, ◌+◌, ◌*◌, ◌≤◌, ◌<◌, ◌≡◌, ◌≢◌, sym, ap, ◌∙◌, arith, true, some, List, [],
  length, get_elem?, replicate, ok-injective, memcpy-append, memcpy-Returns, Returns, u16, bit_and,
}
use linux_char_driver_frame.TaskAdmin.{TaskAdmin}
use linux_char_driver_frame.TaskAdmin.Queue.{Queues}
use linux_char_driver_frame.TaskAdmin.Refine.{Holds}
use linux_char_driver_frame.Business.{Driver, Supply, process_protocol}
use linux_char_driver_frame.Business.Start.{IsSupply, HasStarted}
use linux_char_driver_frame.Business.MakeTask.{task_of}
use linux_char_driver_frame.Business.Send.{buffer_of, admin_of, Waits, process_protocol-Waits}
use linux_char_driver_frame.Business.Complete.{decode_3008}

-- An array behind a copy: what was copied, and what stood behind it.
pub copied-get :
    (len : ℕ) (dst src : List ℕ)
    → len ≤ length dst
    → len ≤ length src
    → (length (take len src ++ drop len dst) ≡ length dst)
      × ((j : ℕ) → j < len → get_elem? (take len src ++ drop len dst) j ≡ get_elem? src j)
copied-get len dst src fits long =
    let (out, run, (width, copied, before)) = memcpy-Returns len dst 0 src (omega arith) long in
    let is : take len src ++ drop len dst ≡ out =
      ok-injective (sym (memcpy-append len [] dst src fits long) ∙ run) in
    (
      ap length is ∙ width,
      λ j low. ap (λ b. get_elem? b j) is ∙ ap (get_elem? out) (omega arith) ∙ copied j low,
    )

-- What a message of the number 0x3008 says: the bytes of its slot and its tact, and the lengths of
-- its two fields of variable length, all of which it holds.
pub record IsComplete (data' : List ℕ) (len b c tact slc dc : ℕ) : Type 0 where
  pub slot_high : get_elem? data' 4 ≡ some b
  pub slot_low : get_elem? data' 5 ≡ some c
  pub tact_info : get_elem? data' 8 ≡ some tact
  pub slc_info : get_elem? data' 9 ≡ some slc
  pub dc_info : get_elem? data' (12 + slc) ≡ some dc
  pub high_byte : b < 256
  pub low_byte : c < 256
  pub tact_byte : tact < 256
  pub slc_byte : slc < 256
  pub dc_byte : dc < 256
  pub whole : 13 + slc + dc ≤ len
  pub fits : len ≤ 100
  pub there : len ≤ length data'

-- For a started driver, a complete message with the number 0x3008 of at most 100 bytes, whose slot
-- is one that the system designates, returns, and a task with the slot and the tact that stand in
-- the message waits behind the other data tasks of the administration that the slot goes to;
-- nothing else of the driver changes. There is memory for the buffers and for the node of the
-- queue.
pub process_protocol_complete :
    {alloc : ℕ → ℕ → ℕ} {driver : Driver} {s : Supply} {q : Queues} {admin : TaskAdmin} {i : ℕ}
    {data' : List ℕ} {len b c tact slc dc : ℕ} (nodes : ℕ → ℕ)
    → IsSupply s
    → HasStarted alloc driver
    → s.room 0 ≡ (λ _. true)
    → ((j : ℕ) → 0 < nodes j)
    → ((j k : ℕ) → j < k → nodes j ≢ nodes k)
    → s.task_addr ≡ nodes i
    → IsComplete data' len b c tact slc dc
    → bit_and (u16 (b * 256 + c)) 0x1000 ≢ 0
    → admin_of (u16 (b * 256 + c)) driver ≡ some admin
    → Holds nodes i q admin
    → Returns
        (process_protocol s 0x3008 data' len driver)
        (Waits nodes i q (task_of (b * 256 + c) tact s.local_task) driver)
process_protocol_complete {s} {data'} {len} {b} {c} {tact} {slc} {dc} nodes supply started room pos
      apart here m sys has h =
    let (width, get) = copied-get len (replicate 100 0) data' m.fits m.there in
    let at = λ (j : ℕ) (low : j < len). get j low in
    let (out, decoded, (has_slot, has_tact)) =
      decode_3008 (buffer_of len data') b c tact slc dc width
        (at 4 (omega (arith, m.whole)) ∙ m.slot_high) (at 5 (omega (arith, m.whole)) ∙ m.slot_low)
        (at 8 (omega (arith, m.whole)) ∙ m.tact_info) (at 9 (omega (arith, m.whole)) ∙ m.slc_info)
        (at (12 + slc) (omega (arith, m.whole)) ∙ m.dc_info) m.high_byte m.low_byte m.tact_byte
        m.slc_byte m.dc_byte (omega (arith, m.whole, m.fits)) in
    process_protocol-Waits data' len out (b * 256 + c) tact nodes supply started room pos apart here
      (omega (arith, m.whole)) m.fits m.there decoded has_slot has_tact sys has h
