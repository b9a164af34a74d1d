-- ===== src/PlatDriver/Deliver.antt =====
-- A message that is written to the device, up to the queue of its task.
use linux_char_driver_frame.Base.{
  ℕ, ◌+◌, ◌*◌, ◌≤◌, ◌<◌, ◌≡◌, ◌≢◌, refl, ◌∙◌, arith, true, Option, some, List, [], ◌++◌, length,
  get_elem?, take, drop, memcpy-append, Returns, u16, bit_and,
}
use linux_char_driver_frame.TaskAdmin.{TaskAdmin}
use linux_char_driver_frame.TaskAdmin.Queue.{Queues}
use linux_char_driver_frame.TaskAdmin.Refine.{Holds}
use linux_char_driver_frame.Business.{Driver, Supply}
use linux_char_driver_frame.Business.Start.{IsSupply, HasStarted}
use linux_char_driver_frame.Business.MakeTask.{task_of}
use linux_char_driver_frame.Business.Send.{admin_of, Waits}
use linux_char_driver_frame.Business.Bytes.{copied-get, IsComplete, process_protocol_complete}
use linux_char_driver_frame.PlatDriver.{device_write}

-- A complete message stays one behind a copy into an array.
IsComplete-copied :
    {len b c tact slc dc : ℕ} (dst src : List ℕ)
    → len ≤ length dst
    → IsComplete src len b c tact slc dc
    → IsComplete (take len src ++ drop len dst) len b c tact slc dc
IsComplete-copied {len} {slc} dst src fits m =
    let (width, get) = copied-get len dst src fits m.there in
    record {
      slot_high = get 4 (omega (arith, m.whole)) ∙ m.slot_high;
      slot_low = get 5 (omega (arith, m.whole)) ∙ m.slot_low;
      tact_info = get 8 (omega (arith, m.whole)) ∙ m.tact_info;
      slc_info = get 9 (omega (arith, m.whole)) ∙ m.slc_info;
      dc_info = get (12 + slc) (omega (arith, m.whole)) ∙ m.dc_info;
      high_byte = m.high_byte;
      low_byte = m.low_byte;
      tact_byte = m.tact_byte;
      slc_byte = m.slc_byte;
      dc_byte = m.dc_byte;
      whole = m.whole;
      fits = m.fits;
      there = omega (arith, width, fits);
    }

pub device_write-Waits :
    {alloc : ℕ → ℕ → ℕ} {driver : Driver} {s : Supply} {q : Queues} {admin : TaskAdmin} {i : ℕ}
    {count b c tact slc dc : ℕ} (copy_from_user : Option (List ℕ) → ℕ → List ℕ) (stack : List ℕ)
    (buf : Option (List ℕ)) (nodes : ℕ → ℕ)
    → IsSupply s
    → HasStarted alloc driver
    → s.room 0 ≡ (λ _. true)
    → ((j : ℕ) → 0 < nodes j)
    → ((j k : ℕ) → j < k → nodes j ≢ nodes k)
    → s.task_addr ≡ nodes i
    → length stack ≡ 1024
    → get_elem? (copy_from_user buf count) 0 ≡ some 0x30
    → get_elem? (copy_from_user buf count) 1 ≡ some 8
    → IsComplete (copy_from_user buf count) count b c tact slc dc
    → bit_and (u16 (b * 256 + c)) 0x1000 ≢ 0
    → admin_of (u16 (b * 256 + c)) driver ≡ some admin
    → Holds nodes i q admin
    → Returns
        (device_write copy_from_user s stack buf count driver)
        λ r. (r.1 ≡ 0) × Waits nodes i q (task_of (b * 256 + c) tact s.local_task) driver r.0
unfolding device_write
device_write-Waits {s} {count} copy_from_user stack buf nodes supply started room pos apart here
      width first second m sys has h =
    let bytes = copy_from_user buf count in
    let inside : count ≤ length stack = omega (arith, m.fits, width) in
    let (same, get) = copied-get count stack bytes inside m.there in
    let copied = memcpy-append count [] stack bytes inside m.there in
    let high = get 0 (omega (arith, m.whole)) ∙ first in
    let low = get 1 (omega (arith, m.whole)) ∙ second in
    let (driver', run, waits) =
      process_protocol_complete nodes supply started room pos apart here
        (IsComplete-copied stack bytes inside m) sys has h in
    ((driver', 0), rw (copied, high, low, run) refl, (refl, waits))
