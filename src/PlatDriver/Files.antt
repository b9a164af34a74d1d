-- ===== src/PlatDriver/Files.antt =====
-- The calls of a program on the device's file: the operations `pdrv_fops` of driver/plat_driver.c.
--
-- `wait_event` is the kernel's: it looks at the condition, sleeps while that does not hold, and
-- looks again whenever it is woken up. It runs on fuel, one round for each look.
use linux_char_driver_frame.Base.{
  ℕ, zero, suc, ◌≡◌, refl, Bool, true, false, Option, some, List, [], ◌∷◌, ◌++◌, Run, ok, fault,
  null_pointer, out_of_fuel, or_fault, ◌>>=◌, if◌then◌else◌,
}
use linux_char_driver_frame.Business.{Driver, Supply}
use linux_char_driver_frame.PlatDriver.{device_write}

-- A file, with the address of the device's private data once it has been opened.
pub record File : Type 0 where
  pub private_data : Option ℕ

abbrev pub opened : ℕ → File
opened p = record { private_data = some p }

-- `pdev_priv` is what surrounds the character device of the inode. The result is 0.
unfoldable pub device_open : (pdev_priv : ℕ) → File → File × ℕ
device_open pdev_priv filp = (record filp { private_data = some pdev_priv }, 0)

unfoldable pub device_release : File → ℕ
device_release filp = 0

unfoldable pub device_ioctl : (cmd arg : ℕ) → File → ℕ
device_ioctl cmd arg filp = 0

unfoldable pub wait_event : ℕ → Bool → Run Bool
wait_event zero condition = fault out_of_fuel
wait_event (suc fuel) condition =
    let rest = wait_event fuel condition in if condition then ok true else rest

-- The queue is part of the private data.
unfoldable pub device_read : ℕ → File → (count : ℕ) → Run ℕ
device_read fuel filp count = do
  pdev_priv ← or_fault null_pointer filp.private_data
  woken ← wait_event fuel false
  ok 0

wait_event_lem : (fuel : ℕ) → wait_event fuel false ≡ fault out_of_fuel
unfolding wait_event
wait_event_lem zero = refl
wait_event_lem (suc fuel) = wait_event_lem fuel

-- A call of a program.
pub data FileCall : Type 0 where
  open_file : (pdev_priv : ℕ) → FileCall
  release_file : FileCall
  read_file : (count : ℕ) → FileCall
  write_file : (s : Supply) (stack : List ℕ) (buf : Option (List ℕ)) (count : ℕ) → FileCall
  ioctl_file : (cmd arg : ℕ) → FileCall

module _ (copy_from_user : Option (List ℕ) → ℕ → List ℕ) where
  -- One call, with its result.
  unfoldable pub file_call : ℕ → FileCall → File → Driver → Run (File × Driver × ℕ)
  file_call fuel (open_file pdev_priv) filp driver =
      let (filp', r) = device_open pdev_priv filp in ok (filp', driver, r)
  file_call fuel release_file filp driver = ok (filp, driver, device_release filp)
  file_call fuel (read_file count) filp driver =
      device_read fuel filp count >>= λ r. ok (filp, driver, r)
  file_call fuel (write_file s stack buf count) filp driver =
      device_write copy_from_user s stack buf count driver >>= λ w. ok (filp, w.0, w.1)
  file_call fuel (ioctl_file cmd arg) filp driver = ok (filp, driver, device_ioctl cmd arg filp)

  -- The calls of a program one after the other, and the driver that they leave.
  unfoldable pub file_calls : ℕ → List FileCall → File → Driver → Run Driver
  file_calls fuel [] filp driver = ok driver
  file_calls fuel (c ∷ cs) filp driver =
      file_call fuel c filp driver >>= λ r. file_calls fuel cs r.0 r.1

  -- The writes among the calls alone.
  unfoldable pub writes : List FileCall → Driver → Run Driver
  writes [] driver = ok driver
  writes (write_file s stack buf count ∷ cs) driver =
      device_write copy_from_user s stack buf count driver >>= λ w. writes cs w.0
  writes (open_file pdev_priv ∷ cs) driver = writes cs driver
  writes (release_file ∷ cs) driver = writes cs driver
  writes (read_file count ∷ cs) driver = writes cs driver
  writes (ioctl_file cmd arg ∷ cs) driver = writes cs driver

  -- No call is a read.
  abbrev pub ReadsNothing : List FileCall → Type 0
  ReadsNothing [] = Unit
  ReadsNothing (read_file count ∷ cs) = ⊥
  ReadsNothing (c ∷ cs) = ReadsNothing cs

  calls-writes :
      (fuel : ℕ) (cs : List FileCall) (filp : File) (driver : Driver)
      → ReadsNothing cs
      → file_calls fuel cs filp driver ≡ writes cs driver
  unfolding file_calls file_call writes device_open
  calls-writes fuel [] filp driver h = refl
  calls-writes fuel (open_file p ∷ cs) filp driver h = calls-writes fuel cs _ driver h
  calls-writes fuel (release_file ∷ cs) filp driver h = calls-writes fuel cs filp driver h
  calls-writes fuel (read_file count ∷ cs) filp driver h = elim h [ ]
  calls-writes fuel (write_file s stack buf count ∷ cs) filp driver h =
      elim (device_write copy_from_user s stack buf count driver)
        as (λ (r : Run (Driver × ℕ)).
          (◌>>=◌ {B = File × Driver × ℕ} r (λ w. ok (filp, w.0, w.1)) >>= λ x.
          file_calls fuel cs x.0 x.1)
          ≡ (r >>= λ w. writes cs w.0)) [ fault e ↦ refl | ok w ↦ calls-writes fuel cs filp w.0 h ]
  calls-writes fuel (ioctl_file cmd arg ∷ cs) filp driver h = calls-writes fuel cs filp driver h

  -- The calls up to a read of an open file.
  calls-read :
      (fuel : ℕ) (before after : List FileCall) (count p : ℕ) (driver : Driver)
      → ReadsNothing before
      → file_calls fuel (before ++ read_file count ∷ after) (opened p) driver
        ≡ (writes before driver >>= λ d. fault out_of_fuel)
  unfolding file_calls file_call writes device_open device_read
  calls-read fuel [] after count p driver h = rw (wait_event_lem fuel) refl
  calls-read fuel (open_file q ∷ cs) after count p driver h =
      calls-read fuel cs after count q driver h
  calls-read fuel (release_file ∷ cs) after count p driver h =
      calls-read fuel cs after count p driver h
  calls-read fuel (read_file n ∷ cs) after count p driver h = elim h [ ]
  calls-read fuel (write_file s stack buf n ∷ cs) after count p driver h =
      elim (device_write copy_from_user s stack buf n driver)
        as (λ (r : Run (Driver × ℕ)).
          (◌>>=◌ {B = File × Driver × ℕ} r (λ w. ok (opened p, w.0, w.1)) >>= λ x.
          file_calls fuel (cs ++ read_file count ∷ after) x.0 x.1)
          ≡ ((r >>= λ w. writes cs w.0) >>= λ d. fault out_of_fuel)) [
            | fault e ↦ refl
            | ok w ↦ calls-read fuel cs after count p w.0 h
          ]
  calls-read fuel (ioctl_file cmd arg ∷ cs) after count p driver h =
      calls-read fuel cs after count p driver h

  -- On an open file, calls without a read leave the driver that their writes alone leave, and a
  -- read behind them never returns, however often it is woken up.
  pub file_calls-writes :
      (fuel : ℕ) (before after : List FileCall) (count p : ℕ) (driver : Driver)
      → ReadsNothing before
      → (file_calls fuel before (opened p) driver ≡ writes before driver)
        × (file_calls fuel (before ++ read_file count ∷ after) (opened p) driver
            ≡ (writes before driver >>= λ d. fault out_of_fuel))
  file_calls-writes fuel before after count p driver h =
      (calls-writes fuel before (opened p) driver h, calls-read fuel before after count p driver h)
