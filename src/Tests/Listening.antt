-- ===== src/Tests/Listening.antt =====
-- The listener to the kernel's events at a concrete message.
use linux_char_driver_frame.Base.{
  ℕ, ◌+◌, ◌-◌, ◌*◌, ◌≡◌, arith, some, true, List, [], ◌∷◌, ◌++◌, ok, replicate, length-replicate,
}
use linux_char_driver_frame.Uevent.{
  Uevent, Received, main, parse_event, blank_event, action_key, path_key, major_key, minor_key,
  scm_credentials, uevent_msg_len,
}
use linux_char_driver_frame.Uevent.Parse.{parse_event-described}
use linux_char_driver_frame.Uevent.Receive.{main-events_of}

-- The digits of a number.
abbrev number_from : ℕ → List ℕ → ℕ
number_from n [] = n
number_from n (c ∷ s) = number_from (n * 10 + (c - 48)) s

-- "ACTION=add", "DEVPATH=/a", "MAJOR=90", "SEQNUM=7" and "MINOR=2", with a zero between them.
abbrev added : List ℕ
added =
    action_key
    ++ 97
      ∷ 100
      ∷ 100
      ∷ 0
      ∷ (path_key
          ++ 47
            ∷ 97
            ∷ 0
            ∷ (major_key
                ++ 57
                  ∷ 48
                  ∷ 0
                  ∷ 83
                  ∷ 69
                  ∷ 81
                  ∷ 78
                  ∷ 85
                  ∷ 77
                  ∷ 61
                  ∷ 55
                  ∷ 0
                  ∷ (minor_key ++ 50 ∷ [])))

abbrev added_event : Uevent
added_event = record blank_event {
  action = 97 ∷ 100 ∷ 100 ∷ [];
  path = 47 ∷ 97 ∷ [];
  major = 90;
  minor = 2;
}

parse_event-described_example :
    parse_event (number_from 0) (added ++ 0 ∷ 0 ∷ 85 ∷ 85 ∷ []) ≡ ok added_event
parse_event-described_example = parse_event-described (number_from 0) added (85 ∷ 85 ∷ [])

-- The message from the kernel, and the same from a user.
abbrev from_kernel : Received
from_kernel = record { bytes = added; nl_groups = 1; nl_pid = 0; cmsg = some (scm_credentials, 0) }

abbrev from_user : Received
from_user = record from_kernel { cmsg = some (scm_credentials, 1000) }

abbrev nothing_more : Received
nothing_more = record from_kernel { bytes = [] }

main-events_of_example :
    main
      (number_from 0)
      (λ k. replicate (uevent_msg_len + 2) 85)
      (some 3)
      true
      (from_user ∷ from_kernel ∷ nothing_more ∷ from_kernel ∷ [])
    ≡ ok (added_event ∷ [], 0)
main-events_of_example =
    main-events_of (number_from 0) (λ k. replicate (uevent_msg_len + 2) 85) (some 3) true
      (from_user ∷ from_kernel ∷ nothing_more ∷ from_kernel ∷ [])
      (λ k. length-replicate {A = ℕ} (uevent_msg_len + 2) 85)
      (omega arith, (omega arith, (omega arith, (omega arith, tt))))
