-- ===== src/Uevent.antt =====
-- The listener to the kernel's events, a program of user space: udev1.c.
--
-- A pointer into the message is what the array holds from there on. The message is not written
-- while it is parsed, so that a field of an event is the string that the pointer points to. What
-- `recvmsg` receives and the library's `atoi` are arguments. What
-- the system answers for the socket is one, too.
pub mod Strings
pub mod Parse
pub mod Receive
use linux_char_driver_frame.Base.{
  ℕ, zero, suc, ◌+◌, ◌≤◌, Bool, true, false, Option, none, some, List, [], ◌∷◌, Run, ok, fault,
  out_of_bounds, out_of_fuel, length, drop, memcpy, store, ◌>>=◌, ◌==◌, leb, ◌&&◌, not, minus_one,
  if◌then◌else◌,
}

abbrev pub uevent_msg_len : ℕ
uevent_msg_len = 1024

pub record Uevent : Type 0 where
  pub action : List ℕ
  pub path : List ℕ
  pub subsystem : List ℕ
  pub firmware : List ℕ
  pub major : ℕ
  pub minor : ℕ

-- The event before a message is parsed.
abbrev pub blank_event : Uevent
blank_event = record {
  action = [];
  path = [];
  subsystem = [];
  firmware = [];
  major = minus_one;
  minor = minus_one;
}

-- The bytes of "ACTION=" and so on.
abbrev pub action_key : List ℕ
action_key = 65 ∷ 67 ∷ 84 ∷ 73 ∷ 79 ∷ 78 ∷ 61 ∷ []

abbrev pub path_key : List ℕ
path_key = 68 ∷ 69 ∷ 86 ∷ 80 ∷ 65 ∷ 84 ∷ 72 ∷ 61 ∷ []

abbrev pub subsystem_key : List ℕ
subsystem_key = 83 ∷ 85 ∷ 66 ∷ 83 ∷ 89 ∷ 83 ∷ 84 ∷ 69 ∷ 77 ∷ 61 ∷ []

abbrev pub firmware_key : List ℕ
firmware_key = 70 ∷ 73 ∷ 82 ∷ 77 ∷ 87 ∷ 65 ∷ 82 ∷ 69 ∷ 61 ∷ []

abbrev pub major_key : List ℕ
major_key = 77 ∷ 65 ∷ 74 ∷ 79 ∷ 82 ∷ 61 ∷ []

abbrev pub minor_key : List ℕ
minor_key = 77 ∷ 73 ∷ 78 ∷ 79 ∷ 82 ∷ 61 ∷ []

-- `!strncmp(msg, key, n)` for the `n` bytes of a key.
unfoldable pub strncmp_is_0 : List ℕ → List ℕ → Run Bool
strncmp_is_0 msg [] = ok true
strncmp_is_0 [] (c ∷ key) = fault out_of_bounds
strncmp_is_0 (b ∷ msg) (c ∷ key) =
    let rest = strncmp_is_0 msg key in if b == c then rest else ok false

-- The string at a pointer.
unfoldable pub c_string : List ℕ → List ℕ
c_string [] = []
c_string (zero ∷ msg) = []
c_string (suc b ∷ msg) = suc b ∷ c_string msg

-- `while (*msg++);`
unfoldable pub next_string : List ℕ → Run (List ℕ)
next_string [] = fault out_of_bounds
next_string (zero ∷ msg) = ok msg
next_string (suc b ∷ msg) = next_string msg

-- One branch: the key is compared, the message is moved behind it, and the field is set.
unfoldable pub on_key :
    List ℕ → (List ℕ → Uevent) → List ℕ → Run (Uevent × List ℕ) → Run (Uevent × List ℕ)
on_key key set_field msg otherwise = strncmp_is_0 msg key >>= λ same.
    if same
    then (let msg' = drop (length key) msg in ok (set_field (c_string msg'), msg'))
    else otherwise

module _ (atoi : List ℕ → ℕ) where
  unfoldable pub parse_string : Uevent → List ℕ → Run (Uevent × List ℕ)
  parse_string uevent msg =
      on_key action_key (λ s. record uevent { action = s }) msg
        (on_key path_key (λ s. record uevent { path = s }) msg
          (on_key subsystem_key (λ s. record uevent { subsystem = s }) msg
            (on_key firmware_key (λ s. record uevent { firmware = s }) msg
              (on_key major_key (λ s. record uevent { major = atoi s }) msg
                (on_key minor_key (λ s. record uevent { minor = atoi s }) msg
                  (ok (uevent, msg)))))))

  unfoldable pub parse_event_loop : ℕ → List ℕ → Uevent → Run Uevent
  parse_event_loop zero msg uevent = fault out_of_fuel
  parse_event_loop (suc fuel) [] uevent = fault out_of_bounds
  parse_event_loop (suc fuel) (zero ∷ msg) uevent = ok uevent
  parse_event_loop (suc fuel) (suc b ∷ msg) uevent = do
    r ← parse_string uevent (suc b ∷ msg)
    msg' ← next_string r.1
    parse_event_loop fuel msg' r.0

  -- A round moves behind one byte at least. The result is what is printed.
  unfoldable pub parse_event : List ℕ → Run Uevent
  parse_event msg = parse_event_loop (length msg) msg blank_event

-- What one `recvmsg` gives: the bytes, where they come from, and the type and the user of the
-- first control message, if there is one.
pub record Received : Type 0 where
  pub bytes : List ℕ
  pub nl_groups : ℕ
  pub nl_pid : ℕ
  pub cmsg : Option (ℕ × ℕ)

abbrev pub scm_credentials : ℕ
scm_credentials = 2

-- One round with a message that was received, at whose end the event is printed, or nothing.
-- `stack` is what the array `msg` held.
unfoldable pub handle_message : (List ℕ → ℕ) → List ℕ → Received → Run (Option Uevent)
handle_message atoi stack m =
    let n = length m.bytes in
    memcpy n stack 0 m.bytes >>= λ msg.
    if not (m.nl_groups == 1 && m.nl_pid == 0) then ok none else (elim m.cmsg [
      | none ↦ ok none
      | some cred ↦
          if not (cred.0 == scm_credentials)
          then ok none
          else if not (cred.1 == 0)
          then ok none
          else if leb uevent_msg_len n
          then ok none
          else (store msg n 0 >>= λ msg1.
              store msg1 (n + 1) 0 >>= λ msg2. parse_event atoi msg2 >>= λ uevent. ok (some uevent))
    ])

-- The events that are printed until `recvmsg` gives 0, the length of an empty message, or less, at
-- the end of the list. Each round has an array of its own, of which `stack` says what it held.
unfoldable pub handle_device_fd : (List ℕ → ℕ) → (ℕ → List ℕ) → List Received → Run (List Uevent)
handle_device_fd atoi stack [] = ok []
handle_device_fd atoi stack (m ∷ ms) =
    if length m.bytes == 0
    then ok []
    else (handle_message atoi (stack (length ms)) m >>= λ e.
        handle_device_fd atoi stack ms >>= λ es.
        ok (elim e [ none ↦ es | some uevent ↦ uevent ∷ es ]))

-- The descriptor of a socket or none for -1, and the sockets that stay open. `socket` and `bound`
-- are what the system answers; what it answers to the options is not looked at.
unfoldable pub open_uevent_socket : (socket : Option ℕ) (bound : Bool) → Option ℕ × List ℕ
open_uevent_socket none bound = (none, [])
open_uevent_socket (some s) bound = if not bound then (none, []) else (some s, s ∷ [])

-- The events that are printed, and the program's result, which is 0 at the end of its body.
unfoldable pub main :
    (List ℕ → ℕ) → (ℕ → List ℕ) → Option ℕ → Bool → List Received → Run (List Uevent × ℕ)
main atoi stack socket bound ms = elim (open_uevent_socket socket bound).0 [
  | none ↦ ok ([], minus_one)
  | some fd ↦ (handle_device_fd atoi stack ms >>= λ es. ok (es, 0))
]
