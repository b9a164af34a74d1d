-- ===== src/Uevent/Receive.antt =====
-- Which messages are accepted, and that all are handled within the array.
use linux_char_driver_frame.Base.{
  minus_one, ℕ, zero, suc, ◌+◌, ◌≤◌, ◌≡◌, refl, ap, ◌∙◌, arith, Bool, true, false, Option, none,
  some, List, [], ◌∷◌, ◌++◌, Run, ok, length, drop, take, store, set, get_elem?, memcpy,
  memcpy-append, ◌>>=◌, ◌==◌, ◌&&◌, ltb, leb, if◌then◌else◌, inl, inr, Bool-cases, not,
}
use linux_char_driver_frame.Uevent.{
  Uevent, Received, uevent_msg_len, scm_credentials, handle_message, handle_device_fd, main,
  open_uevent_socket, parse_event, blank_event,
}
use linux_char_driver_frame.Uevent.Strings.{described, strings, before_empty}
use linux_char_driver_frame.Uevent.Parse.{parse_event-described}

-- The message comes from the kernel, with the credentials of the user 0, and is short enough.
abbrev pub accepted : Received → Bool
accepted m =
    m.nl_groups == 1
    && m.nl_pid == 0
    && elim m.cmsg [ none ↦ false | some cred ↦ cred.0 == scm_credentials && cred.1 == 0 ]
    && ltb (length m.bytes) uevent_msg_len

-- What a message says.
abbrev pub event_of : (List ℕ → ℕ) → Received → Uevent
event_of atoi m = described atoi (before_empty (strings m.bytes)) blank_event

-- The events of the messages that are accepted, in their order.
abbrev pub events_of : (List ℕ → ℕ) → List Received → List Uevent
events_of atoi [] = []
events_of atoi (m ∷ ms) =
    let rest = events_of atoi ms in if accepted m then event_of atoi m ∷ rest else rest

-- The messages before the first empty one, which ends the loop.
abbrev pub before_end : List Received → List Received
before_end [] = []
before_end (m ∷ ms) = let rest = before_end ms in if length m.bytes == 0 then [] else m ∷ rest

-- `recvmsg` gives as many bytes as the array has at most.
abbrev pub Fit : List Received → Type 0
Fit [] = Unit
Fit (m ∷ ms) = (length m.bytes ≤ uevent_msg_len + 2) × Fit ms

take_all : (bs : List ℕ) → take (length bs) bs ≡ bs
take_all [] = refl
take_all (b ∷ bs) = ap (λ l. b ∷ l) (take_all bs)

get_elem?-append :
    (bs rest : List ℕ) (i at : ℕ)
    → at ≡ length bs + i
    → get_elem? (bs ++ rest) at ≡ get_elem? rest i
get_elem?-append [] rest i at e = ap (get_elem? rest) (omega arith)
get_elem?-append (b ∷ bs) rest i zero e = absurd (omega arith)
get_elem?-append (b ∷ bs) rest i (suc at) e = get_elem?-append bs rest i at (omega arith)

set-append :
    (bs rest : List ℕ) (i at v : ℕ)
    → at ≡ length bs + i
    → set (bs ++ rest) at v ≡ bs ++ set rest i v
set-append [] rest i at v e = ap (λ k. set rest k v) (omega arith)
set-append (b ∷ bs) rest i zero v e = absurd (omega arith)
set-append (b ∷ bs) rest i (suc at) v e = ap (λ l. b ∷ l) (set-append bs rest i at v (omega arith))

-- Writing to the place `i` behind some bytes.
store-append :
    (bs rest : List ℕ) (i at v : ℕ) {old : ℕ}
    → at ≡ length bs + i
    → get_elem? rest i ≡ some old
    → store (bs ++ rest) at v ≡ ok (bs ++ set rest i v)
store-append bs rest i at v e here =
    rw (get_elem?-append bs rest i at e, here, set-append bs rest i at v e) refl

drop_two :
    (n : ℕ) (xs : List ℕ)
    → n + 2 ≤ length xs
    → (x y : ℕ) × (rest : List ℕ) × (drop n xs ≡ x ∷ y ∷ rest)
drop_two zero [] h = elim h [ ]
drop_two zero (x ∷ []) h = absurd (omega arith)
drop_two zero (x ∷ y ∷ rest) h = (x, y, rest, refl)
drop_two (suc n) [] h = absurd (omega arith)
drop_two (suc n) (x ∷ xs) h = drop_two n xs (omega arith)

leb-ltb : (a b : ℕ) → leb a b ≡ not (ltb b a)
leb-ltb a b = ground arith

-- The tests of a round, of which the last one is of the length.
guards :
    (g p : Bool) (cmsg : Option (ℕ × ℕ)) (short long : Bool) (run : Run (Option Uevent))
    (e : Uevent)
    → long ≡ not short
    → (short ≡ true → run ≡ ok (some e))
    → (if not (g && p) then ok none else elim cmsg [
      | none ↦ ok none
      | some cred ↦
          if not (cred.0 == scm_credentials)
          then ok none
          else if not (cred.1 == 0)
          then ok none
          else if long
          then ok none
          else run
    ])
      ≡ ok (
          if (g
            && p
            && elim cmsg [ none ↦ false | some cred ↦ cred.0 == scm_credentials && cred.1 == 0 ]
            && short)
          then some e
          else none)
guards false p cmsg short long run e w h = refl
guards true false cmsg short long run e w h = refl
guards true true none short long run e w h = refl
guards true true (some cred) short long run e w h = elim (Bool-cases (cred.0 == scm_credentials)) [
  | inr t ↦ rw t refl
  | inl t ↦ elim (Bool-cases (cred.1 == 0)) [
    | inr u ↦ rw (t, u) refl
    | inl u ↦ elim (Bool-cases short) [
      | inr l ↦ rw (t, u, w, l) refl
      | inl l ↦ rw (t, u, w, l) (h l)
    ]
  ]
]

short_lem : (n : ℕ) → ltb n uevent_msg_len ≡ true → n + 2 ≤ uevent_msg_len + 2
short_lem n h = ground arith

-- A message that leaves two bytes of the array is parsed.
closes :
    (atoi : List ℕ → ℕ) (stack : List ℕ) (m : Received)
    → length m.bytes + 2 ≤ length stack
    → (store (m.bytes ++ drop (length m.bytes) stack) (length m.bytes) 0 >>= λ msg1.
        store msg1 (length m.bytes + 1) 0 >>= λ msg2.
        parse_event atoi msg2 >>= λ uevent. ok (some uevent))
      ≡ ok (some (event_of atoi m))
closes atoi stack m h =
    let (x, y, rest, e) = drop_two (length m.bytes) stack h in
    rw
      (
        e,
        store-append m.bytes (x ∷ y ∷ rest) 0 (length m.bytes) 0 (omega arith) refl,
        store-append m.bytes (0 ∷ y ∷ rest) 1 (length m.bytes + 1) 0 refl refl,
        parse_event-described atoi m.bytes rest,
      )
      refl

handle_message-accepted :
    (atoi : List ℕ → ℕ) (stack : List ℕ) (m : Received)
    → length stack ≡ uevent_msg_len + 2
    → length m.bytes ≤ uevent_msg_len + 2
    → handle_message atoi stack m ≡ ok (if accepted m then some (event_of atoi m) else none)
unfolding handle_message
handle_message-accepted atoi stack m size fits =
    let n = length m.bytes in
    let copied : memcpy n stack 0 m.bytes ≡ ok (m.bytes ++ drop n stack) =
      memcpy-append n [] stack m.bytes (omega arith) (omega arith)
      ∙ ap (λ l. ok (l ++ drop n stack)) (take_all m.bytes) in
    rw copied (
      guards (m.nl_groups == 1) (m.nl_pid == 0) m.cmsg (ltb n uevent_msg_len) (leb uevent_msg_len n)
        _ (event_of atoi m) (leb-ltb uevent_msg_len n)
        λ l. closes atoi stack m (omega (arith, size, short_lem n l)))

handle_device_fd-events_of :
    (atoi : List ℕ → ℕ) (stack : ℕ → List ℕ) (ms : List Received)
    → ((k : ℕ) → length (stack k) ≡ uevent_msg_len + 2)
    → Fit ms
    → handle_device_fd atoi stack ms ≡ ok (events_of atoi (before_end ms))
unfolding handle_device_fd
handle_device_fd-events_of atoi stack [] size fit = refl
handle_device_fd-events_of atoi stack (m ∷ ms) size fit = elim (Bool-cases (length m.bytes == 0)) [
  | inl ends ↦ rw ends refl
  | inr goes_on ↦
      rw
        (
          goes_on,
          handle_message-accepted atoi (stack (length ms)) m (size (length ms)) fit.0,
          handle_device_fd-events_of atoi stack ms size fit.1,
        )
        (elim (Bool-cases (accepted m)) [ inl e ↦ rw e refl | inr e ↦ rw e refl ])
]

-- Where the socket is made and bound, the listener prints the events of the messages that are
-- accepted before the first empty one, in their order, and ends with 0; otherwise it prints none
-- and ends with -1. It stays within its arrays for messages of any bytes that recvmsg fits into
-- them.
pub main-events_of :
    (atoi : List ℕ → ℕ) (stack : ℕ → List ℕ) (socket : Option ℕ) (bound : Bool) (ms : List Received)
    → ((k : ℕ) → length (stack k) ≡ uevent_msg_len + 2)
    → Fit ms
    → main atoi stack socket bound ms
      ≡ ok (elim socket [
        | none ↦ ([], minus_one)
        | some s ↦ if bound then (events_of atoi (before_end ms), 0) else ([], minus_one)
      ])
unfolding main open_uevent_socket
main-events_of atoi stack none bound ms size fit = refl
main-events_of atoi stack (some s) false ms size fit = refl
main-events_of atoi stack (some s) true ms size fit =
    rw (handle_device_fd-events_of atoi stack ms size fit) refl
