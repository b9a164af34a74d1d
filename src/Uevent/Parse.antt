-- ===== src/Uevent/Parse.antt =====
-- The parser of an event finds what the strings of the message say.
use linux_char_driver_frame.Base.{
  ℕ, zero, suc, ◌+◌, ◌≤◌, ◌<◌, ◌≡◌, refl, ap, ◌∙◌, arith, none, Option-cases, inl, inr, List, [],
  ◌∷◌, ◌++◌, Run, ok, length, length-append,
}
use mathlib.Core.Path.{subst}
use linux_char_driver_frame.Uevent.{
  Uevent, on_key, action_key, path_key, subsystem_key, firmware_key, major_key, minor_key,
  parse_string, parse_event_loop, parse_event, blank_event,
}
use linux_char_driver_frame.Uevent.Strings.{
  IsString, IsStrings, value_of, value_of-some, value_of-IsString, on_key-some, on_key-none,
  described, strings, before_empty, joined, joined-strings, strings-IsStrings, next_string-append,
}

module _ (atoi : List ℕ → ℕ) where
  module _ (e : Uevent) (s tail : List ℕ) (p : IsString s) where
    -- The run sets what the string says, and stays before the string's end.
    abbrev Handles : Run (Uevent × List ℕ) → Type 0
    Handles r = (v : List ℕ) × IsString v × (r ≡ ok (described atoi (s ∷ []) e, v ++ 0 ∷ tail))

    branch :
        (key : List ℕ) (set_field : List ℕ → Uevent) {otherwise : Run (Uevent × List ℕ)}
        → IsString key
        → ((v : List ℕ) → s ≡ key ++ v → set_field v ≡ described atoi (s ∷ []) e)
        → (value_of key s ≡ none → Handles otherwise)
        → Handles (on_key key set_field (s ++ 0 ∷ tail) otherwise)
    branch key set_field {otherwise} k sets rest = elim (Option-cases (value_of key s)) [
      | inl n ↦
          (let (v, q, run) = rest n in (v, q, on_key-none key set_field s tail otherwise k n ∙ run))
      | inr (v, h) ↦ (
        v,
        value_of-IsString key s h p,
        on_key-some key set_field s tail otherwise k p h
            ∙ ap (λ e'. ok (e', v ++ 0 ∷ tail)) (sets v (value_of-some key s h)),
      )
    ]

    parse_string-Handles : Handles (parse_string atoi e (s ++ 0 ∷ tail))
    unfolding parse_string
    parse_string-Handles =
        branch action_key _ tt (λ v h. rw h refl)
          λ n0.
            branch path_key _ tt (λ v h. rw h refl)
              λ n1.
                branch subsystem_key _ tt (λ v h. rw h refl)
                  λ n2.
                    branch firmware_key _ tt (λ v h. rw h refl)
                      λ n3.
                        branch major_key _ tt (λ v h. rw h refl)
                          λ n4.
                            branch minor_key _ tt (λ v h. rw h refl)
                              λ n5. (s, p, rw (n0, n1, n2, n3, n4, n5) refl)

  parse_event_loop-described :
      (fuel : ℕ) (ss : List (List ℕ)) (tail : List ℕ) (e : Uevent)
      → IsStrings ss
      → length ss < fuel
      → parse_event_loop atoi fuel (joined ss (0 ∷ tail)) e
        ≡ ok (described atoi (before_empty ss) e)
  unfolding parse_event_loop
  parse_event_loop-described zero ss tail e p h = elim h [ ]
  parse_event_loop-described (suc fuel) [] tail e p h = refl
  parse_event_loop-described (suc fuel) ([] ∷ ss) tail e p h = refl
  parse_event_loop-described (suc fuel) ((zero ∷ s) ∷ ss) tail e p h = elim p.0 [ ]
  parse_event_loop-described (suc fuel) ((suc b ∷ s) ∷ ss) tail e p h =
      let (v, q, run) = parse_string-Handles e (suc b ∷ s) (joined ss (0 ∷ tail)) p.0 in
      rw (run, next_string-append v (joined ss (0 ∷ tail)) q)
        (parse_event_loop-described fuel ss tail (described atoi ((suc b ∷ s) ∷ []) e) p.1
          (omega arith))

  length-joined :
      (ss : List (List ℕ)) (tail : List ℕ) → length ss + length tail ≤ length (joined ss tail)
  length-joined [] tail = omega arith
  length-joined (s ∷ ss) tail =
      omega (arith, length-joined ss tail, length-append s (0 ∷ joined ss tail))

  -- A message of any bytes with two zeros behind them is parsed within the array, whatever stands
  -- behind the zeros. The event has for each key what the last string with the key says, where the
  -- bytes are cut into strings by their zeros, and those behind the first empty one do not count.
  pub parse_event-described :
      (bs tail : List ℕ)
      → parse_event atoi (bs ++ 0 ∷ 0 ∷ tail)
        ≡ ok (described atoi (before_empty (strings bs)) blank_event)
  unfolding parse_event
  parse_event-described bs tail =
      let cut = joined-strings bs (0 ∷ tail) in
      let room = length-joined (strings bs) (0 ∷ tail) in
      subst
        (λ msg.
          parse_event_loop atoi (length msg) msg blank_event
          ≡ ok (described atoi (before_empty (strings bs)) blank_event))
        cut
        (parse_event_loop-described (length (joined (strings bs) (0 ∷ tail))) (strings bs) tail
          blank_event (strings-IsStrings bs) (omega (arith, room)))
