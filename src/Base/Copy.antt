-- ===== src/Base/Copy.antt =====
-- Copies of bytes that fit, and those that do not.
use Prim.Native.Nat.{ℕ, zero, suc, ◌+◌, ◌≤◌, ◌<◌}
use mathlib.Core.Path.{◌≡◌, refl, sym, ap, ap₂, ◌∙◌}
use mathlib.Core.List.{List, [], ◌∷◌, ◌++◌, append_assoc}
use mathlib.Core.Option.{some}
use native.Mathlib.Decide.{dec_lt}
use native.Mathlib.Omega.{arith}
use linux_char_driver_frame.Base.Array.{
  length, get_elem?, set, take, drop, length-append, get_elem?-eq-some, get_elem?-eq-none,
  length-set, get_elem?-set_self, get_elem?-set_ne,
}
use linux_char_driver_frame.Base.Outcome.{ok, fault, out_of_bounds, memcpy, Returns}

module _ {ℓ} {A : Type ℓ} where
  -- A copy beyond the end of an array.
  pub memcpy-overflow :
      (n : ℕ) (dst : List A) (at : ℕ) (src : List A)
      → length dst < at + n
      → at ≤ length dst
      → memcpy n dst at src ≡ fault out_of_bounds
  unfolding memcpy
  memcpy-overflow zero dst at src over inside = absurd (omega arith)
  memcpy-overflow (suc n) dst at [] over inside = refl
  memcpy-overflow (suc n) dst at (b ∷ src) over inside = elim (dec_lt at (length dst)) [
    | yes low ↦
        let (old, there) = get_elem?-eq-some dst at low in
        ground (
          arith,
          there,
          memcpy-overflow n (set dst at b) (at + 1) src (omega (arith, length-set dst at b))
              (omega (arith, length-set dst at b)),
        )
    | no high ↦ ground (arith, get_elem?-eq-none dst at (omega arith))
  ]

  -- A copy that fits: the bytes from `at` on are those copied, and those before stay.
  pub memcpy-Returns :
      (n : ℕ) (dst : List A) (at : ℕ) (src : List A)
      → at + n ≤ length dst
      → n ≤ length src
      → Returns (memcpy n dst at src) λ out.
        (length out ≡ length dst)
        × ((j : ℕ) → j < n → get_elem? out (at + j) ≡ get_elem? src j)
        × ((j : ℕ) → j < at → get_elem? out j ≡ get_elem? dst j)
  unfolding memcpy
  memcpy-Returns zero dst at src fits long =
      (dst, refl, (refl, (λ j h. absurd (omega arith)), λ j h. refl))
  memcpy-Returns (suc n) dst at [] fits long = absurd (omega arith)
  memcpy-Returns (suc n) dst at (b ∷ src) fits long =
      let (old, there) = get_elem?-eq-some dst at (omega arith) in
      let (out, run, (width, copied, before)) =
        memcpy-Returns n (set dst at b) (at + 1) src (omega (arith, length-set dst at b))
          (omega arith) in
      (
        out,
        ground (arith, there, run),
        (
          width ∙ length-set dst at b,
          copied_at out copied before,
          λ j h. before j (omega arith) ∙ get_elem?-set_ne dst at j b (λ e. absurd (omega arith)),
        ),
      )
    where
      copied_at :
          (out : List A)
          → ((j : ℕ) → j < n → get_elem? out (at + 1 + j) ≡ get_elem? src j)
          → ((j : ℕ) → j < at + 1 → get_elem? out j ≡ get_elem? (set dst at b) j)
          → (j : ℕ) → j < suc n
          → get_elem? out (at + j) ≡ get_elem? (b ∷ src) j
      copied_at out copied before zero h =
          ap (get_elem? out) (omega arith)
          ∙ before at (omega arith)
          ∙ get_elem?-set_self dst at b (omega arith)
      copied_at out copied before (suc j) h =
          ap (get_elem? out) (omega arith) ∙ copied j (omega arith)

  get_elem?-append :
      (before : List A) (b : A) (rest : List A)
      → get_elem? (before ++ b ∷ rest) (length before) ≡ some b
  get_elem?-append [] b rest = refl
  get_elem?-append (x ∷ before) b rest = get_elem?-append before b rest

  set-append :
      (before : List A) (old b : A) (rest : List A)
      → set (before ++ old ∷ rest) (length before) b ≡ before ++ b ∷ rest
  set-append [] old b rest = refl
  set-append (x ∷ before) old b rest = ap (λ xs. x ∷ xs) (set-append before old b rest)

  -- A copy that fits replaces what it covers.
  pub memcpy-append :
      (n : ℕ) (before dst src : List A)
      → n ≤ length dst
      → n ≤ length src
      → memcpy n (before ++ dst) (length before) src ≡ ok (before ++ (take n src ++ drop n dst))
  unfolding memcpy
  memcpy-append zero before dst src fits long = refl
  memcpy-append (suc n) before [] src fits long = absurd (omega arith)
  memcpy-append (suc n) before (old ∷ dst) [] fits long = absurd (omega arith)
  memcpy-append (suc n) before (old ∷ dst) (b ∷ src) fits long =
      rw (get_elem?-append before old dst, set-append before old b dst)
        (ap₂ (λ xs at. memcpy n xs at src) (sym (append_assoc before (b ∷ []) dst))
            (sym (length-append before (b ∷ [])))
          ∙ memcpy-append n (before ++ b ∷ []) dst src (omega arith) (omega arith)
          ∙ ap ok (append_assoc before (b ∷ []) (take n src ++ drop n dst)))
