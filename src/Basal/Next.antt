-- ===== src/Basal/Next.antt =====
-- next.go: the readers of numbers and of prefixed bytes in a text. A text is its bytes; a reader that
-- finds nothing stays where it is.
use card.Prelude.{
  Option-cases, ap, subst, ℕ, zero, suc, ◌+◌, ◌-◌, ◌*◌, ◌^◌, ◌%◌, ◌≤◌, ◌<◌, ◌≡◌, refl, List, [],
  ◌∷◌, Option, none, some, Bool, ◌&&◌, not, arith, ltb, leb, ◌==◌, if◌then◌else◌, length, get_elem?,
  drop, length-drop, Bool-cases, inl, inr,
}
use card.Prelude.Text.{Str}

-- The position of the readers `NextNumber` and `NextPrefixByte`.
pub record Reader : Type 0 where
  pub s : Str
  pub length_of : ℕ
  pub at : ℕ

unfoldable pub new_next_number : Str → Reader
new_next_number s = record { s = s; length_of = length s; at = 0 }

unfoldable pub reset : Reader → Reader
reset m = record m { length_of = length m.s; at = 0 }

unfoldable pub byte_by_offset : Reader → ℕ → Option ℕ
byte_by_offset m offset =
    if ltb (m.at + offset) m.length_of then get_elem? m.s (m.at + offset) else none

abbrev pub is_digit : ℕ → Bool
is_digit c = leb 48 c && leb c 57

-- The loop that passes over what is no digit: how many bytes it passes.
unfoldable pub skip : Str → ℕ
skip [] = 0
skip (c ∷ s) = if is_digit c then 0 else suc (skip s)

-- The loops that read digits, at most `w`: the number, as the 64 bits of an `int`, and its width.
unfoldable pub read_digits : ℕ → ℕ → Str → ℕ × ℕ
read_digits zero num s = (num, 0)
read_digits (suc w) num [] = (num, 0)
read_digits (suc w) num (c ∷ s) =
    let rest : ℕ × ℕ = read_digits w ((num * 10 + (c - 48)) % 2 ^ 64) s in
    if is_digit c then (rest.0, suc rest.1) else (num, 0)

-- The number that was read, as its 64 bits, and the reader behind it.
unfoldable pub next : Reader → ℕ → ℕ → Option (ℕ × Reader)
next m jump w =
    let k : ℕ = skip (drop m.at m.s) in
    let start : ℕ = m.at + k in
    let r : ℕ × ℕ = read_digits (if ltb 0 w then w else length m.s) 0 (drop start m.s) in
    if start == m.length_of
    then none
    else if ltb 0 jump && not (k == jump)
    then none
    else if r.1 == 0
    then none
    else some (r.0, record m { at = start + r.1 })

-- `Numbers`, on fuel: the widths that are left, then widths of any length.
unfoldable pub numbers : ℕ → Reader → List ℕ → List ℕ
numbers zero m widths = []
numbers (suc fuel) m [] = elim (next m 0 0) [
  | none ↦ []
  | some found ↦ found.0 ∷ numbers fuel found.1 []
]
numbers (suc fuel) m (w ∷ widths) = elim (next m 0 w) [
  | none ↦ []
  | some found ↦ found.0 ∷ numbers fuel found.1 widths
]

-- `NextPrefixByte.Next`: how far behind the position the byte after the prefix stands.
unfoldable pub after_prefix : ℕ → Str → ℕ
after_prefix prefix [] = 0
after_prefix prefix (c ∷ s) = if c == prefix then 1 else suc (after_prefix prefix s)

unfoldable pub next_prefixed : Reader → ℕ → Option (ℕ × ℕ × Reader)
next_prefixed my prefix =
    let jump : ℕ = after_prefix prefix (drop my.at my.s) in
    elim (get_elem? my.s (my.at + jump)) [
      | none ↦ none
      | some b ↦ some (b, jump, record my { at = my.at + jump })
    ]

read_digits-width : (w num : ℕ) (s : Str) → (read_digits w num s).1 ≤ length s
unfolding read_digits
read_digits-width zero num s = omega arith
read_digits-width (suc w) num [] = omega arith
read_digits-width (suc w) num (c ∷ s) = elim (Bool-cases (is_digit c)) [
  | inl e ↦
      let ih : (read_digits w ((num * 10 + (c - 48)) % 2 ^ 64) s).1 ≤ length s =
        read_digits-width w ((num * 10 + (c - 48)) % 2 ^ 64) s in
      rw e (omega arith)
  | inr e ↦ rw e (omega arith)
]

skip-length : (s : Str) → skip s ≤ length s
unfolding skip
skip-length [] = omega arith
skip-length (c ∷ s) = elim (Bool-cases (is_digit c)) [
  | inl e ↦ rw e (omega arith)
  | inr e ↦ rw e (omega (arith, skip-length s))
]

-- Each number that `Next` finds moves a reader inside its text on, never past the end of the text, and
-- leaves the text as it is.
pub next-advances :
    (m : Reader) (jump w n : ℕ) (m' : Reader)
    → m.at ≤ length m.s
    → next m jump w ≡ some (n, m')
    → (m.at < m'.at) × (m'.at ≤ length m'.s) × (m'.s ≡ m.s)
unfolding next
next-advances m jump w n m' inside e =
    let k : ℕ = skip (drop m.at m.s) in
    let start : ℕ = m.at + k in
    let width : ℕ = if ltb 0 w then w else length m.s in
    let r : ℕ × ℕ = read_digits width 0 (drop start m.s) in
    let a : k ≤ length m.s - m.at =
      omega (arith, skip-length (drop m.at m.s), length-drop m.at m.s) in
    let b : r.1 ≤ length m.s - start =
      omega (arith, read_digits-width width 0 (drop start m.s), length-drop start m.s) in
    elim (Bool-cases (start == m.length_of)) [
      | inl end ↦ let e' : ◌≡◌ {A = Option (ℕ × Reader)} none (some (n, m')) = rw end at e in cc
      | inr go ↦ elim (Bool-cases (ltb 0 jump && not (k == jump))) [
        | inl far ↦
            let e' : ◌≡◌ {A = Option (ℕ × Reader)} none (some (n, m')) = rw (go, far) at e in cc
        | inr near ↦ elim (Bool-cases (r.1 == 0)) [
          | inl nothing ↦
              let e' : ◌≡◌ {A = Option (ℕ × Reader)} none (some (n, m')) =
                rw (go, near, nothing) at e in
              cc
          | inr some_digit ↦
              let e' : some (r.0, record m { at = start + r.1 }) ≡ some (n, m') =
                rw (go, near, some_digit) at e in
              let f : record m { at = start + r.1 } ≡ m' = cc in
              let p : 0 < r.1 = ground arith in
              subst (λ (x : Reader). (m.at < x.at) × (x.at ≤ length x.s) × (x.s ≡ m.s)) f
                (omega arith, omega arith, refl)
        ]
      ]
    ]

-- With more fuel than there are bytes behind a reader inside its text, `numbers` finds the same numbers
-- on any other such fuel.
pub numbers-fuel :
    (f g : ℕ) (m : Reader) (widths : List ℕ)
    → m.at ≤ length m.s
    → length m.s - m.at < f
    → length m.s - m.at < g
    → numbers f m widths ≡ numbers g m widths
unfolding numbers
numbers-fuel zero g m widths inside ff gg = absurd (omega arith)
numbers-fuel (suc f) zero m widths inside ff gg = absurd (omega arith)
numbers-fuel (suc f) (suc g) m [] inside ff gg = elim (Option-cases (next m 0 0)) [
  | inl e ↦ rw (e, numbers) refl
  | inr ((n, m'), e) ↦
      let (a, b, c) = next-advances m 0 0 n m' inside e in
      let d : length m'.s ≡ length m.s = ap length c in
      rw (e, numbers) (ap (λ l. n ∷ l) (numbers-fuel f g m' [] b (omega arith) (omega arith)))
]
numbers-fuel (suc f) (suc g) m (w ∷ widths) inside ff gg = elim (Option-cases (next m 0 w)) [
  | inl e ↦ rw (e, numbers) refl
  | inr ((n, m'), e) ↦
      let (a, b, c) = next-advances m 0 w n m' inside e in
      let d : length m'.s ≡ length m.s = ap length c in
      rw (e, numbers) (ap (λ l. n ∷ l) (numbers-fuel f g m' widths b (omega arith) (omega arith)))
]
