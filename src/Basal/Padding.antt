-- ===== src/Basal/Padding.antt =====
-- util.go: the padding of EncTogDES and DecTogDES. Bytes are numbers below 256.
use native.Mathlib.Nat.{mod-lt}
use card.Prelude.{
  false, ℕ, zero, suc, ◌+◌, ◌-◌, ◌%◌, ◌<◌, ◌≡◌, refl, ap, ◌∙◌, List, [], ◌∷◌, ◌++◌, Option, none,
  some, arith, ltb, if◌then◌else◌, length, get_elem?, take, replicate, length-append,
  length-replicate,
}

unfoldable pub pkcs5_padding : List ℕ → ℕ → List ℕ
pkcs5_padding ciphertext block_size =
    let padding : ℕ = block_size - length ciphertext % block_size in
    ciphertext ++ replicate padding (padding % 256)

abbrev cut_last : List ℕ → Option ℕ → Option (List ℕ)
cut_last orig_data none = none
cut_last orig_data (some unpadding) =
    if ltb (length orig_data) unpadding
    then none
    else some (take (length orig_data - unpadding) orig_data)

-- `none` is the nil slice.
unfoldable pub pkcs5_unpadding : List ℕ → Option (List ℕ)
pkcs5_unpadding orig_data = cut_last orig_data (get_elem? orig_data (length orig_data - 1))

last_same : (m p : ℕ) → get_elem? (replicate (suc m) p) m ≡ some p
last_same zero p = refl
last_same (suc m) p = last_same m p

last_pad : (s : List ℕ) (m p : ℕ) → get_elem? (s ++ replicate (suc m) p) (length s + m) ≡ some p
last_pad [] m p =
    let e : 0 + m ≡ m = omega arith in ap (λ i. get_elem? (replicate (suc m) p) i) e ∙ last_same m p
last_pad (c ∷ s) m p =
    let e : suc (length s) + m ≡ suc (length s + m) = omega arith in
    ap (λ i. get_elem? (c ∷ s ++ replicate (suc m) p) i) e ∙ last_pad s m p

take_own : (s r : List ℕ) → take (length s) (s ++ r) ≡ s
take_own [] r = refl
take_own (c ∷ s) r = ap (λ l. c ∷ l) (take_own s r)

unpadded :
    (s : List ℕ) (m : ℕ)
    → suc m < 256
    → pkcs5_unpadding (s ++ replicate (suc m) (suc m % 256)) ≡ some s
unfolding pkcs5_unpadding
unpadded s m k =
    let e : suc m % 256 ≡ suc m = omega arith in
    let whole : List ℕ = s ++ replicate (suc m) (suc m) in
    let l : length whole ≡ length s + suc m =
      length-append s (replicate (suc m) (suc m))
      ∙ ap (λ x. length s + x) (length-replicate (suc m) (suc m)) in
    let i : length whole - 1 ≡ length s + m = omega arith in
    let a : get_elem? whole (length whole - 1) ≡ some (suc m) =
      ap (get_elem? whole) i ∙ last_pad s m (suc m) in
    let t : ltb (length whole) (suc m) ≡ false = ground arith in
    let d : length whole - suc m ≡ length s = omega arith in
    rw (e, a, t, d) (ap some (take_own s (replicate (suc m) (suc m))))

-- What was padded to blocks of at least 1 and less than 256 bytes is unpadded to itself.
pub pkcs5_unpadding-pkcs5_padding :
    (s : List ℕ) (block_size : ℕ)
    → 0 < block_size
    → block_size < 256
    → pkcs5_unpadding (pkcs5_padding s block_size) ≡ some s
unfolding pkcs5_padding
pkcs5_unpadding-pkcs5_padding s b h k =
    let m : ℕ = b - length s % b - 1 in
    let r : length s % b < b = mod-lt (length s) h in
    let e : b - length s % b ≡ suc m = omega arith in rw e (unpadded s m (omega arith))
