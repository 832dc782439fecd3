-- ===== src/Net/Delay.antt =====
-- msgque_tcp.go: `tcpWriteDelayCtrl`, which shortens the pause before a write when the queue is long. The
-- settings are an int32 and an int, which may be negative; what it keeps is not.
use card.Prelude.{
  ℕ, ◌+◌, ◌/◌, ◌≤◌, ◌≡◌, refl, Bool, true, false, List, [], ◌∷◌, arith, if◌then◌else◌, ltb, leb,
  ◌==◌, not, ◌||◌,
}
use card.Prelude.Int.{ℤ, pos, pos_part}

pub record TcpWriteDelayCtrl : Type 0 where
  pub max_delay_ms : ℕ
  pub watermark : ℕ
  pub cur_delay_ms : ℕ
  pub high_streak : ℕ
  pub low_streak : ℕ

-- `Reset`, which gives every field.
unfoldable pub reset : ℤ → ℤ → TcpWriteDelayCtrl
reset max_delay_ms watermark = record {
  max_delay_ms = pos_part max_delay_ms;
  watermark = if pos_part watermark == 0 then 1 else pos_part watermark;
  cur_delay_ms = pos_part max_delay_ms;
  high_streak = 0;
  low_streak = 0;
}

-- After a batch above the watermark.
unfoldable pub on_high : TcpWriteDelayCtrl → TcpWriteDelayCtrl
on_high c =
    let streak : ℕ = c.high_streak + 1 in
    if leb (c.watermark / 3) streak
    then record c {
      cur_delay_ms = if ltb (c.cur_delay_ms / 2) 1 then 1 else c.cur_delay_ms / 2;
      high_streak = 0;
      low_streak = 0;
    }
    else record c { high_streak = streak; low_streak = 0 }

-- After another batch.
unfoldable pub on_low : TcpWriteDelayCtrl → TcpWriteDelayCtrl
on_low c =
    let streak : ℕ = c.low_streak + 1 in
    if leb c.watermark streak
    then (let raised : ℕ =
          if ltb c.cur_delay_ms c.max_delay_ms then c.cur_delay_ms + 1 else c.cur_delay_ms in
        record c {
          cur_delay_ms = if ltb c.max_delay_ms raised then c.max_delay_ms else raised;
          high_streak = 0;
          low_streak = 0;
        })
    else record c { low_streak = streak; high_streak = 0 }

-- The new state and the pause in milliseconds.
unfoldable pub next_delay : TcpWriteDelayCtrl → ℕ → Bool → TcpWriteDelayCtrl × ℕ
unfolding on_high on_low
next_delay c last_batch allow_delay =
    if c.max_delay_ms == 0
    then (c, 0)
    else (let c' = if ltb c.watermark last_batch then on_high c else on_low c in
        (c', if not allow_delay || c'.cur_delay_ms == 0 then 0 else c'.cur_delay_ms))

-- The batches one after the other; the state and the pauses, the first one first.
unfoldable pub delays : TcpWriteDelayCtrl → List (ℕ × Bool) → TcpWriteDelayCtrl × List ℕ
unfolding next_delay
delays c [] = (c, [])
delays c ((batch, allow) ∷ rest) =
    let (c', pause) = next_delay c batch allow in
    let (c'', pauses) = delays c' rest in (c'', pause ∷ pauses)

record IsBounded (max : ℕ) (c : TcpWriteDelayCtrl) : Type 0 where
  same : c.max_delay_ms ≡ max
  low : 1 ≤ c.cur_delay_ms
  high : c.cur_delay_ms ≤ max

next_delay-IsBounded :
    (max : ℕ) (c : TcpWriteDelayCtrl) (batch : ℕ) (allow : Bool)
    → 1 ≤ max
    → IsBounded max c
    → IsBounded max (next_delay c batch allow).0
      × ((next_delay c batch allow).1 ≤ max)
      × (allow ≡ true → 1 ≤ (next_delay c batch allow).1)
      × (allow ≡ false → (next_delay c batch allow).1 ≡ 0)
unfolding next_delay on_high on_low
next_delay-IsBounded max c batch allow h v =
    (ground arith, ground arith, λ a. ground arith, λ a. ground arith)

-- Every pause is within the configured delay, at least a millisecond where a pause is allowed, and none
-- where it is not.
abbrev pub ArePauses : ℕ → List (ℕ × Bool) → List ℕ → Type 0
ArePauses max [] [] = Unit
ArePauses max [] (p ∷ ps) = ⊥
ArePauses max (b ∷ bs) [] = ⊥
ArePauses max ((batch, allow) ∷ bs) (p ∷ ps) =
    (p ≤ max) × (allow ≡ true → 1 ≤ p) × (allow ≡ false → p ≡ 0) × ArePauses max bs ps

delays-ArePauses :
    (max : ℕ) (c : TcpWriteDelayCtrl) (batches : List (ℕ × Bool))
    → 1 ≤ max
    → IsBounded max c
    → ArePauses max batches (delays c batches).1
unfolding delays
delays-ArePauses max c [] h v = tt
delays-ArePauses max c ((batch, allow) ∷ rest) h v =
    let k = next_delay-IsBounded max c batch allow h v in
    (k.1, k.2, k.3, delays-ArePauses max (next_delay c batch allow).0 rest h k.0)

-- With a delay configured, whatever the sizes of the batches and whatever the watermark, every pause
-- before a write is at most the configured delay, at least one millisecond where a pause is allowed,
-- and none where it is not.
pub reset-delays :
    (max : ℕ) (watermark : ℤ) (batches : List (ℕ × Bool))
    → 1 ≤ max
    → ArePauses max batches (delays (reset (pos max) watermark) batches).1
unfolding reset
reset-delays max watermark batches h =
    delays-ArePauses max (reset (pos max) watermark) batches h
      (record { same = refl; low = h; high = omega arith })
