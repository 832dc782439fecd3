-- ===== src/Net/Framing/Rounds.antt =====
-- The rounds of the loop over the buffer of a connection: what each part keeps, and that a round ends.
use card.Prelude.{
  ℕ, ◌+◌, ◌-◌, ◌*◌, ◌≤◌, ◌<◌, ◌≡◌, refl, subst, ◌≢◌, ◌⊎◌, inl, inr, ◌++◌, Option, some, arith,
  if◌then◌else◌, if_ind, ltb, leb, ◌==◌, length, take, drop, replicate, length-append, length-take,
  length-replicate, Bool-cases, Option-cases, tests,
}
use card.Prelude.Int.{ℤ, pos, negsuc}
use card.Net.Framing.Defs.{
  head_size, max_head_len, Reader, ReadState, Part, goes, breaks, fails, handled, uint16,
  new_read_state, grow, ensure_frame_capacity, length_part, head_part, with_capacity, with_body,
  body_part, then_part, round,
}

module _ {H : Type 0} (r : Reader H) where
  -- The buffer holds the longest head and whatever frame is accepted.
  pub record IsReady (s : ReadState H) : Type 0 where
    pub filled : s.offset ≤ length s.buf
    pub holds_head : head_size + max_head_len ≤ length s.buf
    pub holds_size : r.read_size ≤ length s.buf
    pub head_fits : s.head_len ≤ max_head_len
    pub body_fits : s.body_len ≤ length s.buf

  pub new_read_state-IsReady : IsReady (new_read_state r.read_size)
  unfolding new_read_state
  new_read_state-IsReady =
      let n : ℕ = if r.read_size == 0 then 1048576 else r.read_size in
      let k : ℕ = if ltb n 1026 then 1026 else n in
      let made : length (replicate {A = ℕ} k 0) ≡ k = length-replicate {A = ℕ} k 0 in
      record {
        filled = omega arith;
        holds_head = ground arith;
        holds_size = ground arith;
        head_fits = omega arith;
        body_fits = omega arith;
      }

  grow-IsReady :
      (s : ReadState H) (required : ℕ)
      → s.offset ≤ length s.buf
      → head_size + max_head_len ≤ length s.buf
      → r.read_size ≤ length s.buf
      → s.head_len ≤ max_head_len
      → s.body_len ≤ required
      → IsReady (grow s required) × ((grow s required).offset ≡ s.offset)
  unfolding grow
  grow-IsReady s required a b' c d e = elim (Bool-cases (leb required (length s.buf))) [
    | inl b ↦ rw b (
      record {
        filled = a;
        holds_head = b';
        holds_size = c;
        head_fits = d;
        body_fits = ground arith;
      },
      refl,
    )
    | inr b ↦
        let grown : length (take s.offset s.buf ++ replicate (required - s.offset) 0) ≡ required =
          ground (
            arith,
            length-append (take s.offset s.buf) (replicate (required - s.offset) 0),
            length-take s.offset s.buf,
            length-replicate {A = ℕ} (required - s.offset) 0,
          ) in
        let more : length s.buf < required = ground arith in
        rw b (
          record {
            filled = omega (arith, grown);
            holds_head = omega (arith, grown);
            holds_size = omega (arith, grown);
            head_fits = d;
            body_fits = omega (arith, grown);
          },
          refl,
        )
  ]

  grow_body :
      (s : ReadState H) (required start ptr : ℕ)
      → (start < ptr) ⊎ ((ptr ≡ start) × (s.body_len ≢ 0))
      → (start < ptr) ⊎ ((ptr ≡ start) × ((grow s required).body_len ≢ 0))
  unfolding grow
  grow_body s required start ptr k =
      if_ind (λ (t : ReadState H). (start < ptr) ⊎ ((ptr ≡ start) × (t.body_len ≢ 0)))
        (leb required (length s.buf)) (λ e. k) (λ e. k)

  -- What a part of a round that began at `start` leaves; `left` is what the next part must find.
  unfoldable pub Leaves : (ReadState H → ℕ) → ℕ → ℕ → Part H → Type 0
  Leaves left offset start (goes s ptr) =
      IsReady s
      × (s.offset ≡ offset)
      × (ptr ≤ offset)
      × ((start < ptr) ⊎ ((ptr ≡ start) × (left s ≢ 0)))
  Leaves left offset start (breaks s ptr) =
      IsReady s × (ptr ≤ s.offset) × (s.offset < ptr + length s.buf)
  Leaves left offset start fails = Unit
  Leaves left offset start (handled s ptr h body ok) =
      IsReady s × (s.offset ≡ offset) × (start < ptr) × (ptr ≤ offset)

  length_part-Leaves :
      (s : ReadState H) (ptr : ℕ)
      → IsReady s
      → ptr ≤ s.offset
      → Leaves (λ t. t.head_len) s.offset ptr (length_part s ptr)
  unfolding length_part Leaves
  length_part-Leaves s ptr v h =
      if_ind (Leaves (λ t. t.head_len) s.offset ptr) (s.head_len == 0)
        (λ b.
          if_ind (Leaves (λ t. t.head_len) s.offset ptr) (ltb s.offset (ptr + 2))
            (λ short. (v, h, omega (tests, v.holds_head)))
            (λ long.
              if_ind (Leaves (λ t. t.head_len) s.offset ptr) (ltb 1024 (uint16 (drop ptr s.buf)))
                (λ big. tt)
                (λ small. (
                  record {
                    filled = v.filled;
                    holds_head = v.holds_head;
                    holds_size = v.holds_size;
                    head_fits = ground arith;
                    body_fits = v.body_fits;
                  },
                  refl,
                  ground arith,
                  inl (omega arith),
                ))))
        (λ b. (v, refl, h, inr (refl, ground arith)))

  with_capacity-Leaves :
      (s : ReadState H) (ptr start : ℕ)
      → s.offset ≤ length s.buf
      → head_size + max_head_len ≤ length s.buf
      → r.read_size ≤ length s.buf
      → s.head_len ≤ max_head_len
      → ptr ≤ s.offset
      → (start < ptr) ⊎ ((ptr ≡ start) × (s.body_len ≢ 0))
      → Leaves (λ t. t.body_len) s.offset start (with_capacity (ensure_frame_capacity r s) ptr)
  unfolding ensure_frame_capacity Leaves
  with_capacity-Leaves s ptr start a b c d h k =
      let total : ℕ = 2 + s.head_len + s.body_len in
      let P : Option (ReadState H) → Type 0 =
        λ o. Leaves (λ t. t.body_len) s.offset start (with_capacity o ptr) in
      if_ind P (leb total r.read_size)
        (λ e. (
          record {
            filled = a;
            holds_head = b;
            holds_size = c;
            head_fits = d;
            body_fits = ground arith;
          },
          refl,
          h,
          k,
        ))
        (λ e.
          if_ind P r.is_internal_conn
            (λ f.
              if_ind P (ltb (r.read_size * 4) total) (λ g. tt)
                (λ g.
                  let grown = grow-IsReady s total a b c d (omega arith) in
                  (grown.0, grown.1, h, grow_body s total start ptr k)))
            (λ f. tt))

  with_body-Leaves :
      (s : ReadState H) (ptr start : ℕ) (h : H) (n : ℤ)
      → IsReady s
      → ptr + s.head_len ≤ s.offset
      → (start < ptr) ⊎ ((ptr ≡ start) × (s.head_len ≢ 0))
      → Leaves (λ t. t.body_len) s.offset start (with_body r s ptr h n)
  unfolding Leaves
  with_body-Leaves s ptr start h (negsuc n) v le k = tt
  with_body-Leaves s ptr start h (pos n) v le k =
      with_capacity-Leaves (record s { msg = some h; body_len = n }) (ptr + s.head_len) start
        v.filled v.holds_head v.holds_size v.head_fits le (inl (omega arith))

  reach_body :
      (s : ReadState H) (ptr start : ℕ)
      → (start < ptr) ⊎ ((ptr ≡ start) × (s.head_len ≢ 0))
      → s.body_len ≢ 0
      → (start < ptr) ⊎ ((ptr ≡ start) × (s.body_len ≢ 0))
  reach_body s ptr start (inl k) h = inl k
  reach_body s ptr start (inr k) h = inr (k.0, h)

  head_part-Leaves :
      (s : ReadState H) (ptr start : ℕ)
      → IsReady s
      → ptr ≤ s.offset
      → (start < ptr) ⊎ ((ptr ≡ start) × (s.head_len ≢ 0))
      → Leaves (λ t. t.body_len) s.offset start (head_part r s ptr)
  unfolding head_part Leaves
  head_part-Leaves s ptr start v h k =
      let P : Part H → Type 0 = Leaves (λ t. t.body_len) s.offset start in
      if_ind P (s.body_len == 0)
        (λ b.
          if_ind P (ltb s.offset (ptr + s.head_len))
            (λ short. (v, h, omega (tests, v.holds_head, v.head_fits)))
            (λ long. elim (Option-cases (r.new_message_head s.head_len (drop ptr s.buf))) [
              | inl e ↦ rw e tt
              | inr (m, e) ↦ rw e (with_body-Leaves s ptr start m (r.body_len m) v (ground arith) k)
            ]))
        (λ b. (v, refl, h, reach_body s ptr start k (ground arith)))

  body_part-Leaves :
      (s : ReadState H) (ptr start : ℕ)
      → IsReady s
      → ptr ≤ s.offset
      → (start < ptr) ⊎ ((ptr ≡ start) × (s.body_len ≢ 0))
      → Leaves (λ t. t.body_len) s.offset start (body_part r s ptr)
  unfolding body_part Leaves
  body_part-Leaves s ptr start v h k =
      let P : Part H → Type 0 = Leaves (λ t. t.body_len) s.offset start in
      if_ind P (ltb s.offset (ptr + s.body_len)) (λ short. (v, h, omega (tests, v.body_fits)))
        (λ long. elim (Option-cases s.msg) [
          | inl e ↦ rw e tt
          | inr (m, e) ↦ rw e (
            record {
              filled = v.filled;
              holds_head = v.holds_head;
              holds_size = v.holds_size;
              head_fits = omega arith;
              body_fits = omega arith;
            },
            refl,
            omega arith,
            ground arith,
          )
        ])

  then_part-Leaves :
      (left left' : ReadState H → ℕ) (offset start : ℕ) (p : Part H)
      (next : ReadState H → ℕ → Part H)
      → Leaves left offset start p
      → ((s : ReadState H) (ptr : ℕ)
          → IsReady s
          → s.offset ≡ offset
          → ptr ≤ offset
          → (start < ptr) ⊎ ((ptr ≡ start) × (left s ≢ 0))
          → Leaves left' offset start (next s ptr))
      → Leaves left' offset start (then_part p next)
  unfolding Leaves
  then_part-Leaves left left' offset start (goes s ptr) next h k = k s ptr h.0 h.1 h.2 h.3
  then_part-Leaves left left' offset start (breaks s ptr) next h k = h
  then_part-Leaves left left' offset start fails next h k = tt
  then_part-Leaves left left' offset start (handled s ptr m body ok) next h k = h

  pub round-Leaves :
      (s : ReadState H) (ptr : ℕ)
      → IsReady s
      → ptr ≤ s.offset
      → Leaves (λ t. t.body_len) s.offset ptr (round r s ptr)
  unfolding round
  round-Leaves s ptr v h =
      then_part-Leaves (λ t. t.body_len) (λ t. t.body_len) s.offset ptr
        (then_part (length_part s ptr) (head_part r)) (body_part r)
        (then_part-Leaves (λ t. t.head_len) (λ t. t.body_len) s.offset ptr (length_part s ptr)
          (head_part r) (length_part-Leaves s ptr v h)
          (λ s' ptr' v' e le k.
            subst (λ o. Leaves (λ t. t.body_len) o ptr (head_part r s' ptr')) e
              (head_part-Leaves s' ptr' ptr v' (rw e le) k)))
        (λ s' ptr' v' e le k.
          subst (λ o. Leaves (λ t. t.body_len) o ptr (body_part r s' ptr')) e
            (body_part-Leaves s' ptr' ptr v' (rw e le) k))

  -- A round never just goes on: it ends with the body.
  unfoldable pub Stops : Part H → Type 0
  Stops (goes s ptr) = ⊥
  Stops _ = Unit

  body_part-Stops : (s : ReadState H) (ptr : ℕ) → Stops (body_part r s ptr)
  unfolding body_part Stops
  body_part-Stops s ptr =
      if_ind Stops (ltb s.offset (ptr + s.body_len)) (λ b. tt)
        (λ b. elim (Option-cases s.msg) [ inl e ↦ rw e tt | inr (m, e) ↦ rw e tt ])

  pub then_part-Stops : (p : Part H) → Stops (then_part p (body_part r))
  unfolding Stops
  then_part-Stops (goes s ptr) = body_part-Stops s ptr
  then_part-Stops (breaks s ptr) = tt
  then_part-Stops fails = tt
  then_part-Stops (handled s ptr m body ok) = tt
