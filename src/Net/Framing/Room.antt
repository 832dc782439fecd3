-- ===== src/Net/Framing/Room.antt =====
-- The buffer of a connection: the loop over it ends, and it always leaves room for the next read.
use card.Prelude.{
  ℕ, zero, suc, ◌+◌, ◌-◌, ◌≤◌, ◌<◌, ◌≡◌, refl, true, false, List, [], ◌∷◌, ◌++◌, arith,
  if◌then◌else◌, if_ind, ltb, length, take, drop, length-append, length-take, length-drop,
}
use card.Net.Framing.Defs.{
  Reader, ReadState, Part, goes, breaks, fails, handled, Outcome, kept, failed, stuck,
  new_read_state, read_from_conn, length_part, head_part, then_part, round, shift_rest,
  consume_loop, consume_read_buffer, then_read, after, read_loop,
}
use card.Net.Framing.Rounds.{
  IsReady, new_read_state-IsReady, Leaves, round-Leaves, Stops, then_part-Stops,
}

module _ {H : Type 0} (r : Reader H) where
  -- The buffer is ready for another read, and there is room for it.
  pub Ends : Outcome H → Type 0
  Ends (kept s out) = IsReady r s × (s.offset < length s.buf)
  Ends (failed out) = Unit
  Ends stuck = ⊥

  shift_rest-Ends :
      (s : ReadState H) (ptr : ℕ) (out : List (H × List ℕ))
      → IsReady r s
      → ptr ≤ s.offset
      → s.offset < ptr + length s.buf
      → Ends (shift_rest s ptr out)
  unfolding shift_rest Ends
  shift_rest-Ends s ptr out v h k =
      let kept_length : length
            (take (s.offset - ptr) (drop ptr s.buf) ++ drop (s.offset - ptr) s.buf)
          ≡ length s.buf =
        omega (
          arith,
          v.filled,
          length-append (take (s.offset - ptr) (drop ptr s.buf)) (drop (s.offset - ptr) s.buf),
          length-take (s.offset - ptr) (drop ptr s.buf),
          length-drop ptr s.buf,
          length-drop (s.offset - ptr) s.buf,
        ) in
      if_ind Ends (ltb s.offset ptr) (λ b. tt)
        (λ b. (
          record {
            filled = omega (arith, v.filled, kept_length);
            holds_head = omega (arith, v.holds_head, kept_length);
            holds_size = omega (arith, v.holds_size, kept_length);
            head_fits = v.head_fits;
            body_fits = omega (arith, v.body_fits, kept_length);
          },
          omega (arith, kept_length),
        ))

  -- One round done; `again` is the loop with less fuel.
  abbrev finished : ℕ → List (H × List ℕ) → Part H → Outcome H
  finished fuel out (goes s ptr) = stuck
  finished fuel out (breaks s ptr) = shift_rest s ptr out
  finished fuel out fails = failed out
  finished fuel out (handled s ptr h body ok) =
      if ok
      then consume_loop r fuel s ptr (out ++ (h, body) ∷ [])
      else failed (out ++ (h, body) ∷ [])

  finish :
      (fuel offset start : ℕ) (out : List (H × List ℕ)) (p : Part H)
      → Leaves r (λ t. t.body_len) offset start p
      → Stops r p
      → offset - start ≤ fuel
      → ((s : ReadState H) (ptr : ℕ) (out : List (H × List ℕ))
          → IsReady r s
          → ptr ≤ s.offset
          → s.offset - ptr < fuel
          → Ends (consume_loop r fuel s ptr out))
      → Ends (finished fuel out p)
  unfolding Leaves Stops Ends
  finish fuel offset start out (goes s ptr) l st k again = absurd st
  finish fuel offset start out (breaks s ptr) l st k again = shift_rest-Ends s ptr out l.0 l.1 l.2
  finish fuel offset start out fails l st k again = tt
  finish fuel offset start out (handled s ptr m body true) l st k again =
      again s ptr (out ++ (m, body) ∷ []) l.0 (omega arith) (omega arith)
  finish fuel offset start out (handled s ptr m body false) l st k again = tt

  consume_loop-Ends :
      (fuel : ℕ) (s : ReadState H) (ptr : ℕ) (out : List (H × List ℕ))
      → IsReady r s
      → ptr ≤ s.offset
      → s.offset - ptr < fuel
      → Ends (consume_loop r fuel s ptr out)
  unfolding consume_loop
  consume_loop-Ends zero s ptr out v h k = absurd (omega arith)
  consume_loop-Ends (suc fuel) s ptr out v h k =
      finish fuel s.offset ptr out (round r s ptr) (round-Leaves r s ptr v h)
        (unfold round in then_part-Stops r (then_part (length_part s ptr) (head_part r)))
        (omega arith) (consume_loop-Ends fuel)

  read_from_conn-IsReady :
      (s : ReadState H) (bytes : List ℕ)
      → IsReady r s
      → length bytes ≤ length s.buf - s.offset
      → IsReady r (read_from_conn s bytes)
  unfolding read_from_conn
  read_from_conn-IsReady s bytes v h =
      let filled_length : length
            (take s.offset s.buf ++ (bytes ++ drop (s.offset + length bytes) s.buf))
          ≡ length s.buf =
        omega (
          arith,
          v.filled,
          length-append (take s.offset s.buf) (bytes ++ drop (s.offset + length bytes) s.buf),
          length-append bytes (drop (s.offset + length bytes) s.buf),
          length-take s.offset s.buf,
          length-drop (s.offset + length bytes) s.buf,
        ) in
      record {
        filled = omega (arith, v.filled, filled_length);
        holds_head = omega (arith, v.holds_head, filled_length);
        holds_size = omega (arith, v.holds_size, filled_length);
        head_fits = v.head_fits;
        body_fits = omega (arith, v.body_fits, filled_length);
      }

  after-Ends : (out : List (H × List ℕ)) (o : Outcome H) → Ends o → Ends (after out o)
  unfolding Ends
  after-Ends out (kept s more) h = h
  after-Ends out (failed more) h = tt
  after-Ends out stuck h = h

  then_read-Ends :
      (o : Outcome H) (next : ReadState H → List (H × List ℕ) → Outcome H)
      → Ends o
      → ((s : ReadState H) (out : List (H × List ℕ))
          → IsReady r s
          → s.offset < length s.buf
          → Ends (next s out))
      → Ends (then_read o next)
  unfolding Ends
  then_read-Ends (kept s out) next h k = k s out h.0 h.1
  then_read-Ends (failed out) next h k = tt
  then_read-Ends stuck next h k = h

  consume_read_buffer-Ends : (s : ReadState H) → IsReady r s → Ends (consume_read_buffer r s)
  unfolding consume_read_buffer
  consume_read_buffer-Ends s v =
      consume_loop-Ends (suc s.offset) s 0 [] v (omega arith) (omega arith)

  reads-Ends :
      (s : ReadState H) (arrived : List (List ℕ))
      → IsReady r s
      → s.offset < length s.buf
      → Ends (read_loop r s arrived)
  unfolding read_loop Ends
  reads-Ends s [] v room = (v, room)
  reads-Ends s (bytes ∷ rest) v room =
      let taken : List ℕ = take (length s.buf - s.offset) bytes in
      let fits : length taken ≤ length s.buf - s.offset =
        omega (arith, length-take (length s.buf - s.offset) bytes) in
      then_read-Ends (consume_read_buffer r (read_from_conn s taken)) _
        (consume_read_buffer-Ends (read_from_conn s taken) (read_from_conn-IsReady s taken v fits))
        (λ s' out v' room'. after-Ends out (read_loop r s' rest) (reads-Ends s' rest v' room'))

  new_read_state-room :
      (new_read_state {H = H} r.read_size).offset < length (new_read_state {H = H} r.read_size).buf
  new_read_state-room =
      let e : (new_read_state {H = H} r.read_size).offset ≡ 0 = unfold new_read_state in refl in
      omega (arith, (new_read_state-IsReady r).holds_head, e)

  -- Whatever arrives on a connection, and in whatever pieces, the reader of a new connection never runs
  -- out of its loop's bound, keeps the filled bytes, the longest head and the accepted body within the
  -- buffer, and has room for at least one more byte before every read, unless it has stopped.
  pub read_loop-Ends :
      (arrived : List (List ℕ)) → Ends (read_loop r (new_read_state r.read_size) arrived)
  read_loop-Ends arrived =
      reads-Ends (new_read_state r.read_size) arrived (new_read_state-IsReady r) new_read_state-room
