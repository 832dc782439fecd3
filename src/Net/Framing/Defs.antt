-- ===== src/Net/Framing/Defs.antt =====
-- msgque_tcp.go: `readState` and `consumeReadBuffer`. A frame is the length of the head in two bytes,
-- the head, and a body whose length the head tells. The buffer is a list of bytes that keeps its length
-- until it grows; `offset` of them are filled.
use card.Prelude.{
  ℕ, zero, suc, ◌+◌, ◌-◌, ◌*◌, Bool, List, [], ◌∷◌, ◌++◌, Option, none, some, if◌then◌else◌, ltb,
  leb, ◌==◌, length, take, drop, replicate,
}
use card.Prelude.Int.{ℤ, pos, negsuc}

abbrev pub head_size : ℕ
head_size = 2

abbrev pub max_head_len : ℕ
max_head_len = 1024

-- What the reader is given: the parser of heads of game/deps/msg, the length of the body that a head
-- tells, what processMsg answers, the configured size and whether the connection is internal. A size
-- that is not positive is 0.
pub record Reader (H : Type 0) : Type 0 where
  pub new_message_head : ℕ → List ℕ → Option H
  pub body_len : H → ℤ
  pub process_msg : H → List ℕ → Bool
  pub read_size : ℕ
  pub is_internal_conn : Bool

pub record ReadState (H : Type 0) : Type 0 where
  pub buf : List ℕ
  pub offset : ℕ
  pub head_len : ℕ
  pub body_len : ℕ
  pub msg : Option H

-- What a part of the loop's round does: it goes on, it breaks, or the function returns false; `handled`
-- is the message that processMsg was called with.
pub data Part (H : Type 0) : Type 0 where
  goes : ReadState H → ℕ → Part H
  breaks : ReadState H → ℕ → Part H
  fails : Part H
  handled : ReadState H → ℕ → H → List ℕ → Bool → Part H

-- What `consumeReadBuffer` returns, with the messages that were handled. `stuck` is no result of the
-- code: the loop ran out of fuel.
pub data Outcome (H : Type 0) : Type 0 where
  kept : ReadState H → List (H × List ℕ) → Outcome H
  failed : List (H × List ℕ) → Outcome H
  stuck : Outcome H

-- binary.BigEndian.Uint16 of the first two bytes.
abbrev pub uint16 : List ℕ → ℕ
uint16 [] = 0
uint16 (a ∷ []) = 0
uint16 (a ∷ b ∷ rest) = a * 256 + b

module _ {H : Type 0} where
  unfoldable pub new_read_state : ℕ → ReadState H
  new_read_state size =
      let size : ℕ = if size == 0 then 1048576 else size in
      let size : ℕ =
        if ltb size (head_size + max_head_len) then head_size + max_head_len else size in
      record { buf = replicate size 0; offset = 0; head_len = 0; body_len = 0; msg = none }

  unfoldable pub reset_frame : ReadState H → ReadState H
  reset_frame s = record s { head_len = 0; body_len = 0; msg = none }

  unfoldable pub grow : ReadState H → ℕ → ReadState H
  grow s required =
      if leb required (length s.buf)
      then s
      else record s { buf = take s.offset s.buf ++ replicate (required - s.offset) 0 }

  -- What `conn.Read` puts behind the filled bytes.
  unfoldable pub read_from_conn : ReadState H → List ℕ → ReadState H
  read_from_conn s bytes = record s {
    buf = take s.offset s.buf ++ (bytes ++ drop (s.offset + length bytes) s.buf);
    offset = s.offset + length bytes;
  }

  -- `none` is false.
  unfoldable pub ensure_frame_capacity : Reader H → ReadState H → Option (ReadState H)
  unfolding grow
  ensure_frame_capacity r s =
      let total : ℕ = head_size + s.head_len + s.body_len in
      if leb total r.read_size
      then some s
      else if r.is_internal_conn
      then (if ltb (r.read_size * 4) total then none else some (grow s total))
      else none

  -- The length of the head.
  unfoldable pub length_part : ReadState H → ℕ → Part H
  length_part s ptr =
      if s.head_len == 0
      then (if ltb s.offset (ptr + head_size)
          then breaks s ptr
          else (let head_len : ℕ = uint16 (drop ptr s.buf) in
              if ltb max_head_len head_len
              then fails
              else goes (record s { head_len = head_len }) (ptr + head_size)))
      else goes s ptr

  abbrev pub with_capacity : Option (ReadState H) → ℕ → Part H
  with_capacity none ptr = fails
  with_capacity (some s) ptr = goes s ptr

  abbrev pub with_body : Reader H → ReadState H → ℕ → H → ℤ → Part H
  with_body r s ptr h (negsuc n) = fails
  with_body r s ptr h (pos n) =
      with_capacity (ensure_frame_capacity r (record s { msg = some h; body_len = n }))
        (ptr + s.head_len)

  abbrev pub with_head : Reader H → ReadState H → ℕ → Option H → Part H
  with_head r s ptr none = fails
  with_head r s ptr (some h) = with_body r s ptr h (r.body_len h)

  -- The head.
  unfoldable pub head_part : Reader H → ReadState H → ℕ → Part H
  unfolding ensure_frame_capacity
  head_part r s ptr =
      if s.body_len == 0
      then (if ltb s.offset (ptr + s.head_len)
          then breaks s ptr
          else with_head r s ptr (r.new_message_head s.head_len (drop ptr s.buf)))
      else goes s ptr

  abbrev pub handle_read_message : Reader H → ReadState H → ℕ → Option H → Part H
  handle_read_message r s ptr none = fails
  handle_read_message r s ptr (some h) =
      let body : List ℕ = take s.body_len (drop ptr s.buf) in
      handled (record s { head_len = 0; body_len = 0; msg = none }) (ptr + s.body_len) h body
        (r.process_msg h body)

  -- The body, and the message.
  unfoldable pub body_part : Reader H → ReadState H → ℕ → Part H
  body_part r s ptr =
      if ltb s.offset (ptr + s.body_len) then breaks s ptr else handle_read_message r s ptr s.msg

  abbrev pub then_part : Part H → (ReadState H → ℕ → Part H) → Part H
  then_part (goes s ptr) next = next s ptr
  then_part (breaks s ptr) next = breaks s ptr
  then_part fails next = fails
  then_part (handled s ptr h body ok) next = handled s ptr h body ok

  unfoldable pub round : Reader H → ReadState H → ℕ → Part H
  unfolding length_part head_part body_part
  round r s ptr = then_part (then_part (length_part s ptr) (head_part r)) (body_part r)

  -- What follows the loop.
  unfoldable pub shift_rest : ReadState H → ℕ → List (H × List ℕ) → Outcome H
  shift_rest s ptr out =
      if ltb s.offset ptr
      then failed out
      else kept
          (record s {
            buf = take (s.offset - ptr) (drop ptr s.buf) ++ drop (s.offset - ptr) s.buf;
            offset = s.offset - ptr;
          })
          out

  unfoldable pub consume_loop : Reader H → ℕ → ReadState H → ℕ → List (H × List ℕ) → Outcome H
  unfolding round shift_rest
  consume_loop r zero s ptr out = stuck
  consume_loop r (suc fuel) s ptr out = elim (round r s ptr) [
    | goes s' ptr' ↦ stuck
    | breaks s' ptr' ↦ shift_rest s' ptr' out
    | fails ↦ failed out
    | handled s' ptr' h body ok ↦
        if ok
        then consume_loop r fuel s' ptr' (out ++ (h, body) ∷ [])
        else failed (out ++ (h, body) ∷ [])
  ]

  -- Each message takes at least one byte, so that as much fuel as bytes are filled and one more is enough.
  unfoldable pub consume_read_buffer : Reader H → ReadState H → Outcome H
  unfolding consume_loop
  consume_read_buffer r s = consume_loop r (suc s.offset) s 0 []

  abbrev pub then_read : Outcome H → (ReadState H → List (H × List ℕ) → Outcome H) → Outcome H
  then_read (kept s out) next = next s out
  then_read (failed out) next = failed out
  then_read stuck next = stuck

  abbrev pub after : List (H × List ℕ) → Outcome H → Outcome H
  after out (kept s more) = kept s (out ++ more)
  after out (failed more) = failed (out ++ more)
  after out stuck = stuck

  -- The loop of `read` until the peer closes: each read takes what has arrived, as far as there is room.
  unfoldable pub read_loop : Reader H → ReadState H → List (List ℕ) → Outcome H
  unfolding read_from_conn consume_read_buffer
  read_loop r s [] = kept s []
  read_loop r s (arrived ∷ rest) =
      let bytes : List ℕ = take (length s.buf - s.offset) arrived in
      then_read (consume_read_buffer r (read_from_conn s bytes))
        λ s' out. after out (read_loop r s' rest)
