-- ===== src/Net/Writing.antt =====
-- msgque_tcp.go: what is compressed, and how the queue of a connection gets onto the wire.
use mathlib.Core.List.{append_assoc, append-nil}
use card.Prelude.{
  ℕ, zero, suc, ◌+◌, ◌≡◌, refl, ap, sym, ◌∙◌, Bool, true, not, ◌||◌, List, [], ◌∷◌, ◌++◌, Option,
  none, some, if◌then◌else◌, leb, length, min, take, drop, take-append-drop,
}
use card.Prelude.Int.{ℤ, pos, ltb_ℤ, eq_ℤ}
use card.Net.Delay.{TcpWriteDelayCtrl, next_delay}

-- A message of game/deps/msg, as far as the writer looks at it: two flags and the length of its head,
-- and its data.
pub record Message (H : Type 0) : Type 0 where
  pub head : H
  pub broad : Bool
  pub compressed : Bool
  pub body_len : ℕ
  pub bytes : Option (List ℕ)

-- The options and what the writer calls: the two compressors, and the encoding of a message, `none`
-- where it fails.
pub record Writer (H : Type 0) : Type 0 where
  pub has_opt : Bool
  pub is_internal_conn : Bool
  pub compress : Bool
  pub compress_mode : ℤ
  pub compress_limit : ℤ
  pub snappy_compress : List ℕ → List ℕ
  pub gzip_compress : List ℕ → List ℕ
  pub encode : Message H → Option (List ℕ)

abbrev pub max_send_queue_len : ℕ
max_send_queue_len = 256

abbrev pub delay_send_queue_len : ℕ
delay_send_queue_len = 5

module _ {H : Type 0} (w : Writer H) where
  abbrev shorter : Message H → List ℕ → List ℕ → Message H
  shorter m bytes packed =
      if leb (length bytes) (length packed)
      then m
      else record m { compressed = true; bytes = some packed; body_len = length packed }

  abbrev pack : Message H → Option (List ℕ) → Message H
  pack m none = m
  pack m (some bytes) =
      if ltb_ℤ (pos (length bytes)) w.compress_limit
      then m
      else shorter m bytes
          (if eq_ℤ w.compress_mode (pos 1) then w.snappy_compress bytes else w.gzip_compress bytes)

  unfoldable pub compress_or_encrypt : Message H → Message H
  compress_or_encrypt m =
      if m.broad
      then m
      else if m.compressed
      then m
      else if not w.has_opt || w.is_internal_conn || not w.compress
      then m
      else pack m m.bytes

  abbrev onto : List ℕ → Option (List ℕ) → Option (List ℕ)
  onto buffer none = none
  onto buffer (some bytes) = some (buffer ++ bytes)

  unfoldable pub append_write_buffer : List ℕ → Message H → Option (List ℕ)
  unfolding compress_or_encrypt
  append_write_buffer buffer m = onto buffer (w.encode (compress_or_encrypt m))

  -- The queue and the buffer after `count` messages; the writer alone takes from the queue, and `count`
  -- is at most its length.
  unfoldable pub drain_write_queue :
      ℕ → List (Message H) → List ℕ → Option (List (Message H) × List ℕ)
  unfolding append_write_buffer
  drain_write_queue zero queue buffer = some (queue, buffer)
  drain_write_queue (suc count) [] buffer = some ([], buffer)
  drain_write_queue (suc count) (m ∷ queue) buffer = elim (append_write_buffer buffer m) [
    | none ↦ none
    | some buffer' ↦ drain_write_queue count queue buffer'
  ]

  pub record Connection : Type 0 where
    pub cwrite : List (Message H)
    pub wire : List ℕ
    pub delay_ctrl : TcpWriteDelayCtrl
    pub last_write_batch : ℕ
    pub pauses : List ℕ

  -- The batch that begins with `first`; `late` is what is queued during the pause.
  unfoldable pub collect_write_batch :
      Connection → Message H → List (Message H) → Option (Connection × List ℕ)
  unfolding append_write_buffer drain_write_queue next_delay
  collect_write_batch r first late = elim (append_write_buffer [] first) [
    | none ↦ none
    | some buffer ↦
        let (ctrl, pause) =
          next_delay r.delay_ctrl r.last_write_batch (leb (length r.cwrite) delay_send_queue_len) in
        let waiting : List (Message H) = r.cwrite ++ late in
        let queued : ℕ = min (length waiting) max_send_queue_len in
        elim (drain_write_queue queued waiting buffer) [
          | none ↦ none
          | some (queue, buffer') ↦ some (
            record r {
              cwrite = queue;
              delay_ctrl = ctrl;
              last_write_batch = queued + 1;
              pauses = pause ∷ r.pauses;
            },
            buffer',
          )
        ]
  ]

  -- `flushWriteBuffer`, whose loop writes until all is written.
  unfoldable pub flush_write_buffer : Connection → List ℕ → Connection
  flush_write_buffer r buffer = record r { wire = r.wire ++ buffer }

  abbrev flushed : Option (Connection × List ℕ) → Option Connection
  flushed none = none
  flushed (some (r, buffer)) = some (flush_write_buffer r buffer)

  abbrev write_first : Connection → List (Message H) → List (Message H) → Option Connection
  write_first r [] late = some (record r { cwrite = late })
  write_first r (first ∷ queue) late =
      flushed (collect_write_batch (record r { cwrite = queue }) first late)

  -- A turn of the loop of `write`: messages are queued, the oldest begins a batch, more are queued
  -- during the pause.
  unfoldable pub write_turn : Connection → List (Message H) → List (Message H) → Option Connection
  unfolding collect_write_batch flush_write_buffer
  write_turn r before late = write_first r (r.cwrite ++ before) late

  -- What `write` does when it is told to quit: what is queued is written.
  abbrev drained : Connection → Option (List (Message H) × List ℕ) → Option Connection
  drained r none = none
  drained r (some (queue, buffer)) = some (flush_write_buffer (record r { cwrite = queue }) buffer)

  unfoldable pub write_quit : Connection → Option Connection
  unfolding drain_write_queue flush_write_buffer
  write_quit r = drained r (drain_write_queue (length r.cwrite) r.cwrite [])

  abbrev and_then : Option Connection → (Connection → Option Connection) → Option Connection
  and_then none next = none
  and_then (some r) next = next r

  unfoldable pub write : Connection → List (List (Message H) × List (Message H)) → Option Connection
  unfolding write_turn write_quit
  write r [] = write_quit r
  write r ((before, late) ∷ turns) = and_then (write_turn r before late) (λ r'. write r' turns)

-- Nothing is lost, doubled or reordered, where the encoding does not fail.
module _ {H : Type 0} (w : Writer H) (e : Message H → List ℕ)
    (encodes : (m : Message H) → w.encode m ≡ some (e m)) where
  -- The bytes of messages, one after the other.
  pub sent : List (Message H) → List ℕ
  sent [] = []
  sent (m ∷ ms) = e (compress_or_encrypt w m) ++ sent ms

  -- All that the turns queue.
  abbrev pub queued_by : List (List (Message H) × List (Message H)) → List (Message H)
  queued_by [] = []
  queued_by ((before, late) ∷ turns) = (before ++ late) ++ queued_by turns

  sent-append : (xs ys : List (Message H)) → sent (xs ++ ys) ≡ sent xs ++ sent ys
  unfolding sent
  sent-append [] ys = refl
  sent-append (m ∷ xs) ys =
      ap (λ l. e (compress_or_encrypt w m) ++ l) (sent-append xs ys)
      ∙ sym (append_assoc (e (compress_or_encrypt w m)) (sent xs) (sent ys))

  append_write_buffer_lem :
      (buffer : List ℕ) (m : Message H)
      → append_write_buffer w buffer m ≡ some (buffer ++ e (compress_or_encrypt w m))
  unfolding append_write_buffer
  append_write_buffer_lem buffer m = rw (encodes (compress_or_encrypt w m))

  drain_write_queue_lem :
      (count : ℕ) (queue : List (Message H)) (buffer : List ℕ)
      → drain_write_queue w count queue buffer
        ≡ some (drop count queue, buffer ++ sent (take count queue))
  unfolding drain_write_queue sent
  drain_write_queue_lem zero queue buffer = rw (append-nil buffer)
  drain_write_queue_lem (suc count) [] buffer = rw (append-nil buffer)
  drain_write_queue_lem (suc count) (m ∷ queue) buffer =
      rw (append_write_buffer_lem buffer m, drain_write_queue)
        (drain_write_queue_lem count queue (buffer ++ e (compress_or_encrypt w m))
          ∙ rw (append_assoc buffer (e (compress_or_encrypt w m)) (sent (take count queue))))

  -- What is on the wire, followed by what is still queued.
  abbrev total : Connection w → List ℕ
  total r = r.wire ++ sent r.cwrite

  batch_total :
      (wire f : List ℕ) (k : ℕ) (waiting : List (Message H))
      → (wire ++ (f ++ sent (take k waiting))) ++ sent (drop k waiting)
        ≡ wire ++ (f ++ sent waiting)
  batch_total wire f k waiting =
      append_assoc wire (f ++ sent (take k waiting)) (sent (drop k waiting))
      ∙ ap (λ l. wire ++ l)
          (append_assoc f (sent (take k waiting)) (sent (drop k waiting))
            ∙ ap (λ l. f ++ l)
                (sym (sent-append (take k waiting) (drop k waiting))
                  ∙ ap sent (take-append-drop k waiting)))

  write_first-total :
      (r : Connection w) (queue late : List (Message H))
      → (r' : Connection w) × (write_first w r queue late ≡ some r')
        × (total r' ≡ r.wire ++ sent (queue ++ late))
  unfolding collect_write_batch flush_write_buffer sent
  write_first-total r [] late = (record r { cwrite = late }, refl, refl)
  write_first-total r (first ∷ queue) late =
      let waiting : List (Message H) = queue ++ late in
      let k : ℕ = min (length waiting) max_send_queue_len in
      let paused =
        next_delay r.delay_ctrl r.last_write_batch (leb (length queue) delay_send_queue_len) in
      let f : List ℕ = e (compress_or_encrypt w first) in
      (
        record {
          cwrite = drop k waiting;
          wire = r.wire ++ (f ++ sent (take k waiting));
          delay_ctrl = paused.0;
          last_write_batch = k + 1;
          pauses = paused.1 ∷ r.pauses;
        },
        rw (append_write_buffer_lem [] first, collect_write_batch)
            (rw (drain_write_queue_lem k waiting f, collect_write_batch) refl),
        batch_total r.wire f k waiting,
      )

  extend_total :
      (a : Connection w) (wire : List ℕ) (xs q : List (Message H))
      → total a ≡ wire ++ sent xs
      → a.wire ++ sent (a.cwrite ++ q) ≡ wire ++ sent (xs ++ q)
  extend_total a wire xs q h =
      ap (λ l. a.wire ++ l) (sent-append a.cwrite q)
      ∙ sym (append_assoc a.wire (sent a.cwrite) (sent q))
      ∙ ap (λ l. l ++ sent q) h
      ∙ append_assoc wire (sent xs) (sent q)
      ∙ ap (λ l. wire ++ l) (sym (sent-append xs q))

  regroup : (a b c d : List (Message H)) → ((a ++ b) ++ c) ++ d ≡ a ++ ((b ++ c) ++ d)
  regroup a b c d = simp append_assoc

  take-length : (l : List (Message H)) → (take (length l) l ≡ l) × (drop (length l) l ≡ [])
  take-length [] = (refl, refl)
  take-length (m ∷ l) = (ap (λ k. m ∷ k) (take-length l).0, (take-length l).1)

  write_quit-total :
      (r : Connection w)
      → (r' : Connection w) × (write_quit w r ≡ some r') × (r'.wire ≡ total r) × (r'.cwrite ≡ [])
  unfolding write_quit flush_write_buffer
  write_quit-total r = (
    record r {
      cwrite = drop (length r.cwrite) r.cwrite;
      wire = r.wire ++ sent (take (length r.cwrite) r.cwrite);
    },
    rw (drain_write_queue_lem (length r.cwrite) r.cwrite [], write_quit) refl,
    ap (λ l. r.wire ++ sent l) (take-length r.cwrite).0,
    (take-length r.cwrite).1,
  )

  -- From start to quit, the bytes on the wire are those of the messages that were queued, each once and
  -- in the order of the queue, whatever is queued when, and nothing is left in the queue. It is assumed
  -- that the encoding of a message does not fail and that the peer takes what is written.
  pub write-sends_all :
      (r : Connection w) (turns : List (List (Message H) × List (Message H)))
      → (r' : Connection w) × (write w r turns ≡ some r')
        × (r'.wire ≡ r.wire ++ sent (r.cwrite ++ queued_by turns))
        × (r'.cwrite ≡ [])
  unfolding write write_turn
  write-sends_all r [] =
      let q = write_quit-total r in
      (q.0, q.1, q.2 ∙ ap (λ l. r.wire ++ sent l) (sym (append-nil r.cwrite)), q.3)
  write-sends_all r ((before, late) ∷ turns) =
      let t = write_first-total r (r.cwrite ++ before) late in
      let k = write-sends_all t.0 turns in
      (
        k.0,
        rw (t.1, write) k.1,
        k.2
            ∙ extend_total t.0 r.wire ((r.cwrite ++ before) ++ late) (queued_by turns) t.2
            ∙ ap (λ l. r.wire ++ sent l) (regroup r.cwrite before late (queued_by turns)),
        k.3,
      )
