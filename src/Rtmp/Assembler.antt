-- ===== src/Rtmp/Assembler.antt =====
-- src/rtmp/rtmp_chunk_assembler.c: chunks of a message are collected and passed on as a whole, or
-- in parts where they do not fit.
pub mod Bounds
pub mod Whole
pub mod Pieces
pub mod Begin
pub mod Fresh
use lib_open_rtmp.Base.{
  ℕ, zero, suc, ◌+◌, Bool, true, false, not, ◌&&◌, ◌||◌, Option, none, some, List, [], ◌∷◌, ◌++◌,
  add64, sub64, ltb, ◌==◌, if◌then◌else◌, length, get_elem?, set, take, drop, slice,
}
use lib_open_rtmp.Util.Ringbuffer.{
  Ring, create, clear, count, copy_write, get_read_buf, commit_read,
}
use lib_open_rtmp.Rtmp.Message.{Message}
use lib_open_rtmp.Rtmp.Conn.{
  Callback, Call, chunk, CbStatus, cb_continue, cb_error, cb_defer_pause, cb_abort,
}

abbrev pub max_hard_buffer : ℕ
max_hard_buffer = 20

abbrev pub max_soft_buffer : ℕ
max_soft_buffer = 5

-- `rtmp_asm_buf_t`
pub record AsmBuf : Type 0 where
  pub chunk_id : ℕ
  pub msg_id : ℕ
  pub buffer : Ring

-- `struct rtmp_chunk_assembler`; `calls` is the history of calls of the callback, latest first.
pub record Assembler : Type 0 where
  pub max_size : ℕ
  pub buffers : List AsmBuf
  pub calls : List Call

unfoldable pub assembler_create : ℕ → Assembler
assembler_create max_size = record { max_size = max_size; buffers = []; calls = [] }

-- What the search for a buffer finds: the buffer of the message, or else a free one. The index 0
-- stands for none.
pub data Search : Type 0 where
  owned : ℕ → Search
  unused : ℕ → Search

unfoldable pub find_buffer : List AsmBuf → ℕ → ℕ → ℕ → ℕ → Search
find_buffer [] i free_idx chunk_id msg_id = unused free_idx
find_buffer (b ∷ bs) i free_idx chunk_id msg_id =
    let rest =
      find_buffer bs (suc i) (if free_idx == 0 && b.chunk_id == 0 then i else free_idx) chunk_id
        msg_id in
    if b.chunk_id == chunk_id && b.msg_id == msg_id then owned i else rest

abbrev pub claim : ℕ → ℕ → AsmBuf → AsmBuf
unfolding clear
claim chunk_id msg_id b = record { chunk_id = chunk_id; msg_id = msg_id; buffer = clear b.buffer }

-- An update through a pointer into the vector.
unfoldable pub alter : ℕ → (AsmBuf → AsmBuf) → List AsmBuf → List AsmBuf
alter i f [] = []
alter zero f (b ∷ bs) = f b ∷ bs
alter (suc i) f (b ∷ bs) = b ∷ alter i f bs

-- The index of the buffer, `none` for a null pointer; `fresh` is what `malloc` gives for a new
-- ring.
unfoldable pub get_buffer :
    (fresh : Option (List ℕ)) (self : Assembler) (chunk_id msg_id : ℕ) → Option ℕ × Assembler
unfolding find_buffer alter create clear
get_buffer fresh self chunk_id msg_id = elim (find_buffer self.buffers 0 0 chunk_id msg_id) [
  | owned i ↦ (some i, self)
  | unused (suc i) ↦
      (some (suc i), record self { buffers = alter (suc i) (claim chunk_id msg_id) self.buffers })
  | unused zero ↦ new_buffer fresh
]
  where
    new_buffer : Option (List ℕ) → Option ℕ × Assembler
    new_buffer none = (none, self)
    new_buffer (some mem) = if ltb max_hard_buffer (length self.buffers) then (none, self) else (
      some (length self.buffers),
      record self {
        buffers =
            self.buffers
            ++ (record { chunk_id = chunk_id; msg_id = msg_id; buffer = create mem self.max_size })
              ∷ [];
      },
    )

unfoldable pub erase : ℕ → List AsmBuf → List AsmBuf
erase i [] = []
erase zero (b ∷ bs) = bs
erase (suc i) (b ∷ bs) = b ∷ erase i bs

abbrev release : AsmBuf → AsmBuf
unfolding clear
release b = record b { chunk_id = 0; buffer = clear b.buffer }

unfoldable pub rm_buffer : Assembler → ℕ → Assembler
unfolding erase alter clear
rm_buffer self i = record self {
  buffers =
      if ltb max_soft_buffer (length self.buffers)
      then erase i self.buffers
      else alter i release self.buffers;
}

-- The user's callback.
unfoldable pub deliver : Callback → List ℕ → ℕ → Message → Assembler → CbStatus × Assembler
deliver callback bytes remaining msg self =
    let calls = chunk bytes remaining msg ∷ self.calls in
    (callback calls, record self { calls = calls })

abbrev pub is_continue : CbStatus → Bool
is_continue cb_continue = true
is_continue _ = false

abbrev pub set_ring : ℕ → Ring → Assembler → Assembler
unfolding alter
set_ring i r self = record self { buffers = alter i (λ b. record b { buffer = r }) self.buffers }

-- The bytes that `ringbuffer_get_read_buf` points to.
abbrev pub block : Ring → List ℕ
unfolding get_read_buf
block r = slice r.mem (get_read_buf r).0 (get_read_buf r).1

module _ (callback : Callback) (msg : Message) where
  -- The second call, for what the ring holds past the end of its block.
  unfoldable pub pass_rest : ℕ → ℕ → ℕ → Ring → CbStatus × Assembler → CbStatus × Assembler
  pass_rest held copied left ring (ret, self) =
      if is_continue ret && ltb (get_read_buf ring).1 (add64 held copied)
      then deliver callback (block (commit_read ring (get_read_buf ring).1).1) left msg self
      else (ret, self)

  -- After the buffer has been passed on: what did not fit it, and the end of the message.
  unfoldable pub end_flush : ℕ → List ℕ → ℕ → ℕ → CbStatus × Assembler → CbStatus × Assembler
  end_flush i contents copied remaining (cb_continue, self) =
      let (ret, after) =
        if ltb copied (length contents)
        then deliver callback (drop copied contents) remaining msg self
        else (cb_continue, self) in
      (ret, if remaining == 0 then rm_buffer after i else after)
  end_flush i contents copied remaining (ret, self) = (ret, rm_buffer self i)

  -- The message ended or its buffer is full.
  unfoldable pub flush : ℕ → List ℕ → ℕ → ℕ → ℕ → Ring → Assembler → CbStatus × Assembler
  flush i contents remaining original copied ring self =
      let held = sub64 (add64 original copied) (get_read_buf ring).1 in
      let left = sub64 (add64 remaining (length contents)) copied in
      let (ret, after) =
        pass_rest held copied left ring
          (deliver callback (block ring) (add64 held left) msg self) in
      end_flush i contents copied remaining (ret, set_ring i (clear ring) after)

  unfoldable pub assemble : ℕ → List ℕ → ℕ → Option AsmBuf → Assembler → CbStatus × Assembler
  assemble i contents remaining none self = (cb_abort, self)
  assemble i contents remaining (some b) self =
      let (copied, ring) = copy_write b.buffer contents in
      if ltb copied (length contents) || remaining == 0
      then if length contents == 0
        then deliver callback [] 0 msg (rm_buffer self i)
        else flush i contents remaining (count b.buffer) copied ring (set_ring i ring self)
      else (cb_continue, set_ring i ring self)

  unfoldable pub assembler_cb :
      (fresh : Option (List ℕ)) (contents : List ℕ) (remaining : ℕ) (self : Assembler)
      → CbStatus × Assembler
  assembler_cb fresh contents remaining self =
      let (found, after) = get_buffer fresh self msg.chunk_stream_id msg.message_stream_id in
      elim found [
        | none ↦ (cb_abort, after)
        | some i ↦ assemble i contents remaining (get_elem? after.buffers i) after
      ]
