-- ===== src/Rtmp/Assembler/Begin.antt =====
-- src/rtmp/rtmp_chunk_assembler.c: a message that is new to the assembler gets a buffer.
use lib_open_rtmp.Base.{
  ℕ, zero, suc, Option, ◌+◌, ◌^◌, ◌≤◌, ◌<◌, ◌≡◌, refl, sym, ap, ◌∙◌, inl, inr, true, false, some,
  List, [], ◌∷◌, ◌++◌, arith, ◌==◌, ◌&&◌, if◌then◌else◌, length, Bool-cases, le→not_ltb, eq→==, ◌≢◌,
  get_elem?,
}
use lib_open_rtmp.Util.Ringbuffer.{Ring, create, clear}
use lib_open_rtmp.Rtmp.Message.{Message}
use lib_open_rtmp.Rtmp.Assembler.{
  AsmBuf, Assembler, alter, claim, owned, unused, find_buffer, get_buffer, max_hard_buffer,
}
use lib_open_rtmp.Rtmp.Assembler.Whole.{holding}
use lib_open_rtmp.Rtmp.Assembler.Pieces.{get_elem?-alter, Gathers}

owned-ne-unused : {m n : ℕ} → owned m ≢ unused n
owned-ne-unused e = ground (arith, e)

-- A buffer behind the others is found for its message, when none of them is.
find_buffer-append :
    (bs : List AsmBuf) (b : AsmBuf) (i free k : ℕ)
    → find_buffer bs i free b.chunk_id b.msg_id ≡ unused k
    → find_buffer (bs ++ b ∷ []) i free b.chunk_id b.msg_id ≡ owned (i + length bs)
unfolding find_buffer
find_buffer-append [] b i free k e =
    rw (eq→== {a = b.chunk_id} refl, eq→== {a = b.msg_id} refl) (ap owned (omega arith))
find_buffer-append (c ∷ bs) b i free k e =
    elim (Bool-cases (c.chunk_id == b.chunk_id && c.msg_id == b.msg_id)) [
      | inl t ↦ absurd (owned-ne-unused (sym (chosen t) ∙ e))
      | inr f ↦ rw f (
          find_buffer-append bs b (suc i) (if free == 0 && c.chunk_id == 0 then i else free) k
            (sym (passed f) ∙ e)
          ∙ ap owned (omega arith))
    ]
  where
    chosen :
        c.chunk_id == b.chunk_id && c.msg_id == b.msg_id ≡ true
        → find_buffer (c ∷ bs) i free b.chunk_id b.msg_id ≡ owned i
    chosen t = rw (find_buffer, t) refl

    passed :
        c.chunk_id == b.chunk_id && c.msg_id == b.msg_id ≡ false
        → find_buffer (c ∷ bs) i free b.chunk_id b.msg_id
          ≡ find_buffer bs
              (suc i)
              (if free == 0 && c.chunk_id == 0 then i else free)
              b.chunk_id
              b.msg_id
    passed f = rw (find_buffer, f) refl

get_elem?-append : (bs : List AsmBuf) (b : AsmBuf) → get_elem? (bs ++ b ∷ []) (length bs) ≡ some b
get_elem?-append [] b = refl
get_elem?-append (c ∷ bs) b = get_elem?-append bs b

-- The bytes of a buffer that was taken for a message are its own.
abbrev claimed : Message → Ring → AsmBuf
claimed msg ring = record {
  chunk_id = msg.chunk_stream_id;
  msg_id = msg.message_stream_id;
  buffer = ring;
}

-- A free buffer that is taken for a message is found for it, when no other one is.
find_buffer-claim :
    (bs : List AsmBuf) (k i free j : ℕ) (b : AsmBuf) (msg : Message)
    → get_elem? bs k ≡ some b
    → find_buffer bs i free msg.chunk_stream_id msg.message_stream_id ≡ unused j
    → find_buffer
        (alter k (claim msg.chunk_stream_id msg.message_stream_id) bs)
        i
        free
        msg.chunk_stream_id
        msg.message_stream_id
      ≡ owned (i + k)
unfolding find_buffer alter claim
find_buffer-claim [] k i free j b msg s e = absurd (ground (arith, s))
find_buffer-claim (c ∷ bs) zero i free j b msg s e =
    rw (eq→== {a = msg.chunk_stream_id} refl, eq→== {a = msg.message_stream_id} refl)
      (ap owned (omega arith))
find_buffer-claim (c ∷ bs) (suc k) i free j b msg s e =
    elim (Bool-cases (c.chunk_id == msg.chunk_stream_id && c.msg_id == msg.message_stream_id)) [
      | inl t ↦ absurd (owned-ne-unused (sym (chosen t) ∙ e))
      | inr f ↦ rw f (
          find_buffer-claim bs k (suc i) (if free == 0 && c.chunk_id == 0 then i else free) j b msg
            s (sym (passed f) ∙ e)
          ∙ ap owned (omega arith))
    ]
  where
    chosen :
        c.chunk_id == msg.chunk_stream_id && c.msg_id == msg.message_stream_id ≡ true
        → find_buffer (c ∷ bs) i free msg.chunk_stream_id msg.message_stream_id ≡ owned i
    chosen t = rw (find_buffer, t) refl

    passed :
        c.chunk_id == msg.chunk_stream_id && c.msg_id == msg.message_stream_id ≡ false
        → find_buffer (c ∷ bs) i free msg.chunk_stream_id msg.message_stream_id
          ≡ find_buffer bs
              (suc i)
              (if free == 0 && c.chunk_id == 0 then i else free)
              msg.chunk_stream_id
              msg.message_stream_id
    passed f = rw (find_buffer, f) refl

-- A message for which there is no buffer yet gets one of `size` bytes: a new one, when no free one is
-- found, there are 20 at most, and its block is granted; or else the free one that is found.
pub data Begins (fresh : Option (List ℕ)) (msg : Message) (self : Assembler) (size : ℕ)
    : Type 0 where
  appended :
      (mem : List ℕ)
      → fresh ≡ some mem
      → find_buffer self.buffers 0 0 msg.chunk_stream_id msg.message_stream_id ≡ unused 0
      → length self.buffers ≤ 20
      → length mem ≡ size
      → self.max_size ≡ size
      → Begins fresh msg self size
  recycled :
      (k : ℕ) (b : AsmBuf) (mem : List ℕ)
      → find_buffer self.buffers 0 0 msg.chunk_stream_id msg.message_stream_id ≡ unused (suc k)
      → get_elem? self.buffers (suc k) ≡ some b
      → clear b.buffer ≡ holding [] mem size
      → length mem ≡ size
      → Begins fresh msg self size

-- The assembler once the message has its buffer.
pub record Begun (fresh : Option (List ℕ)) (msg : Message) (self : Assembler) (size : ℕ)
    : Type 0 where
  pub index : ℕ
  pub after : Assembler
  pub spare : List ℕ
  pub taken : get_buffer fresh self msg.chunk_stream_id msg.message_stream_id ≡ (some index, after)
  pub gathers : Gathers msg after index size [] spare
  pub calls : after.calls ≡ self.calls
  pub room : length spare ≡ size

begin_appended :
    (fresh : Option (List ℕ)) (msg : Message) (self : Assembler) (size : ℕ) (mem : List ℕ)
    → fresh ≡ some mem
    → find_buffer self.buffers 0 0 msg.chunk_stream_id msg.message_stream_id ≡ unused 0
    → length self.buffers ≤ 20
    → length mem ≡ size
    → self.max_size ≡ size
    → size < 2 ^ 62
    → Begun fresh msg self size
unfolding create get_buffer
begin_appended fresh msg self size mem granted e room whole same small =
    let entry = claimed msg (holding [] mem self.max_size) in
    record {
      index = length self.buffers;
      after = record self { buffers = self.buffers ++ entry ∷ [] };
      spare = mem;
      taken =
          ap (λ f. get_buffer f self msg.chunk_stream_id msg.message_stream_id) granted
          ∙ rw (get_buffer, e, le→not_ltb {a = max_hard_buffer} {b = length self.buffers} room)
              refl;
      gathers = record {
        found = find_buffer-append self.buffers entry 0 0 0 e ∙ ap owned (omega arith);
        stored =
            get_elem?-append self.buffers entry
            ∙ ap (λ (n : ℕ). some (claimed msg (holding [] mem n))) same;
        whole = omega (arith, whole);
        small = small;
      };
      calls = refl;
      room = whole;
    }

begin_recycled :
    (fresh : Option (List ℕ)) (msg : Message) (self : Assembler) (size k : ℕ) (b : AsmBuf)
    (mem : List ℕ)
    → find_buffer self.buffers 0 0 msg.chunk_stream_id msg.message_stream_id ≡ unused (suc k)
    → get_elem? self.buffers (suc k) ≡ some b
    → clear b.buffer ≡ holding [] mem size
    → length mem ≡ size
    → size < 2 ^ 62
    → Begun fresh msg self size
unfolding get_buffer
begin_recycled fresh msg self size k b mem e at empty whole small = record {
  index = suc k;
  after = record self {
    buffers = alter (suc k) (claim msg.chunk_stream_id msg.message_stream_id) self.buffers;
  };
  spare = mem;
  taken = rw (get_buffer, e) refl;
  gathers = record {
    found = find_buffer-claim self.buffers (suc k) 0 0 (suc k) b msg at e ∙ ap owned (omega arith);
    stored =
        get_elem?-alter (suc k) (claim msg.chunk_stream_id msg.message_stream_id) self.buffers b at
        ∙ ap (λ r. some (claimed msg r)) empty;
    whole = omega (arith, whole);
    small = small;
  };
  calls = refl;
  room = whole;
}

pub begin :
    (fresh : Option (List ℕ)) (msg : Message) (self : Assembler) (size : ℕ)
    → Begins fresh msg self size
    → size < 2 ^ 62
    → Begun fresh msg self size
begin fresh msg self size (appended mem granted e room whole same) small =
    begin_appended fresh msg self size mem granted e room whole same small
begin fresh msg self size (recycled k b mem e at empty whole) small =
    begin_recycled fresh msg self size k b mem e at empty whole small
