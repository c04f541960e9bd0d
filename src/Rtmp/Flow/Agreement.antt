-- ===== src/Rtmp/Flow/Agreement.antt =====
-- src/rtmp/rtmp_chunk_flow.c: when writer and reader agree, and what a header of each format adds.
use lib_open_rtmp.Base.{
  ℕ, zero, suc, ◌+◌, ◌%◌, ◌^◌, ◌≤◌, ◌<◌, ◌≡◌, ◌≢◌, refl, ap, ◌∙◌, true, List, ◌++◌, inl, inr, arith,
  append_assoc, ◌==◌, ==→eq, not_==→ne, le→not_ltb, lt→ltb, if◌then◌else◌, Bool-cases,
}
use lib_open_rtmp.Util.Memutil.{timestamp_get_delta, to_time}
use lib_open_rtmp.Util.Memutil.Laws.{timestamp_get_delta_wraps}
use lib_open_rtmp.Rtmp.Message.{Message, Entry}
use lib_open_rtmp.Rtmp.Flow.{header_format, wire_time, effective_time}
use lib_open_rtmp.Rtmp.Flow.Header.{received}

-- The reader's last message on a stream agrees with the writer's entry for it.
abbrev pub Synced : Entry → Message → Type 0
Synced e p =
    e.initialized ≡ true
    → (p.message_stream_id ≡ e.msg.message_stream_id)
      × (p.message_type ≡ e.msg.message_type)
      × (p.message_length ≡ e.msg.message_length)
      × (p.timestamp % 2 ^ 32 ≡ e.msg.timestamp % 2 ^ 32)

-- Messages that a header can carry after the writer's entry `e`. A zero timestamp and a header of
-- format 3 are the two cases in which the sides may come apart.
pub record Carries (e : Entry) (m : Message) : Type 0 where
  pub length_fits : m.message_length < 2 ^ 24
  pub stream_fits : m.message_stream_id < 2 ^ 32
  pub time_fits : m.timestamp < 2 ^ 64
  pub old_fits : e.msg.timestamp < 2 ^ 64
  pub zero_time : e.initialized ≡ true → m.timestamp ≡ 0 → e.msg.timestamp ≡ 0
  pub repeated :
      header_format e m ≡ 3 → (m.timestamp ≡ e.msg.timestamp) × (m.timestamp % 2 ^ 32 ≢ 0xFFFFFF)

time_kept : (e : Entry) (m : Message) → Carries e m → effective_time e m ≡ m.timestamp
unfolding effective_time
time_kept e m s = ground (arith, s.zero_time)

-- What a format of 1 or more says of the entry.
pub knows_stream :
    (e : Entry) (m : Message)
    → 1 ≤ header_format e m
    → (e.initialized ≡ true) × (e.msg.message_stream_id ≡ m.message_stream_id)
unfolding header_format
knows_stream e m h = ground arith

pub knows_length :
    (e : Entry) (m : Message)
    → 2 ≤ header_format e m
    → (e.msg.message_type ≡ m.message_type) × (e.msg.message_length ≡ m.message_length)
unfolding header_format
knows_length e m h = ground arith

-- The received message `p` is `m`, with the timestamp modulo 2 ^ 32.
abbrev pub Agrees : Message → Message → Type 0
Agrees p m =
    (p.chunk_stream_id ≡ m.chunk_stream_id)
    × (p.message_stream_id ≡ m.message_stream_id)
    × (p.message_type ≡ m.message_type)
    × (p.message_length ≡ m.message_length)
    × (p.timestamp % 2 ^ 32 ≡ m.timestamp % 2 ^ 32)

-- With a header of each format the fields that it lacks are those of the old message.
pub received-Agrees :
    (fmt w : ℕ) (m p : Message)
    → fmt < 4
    → m.chunk_stream_id < 10
    → (1 ≤ fmt → p.message_stream_id ≡ m.message_stream_id)
    → (2 ≤ fmt → (p.message_type ≡ m.message_type) × (p.message_length ≡ m.message_length))
    → ((if fmt == 0 then w else p.timestamp + w) % 2 ^ 32 ≡ m.timestamp % 2 ^ 32)
    → Agrees
        (received fmt m.chunk_stream_id m.message_length m.message_type m.message_stream_id w p)
        m
received-Agrees zero w m p h hi stream length time =
    (omega arith, refl, refl, refl, omega (arith, time))
received-Agrees (suc zero) w m p h hi stream length time =
    (omega arith, stream (omega arith), refl, refl, omega (arith, time))
received-Agrees (suc (suc zero)) w m p h hi stream length time = (
  omega arith,
  stream (omega arith),
  (length (omega arith)).0,
  (length (omega arith)).1,
  omega (arith, time),
)
received-Agrees (suc (suc (suc zero))) w m p h hi stream length time = (
  omega arith,
  stream (omega arith),
  (length (omega arith)).0,
  (length (omega arith)).1,
  omega (arith, time),
)
received-Agrees (suc (suc (suc (suc fmt)))) w m p h hi stream length time = absurd (omega arith)

to_time_low : (t : ℕ) → to_time t % 2 ^ 32 ≡ t % 2 ^ 32
unfolding to_time
to_time_low t = ground arith

first_time :
    (e : Entry) (m : Message) → Carries e m → header_format e m ≡ 0 → wire_time e m ≡ m.timestamp
unfolding wire_time
first_time e m s z = rw (le→not_ltb {a = 0} {b = header_format e m} (omega arith)) (time_kept e m s)

pub next_time :
    (e : Entry) (m : Message)
    → Carries e m
    → 1 ≤ header_format e m
    → wire_time e m ≡ to_time (timestamp_get_delta e.msg.timestamp m.timestamp)
unfolding wire_time
next_time e m s h = rw (lt→ltb h, time_kept e m s) refl

-- The time field leads to the new timestamp.
pub time_received :
    (e : Entry) (m p : Message)
    → Carries e m
    → Synced e p
    → (if header_format e m == 0 then wire_time e m else p.timestamp + wire_time e m) % 2 ^ 32
      ≡ m.timestamp % 2 ^ 32
time_received e m p s sync = elim (Bool-cases (header_format e m == 0)) [
  | inl z ↦ rw (z, first_time e m s (==→eq z)) refl
  | inr z ↦
      let known_stream : 1 ≤ header_format e m = omega (arith, not_==→ne z) in
      let same : p.timestamp % 2 ^ 32 ≡ e.msg.timestamp % 2 ^ 32 =
        (sync (knows_stream e m known_stream).0).3 in
      rw (z, next_time e m s known_stream)
        (omega (
          arith,
          same,
          to_time_low (timestamp_get_delta e.msg.timestamp m.timestamp),
          timestamp_get_delta_wraps e.msg.timestamp m.timestamp s.old_fits s.time_fits,
        ))
]

pub no_delta : (s : ℕ) → s < 2 ^ 64 → to_time (timestamp_get_delta s s) ≡ 0
unfolding to_time timestamp_get_delta
no_delta s h = ground arith

pub reassoc :
    (u v w x y rest : List ℕ)
    → (u ++ (v ++ w ++ x ++ y)) ++ rest ≡ u ++ (v ++ (w ++ (x ++ (y ++ rest))))
reassoc u v w x y rest =
    append_assoc u (v ++ w ++ x ++ y) rest
    ∙ ap (λ t. u ++ t)
        (append_assoc (v ++ w ++ x) y rest
          ∙ append_assoc (v ++ w) x (y ++ rest)
          ∙ append_assoc v w (x ++ (y ++ rest)))
