-- ===== src/Pool/Buffers.antt =====
-- internal/pool/pool.go: the pool of byte buffers, `GetBuffer` and `PutBuffer`, and `GetMetrics`.
use logryph.Base.{
  ℕ, ◌*◌, ◌≤◌, ◌≡◌, refl, Bool, true, Option, none, some, List, [], ◌∷◌, String, if◌then◌else◌, ltb,
  leb, arith, Bool-cases, inl, inr,
}
use logryph.Base.Result.{ok}
use logryph.Base.Exec.{Exec}
use logryph.Assert.{check}
use logryph.Pool.{EventPool, or_return, add_uint64}

-- `bytes.Buffer`: what is unread of it, and its capacity.
pub record ByteBuffer : Type 0 where
  pub content : String
  pub capacity : ℕ

pub record BufferPool : Type 0 where
  pub free : List ByteBuffer
  pub buffer_hits : ℕ
  pub buffer_misses : ℕ

abbrev pub max_buffer_size : ℕ
max_buffer_size = 1024 * 1024

-- `sync.Pool.Get`, with the pool's `New` for an empty pool
take_buffer : List ByteBuffer → BufferPool → ByteBuffer × BufferPool
take_buffer [] p = (
  record { content = ""; capacity = 4096 },
  record p { free = []; buffer_misses = add_uint64 p.buffer_misses 1 },
)
take_buffer (b ∷ bs) p = (b, record p { free = bs })

unfoldable pub get_buffer : BufferPool → ByteBuffer × BufferPool
unfolding take_buffer
get_buffer p = take_buffer p.free (record p { buffer_hits = add_uint64 p.buffer_hits 1 })

put_back : ByteBuffer → Exec BufferPool (Unit {0})
put_back b p = (ok tt, record p { free = record b { content = "" } ∷ p.free })

-- `PutBuffer`; a nil buffer is `none`.
unfoldable pub put_buffer : Bool → Option ByteBuffer → Exec BufferPool (Unit {0})
unfolding put_back
put_buffer strict none p = (ok tt, p)
put_buffer strict (some b) p =
    if ltb max_buffer_size b.capacity
    then (ok tt, p)
    else or_return
        (check strict (leb b.capacity (max_buffer_size * 2)) "buffer grew dangerously large")
        (put_back b) p

pub record Metrics : Type 0 where
  pub event_hits : ℕ
  pub event_misses : ℕ
  pub buffer_hits : ℕ
  pub buffer_misses : ℕ

abbrev pub get_metrics : EventPool → BufferPool → Metrics
get_metrics e b = record {
  event_hits = e.event_hits;
  event_misses = e.event_misses;
  buffer_hits = b.buffer_hits;
  buffer_misses = b.buffer_misses;
}

-- An empty buffer of at most 1 MB.
abbrev pub IsSmall : ByteBuffer → Type 0
IsSmall b = (b.content ≡ "") × (b.capacity ≤ max_buffer_size)

abbrev pub AllSmall : List ByteBuffer → Type 0
AllSmall [] = Unit
AllSmall (b ∷ bs) = IsSmall b × AllSmall bs

take_buffer-IsSmall :
    (bs : List ByteBuffer) (p : BufferPool)
    → AllSmall bs
    → IsSmall (take_buffer bs p).0 × AllSmall (take_buffer bs p).1.free
unfolding take_buffer
take_buffer-IsSmall [] p h = ((refl, omega arith), tt)
take_buffer-IsSmall (b ∷ bs) p h = h

-- `PutBuffer` of any buffer, or of nil, returns without a panic in either assertion mode, and
-- keeps a pool of empty buffers of at most 1 MB so; the buffer that the pool hands out next is
-- empty, and of at most 1 MB.
put_buffer-IsSmall :
    (strict : Bool) (b : Option ByteBuffer) (p : BufferPool)
    → AllSmall p.free
    → ((put_buffer strict b p).0 ≡ ok tt)
      × AllSmall (put_buffer strict b p).1.free
      × IsSmall (get_buffer (put_buffer strict b p).1).0
unfolding put_buffer put_back get_buffer
put_buffer-IsSmall strict none p h = (refl, h, (take_buffer-IsSmall p.free _ h).0)
put_buffer-IsSmall strict (some b) p h = elim (Bool-cases (ltb max_buffer_size b.capacity)) [
  | inl e ↦ rw e (refl, h, (take_buffer-IsSmall p.free _ h).0)
  | inr e ↦
      let small : b.capacity ≤ max_buffer_size = ground arith in
      let passes : leb b.capacity (max_buffer_size * 2) ≡ true = ground arith in
      rw (e, passes) (refl, ((refl, small), h), (refl, small))
]
