-- ===== src/Worker/Latency.antt =====
-- internal/ledger/worker.go: the latency buckets.
use logryph.Base.{
  ℕ, ◌+◌, ◌%◌, ◌<◌, ◌≤◌, ◌^◌, ◌≡◌, ◌⊎◌, inl, inr, refl, false, Bool-cases, List, [], ◌∷◌, leb,
  length, arith,
}
use logryph.Worker.{Worker, record_latency, count_bucket, latency_bucket_upper_ns}

abbrev pub total : List ℕ → ℕ
total [] = 0
total (n ∷ ns) = n + total ns

-- Some bound is not exceeded.
abbrev Covers : ℕ → List ℕ → Type 0
Covers ns [] = ⊥
Covers ns (b ∷ bs) = (ns ≤ b) ⊎ Covers ns bs

count_bucket-total :
    (ns : ℕ) (bounds counts : List ℕ)
    → length bounds ≡ length counts
    → Covers ns bounds
    → total counts + 1 < 2 ^ 64
    → (total (count_bucket ns bounds counts) ≡ total counts + 1)
      × (length (count_bucket ns bounds counts) ≡ length counts)
unfolding count_bucket
count_bucket-total ns [] counts same c small = elim c [ ]
count_bucket-total ns (b ∷ bounds) [] same c small = absurd (omega arith)
count_bucket-total ns (b ∷ bounds) (n ∷ counts) same c small = elim (Bool-cases (leb ns b)) [
  | inl e ↦ rw e (omega arith, refl)
  | inr e ↦
      let (added, long) =
        count_bucket-total ns bounds counts (omega arith) (later c e) (omega arith) in
      rw e (omega arith, omega arith)
]
  where
    later : (ns ≤ b) ⊎ Covers ns bounds → leb ns b ≡ false → Covers ns bounds
    later (inl le) e = absurd (ground arith)
    later (inr k) e = k

-- One more in the first bucket whose bound is not exceeded, and the other buckets as before.
pub data Counts (ns : ℕ) : List ℕ → List ℕ → List ℕ → Type 0 where
  here : (b c : ℕ) (bs cs : List ℕ) → ns ≤ b → Counts ns (b ∷ bs) (c ∷ cs) ((c + 1) ∷ cs)
  there :
      (b c : ℕ) (bs cs ds : List ℕ)
      → b < ns
      → Counts ns bs cs ds
      → Counts ns (b ∷ bs) (c ∷ cs) (c ∷ ds)

count_bucket-Counts :
    (ns : ℕ) (bounds counts : List ℕ)
    → length bounds ≡ length counts
    → Covers ns bounds
    → total counts + 1 < 2 ^ 64
    → Counts ns bounds counts (count_bucket ns bounds counts)
unfolding count_bucket
count_bucket-Counts ns [] counts same c small = elim c [ ]
count_bucket-Counts ns (b ∷ bounds) [] same c small = absurd (omega arith)
count_bucket-Counts ns (b ∷ bounds) (n ∷ counts) same c small = elim (Bool-cases (leb ns b)) [
  | inl e ↦
      let one : (n + 1) % 2 ^ 64 ≡ n + 1 = omega arith in
      rw (e, one) (here b n bounds counts (ground arith))
  | inr e ↦ rw e (
      there b n bounds counts (count_bucket ns bounds counts) (ground arith)
        (count_bucket-Counts ns bounds counts (omega arith) (later c e) (omega arith)))
]
  where
    later : (ns ≤ b) ⊎ Covers ns bounds → leb ns b ≡ false → Covers ns bounds
    later (inl le) e = absurd (ground arith)
    later (inr k) e = k

-- The bounds in nanoseconds, the last one the largest 64-bit number
abbrev pub bounds : List ℕ
bounds = 1000000 ∷ 5000000 ∷ 10000000 ∷ 25000000 ∷ 50000000 ∷ 100000000 ∷ 18446744073709551615 ∷ []

module _ {S : Type 0} where
  -- There is a counter for each bound, and together they count every latency.
  pub record IsTallied (w : Worker S) : Type 0 where
    pub all_buckets : length w.latency_buckets ≡ 7
    pub tally : total w.latency_buckets ≡ w.latency_count

  -- A latency below 2^64 nanoseconds, where fewer than 2^64 - 1 were recorded before, adds one
  -- to the number of latencies, one to the first of the seven buckets whose bound it does not
  -- exceed and nothing to the others, and itself to the sum, which wraps around at 2^64; so the
  -- buckets together still count as many as were recorded.
  pub record_latency-IsTallied :
      (ns : ℕ) (w : Worker S)
      → ns < 2 ^ 64
      → w.latency_count + 1 < 2 ^ 64
      → IsTallied w
      → IsTallied (record_latency ns w)
        × Counts ns bounds w.latency_buckets ((record_latency ns w).latency_buckets)
        × ((record_latency ns w).latency_count ≡ w.latency_count + 1)
        × ((record_latency ns w).latency_sum_ns ≡ (w.latency_sum_ns + ns) % 2 ^ 64)
  unfolding record_latency
  record_latency-IsTallied ns w fits few h =
      let long : length w.latency_buckets ≡ 7 = h.all_buckets in
      let sum : total w.latency_buckets ≡ w.latency_count = h.tally in
      let (added, same) =
        count_bucket-total ns latency_bucket_upper_ns w.latency_buckets (omega arith) covered
          (omega arith) in
      (
        record { all_buckets = omega arith; tally = omega arith },
        count_bucket-Counts ns latency_bucket_upper_ns w.latency_buckets (omega arith) covered
            (omega arith),
        omega arith,
        refl,
      )
    where
      covered : Covers ns latency_bucket_upper_ns
      covered = inr (inr (inr (inr (inr (inr (inl (omega arith)))))))
