-- ===== src/Proofs/Chunk.antt =====
-- remit/src/proofs.rs: `largest_chunk`, the binary search for the longest prefix that still fits.
use token_22_cts.Prelude.{
  ℕ, zero, suc, ◌+◌, ◌-◌, ◌/◌, ◌≤◌, ◌<◌, ◌≡◌, ◌≢◌, ◌⊎◌, inl, inr, refl, Bool, true, false, List,
  ltb, length, take, Bool-cases, arith,
}
use native.Mathlib.Decide.{dec_le, dec_lt}
use token_22_cts.Solana.{Bytes, Address, Instruction}
use token_22_cts.Cluster.{Wire, fits_in_one_transaction}

-- The loop over `(low, high)`; `mid` is `(low + high).div_ceil(2)`. Each round shrinks `high - low`, so
-- `high - low` rounds are enough.
unfoldable pub search_chunk : (ℕ → Bool) → ℕ → ℕ → ℕ → ℕ
search_chunk fits zero low high = low
search_chunk fits (suc fuel) low high = elim (ltb low high) [
  | true ↦
      let mid = (low + high + 1) / 2 in
      elim (fits mid) [
        | true ↦ search_chunk fits fuel mid high
        | false ↦ search_chunk fits fuel low (mid - 1)
      ]
  | false ↦ low
]

-- The prefix of `n` bytes fits.
abbrev pub prefix_fits : Wire → Address → Bytes → (Bytes → List Instruction) → ℕ → Bool
prefix_fits x payer bytes build n = fits_in_one_transaction x (build (take n bytes)) payer

unfoldable pub largest_chunk : Wire → Address → Bytes → (Bytes → List Instruction) → ℕ
unfolding search_chunk
largest_chunk x payer bytes build =
    search_chunk (prefix_fits x payer bytes build) (length bytes) 0 (length bytes)

-- The search ends between its bounds, at `low` or at a number that passes the test, and at `high`
-- or below a number that fails it.
abbrev Found : (ℕ → Bool) → ℕ → ℕ → ℕ → Type 0
Found fits low high r =
    (low ≤ r) × (r ≤ high) × ((r ≡ low) ⊎ (fits r ≡ true)) × ((r ≡ high) ⊎ (fits (r + 1) ≡ false))

module _ (fits : ℕ → Bool) (low high mid r : ℕ) where
  raise-Found : low ≤ mid → fits mid ≡ true → Found fits mid high r → Found fits low high r
  raise-Found le passes (a, b, c, d) =
      (omega arith, b, elim c [ inl e ↦ inr (rw e passes) | inr e ↦ inr e ], d)

  lower-Found :
      0 < mid → mid ≤ high → fits mid ≡ false → Found fits low (mid - 1) r → Found fits low high r
  lower-Found pos le refused (a, b, c, d) = (
    a,
    omega arith,
    c,
    elim d [
      | inl e ↦ let next : r + 1 ≡ mid = omega arith in inr (rw next refused)
      | inr e ↦ inr e
    ],
  )

module _ (fits : ℕ → Bool) (low high : ℕ) where
  -- One round of the loop.
  pub search_chunk-up :
      (fuel : ℕ)
      → low < high
      → fits ((low + high + 1) / 2) ≡ true
      → search_chunk fits (suc fuel) low high ≡ search_chunk fits fuel ((low + high + 1) / 2) high
  unfolding search_chunk
  search_chunk-up fuel lt passes = ground arith

  pub search_chunk-down :
      (fuel : ℕ)
      → low < high
      → fits ((low + high + 1) / 2) ≡ false
      → search_chunk fits (suc fuel) low high
        ≡ search_chunk fits fuel low ((low + high + 1) / 2 - 1)
  unfolding search_chunk
  search_chunk-down fuel lt refused = ground arith

  pub search_chunk-done : (fuel : ℕ) → high ≤ low → search_chunk fits fuel low high ≡ low
  unfolding search_chunk
  search_chunk-done zero le = refl
  search_chunk-done (suc fuel) le = ground arith

search_chunk-finds :
    (fits : ℕ → Bool) (fuel low high : ℕ)
    → low ≤ high
    → high ≤ low + fuel
    → Found fits low high (search_chunk fits fuel low high)
search_chunk-finds fits zero low high le enough =
    rw (search_chunk-done fits low high zero (omega arith))
      (omega arith, omega arith, inl refl, inl (omega arith))
search_chunk-finds fits (suc fuel) low high le enough = elim (dec_lt low high) [
  | no done ↦
      rw (search_chunk-done fits low high (suc fuel) (omega arith))
        (omega arith, omega arith, inl refl, inl (omega arith))
  | yes lt ↦
      let mid = (low + high + 1) / 2 in
      let higher = search_chunk-finds fits fuel mid high (omega arith) (omega arith) in
      let lower = search_chunk-finds fits fuel low (mid - 1) (omega arith) (omega arith) in
      elim (Bool-cases (fits mid)) [
        | inl passes ↦
            rw (search_chunk-up fits low high fuel lt passes)
              (raise-Found fits low high mid _ (omega arith) passes higher)
        | inr refused ↦
            rw (search_chunk-down fits low high fuel lt refused)
              (lower-Found fits low high mid _ (omega arith) (omega arith) refused lower)
      ]
]

module _ (x : Wire) (payer : Address) (bytes : Bytes) (build : Bytes → List Instruction) where
  largest_chunk-Found :
      Found (prefix_fits x payer bytes build) 0 (length bytes) (largest_chunk x payer bytes build)
  unfolding largest_chunk
  largest_chunk-Found =
      search_chunk-finds (prefix_fits x payer bytes build) (length bytes) 0 (length bytes)
        (omega arith) (omega arith)

  pub largest_chunk-le : largest_chunk x payer bytes build ≤ length bytes
  largest_chunk-le = let (a, b, c, d) = largest_chunk-Found in b

  -- A nonempty chunk fits.
  pub largest_chunk-fits :
      largest_chunk x payer bytes build ≢ 0
      → prefix_fits x payer bytes build (largest_chunk x payer bytes build) ≡ true
  largest_chunk-fits some_bytes =
      let (a, b, c, d) = largest_chunk-Found in elim c [ inl e ↦ absurd (some_bytes e) | inr e ↦ e ]

  -- If one byte fits, the search does not return zero for data that are not empty.
  pub largest_chunk-ne-zero :
      0 < length bytes
      → prefix_fits x payer bytes build 1 ≡ true
      → largest_chunk x payer bytes build ≢ 0
  largest_chunk-ne-zero some_bytes one zeroed =
      let (a, b, c, d) = largest_chunk-Found in
      elim d [ inl e ↦ absurd (omega arith) | inr refused ↦ absurd (cc) ]

  -- The length is that of a prefix that fits, or zero, and no longer prefix fits.
  abbrev pub Largest : ℕ → Type 0
  Largest k =
      ((n : ℕ) → n ≤ length bytes → prefix_fits x payer bytes build n ≡ true → n ≤ k)
      × ((k ≡ 0) ⊎ (prefix_fits x payer bytes build k ≡ true))

  -- If the transaction of a shorter chunk fits whenever that of a longer one does, then the chunk
  -- that the search returns is the largest that fits: every prefix that fits is at most as long,
  -- and it fits itself unless no nonempty prefix does.
  pub largest_chunk-Largest :
      ((m n : ℕ)
        → m ≤ n
        → prefix_fits x payer bytes build n ≡ true
        → prefix_fits x payer bytes build m ≡ true)
      → Largest (largest_chunk x payer bytes build)
  largest_chunk-Largest monotone =
      let (a, b, c, d) = largest_chunk-Found in
      (
        λ n le passes. elim d [
          | inl e ↦ rw e le
          | inr refused ↦ elim (dec_le n (largest_chunk x payer bytes build)) [
            | yes p ↦ p
            | no p ↦
                let shorter =
                  monotone (largest_chunk x payer bytes build + 1) n (omega arith) passes in
                absurd (cc)
          ]
        ],
        c,
      )
