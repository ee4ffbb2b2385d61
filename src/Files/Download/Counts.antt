-- ===== src/Files/Download/Counts.antt =====
-- The counters of the loop in `DownloadFile` of backend/internal/service/file_service.go,
-- when the agent serves a file.
use snow_panel.Prelude.{
  refl, ℕ, ◌+◌, ◌-◌, ◌≤◌, ◌<◌, ◌^◌, ◌≡◌, inl, inr, Bool, true, false, Bool-cases, take, drop,
  length, ltb, ◌==◌, arith, ap, length-take, take_all, sym, ◌∙◌, ◌&&◌, ◌||◌, ◌%◌, length-drop, ◌⊎◌,
  if◌then◌else◌,
}
use snow_panel.Files.Agent.{Bytes, ReadFileChunkResult}
use snow_panel.Files.Rounds.{Round, refused, finished, again}
use snow_panel.Files.Download.{DownloadFileQuery, Download, write_bytes, advance, round_end}
use snow_panel.Files.Download.Served.{IsChunk, wanted}

or_false : (a b : Bool) → (a || b) ≡ false → b ≡ false
or_false true b h = cc
or_false false b h = h

or_true : (a b : Bool) → (a || b) ≡ true → a ≡ false → b ≡ true
or_true true b h k = cc
or_true false b h k = h

limit_met : (limit left : ℕ) → (ltb 0 limit && left == 0) ≡ true → (0 < limit) × (left ≡ 0)
limit_met limit left h = ground arith

limit_open : (limit left : ℕ) → (ltb 0 limit && left == 0) ≡ false → 0 < limit → 0 < left
limit_open limit left h k = ground arith

module _ (q : DownloadFileQuery) (content : Bytes) (small : length content < 2 ^ 64) where
  -- The counters before a round.
  pub record Counts (d : Download) : Type 0 where
    pub offset : d.offset ≡ q.offset + d.downloaded_bytes
    pub inside : d.offset ≤ length content
    pub rest : d.remaining ≡ q.limit - d.downloaded_bytes
    pub open_limit : 0 < q.limit → d.downloaded_bytes < q.limit
    pub total : d.total_size ≤ length content

  -- The counters after the last round.
  pub record Complete (d : Download) : Type 0 where
    pub size : d.total_size ≡ length content
    pub place : d.offset ≡ q.offset + d.downloaded_bytes
    pub whole : (d.offset ≡ length content) ⊎ ((0 < q.limit) × (d.downloaded_bytes ≡ q.limit))
    pub within : 0 < q.limit → d.downloaded_bytes ≤ q.limit
    pub inside : d.offset ≤ length content

  unfoldable pub sent : Download → Bytes
  sent d = take d.downloaded_bytes (drop q.offset content)

  -- What is known after a round.
  unfoldable pub Outcome : Download → Round Download → Type 0
  Outcome d (refused x) = ⊥
  Outcome d (finished last) = Complete last
  Outcome d (again next) = Counts next × (d.offset < next.offset)

  pub sent_all : (d : Download) → Complete d → sent d ≡ wanted q content
  unfolding sent
  sent_all d h = elim (Bool-cases (q.limit == 0)) [
    | inl e ↦ rw e (take_all _ _ (grind (arith, h.whole, h.place, length-drop q.offset content)))
    | inr e ↦ rw e (elim (h.whole) [
      | inl f ↦
          take_all _ _ (grind (arith, f, h.place, length-drop q.offset content))
          ∙ sym
              (take_all _ _ (grind (arith, f, e, h.within, h.place, length-drop q.offset content)))
      | inr (p, f) ↦ ap (λ n. take n (drop q.offset content)) f
    ])
  ]

  -- The bytes that are written of a chunk.
  abbrev pub Part : Bytes → Download → ℕ → Type 0
  Part chunk d n =
      (0 < n)
      × (n ≤ length chunk)
      × (0 < d.remaining → n ≤ d.remaining)
      × ((n ≡ length chunk) ⊎ ((0 < d.remaining) × (n ≡ d.remaining)))

  pub write_bytes-Part :
      (chunk : Bytes) (d : Download)
      → 0 < length chunk
      → Part chunk d (length (write_bytes chunk d))
  write_bytes-Part chunk d h =
      elim (Bool-cases (ltb 0 d.remaining && ltb d.remaining (length chunk))) [
        | inl e ↦ rw e (ground (arith, e, length-take d.remaining chunk))
        | inr e ↦ rw e (ground (arith, e))
      ]

  -- The counters after a chunk, as `advance` leaves them.
  sums :
      (k : ReadFileChunkResult) (d : Download) (m n : ℕ)
      → Counts d
      → IsChunk content d.offset m k
      → n ≤ length k.chunk
      → advance n d ≡ record d {
        offset = d.offset + n;
        downloaded_bytes = d.downloaded_bytes + n;
        remaining = d.remaining - n;
      }
  unfolding advance
  sums k d m n h i p =
      let sum : (d.offset + n) % 2 ^ 64 ≡ d.offset + n = omega (arith, i.fits, small, p) in
      let done : (d.downloaded_bytes + n) % 2 ^ 64 ≡ d.downloaded_bytes + n =
        omega (arith, i.fits, small, p, h.offset) in
      let left : (if ltb 0 d.remaining then d.remaining - n else d.remaining) ≡ d.remaining - n =
        ground arith in
      rw (sum, done, left) refl

  module _ (k : ReadFileChunkResult) (d : Download) (m n : ℕ) (h : Counts d)
      (i : IsChunk content d.offset m k) (s : d.total_size ≡ length content)
      (p : Part k.chunk d n) where
    abbrev after : Download
    after = record d {
      offset = d.offset + n;
      downloaded_bytes = d.downloaded_bytes + n;
      remaining = d.remaining - n;
    }

    abbrev ends : Bool
    ends = k.eof || (ltb 0 q.limit && (d.remaining - n) == 0)

    met : (0 < q.limit) × (d.remaining - n ≡ 0) → (0 < q.limit) × (d.downloaded_bytes + n ≡ q.limit)
    met (l, z) = (l, omega (arith, h.rest, h.open_limit l, p.2, z))

    reached :
        ends ≡ true
        → (d.offset + n ≡ length content) ⊎ ((0 < q.limit) × (d.downloaded_bytes + n ≡ q.limit))
    reached e = elim p.3 [
      | inr r ↦ inr (omega (arith, r, h.rest), omega (arith, r, h.rest))
      | inl l ↦ elim (Bool-cases k.eof) [
        | inl f ↦ inl (omega (arith, l, i.last f))
        | inr f ↦ inr (met (limit_met q.limit (d.remaining - n) (or_true k.eof _ e f)))
      ]
    ]

    after-Complete : ends ≡ true → Complete after
    after-Complete e = record {
      size = s;
      place = omega (arith, h.offset);
      whole = reached e;
      within = λ l. omega (arith, p.2, h.rest, h.open_limit l);
      inside = omega (arith, i.fits, p.1);
    }

    after-Counts : ends ≡ false → Counts after
    after-Counts e = record {
      offset = omega (arith, h.offset);
      inside = omega (arith, i.fits, p.1);
      rest = omega (arith, h.rest);
      open_limit =
          λ l. omega (arith, h.rest, limit_open q.limit (d.remaining - n) (or_false k.eof _ e) l);
      total = omega (arith, s);
    }

    pub written_end : Outcome d (round_end q k (advance n d))
    unfolding round_end Outcome
    written_end =
        let filled : (length k.chunk == 0) ≡ false = ground (arith, p.0, p.1) in
        rw (sums k d m n h i p.1) (elim (Bool-cases ends) [
          | inl e ↦ rw e (after-Complete e)
          | inr e ↦ rw (e, filled) (after-Counts e, omega (arith, p.0))
        ])

  pub empty_end :
      (k : ReadFileChunkResult) (d : Download) (n : ℕ)
      → Counts d
      → IsChunk content d.offset n k
      → d.total_size ≡ length content
      → length k.chunk ≡ 0
      → Outcome d (round_end q k d)
  unfolding round_end Outcome
  empty_end k d n h i s p = ground (arith, h.rest, h.open_limit, i.more, i.at_end)
