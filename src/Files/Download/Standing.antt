-- ===== src/Files/Download/Standing.antt =====
-- What the stream has after a round of `DownloadFile` of backend/internal/service/file_service.go,
-- when the agent serves a file.
use snow_panel.Prelude.{
  Text, ℕ, ◌+◌, ◌≤◌, ◌<◌, ◌^◌, ◌≡◌, refl, inl, inr, Bool, true, false, Bool-cases, ◌++◌, take, drop,
  length, ltb, ◌==◌, arith, ap, length-take, take-drop, drop-drop, take-take, take_all, sym, ◌∙◌,
  ◌&&◌, ◌%◌, if◌then◌else◌,
}
use mathlib.Core.List.{append_assoc}
use snow_panel.Errors.{GoError, Result, ok}
use snow_panel.Program.{Program}
use snow_panel.Program.Hoare.{Does, bind-Does, bind_known, return-Does, split-Does}
use snow_panel.Files.Agent.{Bytes, ReadFileChunkResult, AgentClient}
use snow_panel.Files.Rounds.{Round, refused, finished, again}
use snow_panel.Files.Download.{
  DownloadFileQuery, Download, write_bytes, seen_chunk, advance, round_end, write_part, take_chunk,
  download_round, chunk_limit,
}
use snow_panel.Files.Download.Served.{IsChunk, Serves}
use snow_panel.Files.Download.Counts.{
  Counts, sent, Outcome, write_bytes-Part, written_end, empty_end,
}

module _ {S : Type 0} (c : AgentClient S) (write : Bytes → Program S (Result (Unit {0})))
    (q : DownloadFileQuery) (path : Text) (content : Bytes) (small : length content < 2 ^ 64)
    (received : S → Bytes) (At : S → Type 0) (serves : Serves c write path content received At)
    (before : Bytes) where
  -- What the stream has, beside the counters.
  unfoldable pub Sent : Download → S → Type 0
  Sent d w = At w × (received w ≡ before ++ sent q content small d)

  -- What is known of the state after a round.
  unfoldable pub Standing : Round Download → S → Type 0
  Standing (refused x) w = Unit
  Standing (finished d) w = Sent d w
  Standing (again d) w = Sent d w

  write_bytes-take :
      (chunk : Bytes) (d : Download)
      → write_bytes chunk d ≡ take (length (write_bytes chunk d)) chunk
  write_bytes-take chunk d =
      elim (Bool-cases (ltb 0 d.remaining && ltb d.remaining (length chunk))) [
        | inl e ↦ rw (e, length-take d.remaining chunk (ground (arith, e))) refl
        | inr e ↦ rw e (sym (take_all (length chunk) chunk (omega arith)))
      ]

  sent_more :
      (k : ReadFileChunkResult) (d : Download) (m n : ℕ)
      → Counts q content small d
      → IsChunk content d.offset m k
      → n ≤ length k.chunk
      → sent q content small d ++ take n k.chunk
        ≡ take (d.downloaded_bytes + n) (drop q.offset content)
  unfolding sent
  sent_more k d m n h i p =
      ap (λ b. sent q content small d ++ take n b) (i.bytes)
      ∙ ap (λ b. sent q content small d ++ b)
          (take-take n (length k.chunk) (drop d.offset content) p
            ∙ ap (λ o. take n (drop o content)) h.offset
            ∙ ap (take n) (sym (drop-drop d.downloaded_bytes q.offset content)))
      ∙ take-drop d.downloaded_bytes n (drop q.offset content)

  advance-Sent :
      (k : ReadFileChunkResult) (d : Download) (m : ℕ) (w : S)
      → Counts q content small d
      → IsChunk content d.offset m k
      → 0 < length k.chunk
      → At w
      → received w ≡ (before ++ sent q content small d) ++ write_bytes k.chunk d
      → Sent (advance (length (write_bytes k.chunk d)) d) w
  unfolding Sent advance sent
  advance-Sent k d m w h i l a r =
      let n = length (write_bytes k.chunk d) in
      let p = write_bytes-Part q content small k.chunk d l in
      let done : (d.downloaded_bytes + n) % 2 ^ 64 ≡ d.downloaded_bytes + n =
        omega (arith, i.fits, small, p.1, h.offset) in
      (
        a,
        rw done (
            r
            ∙ append_assoc before (sent q content small d) (write_bytes k.chunk d)
            ∙ ap (λ b. before ++ b)
                (ap (λ b. sent q content small d ++ b) (write_bytes-take k.chunk d)
                  ∙ sent_more k d m n h i p.1)),
      )

  branch-Standing :
      (a b : Bool) (x : GoError) (d : Download) (w : S)
      → Sent d w
      → Standing (if a then finished d else if b then refused x else again d) w
  unfolding Standing
  branch-Standing true b x d w h = h
  branch-Standing false true x d w h = tt
  branch-Standing false false x d w h = h

  write_part-Standing :
      (k : ReadFileChunkResult) (d : Download) (m : ℕ)
      → Counts q content small d
      → IsChunk content d.offset m k
      → d.total_size ≡ length content
      → Does
          (Sent d)
          (write_part c write q path k d)
          (λ r w. Outcome q content small d r × Standing r w)
  unfolding write_part round_end Sent
  write_part-Standing k d m h i s =
      split-Does (length k.chunk == 0)
        (λ e. return-Does _ λ w u.
          (empty_end q content small k d m h i s (ground (arith, e)), branch-Standing _ _ _ d w u))
        λ more.
          let some_left : 0 < length k.chunk = ground (arith, more) in
          bind_known _ (ok tt)
            {Q = λ w.
              At w × (received w ≡ (before ++ sent q content small d) ++ write_bytes k.chunk d)}
            (record {
              at = λ w (a, r).
                  let (known, still, got) = serves.writes (write_bytes k.chunk d) w a in
                  (known, (still, got ∙ ap (λ b. b ++ write_bytes k.chunk d) r));
            })
            (return-Does _ λ w (a, r). (
              written_end q content small k d m (length (write_bytes k.chunk d)) h i s
                  (write_bytes-Part q content small k.chunk d some_left),
              branch-Standing _ _ _ _ w (advance-Sent k d m w h i some_left a r),
            ))

  take_chunk-Standing :
      (k : ReadFileChunkResult) (d : Download) (m : ℕ)
      → Counts q content small d
      → IsChunk content d.offset m k
      → Does
          (Sent d)
          (take_chunk c write q path k d)
          (λ r w. Outcome q content small d r × Standing r w)
  unfolding take_chunk seen_chunk Sent sent Outcome
  take_chunk-Standing k d m h i =
      let same : (k.offset == d.offset) ≡ true = ground (arith, i.place) in
      let known : (if ltb 0 k.total_size then k.total_size else d.total_size) ≡ length content =
        ground (arith, i.size, h.total) in
      rw same (record {
        at =
            (write_part-Standing k (seen_chunk path k d) m
              (record {
                offset = h.offset;
                inside = h.inside;
                rest = h.rest;
                open_limit = h.open_limit;
                total = omega (arith, known);
              })
              i known).at;
      })

  pub download_round-Standing :
      (d : Download)
      → Counts q content small d
      → Does
          (Sent d)
          (download_round c write q path d)
          (λ r w. Outcome q content small d r × Standing r w)
  unfolding download_round Sent
  download_round-Standing d h = rw (not_met) (
      bind-Does
        {Q = λ r w.
          (k : ReadFileChunkResult) × (r ≡ ok k)
          × IsChunk content d.offset (chunk_limit d) k
          × Sent d w}
        (record {
          at = λ w (a, r).
              let (k, e, i, a', r') = serves.reads d.offset (chunk_limit d) w h.inside positive a in
              (k, e, i, (a', r' ∙ r));
        })
        λ r. record {
          at = λ w (k, e, i, u). rw e ((take_chunk-Standing k d (chunk_limit d) h i).at w u);
        })
    where
      positive : 0 < chunk_limit d
      positive = ground (arith)

      not_met : (d.remaining == 0 && ltb 0 q.limit) ≡ false
      not_met = ground (arith, h.rest, h.open_limit)
