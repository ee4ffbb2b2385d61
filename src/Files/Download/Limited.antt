-- ===== src/Files/Download/Limited.antt =====
-- A download with a limit, from any core agent: `DownloadFile` of
-- backend/internal/service/file_service.go.
use snow_panel.Prelude.{
  Text, ℕ, zero, suc, ◌+◌, ◌≤◌, ◌<◌, ◌^◌, ◌≡◌, refl, Option, none, some, length, ◌==◌, is_empty,
  trim_space, arith, length-take,
}
use snow_panel.Errors.{Result, ok, err}
use snow_panel.Program.{Program}
use snow_panel.Program.Hoare.{
  Does, bind-Does, return-Does, split-Does, if-Does, any-Does, result-Does,
}
use snow_panel.Files.Agent.{Bytes, ReadFileChunkResult, AgentClient}
use snow_panel.Files.Rounds.{Round, refused, finished, again, round-Does}
use snow_panel.Files.Download.{
  DownloadFileQuery, DownloadFileResult, Download, write_bytes, seen_chunk, advance, round_end,
  write_part, take_chunk, download_round, download_loop, download_file, start,
}

-- What is written and what is not make up the limit.
abbrev IsWithin : DownloadFileQuery → Download → Type 0
IsWithin q d = (0 < d.remaining) × (d.downloaded_bytes + d.remaining ≡ q.limit)

abbrev Advances : DownloadFileQuery → Download → Round Download → Type 0
Advances q d (refused x) = Unit
Advances q d (finished last) = last.downloaded_bytes ≤ q.limit
Advances q d (again next) = IsWithin q next × (next.remaining < d.remaining)

length-write_bytes :
    (chunk : Bytes) (d : Download)
    → 0 < d.remaining
    → 0 < length chunk
    → (0 < length (write_bytes chunk d)) × (length (write_bytes chunk d) ≤ d.remaining)
length-write_bytes chunk d h k = ground (arith, length-take d.remaining chunk)

round_end_empty :
    (q : DownloadFileQuery) (k : ReadFileChunkResult) (d : Download)
    → IsWithin q d
    → length k.chunk ≡ 0
    → Advances q d (round_end q k d)
unfolding round_end
round_end_empty q k d h e = ground (arith)

round_end_written :
    (q : DownloadFileQuery) (k : ReadFileChunkResult) (d : Download) (n : ℕ)
    → q.limit < 2 ^ 64
    → IsWithin q d
    → (0 < n) × (n ≤ d.remaining)
    → 0 < length k.chunk
    → Advances q d (round_end q k (advance n d))
unfolding round_end advance
round_end_written q k d n small h b e = ground (arith)

module _ {S : Type 0} (c : AgentClient S) (write : Bytes → Program S (Result (Unit {0})))
    (q : DownloadFileQuery) (path : Text) (small : q.limit < 2 ^ 64) where
  write_part-Advances :
      (k : ReadFileChunkResult) (d : Download)
      → IsWithin q d
      → Does (λ _. Unit) (write_part c write q path k d) (λ r _. Advances q d r)
  unfolding write_part
  write_part-Advances k d h =
      split-Does (length k.chunk == 0)
        (λ none_left. return-Does _ (λ w u. round_end_empty q k d h (ground (arith, none_left))))
        λ more. bind-Does any-Does λ r.
          result-Does r (λ x e. return-Does _ (λ w u. tt))
            λ done e. return-Does _ λ w u.
              let some_left : 0 < length k.chunk = ground (arith, more) in
              round_end_written q k d _ small h (length-write_bytes k.chunk d h.0 some_left)
                some_left

  take_chunk-Advances :
      (k : ReadFileChunkResult) (d : Download)
      → IsWithin q d
      → Does (λ _. Unit) (take_chunk c write q path k d) (λ r _. Advances q d r)
  unfolding take_chunk seen_chunk
  take_chunk-Advances k d h =
      if-Does _ (return-Does _ (λ w u. tt))
        (record { at = (write_part-Advances k (seen_chunk path k d) h).at })

  download_round-Advances :
      (d : Download)
      → IsWithin q d
      → Does (λ _. Unit) (download_round c write q path d) (λ r _. Advances q d r)
  unfolding download_round
  download_round-Advances d h = if-Does _ (return-Does _ (λ w u. omega (arith, h))) (
      bind-Does any-Does
        λ r. result-Does r (λ x e. return-Does _ (λ w u. tt)) (λ k e. take_chunk-Advances k d h))

  Ends : Option (Result DownloadFileResult) → Type 0
  Ends none = ⊥
  Ends (some (err x)) = Unit
  Ends (some (ok r)) = r.downloaded_bytes ≤ q.limit

  download_loop-Ends :
      (fuel : ℕ) (d : Download)
      → d.remaining ≤ fuel
      → IsWithin q d
      → Does (λ _. Unit) (download_loop c write q path fuel d) (λ r _. Ends r)
  unfolding download_loop Ends
  download_loop-Ends zero d f h = absurd (omega (arith, f, h))
  download_loop-Ends (suc fuel) d f h = bind-Does (download_round-Advances d h) λ r.
      round-Does r (λ x e. return-Does _ (λ w u. tt)) (λ last e. return-Does _ (λ w u. rw e at u))
        λ next e. record {
          at = λ w u.
              let p : IsWithin q next × (next.remaining < d.remaining) = rw e at u in
              (download_loop-Ends fuel next (omega (arith, f, p)) p.0).at w tt;
        }

  abbrev Bounded : Option (Result DownloadFileResult) → Type 0
  Bounded o =
      (r : Result DownloadFileResult) × (o ≡ some r)
      × ((a : DownloadFileResult) → r ≡ ok a → a.downloaded_bytes ≤ q.limit)

  Ends-Bounded : (o : Option (Result DownloadFileResult)) → Ends o → Bounded o
  unfolding Ends
  Ends-Bounded none h = absurd h
  Ends-Bounded (some (err x)) h = (err x, refl, λ a e. cc)
  Ends-Bounded (some (ok r)) h = (ok r, refl, λ a e. let same : r ≡ a = cc in rw same at h)

-- With a limit, DownloadFile comes to an end within as many rounds as the limit has bytes, whatever
-- the core agent answers and the writer does, and reports at most as many bytes as the limit.
pub download_file_limited :
    {S : Type 0} (c : AgentClient S) (q : DownloadFileQuery)
    (write : Bytes → Program S (Result (Unit {0}))) (w : S) (fuel : ℕ)
    → 0 < q.limit
    → q.limit < 2 ^ 64
    → q.limit ≤ fuel
    → (r : Result DownloadFileResult) × ((download_file c fuel q (some write) w).0 ≡ some r)
      × ((a : DownloadFileResult) → r ≡ ok a → a.downloaded_bytes ≤ q.limit)
unfolding download_file Ends
download_file_limited c q write w fuel positive small enough =
    let path = trim_space q.path in
    Ends-Bounded c write q path small _ (
      (if-Does {P = λ _. Unit} (is_empty path) (return-Does _ (λ w u. tt)) (
          download_loop-Ends c write q path small fuel (start q) enough (positive, omega arith))).at
        w tt)
