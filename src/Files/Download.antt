-- ===== src/Files/Download.antt =====
-- `DownloadFile` of backend/internal/service/file_service.go. A round of its loop is a function, and
-- the loop takes as many rounds as it has fuel for.
pub mod Limited
pub mod Served
mod Counts
mod Standing
pub mod Whole
use snow_panel.Prelude.{
  ℕ, zero, suc, ◌-◌, ◌*◌, Text, text, trim_space, is_empty, Bool, ◌&&◌, ◌||◌, not, Option, none,
  some, [], ◌∷◌, take, length, ltb, ◌==◌, if◌then◌else◌,
}
use snow_panel.Errors.{GoError, wrap, new, Result, ok, err}
use snow_panel.Errors.Agent.{map_agent_error}
use snow_panel.Program.{Program}
unfoldable pub use snow_panel.Program.{◌>>=◌, return}
use snow_panel.Files.Agent.{
  Bytes, add64, ReadFileChunkRequest, ReadFileChunkResult, AgentClient, refuse_file,
  wrap_file_error, got_want,
}
use snow_panel.Files.Rounds.{Round, refused, finished, again}
use snow_panel.Files.Service.{or_path}

pub record DownloadFileQuery : Type 0 where
  pub path : Text
  pub offset : ℕ
  pub limit : ℕ

pub record DownloadFileResult : Type 0 where
  pub path : Text
  pub start_offset : ℕ
  pub end_offset : ℕ
  pub total_size : ℕ
  pub downloaded_bytes : ℕ

abbrev pub download_chunk_size : ℕ
download_chunk_size = 256 * 1024

-- The variables of the loop.
pub record Download : Type 0 where
  pub offset : ℕ
  pub normalized_path : Text
  pub downloaded_bytes : ℕ
  pub total_size : ℕ
  pub remaining : ℕ

abbrev pub start : DownloadFileQuery → Download
start q = record {
  offset = q.offset;
  normalized_path = [];
  downloaded_bytes = 0;
  total_size = 0;
  remaining = q.limit;
}

abbrev pub chunk_limit : Download → ℕ
chunk_limit d =
    if ltb 0 d.remaining && ltb d.remaining download_chunk_size
    then d.remaining
    else download_chunk_size

-- The path and the size that the answer shows.
unfoldable pub seen_chunk : Text → ReadFileChunkResult → Download → Download
seen_chunk path k d = record d {
  normalized_path = if is_empty d.normalized_path then or_path k.path path else d.normalized_path;
  total_size = if ltb 0 k.total_size then k.total_size else d.total_size;
}

abbrev pub write_bytes : Bytes → Download → Bytes
write_bytes chunk d =
    if ltb 0 d.remaining && ltb d.remaining (length chunk) then take d.remaining chunk else chunk

-- The counters after a write.
unfoldable pub advance : ℕ → Download → Download
advance written d = record d {
  offset = add64 d.offset written;
  downloaded_bytes = add64 d.downloaded_bytes written;
  remaining = if ltb 0 d.remaining then d.remaining - written else d.remaining;
}

unfoldable pub round_end : DownloadFileQuery → ReadFileChunkResult → Download → Round Download
round_end q k d =
    if k.eof || (ltb 0 q.limit && d.remaining == 0)
    then finished d
    else if length k.chunk == 0
    then refused (wrap_file_error (text "core-agent returned empty chunk before EOF"))
    else again d

abbrev pub download_result : DownloadFileQuery → Download → DownloadFileResult
download_result q d = record {
  path = d.normalized_path;
  start_offset = q.offset;
  end_offset =
      if ltb 0 d.downloaded_bytes then add64 q.offset (d.downloaded_bytes - 1) else q.offset;
  total_size = if d.total_size == 0 then d.offset else d.total_size;
  downloaded_bytes = d.downloaded_bytes;
}

module _ {S : Type 0} (c : AgentClient S) (write : Bytes → Program S (Result (Unit {0})))
    (q : DownloadFileQuery) (path : Text) where
  unfoldable pub write_part : ReadFileChunkResult → Download → Program S (Round Download)
  unfolding advance round_end
  write_part k d = if length k.chunk == 0 then return (round_end q k d) else do
    r ← write (write_bytes k.chunk d)
    elim r [
      | err x ↦ return (refused (wrap (new 1000 500 (text "stream write failed")) x))
      | ok done ↦ return (round_end q k (advance (length (write_bytes k.chunk d)) d))
    ]

  unfoldable pub take_chunk : ReadFileChunkResult → Download → Program S (Round Download)
  unfolding write_part seen_chunk
  take_chunk k d =
      if not (k.offset == d.offset)
      then return (
          refused (
            wrap_file_error
              (got_want c.decimal (text "unexpected chunk offset") k.offset d.offset)))
      else write_part k (seen_chunk path k d)

  unfoldable pub download_round : Download → Program S (Round Download)
  unfolding take_chunk
  download_round d = if d.remaining == 0 && ltb 0 q.limit then return (finished d) else do
    r ← c.read_file_chunk (record { path = path; offset = d.offset; limit = chunk_limit d })
    elim r [ err x ↦ return (refused (map_agent_error x)) | ok k ↦ take_chunk k d ]

  -- Nothing, if the fuel does not suffice.
  unfoldable pub download_loop : ℕ → Download → Program S (Option (Result DownloadFileResult))
  unfolding download_round
  download_loop zero d = return none
  download_loop (suc fuel) d = do
    r ← download_round d
    elim r [
      | refused x ↦ return (some (err x))
      | finished last ↦ return (some (ok (download_result q last)))
      | again next ↦ download_loop fuel next
    ]

-- `DownloadFile`; a missing writer is `nil`.
unfoldable pub download_file :
    {S : Type 0}
    → AgentClient S
    → ℕ
    → DownloadFileQuery
    → Option (Bytes → Program S (Result (Unit {0})))
    → Program S (Option (Result DownloadFileResult))
unfolding download_loop
download_file c fuel q writer =
    let path = trim_space q.path in
    if is_empty path
    then return (some (err (refuse_file (text "path is required"))))
    else elim writer [
      | none ↦ return (some (err (wrap_file_error (text "download writer is required"))))
      | some write ↦ download_loop c write q path fuel (start q)
    ]
