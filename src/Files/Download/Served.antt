-- ===== src/Files/Download/Served.antt =====
-- A core agent that serves a file, and what a query of `DownloadFile` of
-- backend/internal/service/file_service.go asks it for.
use snow_panel.Prelude.{
  Text, ℕ, ◌+◌, ◌≤◌, ◌<◌, ◌≡◌, true, ◌++◌, take, drop, length, ◌==◌, if◌then◌else◌,
}
use snow_panel.Errors.{Result, ok}
use snow_panel.Program.{Program}
use snow_panel.Files.Agent.{Bytes, ReadFileChunkResult, AgentClient}
use snow_panel.Files.Download.{DownloadFileQuery}

-- The answer to a request for at most `n` bytes at `o`: some of the bytes there, and the end of the
-- file only with its last one.
pub record IsChunk (content : Bytes) (o n : ℕ) (k : ReadFileChunkResult) : Type 0 where
  pub place : k.offset ≡ o
  pub bytes : k.chunk ≡ take (length k.chunk) (drop o content)
  pub fits : o + length k.chunk ≤ length content
  pub limited : length k.chunk ≤ n
  pub size : k.total_size ≡ length content
  pub last : k.eof ≡ true → o + length k.chunk ≡ length content
  pub more : o < length content → 0 < length k.chunk
  pub at_end : o ≡ length content → k.eof ≡ true

-- An agent that serves a file as long as `At` holds of the state, and a writer that accepts all bytes.
pub record Serves {S : Type 0} (c : AgentClient S) (write : Bytes → Program S (Result (Unit {0})))
    (path : Text) (content : Bytes) (received : S → Bytes) (At : S → Type 0) : Type 0 where
  pub reads :
      (o n : ℕ) (w : S)
      → o ≤ length content
      → 0 < n
      → At w
      → (k : ReadFileChunkResult) × ((c.read_file_chunk
            (record { path = path; offset = o; limit = n })
            w).0
          ≡ ok k)
        × IsChunk content o n k
        × At (c.read_file_chunk (record { path = path; offset = o; limit = n }) w).1
        × (received (c.read_file_chunk (record { path = path; offset = o; limit = n }) w).1
            ≡ received w)
  pub writes :
      (b : Bytes) (w : S)
      → At w
      → ((write b w).0 ≡ ok tt) × At (write b w).1 × (received (write b w).1 ≡ received w ++ b)

-- The bytes that a query asks for.
abbrev pub wanted : DownloadFileQuery → Bytes → Bytes
wanted q content =
    if q.limit == 0 then drop q.offset content else take q.limit (drop q.offset content)
