-- ===== src/Files/Upload.antt =====
-- `UploadFile` of backend/internal/service/file_service.go. A round of its loop is a function, and the
-- loop takes as many rounds as it has fuel for.
pub mod Stored
mod Progress
mod Sending
pub mod Whole
use snow_panel.Prelude.{
  ℕ, zero, suc, ◌*◌, Text, text, trim_space, is_empty, Bool, true, false, ◌&&◌, not, Option, none,
  some, [], ◌∷◌, length, ltb, ◌==◌, ◌++◌, if◌then◌else◌,
}
use snow_panel.Errors.{GoError, wrap, new, Result, ok, err}
use snow_panel.Errors.Agent.{map_agent_error}
use snow_panel.Program.{Program}
unfoldable pub use snow_panel.Program.{◌>>=◌, return}
use snow_panel.Files.Rounds.{Round, refused, finished, again}
use snow_panel.Files.Agent.{
  Bytes, add64, WriteFileChunkRequest, WriteFileChunkResult, AgentClient, refuse_file,
  wrap_file_error, got_want,
}

pub record UploadFileRequest : Type 0 where
  pub path : Text
  pub offset : ℕ

pub record UploadFileResult : Type 0 where
  pub path : Text
  pub uploaded_bytes : ℕ
  pub total_size : ℕ

abbrev pub upload_chunk_size : ℕ
upload_chunk_size = 256 * 1024

-- What `readChunk` gives beside the bytes that it has put into the buffer: nil, `io.EOF` or another
-- error. The number of the bytes is never negative.
pub data ReadError : Type 0 where
  no_error : ReadError
  end_of_file : ReadError
  read_failed : GoError → ReadError

-- The variables of the loop.
pub record Upload : Type 0 where
  pub offset : ℕ
  pub normalized_path : Text
  pub total_size : ℕ
  pub wrote_chunk : Bool

abbrev pub upload_start : UploadFileRequest → Upload
upload_start q = record {
  offset = q.offset;
  normalized_path = [];
  total_size = 0;
  wrote_chunk = false;
}

-- The variables after a chunk.
unfoldable pub wrote : ℕ → WriteFileChunkResult → Upload → Upload
wrote n r u = record {
  offset = add64 u.offset n;
  normalized_path = if is_empty u.normalized_path then trim_space r.path else u.normalized_path;
  total_size = r.total_size;
  wrote_chunk = true;
}

abbrev pub read_end : Bool → Upload → Round Upload
read_end at_end u = if at_end then finished u else again u

abbrev pub upload_result : Text → Upload → UploadFileResult
upload_result path u = record {
  path = if is_empty u.normalized_path then path else u.normalized_path;
  uploaded_bytes = u.offset;
  total_size = if u.total_size == 0 then u.offset else u.total_size;
}

module _ {S : Type 0} (c : AgentClient S) (read : Program S (Bytes × ReadError))
    (q : UploadFileRequest) (path : Text) where
  -- The part of a round after the reading.
  unfoldable pub send_chunk : Bytes → Bool → Upload → Program S (Round Upload)
  unfolding wrote
  send_chunk chunk at_end u =
      if ltb upload_chunk_size (length chunk)
      then return (
          refused
            (wrap_file_error (text "invalid stream chunk length: " ++ c.decimal (length chunk))))
      else if length chunk == 0
      then return (read_end at_end u)
      else do
        r ← c.write_file_chunk (record {
          path = path;
          offset = u.offset;
          chunk = chunk;
          create_if_not_exists = true;
          truncate = u.offset == 0 && not u.wrote_chunk;
        })
        elim r [
          | err x ↦ return (refused (map_agent_error x))
          | ok k ↦
              if not (k.offset == u.offset)
              then return (
                  refused (
                    wrap_file_error
                      (got_want c.decimal (text "unexpected write offset") k.offset u.offset)))
              else if not (k.written_bytes == length chunk)
              then return (
                  refused (
                    wrap_file_error (
                      got_want c.decimal (text "unexpected written bytes") k.written_bytes
                        (length chunk))))
              else return (read_end at_end (wrote (length chunk) k u))
        ]

  unfoldable pub after_read : Bytes → ReadError → Upload → Program S (Round Upload)
  unfolding send_chunk
  after_read chunk no_error u = send_chunk chunk false u
  after_read chunk end_of_file u = send_chunk chunk true u
  after_read chunk (read_failed x) u =
      return (refused (wrap (new 1000 500 (text "stream read failed")) x))

  unfoldable pub upload_round : Upload → Program S (Round Upload)
  unfolding after_read
  upload_round u = do (chunk, e) ← read; after_read chunk e u

  -- An empty stream makes an empty file.
  unfoldable pub upload_end : Upload → Program S (Result UploadFileResult)
  upload_end u =
      if not u.wrote_chunk && q.offset == 0
      then (do
        r ← c.write_file_chunk (record {
          path = path;
          offset = 0;
          chunk = [];
          create_if_not_exists = true;
          truncate = true;
        })
        elim r [
          | err x ↦ return (err (map_agent_error x))
          | ok k ↦ return (
              ok (
                upload_result path (record u {
                  total_size = k.total_size;
                  normalized_path =
                      if is_empty u.normalized_path then trim_space k.path else u.normalized_path;
                })))
        ])
      else return (ok (upload_result path u))

  -- Nothing, if the fuel does not suffice.
  unfoldable pub upload_loop : ℕ → Upload → Program S (Option (Result UploadFileResult))
  unfolding upload_round upload_end
  upload_loop zero u = return none
  upload_loop (suc fuel) u = do
    r ← upload_round u
    elim r [
      | refused x ↦ return (some (err x))
      | finished last ↦ do a ← upload_end last; return (some a)
      | again next ↦ upload_loop fuel next
    ]

-- `UploadFile`; a missing reader is `nil`.
unfoldable pub upload_file :
    {S : Type 0}
    → AgentClient S
    → ℕ
    → UploadFileRequest
    → Option (Program S (Bytes × ReadError))
    → Program S (Option (Result UploadFileResult))
unfolding upload_loop
upload_file c fuel q reader =
    let path = trim_space q.path in
    if is_empty path
    then return (some (err (refuse_file (text "path is required"))))
    else elim reader [
      | none ↦ return (some (err (wrap_file_error (text "upload reader is required"))))
      | some read ↦ upload_loop c read q path fuel (upload_start q)
    ]
