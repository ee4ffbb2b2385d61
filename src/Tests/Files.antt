-- ===== src/Tests/Files.antt =====
-- The theorems on downloads and uploads, with a core agent that keeps one file and gives it byte by byte,
-- and a reader that gives a stream in pieces.
use snow_panel.Prelude.{
  ℕ, ◌+◌, ◌≤◌, ◌<◌, ◌≡◌, refl, inl, inr, false, if◌then◌else◌, Text, text, trim_space, is_empty,
  List, [], ◌∷◌, ◌++◌, take, drop, length, length-drop, All, leb, ltb, some, arith,
}
use snow_panel.Errors.{Result, ok}
use snow_panel.Program.{Program}
use snow_panel.Files.Agent.{
  Bytes, AgentClient, ReadFileChunkRequest, ReadFileChunkResult, WriteFileChunkRequest,
}
use snow_panel.Files.Download.{DownloadFileQuery, DownloadFileResult, download_file}
use snow_panel.Files.Download.Limited.{download_file_limited}
use snow_panel.Files.Download.Served.{IsChunk, Serves, wanted}
use snow_panel.Files.Download.Whole.{download_file_serves}
use snow_panel.Files.Upload.{
  ReadError, no_error, end_of_file, upload_chunk_size, UploadFileResult, upload_file,
}
use snow_panel.Files.Upload.Stored.{put, kept, Piece, Stores}
use snow_panel.Files.Upload.Whole.{upload_file_stores}
use snow_panel.Files.Answers.{AnswersErrors, file_errors_have_status}
use snow_panel.Files.RoundTrip.{upload_then_download}

-- The agent's file, what a client has received, and what it has not yet sent.
record Host : Type 0 where
  file : Bytes
  got : Bytes
  queue : List Bytes

abbrev next_byte : Bytes → ReadFileChunkRequest → ReadFileChunkResult
next_byte file q = record {
  path = q.path;
  offset = q.offset;
  chunk = take 1 (drop q.offset file);
  total_size = length file;
  eof = leb (length file) (q.offset + 1);
}

abbrev stored : Bytes → WriteFileChunkRequest → Bytes
stored file q = put q.offset q.chunk (if q.truncate then [] else file)

abbrev one_file : AgentClient Host
one_file = record {
  decimal = λ n. text "n";
  list_files = λ path w. (ok (record { current_path = path; entries = [] }), w);
  read_text_file = λ q w. (
    ok (record { path = q.path; content = []; size = 0; truncated = false; encoding = q.encoding }),
    w,
  );
  write_text_file = λ q w. (ok (record { path = q.path; written_bytes = 0 }), w);
  create_directory = λ path parents w. (ok path, w);
  delete_file = λ path recursive w. (ok path, w);
  rename_file = λ q w. (
    ok (record { source_path = q.source_path; target_path = q.target_path; moved_bytes = 0 }),
    w,
  );
  read_file_chunk = λ q w. (ok (next_byte w.file q), w);
  write_file_chunk = λ q w. (
    ok (record {
      path = q.path;
      offset = q.offset;
      written_bytes = length q.chunk;
      total_size = length (stored w.file q);
    }),
    record w { file = stored w.file q },
  );
}

abbrev accept : Bytes → Program Host (Result (Unit {0}))
accept b w = (ok tt, record w { got = w.got ++ b })

abbrev next_piece : Program Host (Bytes × ReadError)
next_piece w = elim (w.queue) [
  | [] ↦ (([], end_of_file), w)
  | b ∷ rest ↦ ((b, no_error), record w { queue = rest })
]

abbrev joined : List Bytes → Bytes
joined [] = []
joined (b ∷ rest) = b ++ joined rest

abbrev Fits : Host → Type 0
Fits w = All (λ b. length b ≤ upload_chunk_size) w.queue

take_one : (rest : Bytes) → take 1 rest ≡ take (length (take 1 rest)) rest
take_one [] = refl
take_one (x ∷ rest) = refl

length-take_one : (rest : Bytes) → length (take 1 rest) ≡ (if ltb 0 (length rest) then 1 else 0)
length-take_one [] = refl
length-take_one (x ∷ rest) = ground arith

next_byte-IsChunk :
    (path : Text) (file : Bytes) (o n : ℕ)
    → o ≤ length file
    → 0 < n
    → IsChunk file o n (next_byte file (record { path = path; offset = o; limit = n }))
next_byte-IsChunk path file o n h p =
    let one = length-take_one (drop o file) in
    let size = length-drop o file in
    record {
      place = refl;
      bytes = take_one (drop o file);
      fits = ground (arith, one, size, h);
      limited = ground (arith, one, size, h, p);
      size = refl;
      last = λ e. ground (arith, e, one, size, h);
      more = λ e. ground (arith, e, one, size, h);
      at_end = λ e. ground (arith, e);
    }

one_file-Serves :
    (path : Text) (file : Bytes)
    → Serves one_file accept path file (λ w. w.got) (λ w. Fits w × (w.file ≡ file))
one_file-Serves path file = record {
  reads = λ o n w h p (a, e). (
    next_byte w.file (record { path = path; offset = o; limit = n }),
    refl,
    rw e (next_byte-IsChunk path file o n h p),
    (a, e),
    refl,
  );
  writes = λ b w (a, e). (refl, (a, e), refl);
}

one_file-Stores :
    (path : Text)
    → Stores one_file next_piece path (λ w. w.file) (λ w. joined w.queue) (λ w. length w.queue) Fits
one_file-Stores path = record {
  writes = λ o b t w a h k e. (
    record {
      path = path;
      offset = o;
      written_bytes = length b;
      total_size = length (put o b (if t then [] else w.file));
    },
    refl,
    record { place = refl; all = refl; content = refl },
    a,
    refl,
    refl,
  );
  reads = λ w a. from_queue w.file w.got w.queue a;
}
  where
    from_queue :
        (file got : Bytes) (queue : List Bytes)
        → (let w : Host = record { file = file; got = got; queue = queue } in
            Fits w
            → (length (next_piece w).0.0 ≤ upload_chunk_size)
              × Piece
                  (next_piece w).0.0
                  (next_piece w).0.1
                  (joined queue)
                  (joined (next_piece w).1.queue)
                  (length queue)
                  (length (next_piece w).1.queue)
              × Fits (next_piece w).1
              × ((next_piece w).1.file ≡ file))
    from_queue file got [] a = (omega arith, inr (refl, refl), a, refl)
    from_queue file got (b ∷ rest) a = (a.0, inl (refl, refl, omega arith), a.1, refl)

abbrev host : Host
host = record { file = 7 ∷ 8 ∷ 9 ∷ []; got = []; queue = (1 ∷ 2 ∷ []) ∷ (3 ∷ []) ∷ [] }

abbrev some_bytes : DownloadFileQuery
some_bytes = record { path = text "/f"; offset = 1; limit = 1 }

named : is_empty (trim_space (text "/f")) ≡ false
unfolding text trim_space
named = refl

host-Fits : Fits host
host-Fits = (omega arith, (omega arith, tt))

download_file_limited_example :
    (r : Result DownloadFileResult) × ((download_file one_file 1 some_bytes (some accept) host).0
      ≡ some r)
    × ((a : DownloadFileResult) → r ≡ ok a → a.downloaded_bytes ≤ 1)
download_file_limited_example =
    download_file_limited one_file some_bytes accept host 1 (omega arith) (omega arith)
      (omega arith)

download_file_serves_example :
    (a : DownloadFileResult) × ((download_file one_file 4 some_bytes (some accept) host).0
      ≡ some (ok a))
    × ((download_file one_file 4 some_bytes (some accept) host).1.got
        ≡ [] ++ wanted some_bytes (7 ∷ 8 ∷ 9 ∷ []))
    × (a.downloaded_bytes ≡ length (wanted some_bytes (7 ∷ 8 ∷ 9 ∷ [])))
    × (a.total_size ≡ 3)
download_file_serves_example =
    download_file_serves one_file accept some_bytes (7 ∷ 8 ∷ 9 ∷ []) (λ w. w.got)
      (λ w. Fits w × (w.file ≡ 7 ∷ 8 ∷ 9 ∷ [])) host 4
      (one_file-Serves (trim_space (text "/f")) (7 ∷ 8 ∷ 9 ∷ [])) (host-Fits, refl) named
      (omega arith) (omega arith) (omega arith)

upload_file_stores_example :
    (a : UploadFileResult) × ((upload_file one_file 3
        (record { path = text "/f"; offset = 2 })
        (some next_piece)
        host).0
      ≡ some (ok a))
    × (a.uploaded_bytes ≡ 5)
    × ((upload_file one_file 3
          (record { path = text "/f"; offset = 2 })
          (some next_piece)
          host).1.file
        ≡ put 2 (1 ∷ 2 ∷ 3 ∷ []) (kept 2 (7 ∷ 8 ∷ 9 ∷ [])))
    × Fits
        (upload_file one_file 3 (record { path = text "/f"; offset = 2 }) (some next_piece) host).1
upload_file_stores_example =
    upload_file_stores one_file next_piece (record { path = text "/f"; offset = 2 }) (λ w. w.file)
      (λ w. joined w.queue) (λ w. length w.queue) Fits host 3
      (one_file-Stores (trim_space (text "/f"))) host-Fits named (omega arith) (omega arith)
      (omega arith)

upload_then_download_example :
    let u =
      (upload_file one_file 4 (record { path = text "/f"; offset = 0 }) (some next_piece) host).0 in
    let v =
      (upload_file one_file 4 (record { path = text "/f"; offset = 0 }) (some next_piece) host).1 in
    (x : UploadFileResult) × (u ≡ some (ok x))
    × (a : DownloadFileResult) × ((download_file one_file 4
          (record { path = text "/f"; offset = 0; limit = 0 })
          (some accept)
          v).0
        ≡ some (ok a))
    × ((download_file one_file 4
          (record { path = text "/f"; offset = 0; limit = 0 })
          (some accept)
          v).1.got
        ≡ v.got ++ (1 ∷ 2 ∷ 3 ∷ []))
upload_then_download_example =
    upload_then_download one_file next_piece accept (text "/f") (λ w. w.file) (λ w. joined w.queue)
      (λ w. w.got) (λ w. length w.queue) Fits host 4 (one_file-Stores (trim_space (text "/f")))
      (one_file-Serves (trim_space (text "/f"))) host-Fits named (omega arith) (omega arith)
      (omega arith)

file_errors_have_status_example : AnswersErrors one_file
file_errors_have_status_example = file_errors_have_status one_file
