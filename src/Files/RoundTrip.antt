-- ===== src/Files/RoundTrip.antt =====
-- An upload and then a download: `UploadFile` and `DownloadFile` of
-- backend/internal/service/file_service.go.
use mathlib.Core.List.{append-nil}
use snow_panel.Prelude.{
  Text, ℕ, ◌+◌, ◌<◌, ◌^◌, ◌≡◌, false, some, ◌++◌, length, arith, ap, drop_nil, ◌∙◌, is_empty,
  trim_space,
}
use snow_panel.Errors.{Result, ok}
use snow_panel.Program.{Program}
use snow_panel.Files.Agent.{Bytes, AgentClient}
use snow_panel.Files.Download.{DownloadFileResult, download_file}
use snow_panel.Files.Download.Served.{Serves}
use snow_panel.Files.Download.Whole.{download_file_serves}
use snow_panel.Files.Upload.{ReadError, UploadFileResult, upload_file}
use snow_panel.Files.Upload.Stored.{Stores}
use snow_panel.Files.Upload.Whole.{upload_file_stores}

-- An upload from the beginning of a file succeeds, and a download of the whole file after it succeeds and
-- gives exactly the bytes of the upload. This holds when the agent stores what it is sent and serves what
-- is in the file, the reader and the writer do not fail, the path is not empty, and there are more rounds
-- than pieces and than bytes.
pub upload_then_download :
    {S : Type 0} (c : AgentClient S) (read : Program S (Bytes × ReadError))
    (write : Bytes → Program S (Result (Unit {0}))) (path : Text)
    (content unread received : S → Bytes) (pieces : S → ℕ) (At : S → Type 0) (w : S) (fuel : ℕ)
    → Stores c read (trim_space path) content unread pieces At
    → ((file : Bytes)
        → Serves c write (trim_space path) file received (λ v. At v × (content v ≡ file)))
    → At w
    → is_empty (trim_space path) ≡ false
    → length (unread w) < 2 ^ 64
    → pieces w < fuel
    → length (unread w) < fuel
    → let u = (upload_file c fuel (record { path = path; offset = 0 }) (some read) w).0 in
      let v = (upload_file c fuel (record { path = path; offset = 0 }) (some read) w).1 in
      (x : UploadFileResult) × (u ≡ some (ok x))
      × (a : DownloadFileResult) × ((download_file c fuel
            (record { path = path; offset = 0; limit = 0 })
            (some write)
            v).0
          ≡ some (ok a))
      × (received
            (download_file c fuel (record { path = path; offset = 0; limit = 0 }) (some write) v).1
          ≡ received v ++ unread w)
upload_then_download c read write path content unread received pieces At w fuel stores serves a
      named small enough long =
    let (x, e, n, s, b) =
      upload_file_stores c read (record { path = path; offset = 0 }) content unread pieces At w fuel
        stores a named (omega arith) (omega (arith, small)) enough in
    let whole : content (upload_file c fuel (record { path = path; offset = 0 }) (some read) w).1
        ≡ unread w =
      s ∙ ap (λ l. unread w ++ l) (drop_nil (0 + length (unread w))) ∙ append-nil (unread w) in
    let (y, f, g, h, i) =
      download_file_serves c write (record { path = path; offset = 0; limit = 0 }) (unread w)
        received (λ v. At v × (content v ≡ unread w)) _ fuel (serves (unread w)) (b, whole) named
        (omega arith) small long in
    (x, e, y, f, g)
