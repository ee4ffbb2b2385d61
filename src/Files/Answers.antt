-- ===== src/Files/Answers.antt =====
-- The errors of backend/internal/service/file_service.go as the handlers answer them.
use snow_panel.Prelude.{
  ℕ, zero, suc, Text, trim_space, text_eq, is_empty, ◌==◌, ◌&&◌, ◌||◌, not, ltb, length, ◌≡◌, refl,
  Bool, Option, none, some, true, false, Option-cases, Bool-cases, inl, inr,
}
use snow_panel.Errors.{AppError, GoError, wrap, Result, ok, err, as_app, as_agent}
use snow_panel.Errors.Agent.{map_agent_error}
use snow_panel.Program.{Program, ◌>>=◌, return}
use snow_panel.Program.Hoare.{Does, bind-Does, return-Does, if-Does, any-Does, result-Does}
use snow_panel.Files.Agent.{
  Bytes, AgentClient, ReadTextFileRequest, WriteTextFileRequest, RenameFileRequest,
  ReadFileChunkResult,
}
use snow_panel.Files.Rounds.{Round, refused, finished, again, round-Does}
use snow_panel.Files.Service.{
  or_agent, list_files, read_text_file, write_text_file, create_directory, delete_file, rename_file,
}
use snow_panel.Files.Download.{
  DownloadFileQuery, Download, round_end, write_part, take_chunk, seen_chunk, download_round,
  download_loop, download_file, start,
}
use snow_panel.Files.Upload.{
  UploadFileRequest, ReadError, no_error, end_of_file, read_failed, Upload, send_chunk, read_end,
  after_read, upload_round, upload_end, upload_loop, upload_file, upload_start,
}

-- An error has a code and an HTTP status of its own, so that the handlers do not answer it as unknown.
abbrev pub HasStatus : GoError → Type 0
HasStatus x = (a : AppError) × (as_app x ≡ some a)

abbrev pub Answered : {R : Type 0} → Result R → Type 0
Answered (err x) = HasStatus x
Answered (ok a) = Unit

abbrev pub AnsweredIn : {R : Type 0} → Option (Result R) → Type 0
AnsweredIn none = Unit
AnsweredIn (some r) = Answered r

abbrev Told : {T : Type 0} → Round T → Type 0
Told (refused x) = HasStatus x
Told (finished t) = Unit
Told (again t) = Unit

map_agent_error-HasStatus : (x : GoError) → HasStatus (map_agent_error x)
unfolding map_agent_error as_app
map_agent_error-HasStatus x = elim (Option-cases (as_agent x)) [
  | inl e ↦ rw (map_agent_error, e) (_, refl)
  | inr (a, e) ↦ rw (map_agent_error, e) (_, refl)
]

-- From any state, the errors that a method gives have a status.
abbrev pub Answers : {S R : Type 0} → Program S (Result R) → Type 0
Answers m = Does (λ _. Unit) m (λ r _. Answered r)

gives-Answers : {S R : Type 0} (a : R) → Answers {S = S} (return (ok a))
gives-Answers a = return-Does _ (λ w u. tt)

or_agent-Answers :
    {S R T : Type 0} (m : Program S (Result R)) (f : R → Program S (Result T))
    → ((a : R) → Answers (f a))
    → Answers (or_agent m f)
unfolding or_agent
or_agent-Answers m f h = bind-Does any-Does λ r.
    result-Does r (λ x e. return-Does _ (λ w u. map_agent_error-HasStatus x))
      λ a e. record { at = λ w u. (h a).at w tt }

refusal_of :
    {S R : Type 0} (a : AppError) (x : GoError) → Answers {S = S} {R = R} (return (err (wrap a x)))
unfolding as_app
refusal_of a x = return-Does _ (λ w u. (a, refl))

round_refusal :
    {S T : Type 0} (a : AppError) (x : GoError)
    → Does {W = S} {A = Round T} (λ _. Unit) (return (refused (wrap a x))) (λ r _. Told r)
unfolding as_app
round_refusal a x = return-Does _ (λ w u. (a, refl))

module _ {S : Type 0} (c : AgentClient S) where
  rename_file-Answers : (q : RenameFileRequest) → Answers (rename_file c q)
  unfolding rename_file as_app
  rename_file-Answers q =
      let source = trim_space q.source_path in
      let target = trim_space q.target_path in
      if-Does (is_empty source || is_empty target) (refusal_of _ _) (
        if-Does (text_eq source target) (refusal_of _ _) (
          or_agent-Answers (c.rename_file (record { source_path = source; target_path = target })) _
            (λ r. gives-Answers _)))

  module _ (write : Bytes → Program S (Result (Unit {0}))) (q : DownloadFileQuery)
      (path : Text) where
    abbrev Tells : {T : Type 0} → Program S (Round T) → Type 0
    Tells m = Does (λ _. Unit) m (λ r _. Told r)

    round_end-Told : (k : ReadFileChunkResult) (d : Download) → Told (round_end q k d)
    unfolding round_end as_app
    round_end-Told k d = elim (Bool-cases (k.eof || (ltb 0 q.limit && d.remaining == 0))) [
      | inl e ↦ rw e tt
      | inr e ↦
          rw e
            (elim (Bool-cases (length k.chunk == 0)) [ inl f ↦ rw f (_, refl) | inr f ↦ rw f tt ])
    ]

    write_part-Told :
        (k : ReadFileChunkResult) (d : Download) → Tells (write_part c write q path k d)
    unfolding write_part as_app
    write_part-Told k d = if-Does _ (return-Does _ (λ w u. round_end-Told k d)) (
        bind-Does any-Does λ r.
          result-Does r (λ x e. round_refusal _ _)
            (λ a e. return-Does _ (λ w u. round_end-Told k _)))

    take_chunk-Told :
        (k : ReadFileChunkResult) (d : Download) → Tells (take_chunk c write q path k d)
    unfolding take_chunk
    take_chunk-Told k d =
        if-Does (not (k.offset == d.offset)) (round_refusal _ _)
          (write_part-Told k (seen_chunk path k d))

    download_round-Told : (d : Download) → Tells (download_round c write q path d)
    unfolding download_round
    download_round-Told d = if-Does _ (return-Does _ (λ w u. tt)) (
        bind-Does any-Does λ r.
          result-Does r (λ x e. return-Does _ (λ w u. map_agent_error-HasStatus x))
            (λ k e. record { at = λ w u. (take_chunk-Told k d).at w tt }))

    download_loop-Answers :
        (fuel : ℕ) (d : Download)
        → Does (λ _. Unit) (download_loop c write q path fuel d) (λ r _. AnsweredIn r)
    unfolding download_loop
    download_loop-Answers zero d = return-Does _ (λ w u. tt)
    download_loop-Answers (suc fuel) d = bind-Does (download_round-Told d) λ r.
        round-Does r (λ x e. return-Does _ (λ w u. rw e at u)) (λ last e. return-Does _ (λ w u. tt))
          (λ next e. record { at = λ w u. (download_loop-Answers fuel next).at w tt })

  module _ (read : Program S (Bytes × ReadError)) (q : UploadFileRequest) (path : Text) where
    read_end-Told : (at_end : Bool) (u : Upload) → Told (read_end at_end u)
    read_end-Told true u = tt
    read_end-Told false u = tt

    send_chunk-Told :
        (b : Bytes) (at_end : Bool) (u : Upload)
        → Does (λ _. Unit) (send_chunk c read q path b at_end u) (λ r _. Told r)
    unfolding send_chunk as_app
    send_chunk-Told b at_end u = if-Does _ (round_refusal _ _) (
        if-Does _ (return-Does _ (λ w h. read_end-Told at_end u)) (
          bind-Does any-Does λ r.
            result-Does r (λ x e. return-Does _ (λ w h. map_agent_error-HasStatus x))
              (λ k e. if-Does (not (k.offset == u.offset)) (round_refusal _ _) (
                if-Does (not (k.written_bytes == length b)) (round_refusal _ _)
                  (return-Does _ (λ w h. read_end-Told at_end _))))))

    after_read-Told :
        (b : Bytes) (e : ReadError) (u : Upload)
        → Does (λ _. Unit) (after_read c read q path b e u) (λ r _. Told r)
    unfolding after_read as_app
    after_read-Told b no_error u = send_chunk-Told b false u
    after_read-Told b end_of_file u = send_chunk-Told b true u
    after_read-Told b (read_failed x) u = round_refusal _ _

    upload_end-Answers : (u : Upload) → Answers (upload_end c read q path u)
    unfolding upload_end
    upload_end-Answers u =
        if-Does _
          (bind-Does any-Does λ r.
            result-Does r (λ x e. return-Does _ (λ w h. map_agent_error-HasStatus x))
              (λ k e. return-Does _ (λ w h. tt)))
          (gives-Answers _)

    finish-Answers :
        (u : Upload)
        → Does
            (λ _. Unit)
            (upload_end c read q path u >>= λ a. return (some a))
            (λ r _. AnsweredIn r)
    finish-Answers u = bind-Does (upload_end-Answers u) (λ a. return-Does _ (λ w h. h))

    upload_loop-Answers :
        (fuel : ℕ) (u : Upload)
        → Does (λ _. Unit) (upload_loop c read q path fuel u) (λ r _. AnsweredIn r)
    unfolding upload_loop upload_round
    upload_loop-Answers zero u = return-Does _ (λ w h. tt)
    upload_loop-Answers (suc fuel) u =
        bind-Does (bind-Does {Q = λ _ _. Unit} any-Does λ p. after_read-Told p.0 p.1 u) λ r.
          round-Does r (λ x e. return-Does _ (λ w h. rw e at h))
            (λ last e. record { at = λ w h. (finish-Answers last).at w tt })
            (λ next e. record { at = λ w h. (upload_loop-Answers fuel next).at w tt })

  refusal_in :
      {R : Type 0} (a : AppError) (x : GoError)
      → Does {W = S} {A = Option (Result R)}
          (λ _. Unit)
          (return (some (err (wrap a x))))
          (λ r _. AnsweredIn r)
  unfolding as_app
  refusal_in a x = return-Does _ (λ w u. (a, refl))

  download_file-Answers :
      (fuel : ℕ) (q : DownloadFileQuery) (writer : Option (Bytes → Program S (Result (Unit {0}))))
      → Does (λ _. Unit) (download_file c fuel q writer) (λ r _. AnsweredIn r)
  unfolding download_file
  download_file-Answers fuel q none =
      if-Does (is_empty (trim_space q.path)) (refusal_in _ _) (refusal_in _ _)
  download_file-Answers fuel q (some write) =
      if-Does (is_empty (trim_space q.path)) (refusal_in _ _)
        (download_loop-Answers write q (trim_space q.path) fuel (start q))

  upload_file-Answers :
      (fuel : ℕ) (q : UploadFileRequest) (reader : Option (Program S (Bytes × ReadError)))
      → Does (λ _. Unit) (upload_file c fuel q reader) (λ r _. AnsweredIn r)
  unfolding upload_file
  upload_file-Answers fuel q none =
      if-Does (is_empty (trim_space q.path)) (refusal_in _ _) (refusal_in _ _)
  upload_file-Answers fuel q (some read) =
      if-Does (is_empty (trim_space q.path)) (refusal_in _ _)
        (upload_loop-Answers read q (trim_space q.path) fuel (upload_start q))

-- Each error of each method has a status.
abbrev pub AnswersErrors : {S : Type 0} → AgentClient S → Type 0
AnswersErrors {S = S} c =
    ((path : Text) → Answers (list_files c path))
    × ((q : ReadTextFileRequest) → Answers (read_text_file c q))
    × ((q : WriteTextFileRequest) → Answers (write_text_file c q))
    × ((path : Text) (parents : Bool) → Answers (create_directory c path parents))
    × ((path : Text) (recursive : Bool) → Answers (delete_file c path recursive))
    × ((q : RenameFileRequest) → Answers (rename_file c q))
    × ((fuel : ℕ) (q : DownloadFileQuery) (writer : Option (Bytes → Program S (Result (Unit {0}))))
        → Does (λ _. Unit) (download_file c fuel q writer) (λ r _. AnsweredIn r))
    × ((fuel : ℕ) (q : UploadFileRequest) (reader : Option (Program S (Bytes × ReadError)))
        → Does (λ _. Unit) (upload_file c fuel q reader) (λ r _. AnsweredIn r))

-- Whatever the core agent, the reader and the writer of a stream do, each error that a method of
-- FileService gives has a code and an HTTP status for the response.
pub file_errors_have_status : {S : Type 0} (c : AgentClient S) → AnswersErrors c
unfolding list_files read_text_file write_text_file create_directory delete_file
file_errors_have_status c = (
  λ path. or_agent-Answers (c.list_files path) _ (λ r. gives-Answers _),
  λ q. or_agent-Answers (c.read_text_file q) _ (λ r. gives-Answers _),
  λ q. or_agent-Answers (c.write_text_file q) _ (λ r. gives-Answers _),
  λ path parents. or_agent-Answers (c.create_directory path parents) _ gives-Answers,
  λ path recursive. or_agent-Answers (c.delete_file path recursive) _ gives-Answers,
  rename_file-Answers c,
  download_file-Answers c,
  upload_file-Answers c,
)
