-- ===== src/Files/Upload/Whole.antt =====
-- What an upload leaves, and that a download gives it back: `UploadFile` and `DownloadFile` of
-- backend/internal/service/file_service.go.
use mathlib.Core.List.{append-nil}
use snow_panel.Prelude.{
  Text, ℕ, zero, suc, ◌+◌, ◌≤◌, ◌<◌, ◌^◌, ◌≡◌, refl, inl, inr, Bool, true, false, Bool-cases, not,
  ◌&&◌, Option, some, [], length, arith, ap, ap₂, if◌then◌else◌, sym, ◌∙◌, ◌==◌, is_empty,
  trim_space,
}
use snow_panel.Errors.{Result, ok}
use snow_panel.Program.{Program, ◌>>=◌, return}
use snow_panel.Program.Hoare.{Does, bind-Does, return-Does, split-Does}
use snow_panel.Files.Agent.{Bytes, WriteFileChunkResult, AgentClient}
use snow_panel.Files.Upload.{
  ReadError, UploadFileRequest, UploadFileResult, Upload, upload_end, upload_loop, upload_file,
  upload_start, upload_result,
}
use snow_panel.Files.Upload.Stored.{put, kept, put_nothing, Stores}
use snow_panel.Files.Upload.Sending.{Ready, upload_round-Outcome}
use snow_panel.Files.Rounds.{round-Does}
use snow_panel.Files.Upload.Progress.{Progress}

both_true : (a : Bool) (n : ℕ) → (not a && n == 0) ≡ true → (a ≡ false) × (n ≡ 0)
both_true true n h = cc
both_true false n h = (refl, ground (arith, h))

module _ {S : Type 0} (c : AgentClient S) (read : Program S (Bytes × ReadError))
    (q : UploadFileRequest) (path : Text) (content unread : S → Bytes) (pieces : S → ℕ)
    (At : S → Type 0) (stores : Stores c read path content unread pieces At) (stream old : Bytes)
    (inside : q.offset ≤ length old) (small : q.offset + length stream < 2 ^ 64) where
  -- The stream is in the file, and the answer counts it.
  abbrev Stored : UploadFileResult → S → Type 0
  Stored a w =
      (a.uploaded_bytes ≡ q.offset + length stream)
      × (content w ≡ put q.offset stream (kept q.offset old))
      × At w

  abbrev Arrived : Option (Result UploadFileResult) → S → Type 0
  Arrived o w = (a : UploadFileResult) × (o ≡ some (ok a)) × Stored a w

  finish : Upload → Program S (Option (Result UploadFileResult))
  finish u = upload_end c read q path u >>= λ a. return (some a)

  all_done : (u : Upload) (file : Bytes) (p : Progress q stream old u [] file) → stream ≡ p.done
  all_done u file p = p.split ∙ append-nil p.done

  -- Nothing has been written, and nothing was to be.
  empty_file :
      (u : Upload) (file new : Bytes)
      → Progress q stream old u [] file
      → (not u.wrote_chunk && q.offset == 0) ≡ true
      → new ≡ put 0 [] []
      → (u.offset ≡ q.offset + length stream) × (new ≡ put q.offset stream (kept q.offset old))
  empty_file u file new p e n =
      let (unsent, start) = both_true (u.wrote_chunk) q.offset e in
      let nothing : stream ≡ [] = all_done u file p ∙ (p.unwritten unsent).0 in
      (
        p.offset ∙ ap (λ d. q.offset + length d) (sym (all_done u file p)),
        n ∙ ap₂ (λ o s. put o s (kept o old)) (sym start) (sym nothing),
      )

  written_file :
      (u : Upload) (file : Bytes)
      → Progress q stream old u [] file
      → (not u.wrote_chunk && q.offset == 0) ≡ false
      → (u.offset ≡ q.offset + length stream) × (file ≡ put q.offset stream (kept q.offset old))
  written_file u file p e = (
    p.offset ∙ ap (λ d. q.offset + length d) (sym (all_done u file p)),
    rw (all_done u file p) (elim (Bool-cases u.wrote_chunk) [
      | inl f ↦ p.written f
      | inr f ↦
          let (nothing, same) = p.unwritten f in
          let behind : (q.offset == 0) ≡ false = rw f at e in
          rw (nothing, behind) (same ∙ sym (put_nothing q.offset old))
    ]),
  )

  upload_end-Stored :
      (u : Upload)
      → Does
          (λ w. At w × Progress q stream old u [] (content w))
          (upload_end c read q path u)
          (λ r w. (a : UploadFileResult) × (r ≡ ok a) × Stored a w)
  unfolding upload_end return
  upload_end-Stored u =
      split-Does (not u.wrote_chunk && q.offset == 0)
        (λ e.
          bind-Does
            {Q = λ r w.
              (k : WriteFileChunkResult) × (r ≡ ok k)
              × (u.offset ≡ q.offset + length stream)
              × (content w ≡ put q.offset stream (kept q.offset old))
              × At w}
            (record {
              at = λ w (a, p).
                  let (k, answered, i, a', same, left) =
                    stores.writes 0 [] true w a (omega arith) (omega arith) (λ t. refl) in
                  let (counted, kept_all) = empty_file u (content w) _ p e i.content in
                  (k, answered, counted, kept_all, a');
            })
            λ r. record {
              at = λ w (k, answered, counted, stored, a). rw answered (
                upload_result path (record u {
                  total_size = k.total_size;
                  normalized_path =
                      if is_empty u.normalized_path then trim_space k.path else u.normalized_path;
                }),
                refl,
                (counted, stored, a),
              );
            })
        (λ e. return-Does _ λ w (a, p).
          let (counted, kept_all) = written_file u (content w) p e in
          (upload_result path u, refl, (counted, kept_all, a)))

  finish-Arrived :
      (u : Upload) → Does (λ w. At w × Progress q stream old u [] (content w)) (finish u) Arrived
  unfolding finish
  finish-Arrived u =
      bind-Does (upload_end-Stored u) λ r. return-Does _ λ w (a, e, h). (a, ap some e, h)

  upload_loop-Arrived :
      (fuel : ℕ) (u : Upload)
      → Does
          (Ready c read q path content unread pieces At stores stream old inside small fuel u)
          (upload_loop c read q path fuel u)
          Arrived
  unfolding upload_loop finish
  upload_loop-Arrived zero u = record { at = λ w (a, p, few). absurd (omega (arith, few)) }
  upload_loop-Arrived (suc fuel) u =
      bind-Does
        (upload_round-Outcome c read q path content unread pieces At stores stream old inside small
          fuel u)
        λ r.
          round-Does r (λ x e. record { at = λ w h. absurd (rw e at h) })
            (λ last e. record { at = λ w h. (finish-Arrived last).at w (rw e at h) })
            (λ next e. record { at = λ w h. (upload_loop-Arrived fuel next).at w (rw e at h) })

-- UploadFile writes the whole stream into the file, at the offset of the request, and from the beginning
-- into an empty file; it counts the offset and the bytes of the stream. This holds when the agent stores
-- what it is sent, the path is not empty, the offset is inside the file, and the reader gives the stream
-- in fewer pieces than there are rounds.
pub upload_file_stores :
    {S : Type 0} (c : AgentClient S) (read : Program S (Bytes × ReadError)) (q : UploadFileRequest)
    (content unread : S → Bytes) (pieces : S → ℕ) (At : S → Type 0) (w : S) (fuel : ℕ)
    → Stores c read (trim_space q.path) content unread pieces At
    → At w
    → is_empty (trim_space q.path) ≡ false
    → q.offset ≤ length (content w)
    → q.offset + length (unread w) < 2 ^ 64
    → pieces w < fuel
    → (a : UploadFileResult) × ((upload_file c fuel q (some read) w).0 ≡ some (ok a))
      × (a.uploaded_bytes ≡ q.offset + length (unread w))
      × (content (upload_file c fuel q (some read) w).1
          ≡ put q.offset (unread w) (kept q.offset (content w)))
      × At (upload_file c fuel q (some read) w).1
unfolding upload_file
upload_file_stores c read q content unread pieces At w fuel stores a named inside small enough =
    let begun : Progress q (unread w) (content w) (upload_start q) (unread w) (content w) = record {
      done = [];
      offset = omega arith;
      split = refl;
      unwritten = λ e. (refl, refl);
      written = λ e. cc;
    } in
    let (x, e, (n, s, b)) =
      (upload_loop-Arrived c read q (trim_space q.path) content unread pieces At stores (unread w)
          (content w) inside small fuel (upload_start q)).at
        w (a, begun, enough) in
    rw named (x, e, n, s, b)
