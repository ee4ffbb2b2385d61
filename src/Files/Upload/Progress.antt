-- ===== src/Files/Upload/Progress.antt =====
-- What has been sent in a round of `UploadFile` of backend/internal/service/file_service.go, and what the
-- file has.
use mathlib.Core.List.{append_assoc}
use snow_panel.Prelude.{
  ◌+◌, ◌≤◌, ◌<◌, ◌^◌, ◌≡◌, refl, inl, inr, Bool, true, false, Bool-cases, not, ◌&&◌, [], ◌∷◌, ◌++◌,
  length, arith, ap, ap₂, length-append, if◌then◌else◌, sym, ◌∙◌, ◌==◌,
}
use snow_panel.Files.Agent.{Bytes, WriteFileChunkResult}
use snow_panel.Files.Upload.{UploadFileRequest, Upload, wrote}
use snow_panel.Files.Upload.Stored.{put, kept, put-put, length-put-le}

-- `done` has been sent of a stream that has `rest` left; `old` is what the file had before, and `file`
-- what it has now.
pub record Progress (q : UploadFileRequest) (stream old : Bytes) (u : Upload) (rest file : Bytes)
    : Type 0 where
  pub done : Bytes
  pub offset : u.offset ≡ q.offset + length done
  pub split : stream ≡ done ++ rest
  pub unwritten : u.wrote_chunk ≡ false → (done ≡ []) × (file ≡ old)
  pub written : u.wrote_chunk ≡ true → file ≡ put q.offset done (kept q.offset old)

and_false : (a : Bool) → (a && false) ≡ false
and_false true = refl
and_false false = refl

and_true : (a : Bool) → (a && true) ≡ a
and_true true = refl
and_true false = refl

pub skip_empty :
    (q : UploadFileRequest) (stream old : Bytes) (u : Upload) (b rest file : Bytes)
    → length b ≡ 0
    → Progress q stream old u (b ++ rest) file
    → Progress q stream old u rest file
skip_empty q stream old u [] rest file e h = h
skip_empty q stream old u (x ∷ b) rest file e h = absurd (omega (arith, e))

module _ (q : UploadFileRequest) (stream old : Bytes) (inside : q.offset ≤ length old)
    (small : q.offset + length stream < 2 ^ 64) where
  kept-le : q.offset ≤ length (kept q.offset old)
  kept-le = elim (Bool-cases (q.offset == 0)) [
    | inl e ↦ rw e (ground (arith, e))
    | inr e ↦ rw e inside
  ]

  pub offset-le :
      (u : Upload) (rest file : Bytes) → Progress q stream old u rest file → u.offset ≤ length file
  offset-le u rest file h = elim (Bool-cases u.wrote_chunk) [
    | inl e ↦ rw (h.written e, h.offset) (length-put-le q.offset h.done _ kept-le)
    | inr e ↦
        let (none_done, same) = h.unwritten e in
        rw (same, h.offset, none_done) (omega (arith, inside))
  ]

  -- The file after one more chunk.
  next_file :
      (u : Upload) (rest file b : Bytes) (h : Progress q stream old u rest file)
      → put u.offset b (if u.offset == 0 && not u.wrote_chunk then [] else file)
        ≡ put q.offset (h.done ++ b) (kept q.offset old)
  next_file u rest file b h = elim (Bool-cases u.wrote_chunk) [
    | inl e ↦
        ap (λ c. put u.offset b (if c then [] else file))
          (ap (λ t. u.offset == 0 && not t) e ∙ and_false (u.offset == 0))
        ∙ ap₂ (λ n f. put n b f) h.offset (h.written e)
        ∙ put-put q.offset h.done b (kept q.offset old) kept-le
    | inr e ↦
        let (none_done, same) = h.unwritten e in
        let here : u.offset ≡ q.offset =
          h.offset ∙ ap (λ d. q.offset + length d) none_done ∙ omega arith in
        ap (λ c. put u.offset b (if c then [] else file))
          (ap (λ t. u.offset == 0 && not t) e ∙ and_true (u.offset == 0))
        ∙ ap₂ (λ n f. put n b (if n == 0 then [] else f)) here same
        ∙ ap (λ d. put q.offset (d ++ b) (kept q.offset old)) (sym none_done)
  ]

  pub wrote-Progress :
      (u : Upload) (b rest file new : Bytes) (k : WriteFileChunkResult)
      → Progress q stream old u (b ++ rest) file
      → new ≡ put u.offset b (if u.offset == 0 && not u.wrote_chunk then [] else file)
      → Progress q stream old (wrote (length b) k u) rest new
  unfolding wrote
  wrote-Progress u b rest file new k h e = record {
    done = h.done ++ b;
    offset = omega (
      arith,
      h.offset,
      small,
      ap length h.split,
      length-append h.done (b ++ rest),
      length-append b rest,
      length-append h.done b,
    );
    split = h.split ∙ sym (append_assoc h.done b rest);
    unwritten = λ f. cc;
    written = λ f. e ∙ next_file u (b ++ rest) file b h;
  }
