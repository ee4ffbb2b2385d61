-- ===== src/Files/Upload/Sending.antt =====
-- What the file has after a round of `UploadFile` of backend/internal/service/file_service.go.
use mathlib.Core.List.{append-nil}
use snow_panel.Errors.{Result, ok}
use snow_panel.Prelude.{
  suc, Text, ℕ, ◌+◌, ◌≤◌, ◌<◌, ◌^◌, ◌≡◌, refl, inl, inr, Bool, true, false, not, ◌&&◌, ltb, [],
  ◌++◌, length, arith, sym, ◌∙◌, ◌==◌,
}
use snow_panel.Errors.{ok}
use snow_panel.Program.{Program, ◌>>=◌, return}
use snow_panel.Program.Hoare.{Does, bind-Does, return-Does, split-Does}
use snow_panel.Files.Agent.{Bytes, WriteFileChunkResult, AgentClient}
use snow_panel.Files.Upload.{
  ReadError, no_error, end_of_file, read_failed, after_read, upload_chunk_size, UploadFileRequest,
  Upload, wrote, read_end, send_chunk, upload_round,
}
use snow_panel.Files.Upload.Stored.{Piece, Stores}
use snow_panel.Files.Rounds.{Round, refused, finished, again}
use snow_panel.Files.Upload.Progress.{Progress, skip_empty, offset-le, wrote-Progress}

module _ {S : Type 0} (c : AgentClient S) (read : Program S (Bytes × ReadError))
    (q : UploadFileRequest) (path : Text) (content unread : S → Bytes) (pieces : S → ℕ)
    (At : S → Type 0) (stores : Stores c read path content unread pieces At) (stream old : Bytes)
    (inside : q.offset ≤ length old) (small : q.offset + length stream < 2 ^ 64) where
  -- The state in a round, after `readChunk`: `left` is the rest of the stream, of `n` pieces.
  abbrev Within : Upload → Bytes → Bytes → ℕ → S → Type 0
  Within u rest left n w =
      At w × Progress q stream old u rest (content w) × (unread w ≡ left) × (pieces w ≡ n)

  abbrev Sent : Bool → Bytes → Bytes → ℕ → Round Upload → S → Type 0
  Sent at_end rest left n r w =
      (next : Upload) × (r ≡ read_end at_end next) × Within next rest left n w

  -- The answer of the agent to a chunk, and the variables after it.
  abbrev Answered : Bytes → Upload → Bytes → Bytes → ℕ → Result WriteFileChunkResult → S → Type 0
  Answered b u rest left n r w =
      (k : WriteFileChunkResult) × (r ≡ ok k)
      × ((k.offset == u.offset) ≡ true)
      × ((k.written_bytes == length b) ≡ true)
      × Within (wrote (length b) k u) rest left n w

  write-Answered :
      (b : Bytes) (u : Upload) (rest left : Bytes) (n : ℕ)
      → length b ≤ upload_chunk_size
      → Does
          (Within u (b ++ rest) left n)
          (c.write_file_chunk (record {
            path = path;
            offset = u.offset;
            chunk = b;
            create_if_not_exists = true;
            truncate = u.offset == 0 && not u.wrote_chunk;
          }))
          (Answered b u rest left n)
  write-Answered b u rest left n fits = record {
    at = λ w (a, p, l, m).
        let (k, e, i, a', l', m') =
          stores.writes u.offset b (u.offset == 0 && not u.wrote_chunk) w a
            (offset-le q stream old inside small u (b ++ rest) (content w) p) fits
            (λ t. ground (arith, t)) in
        let sent = wrote-Progress q stream old inside small u b rest (content w) _ k p i.content in
        (k, e, ground (arith, i.place), ground (arith, i.all), (a', sent, l' ∙ l, m' ∙ m));
  }

  send_chunk-Sent :
      (b : Bytes) (at_end : Bool) (u : Upload) (rest left : Bytes) (n : ℕ)
      → length b ≤ upload_chunk_size
      → Does
          (Within u (b ++ rest) left n)
          (send_chunk c read q path b at_end u)
          (Sent at_end rest left n)
  unfolding send_chunk return
  send_chunk-Sent b at_end u rest left n fits =
      let short : ltb upload_chunk_size (length b) ≡ false = ground (arith, fits) in
      rw short (
        split-Does (length b == 0)
          (λ e. return-Does _ λ w (a, p, l, m).
            let none_more : length b ≡ 0 = ground (arith, e) in
            (u, refl, (a, skip_empty q stream old u b rest (content w) none_more p, l, m)))
          λ more. bind-Does (write-Answered b u rest left n fits) λ r. record {
            at = λ w (k, e, same_place, all_bytes, h).
                rw (e, same_place, all_bytes) (wrote (length b) k u, refl, h);
          })

  -- What is known after a round.
  abbrev pub Outcome : ℕ → Round Upload → S → Type 0
  Outcome n (refused x) w = ⊥
  Outcome n (finished u) w = At w × Progress q stream old u [] (content w)
  Outcome n (again u) w = At w × Progress q stream old u (unread w) (content w) × (pieces w < n)

  after_more :
      (n m : ℕ) (left : Bytes) (r : Round Upload) (w : S)
      → m < n
      → Sent false left left m r w
      → Outcome n r w
  after_more n m left r w less (next, e, (a, p, l, k)) =
      rw e (a, rw (sym l) at p, omega (arith, less, k))

  after_end :
      (n m : ℕ) (left : Bytes) (r : Round Upload) (w : S) → Sent true [] left m r w → Outcome n r w
  after_end n m left r w (next, e, (a, p, l, k)) = rw e (a, p)

  -- A piece counts against any bound on the pieces.
  fewer :
      (b : Bytes) (e : ReadError) (before after : Bytes) (m m' n : ℕ)
      → Piece b e before after m m'
      → m < suc n
      → Piece b e before after n m'
  fewer b e x y m m' n (inl (q, split, less)) h = inl (q, split, omega (arith, h, less))
  fewer b e x y m m' n (inr (q, split)) h = inr (q, split)

  after_read-Outcome :
      (b : Bytes) (e : ReadError) (u : Upload) (v : S) (before : Bytes) (n : ℕ)
      → length b ≤ upload_chunk_size
      → Piece b e before (unread v) n (pieces v)
      → At v
      → Progress q stream old u before (content v)
      → Outcome n (after_read c read q path b e u v).0 (after_read c read q path b e u v).1
  unfolding after_read
  after_read-Outcome b no_error u v before n fits (inl (e, split, less)) a p =
      after_more n (pieces v) (unread v) _ _ less (
        (send_chunk-Sent b false u (unread v) (unread v) (pieces v) fits).at v
          (a, rw split at p, refl, refl))
  after_read-Outcome b end_of_file u v before n fits (inr (e, split)) a p =
      after_end n (pieces v) (unread v) _ _ (
        (send_chunk-Sent b true u [] (unread v) (pieces v) fits).at v
          (a, rw (split, sym (append-nil b)) at p, refl, refl))
  after_read-Outcome b no_error u v before n fits (inr (e, split)) a p = cc
  after_read-Outcome b end_of_file u v before n fits (inl (e, split, less)) a p = cc
  after_read-Outcome b (read_failed x) u v before n fits (inl (e, split, less)) a p = cc
  after_read-Outcome b (read_failed x) u v before n fits (inr (e, split)) a p = cc

  -- The state before a round, with fewer than `n` pieces left.
  abbrev pub Ready : ℕ → Upload → S → Type 0
  Ready n u w = At w × Progress q stream old u (unread w) (content w) × (pieces w < n)

  pub upload_round-Outcome :
      (n : ℕ) (u : Upload) → Does (Ready (suc n) u) (upload_round c read q path u) (Outcome n)
  unfolding upload_round ◌>>=◌
  upload_round-Outcome n u = record {
    at = λ w (a, p, few).
        let (fits, piece, a', same) = stores.reads w a in
        after_read-Outcome _ _ u (read w).1 (unread w) n fits (fewer _ _ _ _ _ _ _ piece few) a'
          (rw (sym same) at p);
  }
