-- ===== src/Files/Upload/Stored.antt =====
-- A core agent that stores what it is sent, and a reader of a stream, for `UploadFile` of
-- backend/internal/service/file_service.go.
use mathlib.Core.List.{append_assoc}
use snow_panel.Prelude.{
  Text, ℕ, ◌+◌, ◌≤◌, ◌<◌, ◌≡◌, Bool, true, [], ◌++◌, take, drop, length, arith, ap, length-append,
  length-take, take-append, drop-append, drop-drop, take-append-drop, ◌⊎◌, if◌then◌else◌, sym, ◌∙◌,
  ◌==◌,
}
use snow_panel.Errors.{ok}
use snow_panel.Program.{Program}
use snow_panel.Files.Agent.{Bytes, WriteFileChunkRequest, WriteFileChunkResult, AgentClient}
use snow_panel.Files.Upload.{ReadError, no_error, end_of_file, upload_chunk_size}

-- A file after bytes have been written at a place in it.
abbrev pub put : ℕ → Bytes → Bytes → Bytes
put o b f = take o f ++ (b ++ drop (o + length b) f)

-- The file that the first chunk is written to: at the beginning, an empty one.
abbrev pub kept : ℕ → Bytes → Bytes
kept o f = if o == 0 then [] else f

pub record IsWritten (q : WriteFileChunkRequest) (old new : Bytes) (k : WriteFileChunkResult)
    : Type 0 where
  pub place : k.offset ≡ q.offset
  pub all : k.written_bytes ≡ length q.chunk
  pub content : new ≡ put q.offset q.chunk (if q.truncate then [] else old)

-- What `readChunk` does to the rest of the stream.
abbrev pub Piece : Bytes → ReadError → (unread unread' : Bytes) (pieces pieces' : ℕ) → Type 0
Piece b e unread unread' pieces pieces' =
    ((e ≡ no_error) × (unread ≡ b ++ unread') × (pieces' < pieces))
    ⊎ ((e ≡ end_of_file) × (unread ≡ b))

-- An agent that writes what it is sent into a file, as long as `At` holds of the state, and a reader that
-- gives a stream in a number of pieces. The agent truncates only at the beginning.
pub record Stores {S : Type 0} (c : AgentClient S) (read : Program S (Bytes × ReadError))
    (path : Text) (content unread : S → Bytes) (pieces : S → ℕ) (At : S → Type 0) : Type 0 where
  pub writes :
      (o : ℕ) (b : Bytes) (t : Bool) (w : S)
      → At w
      → o ≤ length (content w)
      → length b ≤ upload_chunk_size
      → (t ≡ true → o ≡ 0)
      → let q : WriteFileChunkRequest = record {
        path = path;
        offset = o;
        chunk = b;
        create_if_not_exists = true;
        truncate = t;
      } in
        (k : WriteFileChunkResult) × ((c.write_file_chunk q w).0 ≡ ok k)
        × IsWritten q (content w) (content (c.write_file_chunk q w).1) k
        × At (c.write_file_chunk q w).1
        × (unread (c.write_file_chunk q w).1 ≡ unread w)
        × (pieces (c.write_file_chunk q w).1 ≡ pieces w)
  pub reads :
      (w : S)
      → At w
      → (length (read w).0.0 ≤ upload_chunk_size)
        × Piece
            (read w).0.0
            (read w).0.1
            (unread w)
            (unread (read w).1)
            (pieces w)
            (pieces (read w).1)
        × At (read w).1
        × (content (read w).1 ≡ content w)

pub length-put-le : (o : ℕ) (b f : Bytes) → o ≤ length f → o + length b ≤ length (put o b f)
length-put-le o b f h = omega (
  arith,
  length-append (take o f) (b ++ drop (o + length b) f),
  length-append b (drop (o + length b) f),
  length-take o f h,
)

pub put_nothing : (o : ℕ) (f : Bytes) → put o [] f ≡ f
put_nothing o f =
    ap (λ n. take o f ++ drop n f) {x = o + 0} {y = o} (omega arith) ∙ take-append-drop o f

put-append : (p b rest : Bytes) → put (length p) b (p ++ rest) ≡ p ++ (b ++ drop (length b) rest)
put-append p b rest =
    ap (λ l. l ++ (b ++ drop (length p + length b) (p ++ rest))) (take-append p rest)
    ∙ ap (λ l. p ++ (b ++ l))
        (sym (drop-drop (length b) (length p) (p ++ rest))
          ∙ ap (drop (length b)) (drop-append p rest))

-- A second write right behind the first.
pub put-put :
    (o : ℕ) (a b f : Bytes) → o ≤ length f → put (o + length a) b (put o a f) ≡ put o (a ++ b) f
put-put o a b f h =
    let p : Bytes = take o f ++ a in
    let rest : Bytes = drop (o + length a) f in
    let size : length p ≡ o + length a =
      length-append (take o f) a ∙ ap (λ n. n + length a) (length-take o f h) in
    ap (λ n. put n b (put o a f)) (sym size)
    ∙ ap (put (length p) b) (sym (append_assoc (take o f) a rest))
    ∙ put-append p b rest
    ∙ append_assoc (take o f) a (b ++ drop (length b) rest)
    ∙ ap (λ l. take o f ++ l)
        (sym (append_assoc a b (drop (length b) rest))
          ∙ ap (λ l. (a ++ b) ++ l)
              (drop-drop (length b) (o + length a) f
                ∙ ap (λ n. drop n f) (omega (arith, length-append a b))))
