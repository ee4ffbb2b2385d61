-- ===== src/Files/Download/Whole.antt =====
-- What a download gives: `DownloadFile` of backend/internal/service/file_service.go.
use mathlib.Core.List.{append-nil}
use snow_panel.Prelude.{
  Text, ℕ, zero, suc, ◌-◌, ◌≤◌, ◌<◌, ◌^◌, ◌≡◌, refl, false, Option, none, some, ◌++◌, length, ◌==◌,
  is_empty, trim_space, arith, ap, length-take, length-drop, if◌then◌else◌, sym, ◌∙◌,
}
use snow_panel.Errors.{Result, ok, err}
use snow_panel.Program.{Program}
use snow_panel.Program.Hoare.{Does, bind-Does, return-Does}
use snow_panel.Files.Agent.{Bytes, AgentClient}
use snow_panel.Files.Rounds.{round-Does}
use snow_panel.Files.Download.{
  DownloadFileQuery, DownloadFileResult, Download, download_loop, download_file, start,
}
use snow_panel.Files.Download.Served.{Serves, wanted}
use snow_panel.Files.Download.Counts.{Counts, Complete, sent, Outcome, sent_all}
use snow_panel.Files.Download.Standing.{Sent, Standing, download_round-Standing}

module _ {S : Type 0} (c : AgentClient S) (write : Bytes → Program S (Result (Unit {0})))
    (q : DownloadFileQuery) (path : Text) (content : Bytes) (small : length content < 2 ^ 64)
    (received : S → Bytes) (At : S → Type 0) (serves : Serves c write path content received At)
    (before : Bytes) where
  -- The whole answer.
  Delivered : Option (Result DownloadFileResult) → S → Type 0
  Delivered none w = ⊥
  Delivered (some (err x)) w = ⊥
  Delivered (some (ok a)) w =
      (received w ≡ before ++ wanted q content)
      × (a.downloaded_bytes ≡ length (wanted q content))
      × (a.total_size ≡ length content)

  length-sent :
      (d : Download)
      → Complete q content small d
      → length (sent q content small d) ≡ d.downloaded_bytes
  unfolding sent
  length-sent d h = length-take _ _ (omega (arith, length-drop q.offset content, h.place, h.inside))

  total_seen :
      (d : Download)
      → Complete q content small d
      → (if d.total_size == 0 then d.offset else d.total_size) ≡ length content
  total_seen d h = ground (arith, h.size, h.inside)

  download_loop-Delivered :
      (fuel : ℕ) (d : Download)
      → length content - d.offset < fuel
      → Counts q content small d
      → Does
          (Sent c write q path content small received At serves before d)
          (download_loop c write q path fuel d)
          Delivered
  unfolding download_loop Delivered Outcome Standing Sent
  download_loop-Delivered zero d f h = absurd (omega (arith, f))
  download_loop-Delivered (suc fuel) d f h =
      bind-Does (download_round-Standing c write q path content small received At serves before d h)
        λ r.
          round-Does r (λ x e. record { at = λ w u. absurd ((rw e at u).0) })
            (λ last e. return-Does _ λ w u.
              let p : Complete q content small last
                  × Sent c write q path content small received At serves before last w =
                rw e at u in
              let all = sent_all q content small last p.0 in
              (
                p.1.1 ∙ ap (λ b. before ++ b) all,
                sym (length-sent last p.0) ∙ ap length all,
                total_seen last p.0,
              ))
            λ next e. record {
              at = λ w u.
                  let p : (Counts q content small next × (d.offset < next.offset))
                      × Sent c write q path content small received At serves before next w =
                    rw e at u in
                  (download_loop-Delivered fuel next (omega (arith, f, p.0.1, h.inside)) p.0.0).at w
                    p.1;
            }

  Delivered-given :
      (o : Option (Result DownloadFileResult)) (w : S)
      → Delivered o w
      → (a : DownloadFileResult) × (o ≡ some (ok a))
        × (received w ≡ before ++ wanted q content)
        × (a.downloaded_bytes ≡ length (wanted q content))
        × (a.total_size ≡ length content)
  unfolding Delivered
  Delivered-given none w h = absurd h
  Delivered-given (some (err x)) w h = absurd h
  Delivered-given (some (ok a)) w h = (a, refl, h.0, h.1, h.2)

-- From a core agent that serves a file, in pieces of any size, DownloadFile gives the writer exactly the
-- bytes that the query asks for, and reports their number and the size of the file; it comes to an end
-- within one round more than the file has bytes. The path is not empty and the offset is inside the file.
pub download_file_serves :
    {S : Type 0} (c : AgentClient S) (write : Bytes → Program S (Result (Unit {0})))
    (q : DownloadFileQuery) (content : Bytes) (received : S → Bytes) (At : S → Type 0) (w : S)
    (fuel : ℕ)
    → Serves c write (trim_space q.path) content received At
    → At w
    → is_empty (trim_space q.path) ≡ false
    → q.offset ≤ length content
    → length content < 2 ^ 64
    → length content < fuel
    → (a : DownloadFileResult) × ((download_file c fuel q (some write) w).0 ≡ some (ok a))
      × (received (download_file c fuel q (some write) w).1 ≡ received w ++ wanted q content)
      × (a.downloaded_bytes ≡ length (wanted q content))
      × (a.total_size ≡ length content)
unfolding download_file Sent sent
download_file_serves c write q content received At w fuel serves a named inside small enough =
    let path = trim_space q.path in
    let begun : Counts q content small (start q) = record {
      offset = omega arith;
      inside = inside;
      rest = omega arith;
      open_limit = λ l. l;
      total = omega arith;
    } in
    rw named (
      Delivered-given c write q path content small received At serves (received w) _ _ (
        (download_loop-Delivered c write q path content small received At serves (received w) fuel
            (start q) (omega (arith, enough)) begun).at
          w (a, sym (append-nil (received w)))))
