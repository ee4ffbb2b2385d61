-- ===== src/Files/Service.antt =====
-- The methods of backend/internal/service/file_service.go that make one call of the agent each.
use snow_panel.Prelude.{Text, text, text_eq, trim_space, is_empty, Bool, ◌||◌, map, if◌then◌else◌}
use snow_panel.Errors.{Result, ok, err}
use snow_panel.Errors.Agent.{map_agent_error}
use snow_panel.Program.{Program, ◌>>=◌, return}
use snow_panel.Files.Agent.{
  FileEntry, ListFilesResult, ReadTextFileRequest, ReadTextFileResult, WriteTextFileRequest,
  WriteTextFileResult, RenameFileRequest, RenameFileResult, AgentClient, refuse_file,
}

-- An answer of the agent, where its error is mapped.
unfoldable pub or_agent :
    {S R T : Type 0} → Program S (Result R) → (R → Program S (Result T)) → Program S (Result T)
or_agent m f = do r ← m; elim r [ err x ↦ return (err (map_agent_error x)) | ok a ↦ f a ]

-- A path that the agent has normalized, or the one that was asked for.
abbrev pub or_path : Text → Text → Text
or_path answered asked = let p = trim_space answered in if is_empty p then asked else p

module _ {S : Type 0} (c : AgentClient S) where
  abbrev pub to_entry : FileEntry → FileEntry
  to_entry f = record {
    name = f.name;
    path = f.path;
    is_dir = f.is_dir;
    size = f.size;
    modified_at = f.modified_at;
  }

  unfoldable pub list_files : Text → Program S (Result ListFilesResult)
  unfolding or_agent
  list_files path =
      or_agent (c.list_files path) λ r.
        return (ok (record { current_path = r.current_path; entries = map to_entry r.entries }))

  unfoldable pub read_text_file : ReadTextFileRequest → Program S (Result ReadTextFileResult)
  unfolding or_agent
  read_text_file q =
      or_agent
        (c.read_text_file
          (record { path = q.path; max_bytes = q.max_bytes; encoding = q.encoding }))
        λ r. return (
          ok (record {
            path = r.path;
            content = r.content;
            size = r.size;
            truncated = r.truncated;
            encoding = r.encoding;
          }))

  unfoldable pub write_text_file : WriteTextFileRequest → Program S (Result WriteTextFileResult)
  unfolding or_agent
  write_text_file q =
      or_agent
        (c.write_text_file (record {
          path = q.path;
          content = q.content;
          create_if_not_exists = q.create_if_not_exists;
          truncate = q.truncate;
          encoding = q.encoding;
        }))
        λ r. return (ok (record { path = r.path; written_bytes = r.written_bytes }))

  unfoldable pub create_directory : Text → Bool → Program S (Result Text)
  unfolding or_agent
  create_directory path create_parents =
      or_agent (c.create_directory path create_parents) λ made. return (ok made)

  unfoldable pub delete_file : Text → Bool → Program S (Result Text)
  unfolding or_agent
  delete_file path recursive = or_agent (c.delete_file path recursive) λ gone. return (ok gone)

  unfoldable pub rename_file : RenameFileRequest → Program S (Result RenameFileResult)
  unfolding or_agent
  rename_file q =
      let source = trim_space q.source_path in
      let target = trim_space q.target_path in
      if is_empty source || is_empty target
      then return (err (refuse_file (text "source_path and target_path are required")))
      else if text_eq source target
      then return (err (refuse_file (text "source_path and target_path cannot be the same")))
      else or_agent (c.rename_file (record { source_path = source; target_path = target })) λ r.
        return (
          ok (record {
            source_path = or_path r.source_path source;
            target_path = or_path r.target_path target;
            moved_bytes = r.moved_bytes;
          }))
