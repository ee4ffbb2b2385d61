-- ===== src/Files/Agent.antt =====
-- The file methods of the client of the core agent, in backend/internal/grpcclient/agent_client.go, and
-- the bodies of backend/internal/dto/file.go that have the same fields. The client is a parameter: a
-- call may change the state `S` of all that the backend does not keep itself.
use snow_panel.Prelude.{ℕ, ℤ, ◌+◌, ◌%◌, ◌^◌, Text, text, Bool, List, ◌++◌}
use snow_panel.Errors.{GoError, plain, wrap, Result, bad_request, internal}
use snow_panel.Program.{Program}

abbrev pub Bytes : Type 0
Bytes = List ℕ

-- Sums of `uint64` wrap around.
abbrev pub add64 : ℕ → ℕ → ℕ
add64 a b = (a + b) % 2 ^ 64

pub record FileEntry : Type 0 where
  pub name : Text
  pub path : Text
  pub is_dir : Bool
  pub size : ℕ
  pub modified_at : ℤ

pub record ListFilesResult : Type 0 where
  pub current_path : Text
  pub entries : List FileEntry

pub record ReadTextFileRequest : Type 0 where
  pub path : Text
  pub max_bytes : ℤ
  pub encoding : Text

pub record ReadTextFileResult : Type 0 where
  pub path : Text
  pub content : Text
  pub size : ℕ
  pub truncated : Bool
  pub encoding : Text

pub record WriteTextFileRequest : Type 0 where
  pub path : Text
  pub content : Text
  pub create_if_not_exists : Bool
  pub truncate : Bool
  pub encoding : Text

pub record WriteTextFileResult : Type 0 where
  pub path : Text
  pub written_bytes : ℕ

pub record ReadFileChunkRequest : Type 0 where
  pub path : Text
  pub offset : ℕ
  pub limit : ℕ

pub record ReadFileChunkResult : Type 0 where
  pub path : Text
  pub offset : ℕ
  pub chunk : Bytes
  pub total_size : ℕ
  pub eof : Bool

pub record WriteFileChunkRequest : Type 0 where
  pub path : Text
  pub offset : ℕ
  pub chunk : Bytes
  pub create_if_not_exists : Bool
  pub truncate : Bool

pub record WriteFileChunkResult : Type 0 where
  pub path : Text
  pub offset : ℕ
  pub written_bytes : ℕ
  pub total_size : ℕ

pub record RenameFileRequest : Type 0 where
  pub source_path : Text
  pub target_path : Text

pub record RenameFileResult : Type 0 where
  pub source_path : Text
  pub target_path : Text
  pub moved_bytes : ℕ

-- A Boolean beside a path is `CreateParents` or `Recursive`; `decimal` is the verb `%d` of package fmt.
pub record AgentClient (S : Type 0) : Type 0 where
  pub decimal : ℕ → Text
  pub list_files : Text → Program S (Result ListFilesResult)
  pub read_text_file : ReadTextFileRequest → Program S (Result ReadTextFileResult)
  pub write_text_file : WriteTextFileRequest → Program S (Result WriteTextFileResult)
  pub create_directory : Text → Bool → Program S (Result Text)
  pub delete_file : Text → Bool → Program S (Result Text)
  pub rename_file : RenameFileRequest → Program S (Result RenameFileResult)
  pub read_file_chunk : ReadFileChunkRequest → Program S (Result ReadFileChunkResult)
  pub write_file_chunk : WriteFileChunkRequest → Program S (Result WriteFileChunkResult)

-- `apperror.Wrap` of a predefined error and of `fmt.Errorf`.
abbrev pub refuse_file : Text → GoError
refuse_file message = wrap bad_request (plain message)

-- The text of a number that is not the expected one.
abbrev pub got_want : (ℕ → Text) → Text → ℕ → ℕ → Text
got_want show message got want =
    message ++ (text ": got " ++ (show got ++ (text ", want " ++ show want)))

abbrev pub wrap_file_error : Text → GoError
wrap_file_error message = wrap internal (plain message)
