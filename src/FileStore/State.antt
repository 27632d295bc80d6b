-- ===== src/FileStore/State.antt =====
-- store/fileStore/index.ts, the state and `reset`, and the types of types/index.ts that it keeps. A
-- branded id (types/brands.ts) is a text.
use gpt.Prelude.{ℕ, String, Bool, false, ◌&&◌, Option, none, List, [], Dict, Result}
use gpt.Types.{TextChunk, IndexingStatus}

pub data FileUploadStatus : Type 0 where
  queued embedding converting extracting uploading complete error : FileUploadStatus
  -- Not in the type of the source: services/fileProcessingService.ts gives it all the same.
  chunking : FileUploadStatus

pub data FileType : Type 0 where
  pdf markdown image other : FileType

pub record FileUploadJob : Type 0 where
  pub id : String
  pub ui_id : String
  pub file_name : String
  pub file_type : FileType
  pub status : FileUploadStatus
  pub sub_status : String
  pub progress : ℕ
  pub error : Option String
  pub model_id : Option String
  pub retries : ℕ
  pub chunks : Option (List TextChunk)

pub record Folder : Type 0 where
  pub id : String
  pub name : String
  pub parent_id : Option String

pub record FileItem : Type 0 where
  pub id : String
  pub name : String
  pub size : ℕ
  pub uploaded_at : ℕ
  pub mime_type : String
  pub parent_id : String
  pub chunks : List TextChunk

-- A `TextChunk` with three more fields.
pub record SearchableChunk : Type 0 where
  pub chunk : TextChunk
  pub id : String
  pub file_id : String
  pub text : String

pub record IndexingProgress : Type 0 where
  pub processed : ℕ
  pub total : ℕ
  pub current_file : String

pub record FolderContents : Type 0 where
  pub folders : List String
  pub files : List String

pub record Crumb : Type 0 where
  pub id : String
  pub name : String

pub data StoreStatus : Type 0 where
  idle loading error : StoreStatus

pub data HydrationStatus : Type 0 where
  idle hydrating hydrated : HydrationStatus

-- A `Set` is the list of its members.
pub record FileSystemState : Type 0 where
  pub files : Dict FileItem
  pub folders : Dict Folder
  pub folder_contents : Dict FolderContents
  pub root_folder_id : Option String
  pub current_folder_id : Option String
  pub history : List Crumb
  pub status : StoreStatus
  pub error : Option String
  pub file_processing_jobs : Dict FileUploadJob
  pub searchable_chunks : Dict (List SearchableChunk)
  pub indexing_status : IndexingStatus
  pub indexing_progress : Option IndexingProgress
  pub indexing_error : Option String
  pub is_index_stale : Bool
  pub hydration_status : HydrationStatus
  pub files_needing_embeddings : List String

abbrev pub initial_state : FileSystemState
initial_state = record {
  files = [];
  folders = [];
  folder_contents = [];
  root_folder_id = none;
  current_folder_id = none;
  history = [];
  status = StoreStatus.idle;
  error = none;
  file_processing_jobs = [];
  searchable_chunks = [];
  indexing_status = IndexingStatus.idle;
  indexing_progress = none;
  indexing_error = none;
  is_index_stale = false;
  hydration_status = HydrationStatus.idle;
  files_needing_embeddings = [];
}

pub reset : FileSystemState → FileSystemState
reset s = initial_state

-- Whether the session has its client and its canister.
pub record Access : Type 0 where
  pub has_client : Bool
  pub has_canister : Bool

abbrev pub is_ready : Access → Bool
is_ready a = a.has_client && a.has_canister

-- A call that is awaited: what it answers, and what other actions do to the store meanwhile.
pub record Call (A : Type 0) : Type 0 where
  pub answer : Result A
  pub meanwhile : FileSystemState → FileSystemState
