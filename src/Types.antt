-- ===== src/Types.antt =====
-- gpt_frontend/src/types/index.ts: the data that the stores keep. A branded id (types/brands.ts) is a
-- text. A time that the source keeps as an ISO text made by `toISOString` is the number of
-- milliseconds that it stands for: such texts all have the same width, so `<` and `>=` on them and
-- `new Date(…).getTime()` agree with the number. An absent or `null` field is `none`.
use gpt.Prelude.{ℕ, String, Bool, List, Option}

abbrev pub Bytes : Type 0
Bytes = List ℕ

pub data Role : Type 0 where
  user assistant tool system : Role

pub data CompressionLevel : Type 0 where
  extreme high medium low lossless : CompressionLevel

pub data RenderMode : Type 0 where
  markdown plain : RenderMode

pub record TextChunk : Type 0 where
  pub chunk_index : ℕ
  pub start_char : ℕ
  pub end_char : ℕ
  pub embedding : List ℕ

pub record Tool : Type 0 where
  pub name : String
  pub description : String
  pub parameters : String

pub record Chat : Type 0 where
  pub chat_id : String
  pub title : String
  pub created_at : ℕ
  pub updated_at : ℕ
  pub owner : String
  pub message_ids : List String
  pub job_ids : List String
  pub active_job_id : Option String
  pub archived : Bool
  pub temporary : Bool
  pub encryption_salt : Bytes

pub data ProviderErrorType : Type 0 where
  rate_limited authentication_error server_error service_unavailable bad_request : ProviderErrorType
  context_length_exceeded content_policy_violation network_error timeout : ProviderErrorType
  invalid_image unknown : String → ProviderErrorType

pub data MessageErrorStatus : Type 0 where
  timeout node_offline : Option String → MessageErrorStatus
  provider_error : ProviderErrorType → MessageErrorStatus
  canister_call_error invalid_state configuration_error unknown : String → MessageErrorStatus

pub record ImageAttachment : Type 0 where
  pub mime_type : String
  pub content : Bytes

pub record ToolCall : Type 0 where
  pub id : String
  pub name : String
  pub arguments : String

pub record ToolResult : Type 0 where
  pub tool_call_id : String
  pub content : String
  pub error : Option String

pub record TokenUsage : Type 0 where
  pub prompt_tokens : ℕ
  pub completion_tokens : ℕ
  pub total_tokens : ℕ

pub record Message : Type 0 where
  pub id : String
  pub backend_id : Option String
  pub chat_id : String
  pub role : Role
  pub content : String
  pub parent_message_id : Option String
  pub created_at : ℕ
  pub updated_at : ℕ
  pub error_status : Option MessageErrorStatus
  pub is_complete : Option Bool
  pub job_id : Option String
  pub model_id : Option String
  pub attachments : Option (List ImageAttachment)
  pub tool_calls : Option (List ToolCall)
  pub tool_results : Option (List ToolResult)
  pub tool_call_id : Option String
  pub requires_client_action : Option Bool
  pub usage : Option TokenUsage

pub data ModelStatus : Type 0 where
  active paused : ModelStatus

-- The prices are in the model's unit of account; the endpoint, score and release date play no part.
pub record Model : Type 0 where
  pub model_id : String
  pub name : String
  pub provider : String
  pub maker : String
  pub node_count : ℕ
  pub max_context : ℕ
  pub max_output : ℕ
  pub input_token_price : ℕ
  pub output_token_price : ℕ
  pub max_image_attachments : ℕ
  pub max_tools : ℕ
  pub status : ModelStatus
  pub is_reasoning : Bool
  pub is_embedding : Bool
  pub is_featured : Bool

pub data AttachmentType : Type 0 where
  image text : AttachmentType

pub record Attachment : Type 0 where
  pub id : String
  pub name : String
  pub size : ℕ
  pub type : AttachmentType
  pub last_modified : ℕ
  pub preview_url : Option String

pub data IndexingStatus : Type 0 where
  idle in_progress complete error : IndexingStatus

pub data GenerationStatus : Type 0 where
  completed failed other : GenerationStatus

-- The sampling parameters and prompts of a job are only passed on.
pub record Job : Type 0 where
  pub job_id : String
  pub chat_id : String
  pub node_id : String
  pub model_id : String
  pub placeholder_message_id : String
  pub generation_status : GenerationStatus

pub record PublicNodeInfo : Type 0 where
  pub node_id : String
  pub owner : String
  pub node_principal : Option String
  pub hostname : String
  pub model_id : String
  pub is_active : Bool
  pub public_key : Option String
