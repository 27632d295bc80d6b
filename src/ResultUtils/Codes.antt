-- ===== src/ResultUtils/Codes.antt =====
-- The table of the known errors of the Internet Computer and of HTTP, resultUtils.ts.
use gpt.Prelude.{String, Bool, true, false, [], ◌∷◌, Dict}

pub record IcErrorDetail : Type 0 where
  pub title : String
  pub message : String
  pub is_fatal : Bool

abbrev pub detail : String → String → Bool → IcErrorDetail
detail title message is_fatal = record { title = title; message = message; is_fatal = is_fatal }

unfoldable pub error_code_map : Dict IcErrorDetail
error_code_map =
    (
      "IC0101",
      detail "System Overload" "The subnet is oversubscribed. Please try again later." false,
    )
    ∷ ("IC0102", detail "Capacity Limit" "Maximum number of canisters reached on the subnet." true)
    ∷ (
      "IC0201",
      detail "System Busy" "The canister queue is full. Please wait a moment and try again." false,
    )
    ∷ (
      "IC0202",
      detail "Message Timeout" "The request timed out inside the ingress message queue." false,
    )
    ∷ ("IC0203", detail "System Busy" "Canister queue is not empty. Please retry." false)
    ∷ ("IC0204", detail "System Busy" "Ingress history is full. Please retry." false)
    ∷ ("IC0205", detail "Conflict" "Canister ID already exists." false)
    ∷ ("IC0206", detail "Timeout" "Stop canister request timed out." false)
    ∷ (
      "IC0207",
      detail "Resource Exhausted" "The canister is out of cycles and cannot process requests." true,
    )
    ∷ ("IC0208", detail "State Unavailable" "Certified state is currently unavailable." false)
    ∷ ("IC0209", detail "Rate Limited" "Install code rate limited." false)
    ∷ ("IC0210", detail "Rate Limited" "Heap delta rate limited." false)
    ∷ (
      "IC0301",
      detail "Not Found" "The target canister was not found. It may have been deleted or reclaimed."
          true,
    )
    ∷ (
      "IC0302",
      detail "Method Not Found" "The canister does not have a method with that name." true,
    )
    ∷ ("IC0303", detail "Invalid ID" "Canister ID is invalid." true)
    ∷ ("IC0304", detail "Resource Exhausted" "The canister has no resources." true)
    ∷ ("IC0305", detail "Snapshot Not Found" "The requested canister snapshot was not found." true)
    ∷ ("IC0402", detail "Allocation Error" "Insufficient memory allocation for canister." true)
    ∷ ("IC0403", detail "Insufficient Funds" "Insufficient cycles to create canister." true)
    ∷ ("IC0404", detail "Subnet Not Found" "The requested subnet was not found." true)
    ∷ ("IC0405", detail "Hosting Error" "Canister is not hosted by the subnet." true)
    ∷ ("IC0406", detail "Message Rejected" "The canister rejected the message explicitly." false)
    ∷ ("IC0501", detail "Canister Trapped" "The canister trapped during execution." false)
    ∷ (
      "IC0502",
      detail "Canister Trapped" "The canister encountered a runtime error (trap). Please retry."
          false,
    )
    ∷ ("IC0503", detail "Canister Trapped" "The canister called trap explicitly." false)
    ∷ ("IC0504", detail "Contract Violation" "The canister violated the system contract." true)
    ∷ (
      "IC0505",
      detail "Invalid Configuration" "The canister code (Wasm) is invalid or missing." true,
    )
    ∷ ("IC0506", detail "No Reply" "The canister did not produce a reply." false)
    ∷ ("IC0507", detail "Memory Exhausted" "The canister is out of memory." true)
    ∷ (
      "IC0508",
      detail "Maintenance Mode"
          "The system is currently stopped for maintenance. Please check back later." true,
    )
    ∷ ("IC0509", detail "Stopping" "The system is currently shutting down." true)
    ∷ ("IC0515", detail "Input Error" "Arguments deserialization failed." true)
    ∷ ("IC0516", detail "Output Error" "Results serialization failed." true)
    ∷ (
      "IC0537",
      detail "Service Unavailable"
          "The system is currently undergoing scheduled maintenance. Please try again shortly."
          true,
    )
    ∷ ("IC0601", detail "Expired" "The request deadline expired." false)
    ∷ ("NET_403", detail "Access Denied" "You do not have permission to access this resource." true)
    ∷ ("NET_404", detail "Not Found" "The requested resource could not be found." true)
    ∷ ("NET_429", detail "Too Many Requests" "You are being rate limited. Please slow down." false)
    ∷ (
      "NET_502",
      detail "Bad Gateway" "The server received an invalid response from an upstream server." false,
    )
    ∷ ("NET_503", detail "Service Unavailable" "The service is temporarily unavailable." false)
    ∷ ("NET_504", detail "Gateway Timeout" "The server timed out waiting for a response." false)
    ∷ []
