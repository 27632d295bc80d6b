-- ===== src/ResultUtils/Tests.antt =====
-- The theorem on messages at an error that carries a code.
use gpt.Prelude.{◌≤◌, ◌≡◌, false, none, is_empty, units}
use gpt.ResultUtils.Setup.{SetupError, classify_setup_error}
use gpt.ResultUtils.Setup.Classes.{classify_setup_error_bounds}

abbrev out_of_cycles : SetupError
out_of_cycles = record {
  text = "Canister rejected the message: IC0207 out of cycles";
  status = none;
}

classify_setup_error_bounds_example :
    (is_empty (classify_setup_error out_of_cycles).message ≡ false)
    × (units (classify_setup_error out_of_cycles).message ≤ 200)
classify_setup_error_bounds_example = classify_setup_error_bounds out_of_cycles
