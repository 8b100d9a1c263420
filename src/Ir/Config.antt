-- ===== src/Ir/Config.antt =====
-- src/spec/config.rs and src/spec/type_descriptors.rs: the options of the verifier, with their ranges,
-- and what is known of a program. Fields that no modelled function reads are left out.
use prevail_rust.Base.Tests.{
  ℕ, ◌^◌, ◌*◌, ◌-◌, ◌&&◌, Option, none, some, Bool, true, false, ◌||◌, List, if◌then◌else◌,
}
use prevail_rust.Base.Maps.{Map}
use prevail_rust.Cfg.Label.{Text}
use prevail_rust.Base.Int.{ℤ, pos, negsuc, leb_ℤ, ltb_ℤ, ◌*ℤ◌, ◌-ℤ◌}
pub mod Ranges

pub record EbpfRuntimeConfig : Type 0 where
  pub strict : Bool
  pub allow_division_by_zero : Bool
  pub setup_constraints : Bool
  pub big_endian : Bool
  pub check_for_termination : Bool
  pub subprogram_stack_size : ℤ
  pub max_call_stack_frames : ℤ
  pub max_packet_size : ℤ

abbrev max_subprogram_stack_size : ℤ
max_subprogram_stack_size = pos (1024 * 1024)

abbrev max_call_stack_frames_limit : ℤ
max_call_stack_frames_limit = pos 128

abbrev max_packet_size_limit : ℤ
max_packet_size_limit = pos (2 ^ 30)

-- The messages of `validate`, with the value that is out of range.
pub data OptionError : Type 0 where
  bad_subprogram_stack_size : ℤ → OptionError
  bad_max_call_stack_frames : ℤ → OptionError
  bad_max_packet_size : ℤ → OptionError

abbrev is_outside : ℤ → ℤ → Bool
is_outside value limit = leb_ℤ value (pos 0) || ltb_ℤ limit value

-- `none` where the options are in range.
unfoldable pub validate : EbpfRuntimeConfig → Option OptionError
validate c =
    if is_outside c.subprogram_stack_size max_subprogram_stack_size
    then some (OptionError.bad_subprogram_stack_size c.subprogram_stack_size)
    else if is_outside c.max_call_stack_frames max_call_stack_frames_limit
    then some (OptionError.bad_max_call_stack_frames c.max_call_stack_frames)
    else if is_outside c.max_packet_size max_packet_size_limit
    then some (OptionError.bad_max_packet_size c.max_packet_size)
    else none

unfoldable pub default_config : EbpfRuntimeConfig
default_config = record {
  strict = false;
  allow_division_by_zero = true;
  setup_constraints = true;
  big_endian = false;
  check_for_termination = false;
  subprogram_stack_size = pos 512;
  max_call_stack_frames = pos 8;
  max_packet_size = pos 0xffff;
}

-- The checked operations of `i32`: an overflow panics.
abbrev pub i32_checked : ℤ → Option ℤ
i32_checked n = if leb_ℤ (negsuc (2 ^ 31 - 1)) n && leb_ℤ n (pos (2 ^ 31 - 1)) then some n else none

unfoldable pub total_stack_size : EbpfRuntimeConfig → Option ℤ
total_stack_size c = i32_checked (c.max_call_stack_frames *ℤ c.subprogram_stack_size)

-- The difference of two `i32` is an `i64`.
unfoldable pub ptr_max : EbpfRuntimeConfig → ℤ
ptr_max c = pos (2 ^ 31 - 1) -ℤ c.max_packet_size

pub record VerbosityOptions : Type 0 where
  pub simplify : Bool
  pub print_invariants : Bool
  pub print_failures : Bool
  pub print_line_info : Bool
  pub dump_btf_types_json : Bool
  pub collect_instruction_deps : Bool
  pub compact_slice : Bool

abbrev pub default_verbosity : VerbosityOptions
default_verbosity = record {
  simplify = true;
  print_invariants = false;
  print_failures = false;
  print_line_info = false;
  dump_btf_types_json = false;
  collect_instruction_deps = false;
  compact_slice = false;
}

pub record EbpfVerifierOptions : Type 0 where
  pub runtime : EbpfRuntimeConfig
  pub verbosity_opts : VerbosityOptions
  pub must_have_exit : Bool
  pub mock_map_fds : Bool

abbrev pub default_options : EbpfVerifierOptions
unfolding default_config
default_options = record {
  runtime = default_config;
  verbosity_opts = default_verbosity;
  must_have_exit = true;
  mock_map_fds = false;
}

pub record BtfLineInfo : Type 0 where
  pub file_name : Text
  pub source_line : Text
  pub line_number : ℕ
  pub column_number : ℕ

pub record EbpfProgramType : Type 0 where
  pub is_privileged : Bool

-- `builtin_call_offsets` is a set of slots.
pub record ProgramInfo : Type 0 where
  pub program_type : EbpfProgramType
  pub line_info : Map ℕ BtfLineInfo
  pub builtin_call_offsets : List ℕ
