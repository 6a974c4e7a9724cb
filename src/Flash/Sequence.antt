-- ===== src/Flash/Sequence.antt =====
-- The types of flash_sequence.hpp. Times are ticks of the steady clock, nanoseconds; the texts of
-- error messages are left out.
use wadjet_link.Prelude.{
  ℕ, ◌+◌, ◌%◌, ◌^◌, List, [], ◌∷◌, Bool, true, false, not, ◌&&◌, Option, none, some, ltb, leb,
  if◌then◌else◌,
}
use wadjet_link.Prelude.Integers.{ℤ, pos}

pub data FlashOperationType : Type 0 where
  download upload : FlashOperationType

pub data FlashSequenceState : Type 0 where
  idle erase_started erasing erase_complete erase_failed downloading : FlashSequenceState
  transferring verifying complete failed aborted : FlashSequenceState

pub record FlashBlock : Type 0 where
  pub sequence_counter : ℕ
  pub data_size : ℕ
  pub timestamp : ℕ
  pub acknowledged : Bool
  pub error_code : Option ℕ

pub record FlashRegion : Type 0 where
  pub start_address : ℕ
  pub size : ℕ
  pub data_format : ℕ
  pub max_block_size : ℕ

unfoldable pub contains : FlashRegion → ℕ → Bool
contains r address =
    leb r.start_address address && ltb address ((r.start_address + r.size) % 2 ^ 64)

pub record FlashSequence : Type 0 where
  pub ecu_address : ℕ
  pub tester_address : ℕ
  pub operation_type : FlashOperationType
  pub region : FlashRegion
  pub state : FlashSequenceState
  pub start_time : ℕ
  pub end_time : ℕ
  pub total_duration : ℤ
  pub blocks : List FlashBlock
  pub total_bytes_transferred : ℕ
  pub expected_sequence_counter : ℕ
  pub retry_count : ℕ
  pub last_error : Option ℕ
  pub erase_performed : Bool
  pub erase_duration : ℤ
  pub checksum_verified : Bool
  pub checksum_value : Option ℕ

-- `FlashSequence seq;` with the addresses that are set next.
abbrev pub new_sequence : ℕ → ℕ → FlashSequence
new_sequence ecu tester = record {
  ecu_address = ecu;
  tester_address = tester;
  operation_type = download;
  region = record { start_address = 0; size = 0; data_format = 0; max_block_size = 0 };
  state = idle;
  start_time = 0;
  end_time = 0;
  total_duration = pos 0;
  blocks = [];
  total_bytes_transferred = 0;
  expected_sequence_counter = 1;
  retry_count = 0;
  last_error = none;
  erase_performed = false;
  erase_duration = pos 0;
  checksum_verified = false;
  checksum_value = none;
}

unfoldable pub is_active_state : FlashSequenceState → Bool
is_active_state downloading = true
is_active_state transferring = true
is_active_state erasing = true
is_active_state verifying = true
is_active_state _ = false

abbrev pub is_active : FlashSequence → Bool
is_active seq = is_active_state seq.state

unfoldable pub is_failed_state : FlashSequenceState → Bool
is_failed_state failed = true
is_failed_state aborted = true
is_failed_state erase_failed = true
is_failed_state _ = false

abbrev pub is_some : Option ℕ → Bool
is_some none = false
is_some (some _) = true

abbrev pub is_good : FlashBlock → Bool
is_good block = block.acknowledged && not (is_some block.error_code)

unfoldable pub successful_in : List FlashBlock → ℕ
successful_in [] = 0
successful_in (block ∷ blocks) =
    if is_good block then successful_in blocks + 1 else successful_in blocks

unfoldable pub successful_blocks : FlashSequence → ℕ
unfolding successful_in
successful_blocks seq = successful_in seq.blocks

unfoldable pub failed_in : List FlashBlock → ℕ
failed_in [] = 0
failed_in (block ∷ blocks) =
    if is_some block.error_code then failed_in blocks + 1 else failed_in blocks

unfoldable pub failed_blocks : FlashSequence → ℕ
unfolding failed_in
failed_blocks seq = failed_in seq.blocks

pub data FlashEvent : Type 0 where
  erase_started_event erase_progress erase_completed erase_failed_event download_started :
      FlashEvent
  upload_started block_transferred block_acknowledged block_failed transfer_exit_ok : FlashEvent
  transfer_exit_fail verification_start verification_ok verification_fail : FlashEvent
  sequence_complete sequence_failed sequence_aborted : FlashEvent

pub record Options : Type 0 where
  pub track_erase_routines : Bool
  pub track_verification : Bool
  pub max_history : ℕ
  pub sequence_timeout : ℕ

pub record Statistics : Type 0 where
  pub sequences_started : ℕ
  pub sequences_completed : ℕ
  pub sequences_failed : ℕ
  pub sequences_aborted : ℕ
  pub total_bytes_transferred : ℕ
  pub total_blocks_transferred : ℕ
  pub erase_operations : ℕ
  pub verification_operations : ℕ

abbrev pub no_statistics : Statistics
no_statistics = record {
  sequences_started = 0;
  sequences_completed = 0;
  sequences_failed = 0;
  sequences_aborted = 0;
  total_bytes_transferred = 0;
  total_blocks_transferred = 0;
  erase_operations = 0;
  verification_operations = 0;
}
