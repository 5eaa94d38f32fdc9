-- ===== src/Types/Limits.antt =====
-- The constants of src/master_internal.h.
use iolinki_master.Base.{ℕ}

abbrev pub frame_buf_size : ℕ
frame_buf_size = 64

abbrev pub rx_retry_limit : ℕ
rx_retry_limit = 2

abbrev pub t_bit_com1_ns : ℕ
t_bit_com1_ns = 208330

abbrev pub t_bit_com2_ns : ℕ
t_bit_com2_ns = 26040

abbrev pub t_bit_com3_ns : ℕ
t_bit_com3_ns = 4340

abbrev pub ns_per_100us : ℕ
ns_per_100us = 100000

abbrev pub default_t_dmt_tbit : ℕ
default_t_dmt_tbit = 32

abbrev pub default_t_dwu_100us : ℕ
default_t_dwu_100us = 400

abbrev pub default_wake_retry_limit : ℕ
default_wake_retry_limit = 2

abbrev pub default_t_sd_100us : ℕ
default_t_sd_100us = 5000

abbrev pub t_ren_max_100us : ℕ
t_ren_max_100us = 5

abbrev pub type0_m_seq_max_tbit : ℕ
type0_m_seq_max_tbit = 58

abbrev pub uart_frame_tbit : ℕ
uart_frame_tbit = 11

abbrev pub t_a_max_tbit : ℕ
t_a_max_tbit = 10

abbrev pub wakeup_byte : ℕ
wakeup_byte = 0x55

abbrev pub dpp1_len : ℕ
dpp1_len = 16

abbrev pub isdu_ext_max : ℕ
isdu_ext_max = 238

abbrev pub isdu_length_nibble_max : ℕ
isdu_length_nibble_max = 15

abbrev pub isdu_write_header_max : ℕ
isdu_write_header_max = 7

abbrev pub isdu_chkpdu_len : ℕ
isdu_chkpdu_len = 1

abbrev pub ds_record_header_len : ℕ
ds_record_header_len = 4

abbrev pub event_entry_len : ℕ
event_entry_len = 3

abbrev pub event_memory_len : ℕ
event_memory_len = 19

abbrev pub event_slot_max : ℕ
event_slot_max = 6
