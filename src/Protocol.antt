-- ===== src/Protocol.antt =====
-- src/protocol.c and include/printdrop/protocol.h: the message types of the wire protocol.
-- `pd_message_type` is a C enum, whose variables also hold values that are no message type: a
-- number stands for it.
use Prim.Native.String.{String}
use printdrop.Prelude.{ℕ, ◌%◌, ◌^◌, Bool, ◌&&◌, leb, ◌==◌, if◌then◌else◌}

abbrev pub protocol_version : ℕ
protocol_version = 1

abbrev pub msg_hello : ℕ
msg_hello = 1

abbrev pub msg_job : ℕ
msg_job = 2

abbrev pub msg_file_begin : ℕ
msg_file_begin = 3

abbrev pub msg_chunk : ℕ
msg_chunk = 4

abbrev pub msg_file_end : ℕ
msg_file_end = 5

abbrev pub msg_ack : ℕ
msg_ack = 6

abbrev pub msg_error : ℕ
msg_error = 7

-- `(uint8_t)value`
abbrev pub to_u8 : ℕ → ℕ
to_u8 value = value % 2 ^ 8

unfoldable pub message_type_is_valid : ℕ → Bool
message_type_is_valid value = leb msg_hello value && leb value msg_error

unfoldable pub message_type_name : ℕ → String
message_type_name type =
    if type == msg_hello
    then "HELLO"
    else if type == msg_job
    then "JOB"
    else if type == msg_file_begin
    then "FILE_BEGIN"
    else if type == msg_chunk
    then "CHUNK"
    else if type == msg_file_end
    then "FILE_END"
    else if type == msg_ack
    then "ACK"
    else if type == msg_error
    then "ERROR"
    else "UNKNOWN"
