-- ===== src/Tests/Loop.antt =====
-- A round of the loop at a concrete input.
use printdrop.Prelude.{◌≡◌, refl, Bool, true, false, none, some, replicate}
use printdrop.Protocol.{message_type_is_valid}
use printdrop.Ack.{ack_encode, ack_type_is_allowed, ack_status_is_valid}
use printdrop.ReceiverProtocol.{
  ProtocolState, ReceiverProtocolOps, ReceiverProtocol, no_file, protocol_handle, handle_message,
  finish_file, after_finish,
}
use printdrop.ReceiverLoop.{
  LoopResult, LoopIoOps, ReceiverLoop, should_ack, received_bytes, emit, send_encoded, send_ack,
  after_ack, after_handle, after_receive,
}

-- A handler that accepts everything; its world is whether it has a file open.
abbrev willing : ReceiverProtocolOps Bool
willing = record {
  begin_file = λ f name w. (true, true);
  write_chunk = λ xs n w. (true, w);
  finish_file = λ w. (true, false);
  abort_file = λ w. false;
}

abbrev protocol_at : ProtocolState → Bool → ReceiverProtocol Bool
protocol_at state active = record {
  ops = some willing;
  current_file = no_file;
  sanitized_filename = replicate 121 0;
  state = state;
  file_active = active;
}

-- A connection on which FILE_END arrives, and that sends everything.
abbrev end_io : LoopIoOps Bool
end_io = record {
  receive_frame = λ w. (
    some (record {
      header = record { type = 5; flags = 0; payload_length = 0 };
      payload = none;
      payload_size = 0;
    }),
    w,
  );
  send_frame = λ header payload n w. (true, w);
}

abbrev end_loop : ReceiverLoop Bool
end_loop = record {
  io_ops = some end_io;
  protocol = some (protocol_at ProtocolState.receiving true);
  progress = some (λ w. (7, w));
  event_callback = some (λ event m n w. w);
}

end_round :
    after_receive end_loop end_io
      (some (protocol_at ProtocolState.receiving true))
      (end_io.receive_frame true)
    ≡ (some LoopResult.ok, some (protocol_at ProtocolState.complete false), false)
unfolding after_receive after_handle after_ack send_ack send_encoded received_bytes emit should_ack
    protocol_handle handle_message finish_file after_finish ack_encode ack_type_is_allowed
    ack_status_is_valid message_type_is_valid
end_round = refl
