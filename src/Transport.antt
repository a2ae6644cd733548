-- ===== src/Transport.antt =====
-- src/transport.c and include/printdrop/transport.h: a guarded connection. What it connects to is a
-- parameter, a table of operations on a world `W` that stands for what its context points to; the
-- table is `none` where the source's is NULL or lacks an entry.
pub mod Guard
use printdrop.Prelude.{ℕ, Bool, true, false, not, Option, none, some, List, ◌==◌, if◌then◌else◌}

pub data TransportStatus : Type 0 where
  ok invalid_argument invalid_state io_error would_block closed : TransportStatus

-- `read` gives the buffer after it, and both give the count of bytes.
pub record TransportOps (W : Type 0) : Type 0 where
  pub open_connection : W → TransportStatus × W
  pub write : Option (List ℕ) → ℕ → W → TransportStatus × ℕ × W
  pub read : Option (List ℕ) → ℕ → W → TransportStatus × Option (List ℕ) × ℕ × W
  pub close : W → W

pub record Transport (W : Type 0) : Type 0 where
  pub ops : Option (TransportOps W)
  pub is_open : Bool

-- `buffer == NULL && buffer_size != 0`
abbrev pub buffer_missing : Option (List ℕ) → ℕ → Bool
buffer_missing none buffer_size = not (buffer_size == 0)
buffer_missing (some buffer) buffer_size = false

module _ {W : Type 0} where
  -- The table of a transport that is configured.
  abbrev pub configured_ops : Option (Transport W) → Option (TransportOps W)
  configured_ops none = none
  configured_ops (some t) = t.ops

  unfoldable pub transport_is_configured : Option (Transport W) → Bool
  transport_is_configured transport = elim (configured_ops transport) [
    | none ↦ false
    | some ops ↦ true
  ]

  -- Whether the transport is open, where there is one.
  abbrev pub opened : Option (Transport W) → Bool
  opened none = false
  opened (some t) = t.is_open

  abbrev pub with_open : Option (Transport W) → Bool → Option (Transport W)
  with_open none b = none
  with_open (some t) b = some (record t { is_open = b })

  abbrev pub after_open :
      Option (Transport W) → TransportStatus × W → TransportStatus × Option (Transport W) × W
  after_open transport (TransportStatus.ok, w) = (TransportStatus.ok, with_open transport true, w)
  after_open transport (status, w) = (status, transport, w)

  unfoldable pub transport_open :
      Option (Transport W) → W → TransportStatus × Option (Transport W) × W
  transport_open transport w = elim (configured_ops transport) [
    | none ↦ (TransportStatus.invalid_argument, transport, w)
    | some ops ↦
        if opened transport
        then (TransportStatus.invalid_state, transport, w)
        else after_open transport (ops.open_connection w)
  ]

  -- The status, `*bytes_written` and the world after the call.
  unfoldable pub transport_write :
      Option (Transport W) → Option (List ℕ) → ℕ → Option ℕ → W → TransportStatus × Option ℕ × W
  transport_write transport buffer buffer_size none w = (TransportStatus.invalid_argument, none, w)
  transport_write transport buffer buffer_size (some bytes_written) w =
      if buffer_missing buffer buffer_size
      then (TransportStatus.invalid_argument, some bytes_written, w)
      else elim (configured_ops transport) [
        | none ↦ (TransportStatus.invalid_argument, some 0, w)
        | some ops ↦
            if not (opened transport)
            then (TransportStatus.invalid_state, some 0, w)
            else let (status, count, w') = ops.write buffer buffer_size w in
              (status, some count, w')
      ]

  -- The status, the buffer, `*bytes_read` and the world after the call.
  unfoldable pub transport_read :
      Option (Transport W)
      → Option (List ℕ)
      → ℕ
      → Option ℕ
      → W
      → TransportStatus × Option (List ℕ) × Option ℕ × W
  transport_read transport buffer buffer_size none w =
      (TransportStatus.invalid_argument, buffer, none, w)
  transport_read transport buffer buffer_size (some bytes_read) w =
      if buffer_missing buffer buffer_size
      then (TransportStatus.invalid_argument, buffer, some bytes_read, w)
      else elim (configured_ops transport) [
        | none ↦ (TransportStatus.invalid_argument, buffer, some 0, w)
        | some ops ↦
            if not (opened transport)
            then (TransportStatus.invalid_state, buffer, some 0, w)
            else let (status, filled, count, w') = ops.read buffer buffer_size w in
              (status, filled, some count, w')
      ]

  unfoldable pub transport_close : Option (Transport W) → W → Option (Transport W) × W
  transport_close transport w = elim (configured_ops transport) [
    | none ↦ (transport, w)
    | some ops ↦
        if not (opened transport) then (transport, w) else (with_open transport false, ops.close w)
  ]
