-- ===== src/Qr.antt =====
-- src/qr.c and include/printdrop/qr.h: the QR code of an address. The library that encodes it is a
-- parameter; the type of a coordinate is that library's, and a size, an `int` that the library gives
-- as at least 21, is a natural number. A NULL pointer is `none`.
use printdrop.Prelude.{
  ℕ, Bool, false, not, Option, none, some, List, ◌==◌, if◌then◌else◌, replicate,
}
use printdrop.Bytes.{at}

abbrev pub qr_max_version : ℕ
qr_max_version = 10

abbrev pub qr_storage_capacity : ℕ
qr_storage_capacity = 512

pub data QrResult : Type 0 where
  ok invalid_argument data_too_long : QrResult

pub record QrCode : Type 0 where
  pub encoded : List ℕ
  pub size : ℕ

-- `qrcodegen_encodeText`, with the last version that is allowed, gives whether it succeeds and the
-- buffer after it.
pub record QrCodeGen (I : Type 0) : Type 0 where
  pub encode_text : List ℕ → List ℕ → ℕ → Bool × List ℕ
  pub get_size : List ℕ → ℕ
  pub get_module : List ℕ → I → I → Bool

module _ {I : Type 0} (gen : QrCodeGen I) where
  -- With the answer of the encoder.
  unfoldable pub after_encode : Bool × List ℕ → QrResult × Option QrCode
  after_encode (success, encoded) =
      if not success
      then (QrResult.data_too_long, some (record { encoded = encoded; size = 0 }))
      else (QrResult.ok, some (record { encoded = encoded; size = gen.get_size encoded }))

  unfoldable pub qr_encode_text : Option QrCode → Option (List ℕ) → QrResult × Option QrCode
  qr_encode_text none text = (QrResult.invalid_argument, none)
  qr_encode_text (some code) none = (QrResult.invalid_argument, some code)
  qr_encode_text (some code) (some text) =
      if at text 0 == 0
      then (QrResult.invalid_argument, some code)
      else after_encode (gen.encode_text text (replicate qr_storage_capacity 0) qr_max_version)

  unfoldable pub qr_size : Option QrCode → ℕ
  qr_size none = 0
  qr_size (some code) = code.size

  unfoldable pub qr_get_module : Option QrCode → I → I → Bool
  qr_get_module none x y = false
  qr_get_module (some code) x y = if code.size == 0 then false else gen.get_module code.encoded x y
