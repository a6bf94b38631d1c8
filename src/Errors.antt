-- ===== src/Errors.antt =====
-- packages/rsocket-core/src/Errors.ts: the codes of ERROR frames, and the errors that streams pass on.
use Prim.Native.Char.{code}
use Prim.Native.String.{String}
use rsocket_js.Common.{ℕ, zero, suc, ◌/◌, ◌%◌, ◌+◌, List, [], ◌∷◌, Option, none, some}
use rsocket_js.Node.{ℤ, pos}

pub data ErrorCodes : Type 0 where
  reserved invalid_setup unsupported_setup rejected_setup rejected_resume connection_close :
      ErrorCodes
  connection_error application_error rejected canceled invalid reserved_extension : ErrorCodes

unfoldable pub error_code : ErrorCodes → ℤ
error_code ErrorCodes.reserved = pos 0x00000000
error_code ErrorCodes.invalid_setup = pos 0x00000001
error_code ErrorCodes.unsupported_setup = pos 0x00000002
error_code ErrorCodes.rejected_setup = pos 0x00000003
error_code ErrorCodes.rejected_resume = pos 0x00000004
error_code ErrorCodes.connection_close = pos 0x00000102
error_code ErrorCodes.connection_error = pos 0x00000101
error_code ErrorCodes.application_error = pos 0x00000201
error_code ErrorCodes.rejected = pos 0x00000202
error_code ErrorCodes.canceled = pos 0x00000203
error_code ErrorCodes.invalid = pos 0x00000204
error_code ErrorCodes.reserved_extension = pos 0xffffffff

-- An error with its message; only one of the class RSocketError has a code.
pub record RSocketError : Type 0 where
  pub code : Option ℤ
  pub message : List ℕ

abbrev pub new_rsocket_error : ℤ → List ℕ → RSocketError
new_rsocket_error code message = record { code = some code; message = message }

-- `error instanceof RSocketError ? error.code : ErrorCodes.APPLICATION_ERROR`
abbrev pub code_of : Option ℤ → ℤ
code_of (some code) = code
code_of none = error_code ErrorCodes.application_error

-- The code units of a text, and the digits of a number below 100.
unfoldable pub text : String → List ℕ
text String.[] = []
text (String.◌∷◌ c s) = code c ∷ text s

unfoldable pub digits_of : ℕ → List ℕ
digits_of n = elim (n / 10) [
  | zero ↦ (b'0' + n) ∷ []
  | suc k ↦ (b'0' + n / 10) ∷ (b'0' + n % 10) ∷ []
]
