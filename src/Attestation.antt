-- ===== src/Attestation.antt =====
-- What a client checks of the server's attestation (src/attestation): bytes and their hexadecimal text here, the
-- quote and its event log in Quote, the report data in ReportData, the governance of the app in Governance.
pub mod Quote
pub mod ReportData
pub mod Binding
pub mod Governance
use zk_api.Common.{
  ℕ, ◌+◌, ◌*◌, ◌/◌, ◌%◌, Bool, true, false, ◌&&◌, Option, none, some, List, [], ◌∷◌, ltb, ◌==◌,
  if◌then◌else◌,
}
use zk_api.Common.Text.{Text}
use zk_api.Signal.{hex_digit}

abbrev pub Bytes : Type 0
Bytes = List ℕ

abbrev pub hex_char : ℕ → ℕ
hex_char d = if ltb d 10 then b'0' + d else 87 + d

-- `toString('hex')`
unfoldable pub to_hex : Bytes → Text
to_hex [] = []
to_hex (b ∷ bs) = hex_char (b / 16) ∷ hex_char (b % 16) ∷ to_hex bs

-- `Buffer.from(s, 'hex')`, which stops at the first pair that is not one of digits.
unfoldable pub from_hex : Text → Bytes
from_hex (c ∷ d ∷ s) =
    let rest = from_hex s in
    elim (hex_digit c) [
      | none ↦ []
      | some h ↦ elim (hex_digit d) [ none ↦ [] | some l ↦ (h * 16 + l) ∷ rest ]
    ]
from_hex _ = []

-- `value.startsWith('0x') ? value.slice(2) : value`
unfoldable pub strip_0x : Text → Text
strip_0x (c ∷ d ∷ s) = if c == b'0' && d == b'x' then s else c ∷ d ∷ s
strip_0x s = s

-- `writeUInt32BE` and `writeUInt32LE`, of numbers below 2 ^ 32.
abbrev pub uint32_be : ℕ → Bytes
uint32_be n = n / 16777216 % 256 ∷ n / 65536 % 256 ∷ n / 256 % 256 ∷ n % 256 ∷ []

abbrev pub uint32_le : ℕ → Bytes
uint32_le n = n % 256 ∷ n / 256 % 256 ∷ n / 65536 % 256 ∷ n / 16777216 % 256 ∷ []
