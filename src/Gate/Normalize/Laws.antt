-- ===== src/Gate/Normalize/Laws.antt =====
-- A text after crates/aicortex-gate/src/normalize.rs.
use aicortex.Text.{Text}
use aicortex.Text.Trim.{IsTrimmed, trim_end-IsTrimmed}
use aicortex.Gate.Normalize.{text}

-- A normalized text does not end in whitespace.
pub text-IsTrimmed : (nfc : Text → Text) (raw : Text) → IsTrimmed (text nfc raw)
unfolding text
text-IsTrimmed nfc raw = trim_end-IsTrimmed _
